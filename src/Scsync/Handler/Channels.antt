-- ===== src/Scsync/Handler/Channels.antt =====
-- v2/scsync/src/handler.rs: the clients' channels to the tasks for the status updates.
use das_protokoll.Base.{
  ℕ, ◌≡◌, sym, ◌∙◌, ap, some, List, [], ◌==◌, ==_iff, Bool-cases, inl, inr, ◌⊎◌,
}
use mathlib.Core.Path.{subst}
use mathlib.Core.Option.{some-injective}
use das_protokoll.Base.Assoc.{
  find_key, insert_key, remove_key, find_key-insert_self, find_key-insert_ne, find_key-remove_self,
  find_key-remove_ne,
}
use das_protokoll.Scsync.Handler.{TransferIn, Client, Handler, Effect}

abbrev pub Reports : TransferIn → Type 0
Reports i = (i.transfers ≡ []) ⊎ ((channel : ℕ) × (i.status_tx ≡ some channel))

abbrev pub AllReport : List (ℕ × Client) → Type 0
AllReport clients = (addr : ℕ) (c : Client) → find_key addr clients ≡ some c → Reports c.transfer_in

pub AllReport-insert :
    (addr : ℕ) (c : Client) (clients : List (ℕ × Client))
    → Reports c.transfer_in
    → AllReport clients
    → AllReport (insert_key addr c clients)
AllReport-insert addr c clients r all other d e = elim (Bool-cases (addr == other)) [
  | inl same ↦
      let it : c ≡ d = some-injective _ _ (
        sym (find_key-insert_self addr c clients)
        ∙ ap (λ a. find_key a (insert_key addr c clients)) ((==_iff addr other).0 same)
        ∙ e) in
      subst (λ (x : Client). Reports x.transfer_in) it r
  | inr unlike ↦ all other d (
      sym (
        find_key-insert_ne addr other c clients
          (λ (same : addr ≡ other). cc (sym unlike ∙ (==_iff addr other).1 same)))
      ∙ e)
]

pub AllReport-remove :
    (addr : ℕ) (clients : List (ℕ × Client))
    → AllReport clients
    → AllReport (remove_key addr clients)
AllReport-remove addr clients all other d e = elim (Bool-cases (addr == other)) [
  | inl same ↦ absurd (
      cc (
        sym (find_key-remove_self addr clients)
        ∙ ap (λ a. find_key a (remove_key addr clients)) ((==_iff addr other).0 same)
        ∙ e))
  | inr unlike ↦ all other d (
      sym (
        find_key-remove_ne addr other clients
          (λ (same : addr ≡ other). cc (sym unlike ∙ (==_iff addr other).1 same)))
      ∙ e)
]

abbrev pub Keeps : Handler × List Effect → Type 0
Keeps (h, effects) = AllReport h.clients
