-- ===== src/Scsync/Handler/Reachable.antt =====
-- v2/scsync/src/handler.rs and main.rs: the states that a node can reach.
use das_protokoll.Base.{ℕ, ◌≡◌, sym, some, List}
use mathlib.Core.Path.{subst}
use das_protokoll.Scsync.BlockDb.{BlockDb}
use das_protokoll.Scsync.Frontend.{directory, Sealing}
use das_protokoll.Scsync.Frontend.Visitor.Whole.{Whole}
use das_protokoll.Scsync.Handler.{Handler, Message, Effect, dispatch, connect}
use das_protokoll.Scsync.Handler.Progress.{KeepsFull, Progress, waits, applies, Whole-KeepsFull}
use das_protokoll.Scsync.Handler.Steps.{dispatch-Progress}

module _ (S : Sealing) where
  -- A node handles a message, from any address, or connects to a server.
  pub data Step (h : Handler) : Handler → Type 0 where
    message :
        (fuel transfer_cursor addr : ℕ) (msg : Message) (h' : Handler) (effects : List Effect)
        → dispatch S fuel transfer_cursor addr msg h ≡ some (h', effects)
        → Step h h'
    connecting : (transfer_cursor nonce srv : ℕ) → Step h ((connect transfer_cursor nonce srv h).0)

  pub data Reach (h : Handler) : Handler → Type 0 where
    here : Reach h h
    next : {g k : Handler} → Reach h g → Step g k → Reach h k

  abbrev pub RootWhole : BlockDb → Type 0
  RootWhole db = (n : ℕ) × Whole S db n db.root directory

  Progress-RootWhole : (db db' : BlockDb) → Progress S db db' → RootWhole db → RootWhole db'
  Progress-RootWhole db db' (waits keeps root pending) (n, w) = (
    n,
    subst (λ r. Whole S db' n r directory) (sym root)
        (Whole-KeepsFull S db db' keeps n db.root directory w),
  )
  Progress-RootWhole db db' (applies keeps was now n whole) w = (n, whole)

  Progress-keeps : (db db' : BlockDb) → Progress S db db' → KeepsFull db db'
  Progress-keeps db db' (waits keeps root pending) = keeps
  Progress-keeps db db' (applies keeps was now n whole) = keeps

  reached :
      {h h' : Handler}
      → Reach h h'
      → RootWhole h.blockdb
      → RootWhole h'.blockdb × KeepsFull h.blockdb h'.blockdb
  unfolding connect
  reached here w = (w, λ id f e. e)
  reached (next {g = g} r (message fuel transfer_cursor addr msg k effects e)) w =
      let (wg, kept) = reached r w in
      let p = dispatch-Progress S fuel transfer_cursor addr msg g k effects e in
      (
        Progress-RootWhole g.blockdb k.blockdb p wg,
        λ id f h. Progress-keeps g.blockdb k.blockdb p id f (kept id f h),
      )
  reached (next r (connecting transfer_cursor nonce srv)) w = reached r w

-- A node that starts with a whole root has one in every state that it reaches, whatever messages come, in
-- whatever order and from whomever: its root is a full directory, and every child of it and of the
-- directories below it is in the store, full, and holds what its type says. This is not said of the leaves
-- that a child's meta block lists. No full block is ever lost or changed.
pub Reach-RootWhole :
    (S : Sealing) (h h' : Handler)
    → RootWhole S h.blockdb
    → Reach S h h'
    → RootWhole S h'.blockdb × KeepsFull h.blockdb h'.blockdb
Reach-RootWhole S h h' w r = reached S r w
