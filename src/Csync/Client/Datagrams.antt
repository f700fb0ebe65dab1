-- ===== src/Csync/Client/Datagrams.antt =====
-- v1/csync/src/client.rs: what the client puts into its datagrams, and what the server makes of them.
use das_protokoll.Base.{
  ℕ, zero, suc, ◌+◌, ◌-◌, ◌*◌, ◌/◌, ◌%◌, ◌^◌, ◌≤◌, ◌<◌, ◌≡◌, refl, sym, ap, ◌∙◌, some, List, [],
  ◌∷◌, ◌==◌, length, take, drop, arith, ◌⊎◌, inl, inr, order_cases, Bool-cases, ==_iff, length-take,
  length-drop, ℕ_discrete,
}
use mathlib.Core.Path.{subst}
use native.Mathlib.Nat.{div-add-mod', mod-lt, mod-eq_of_lt, mul-le-mul_right}
use das_protokoll.Base.Word.{IsU64, sub64, sub64-eq}
use das_protokoll.Crates.{Byteorder}
use das_protokoll.Csync.Chunks.{mtu, ChunkInfo, Chunk, into_vec, payload, fill, decode}
use das_protokoll.Csync.Chunks.Sizes.{Cuts, CutsInto, few_chunks}
use das_protokoll.Csync.Chunks.Layout.{pow256, decode-new}
use das_protokoll.Csync.Receiver.Integrity.{slice, starts_inside}
use das_protokoll.Csync.Client.{ChunkSend, read_exact, payload_size, chunk_send}

pub take_above {ℓ} : {A : Type ℓ} (n : ℕ) (xs : List A) → length xs ≤ n → take n xs ≡ xs
take_above zero [] h = refl
take_above (suc n) [] h = refl
take_above zero (x ∷ xs) h = absurd (omega arith)
take_above (suc n) (x ∷ xs) h = ap (◌∷◌ x) (take_above n xs (omega arith))

-- The last chunk is what the division leaves, unless it leaves nothing.
last_piece :
    (len size n : ℕ)
    → 0 < size
    → CutsInto len size (suc n)
    → (len % size ≡ 0) ⊎ (len ≡ n * size + len % size)
last_piece len size n pos c =
    let whole = div-add-mod' len size in
    let low : len % size < size = mod-lt len pos in
    elim (order_cases (len / size) n) [
      | inl lt ↦
          let le : len / size + 1 ≤ n = omega arith in
          absurd (omega (arith, c.1, whole, low, mul-le-mul_right size le))
      | inr (inl eq) ↦ inr (sym whole ∙ ap (λ (q : ℕ). q * size + len % size) eq)
      | inr (inr gt) ↦
          let le : suc n ≤ len / size = omega arith in
          inl (omega (arith, c.0, whole, mul-le-mul_right size le))
    ]

module _ (source : List ℕ) (info : ChunkInfo) (small : IsU64 (length source))
    (cuts : Cuts (length source) info) where
  big : 2 ≤ info.chunk_size
  big = omega (arith, cuts.sized, cuts.smallest.at_most)

  -- The last chunk of a file that the chunks fill.
  abbrev pub IsLastOfFull : ℕ → Type 0
  IsLastOfFull c = (c + 1 ≡ info.num_chunks) × (length source % info.chunk_size ≡ 0)

  -- The bytes that are read for a chunk: none for the last one of a file that the chunks fill, and for
  -- any other the file's.
  abbrev pub ReadFor : ℕ → List ℕ → Type 0
  ReadFor c bytes =
      (IsLastOfFull c × (bytes ≡ []))
      ⊎ ((¬ IsLastOfFull c) × (bytes ≡ slice source info.chunk_size c))

  whole_piece :
      (c : ℕ) → c + 1 < info.num_chunks → length (slice source info.chunk_size c) ≡ info.chunk_size
  whole_piece c h =
      let le : c + 2 ≤ info.num_chunks = omega arith in
      omega (
        arith,
        cuts.covers_file.1,
        mul-le-mul_right info.chunk_size le,
        length-take info.chunk_size (drop (c * info.chunk_size) source),
        length-drop (c * info.chunk_size) source,
        big,
      )

  abbrev Reads : ℕ → ℕ → Type 0
  Reads c n =
      (length (take n (drop (c * info.chunk_size) source)) ≡ n)
      × (n ≤ info.chunk_size)
      × ReadFor c (take n (drop (c * info.chunk_size) source))

  last_read : (c : ℕ) → info.num_chunks ≡ suc c → Reads c (length source % info.chunk_size)
  last_read c e = elim (ℕ_discrete (length source % info.chunk_size) 0) [
    | yes nothing ↦ rw nothing (refl, omega (arith, big), inl ((omega arith, refl), refl))
    | no some_left ↦
        elim (last_piece (length source) info.chunk_size c (omega (arith, big))
          (subst (CutsInto (length source) info.chunk_size) e cuts.covers_file)) [
            | inl nothing ↦ absurd (some_left nothing)
            | inr rest ↦
                let low : length source % info.chunk_size < info.chunk_size =
                  mod-lt (length source) (omega (arith, big)) in
                let xs = drop (c * info.chunk_size) source in
                let r = length source % info.chunk_size in
                let len : length xs ≡ r =
                  omega (arith, rest, length-drop (c * info.chunk_size) source) in
                let all : take r xs ≡ xs = take_above r xs (omega (arith, len)) in
                (
                  ap length all ∙ len,
                  omega (arith, low),
                  inr (
                    λ full. some_left full.1,
                    all ∙ sym (take_above info.chunk_size xs (omega (arith, len, low))),
                  ),
                )
          ]
  ]

  read_for : (c : ℕ) → c < info.num_chunks → (n : ℕ) × (payload_size info c ≡ n) × Reads c n
  read_for c h =
      let few =
        few_chunks (length source) info.chunk_size info.num_chunks small big cuts.covers_file in
      let before : sub64 info.num_chunks 1 ≡ info.num_chunks - 1 =
        sub64-eq info.num_chunks 1 (omega arith) few in
      elim (Bool-cases (c == sub64 info.num_chunks 1)) [
        | inr other ↦ (
          info.chunk_size,
          ground (arith, other),
          (
            whole_piece c (ground (arith, other, before)),
            omega arith,
            inr (λ full. ground (arith, other, before, full.0), refl),
          ),
        )
        | inl last ↦ (
          length source % info.chunk_size,
          ground (arith, last, cuts.last),
          last_read c (ground (arith, last, before)),
        )
      ]

  -- For each chunk of the file that is asked for, the client reads the file and sends a datagram of at
  -- most `mtu` bytes that the server decodes to that chunk: without any bytes if it is the last chunk and
  -- the length of the file is a multiple of the chunk size, and with exactly the file's bytes otherwise.
  pub chunk_send_lem :
      (B : Byteorder) (send_buf : List ℕ) (c : ℕ)
      → c < info.num_chunks
      → (s : ChunkSend) × (datagram : List ℕ) × (chunk : Chunk) × (chunk_send B info send_buf c
          ≡ some s)
        × (read_exact source s ≡ some datagram)
        × (length datagram ≤ mtu)
        × (decode B (take mtu datagram) info.index_field_size ≡ some chunk)
        × (chunk.index ≡ c)
        × ReadFor c (payload chunk)
  unfolding chunk_send read_exact
  chunk_send_lem B send_buf c h =
      let cs = info.chunk_size in
      let size = info.index_field_size in
      let few = few_chunks (length source) cs info.num_chunks small big cuts.covers_file in
      let (n, en, reads) = read_for c h in
      let (el, le, read) = reads in
      let bytes = take n (drop (c * cs) source) in
      let (chunk, e_new, e_decode, e_payload, e_length, e_whole, e_index, e_size) =
        decode-new B send_buf bytes c size cuts.smallest.at_least
          (omega (arith, cuts.smallest.at_most)) (omega (arith, few))
          (omega (arith, cuts.numbered, pow256 size)) in
      let datagram = into_vec (fill chunk bytes) in
      let position : c * cs % 2 ^ 64 ≡ c * cs = mod-eq_of_lt (
        omega (
          arith,
          small,
          starts_inside c info.num_chunks cs (length source) h cuts.covers_file.1,
        )) in
      let short : length datagram ≤ 1460 =
        omega (arith, e_whole, el, le, cuts.sized, cuts.smallest.at_most) in
      (
        record { chunk = chunk; position = c * cs % 2 ^ 64 },
        datagram,
        fill chunk bytes,
        rw (en ∙ sym el, e_new) refl,
        rw (position, e_length ∙ el, el, (==_iff n n).1 refl) refl,
        short,
        ap (λ (d : List ℕ). decode B d size) (take_above mtu datagram short) ∙ e_decode,
        unfold fill in e_index,
        subst (ReadFor c) (sym e_payload) read,
      )
