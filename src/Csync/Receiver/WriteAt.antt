-- ===== src/Csync/Receiver/WriteAt.antt =====
-- v1/csync/src/server/receiver.rs: `write_at`, a write inside the file.
use das_protokoll.Base.{
  ℕ, ◌+◌, ◌-◌, ◌≤◌, ◌<◌, ◌≡◌, refl, ap, ◌∙◌, List, ◌++◌, arith, inl, inr, ◌⊎◌, take, drop, length,
  get_elem?, replicate, take-append_le, length-take, length-drop, length-append,
  get_elem?-append_left, get_elem?-append_right, get_elem?-take, get_elem?-drop,
}
use das_protokoll.Csync.Receiver.{write_at}

-- It changes the bytes at the position and no other, and not the length.
module _ (file bytes : List ℕ) (position : ℕ) (inside : position + length bytes ≤ length file) where
  pub write_at_front :
      take position (file ++ replicate (position - length file) 0) ≡ take position file
  write_at_front = take-append_le position file _ (omega arith)

  length-front : length (take position file) ≡ position
  length-front = omega (arith, length-take position file)

  pub length-write_at : length (write_at file position bytes) ≡ length file
  unfolding write_at
  length-write_at = rw write_at_front (
      omega (
        arith,
        length-front,
        length-append (take position file) (bytes ++ drop (position + length bytes) file),
        length-append bytes (drop (position + length bytes) file),
        length-drop (position + length bytes) file,
      ))

  pub write_at_inside :
      (j : ℕ)
      → j < length bytes
      → get_elem? (write_at file position bytes) (position + j) ≡ get_elem? bytes j
  unfolding write_at
  write_at_inside j h = rw write_at_front (
      get_elem?-append_right (take position file) _ (position + j) j (omega (arith, length-front))
      ∙ get_elem?-append_left bytes _ j h)

  pub write_at_outside :
      (k : ℕ)
      → (k < position) ⊎ (position + length bytes ≤ k)
      → get_elem? (write_at file position bytes) k ≡ get_elem? file k
  unfolding write_at
  write_at_outside k (inl h) = rw write_at_front (
      get_elem?-append_left (take position file) _ k (omega (arith, length-front))
      ∙ get_elem?-take position k file h)
  write_at_outside k (inr h) =
      let d = k - (position + length bytes) in
      let ke : position + length bytes + d ≡ k = omega arith in
      rw write_at_front (
        get_elem?-append_right (take position file) _ k (length bytes + d)
          (omega (arith, length-front))
        ∙ get_elem?-append_right bytes _ (length bytes + d) d refl
        ∙ get_elem?-drop file (position + length bytes) d
        ∙ ap (get_elem? file) ke)
