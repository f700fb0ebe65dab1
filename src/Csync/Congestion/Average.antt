-- ===== src/Csync/Congestion/Average.antt =====
-- v1/csync/src/server/congestion.rs: the window of the last ten gaps between packets, and their average.
use das_protokoll.Base.{
  ℕ, ◌+◌, ◌-◌, ◌*◌, ◌/◌, ◌≤◌, ◌<◌, ◌≡◌, refl, ap, Bool, false, none, some, List, [], ◌∷◌, ◌++◌,
  arith, leb, leb→lt, leb→le, Bool-cases, length, length-append, ◌⊎◌, inl, inr,
}
use das_protokoll.Csync.Congestion.{CongestionInfo, update_delay, count_packet, ipt_packet}

module _ (packets_for : ℕ → ℕ) where
  -- The first packet only starts the clock.
  pub first_packet :
      (now : ℕ) (c : CongestionInfo)
      → c.last_ipt ≡ none
      → ipt_packet packets_for now c ≡ some (record c { last_ipt = some now }, false)
  unfolding ipt_packet
  first_packet now c h = ground (arith, h)

  -- While the window fills, a packet after the first never panics, if the clock does not go back: its
  -- gap joins the window, and the average is scaled to one gap more.
  pub filling_packet :
      (now old : ℕ) (c : CongestionInfo)
      → c.last_ipt ≡ some old
      → old ≤ now
      → length c.ipts < 10
      → (c' : CongestionInfo) × (b : Bool) × (ipt_packet packets_for now c ≡ some (c', b))
        × (c'.last_ipt ≡ some now)
        × (c'.ipts ≡ c.ipts ++ (now - old) ∷ [])
        × (c'.ipt ≡ c.ipt * length c.ipts / (length c.ipts + 1) + (now - old) / (length c.ipts + 1))
  unfolding ipt_packet
  filling_packet now old c e le short =
      let gap = now - old in
      let ipts = c.ipts ++ gap ∷ [] in
      let c1 : CongestionInfo = record c {
        last_ipt = some now;
        ipts = ipts;
        ipt = c.ipt * length c.ipts / (length c.ipts + 1) + gap / length ipts;
      } in
      let r = count_packet packets_for (update_delay packets_for c1) in
      (
        r.0,
        r.1,
        ground (arith, e, short),
        unfold count_packet update_delay in refl,
        unfold count_packet update_delay in refl,
        unfold count_packet update_delay in
            ap (λ n. c.ipt * length c.ipts / (length c.ipts + 1) + gap / n)
              (length-append c.ipts (gap ∷ [])),
      )

  -- On a full window of ten gaps, if the clock does not go back, a packet moves the window on by one
  -- gap and the average by a tenth of the two gaps; but where the average is below a tenth of the
  -- oldest gap, the subtraction panics.
  pub full_packet :
      (now old oldest : ℕ) (rest : List ℕ) (c : CongestionInfo)
      → c.last_ipt ≡ some old
      → old ≤ now
      → c.ipts ≡ oldest ∷ rest
      → length rest ≡ 9
      → ((c.ipt < oldest / 10) × (ipt_packet packets_for now c ≡ none))
        ⊎ ((c' : CongestionInfo) × (b : Bool) × (ipt_packet packets_for now c ≡ some (c', b))
            × (oldest / 10 ≤ c.ipt)
            × (c'.ipts ≡ rest ++ (now - old) ∷ [])
            × (c'.ipt ≡ c.ipt - oldest / 10 + (now - old) / 10))
  unfolding ipt_packet
  full_packet now old oldest rest c e le w len = elim (Bool-cases (leb (oldest / 10) c.ipt)) [
    | inr below ↦ inl (leb→lt _ _ below, ground (arith, e, w, len, below))
    | inl fits ↦
        let gap = now - old in
        let ten : length (rest ++ gap ∷ []) ≡ 10 =
          omega (arith, len, length-append rest (gap ∷ [])) in
        let c1 : CongestionInfo = record c {
          last_ipt = some now;
          ipts = rest ++ gap ∷ [];
          ipt = c.ipt - oldest / 10 + gap / 10;
        } in
        let r = count_packet packets_for (update_delay packets_for c1) in
        inr (
          r.0,
          r.1,
          ground (arith, e, w, len, fits, ten),
          leb→le _ _ fits,
          unfold count_packet update_delay in refl,
          unfold count_packet update_delay in refl,
        )
  ]
