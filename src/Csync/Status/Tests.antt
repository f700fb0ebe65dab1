-- ===== src/Csync/Status/Tests.antt =====
-- Status updates of small maps.
use das_protokoll.Base.{ℕ, ◌≤◌, ◌≡◌, refl, Bool, some, List, [], ◌∷◌, length, arith}
use das_protokoll.BitMap.{BitMap, count_zeroes}
use das_protokoll.BitMap.View.{IsValid}
use das_protokoll.Crates.Instances.{varmint, itertools}
use das_protokoll.Csync.Status.{
  MissingRanges, default, write_runlength_encoded, parse_status_update,
}
use das_protokoll.Csync.Status.Decode.{Update, status_update_lem}

abbrev six_chunks : BitMap
six_chunks = record { buf = 37 ∷ []; num_bits = 6; zeroes = 3 }

six_chunks-IsValid : IsValid six_chunks
unfolding count_zeroes
six_chunks-IsValid = record {
  bytes = (omega arith, tt);
  fits = omega arith;
  small = omega arith;
  counted = refl;
}

status_update_example :
    (bytes : List ℕ) × (self' : MissingRanges) × (done : Bool) × (write_runlength_encoded varmint
        six_chunks 1460
      ≡ some (length bytes, bytes))
    × (length bytes ≤ 1460)
    × (parse_status_update varmint itertools default bytes ≡ some (self', done))
    × Update six_chunks self' done
status_update_example =
    status_update_lem varmint itertools six_chunks 1460 default six_chunks-IsValid (omega arith)
