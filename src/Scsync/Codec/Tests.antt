-- ===== src/Scsync/Codec/Tests.antt =====
-- A status of two ranges.
use das_protokoll.Base.{ℕ, ◌≡◌, some, List, [], ◌∷◌, arith}
use das_protokoll.Base.Word.{add64, sub64}
use das_protokoll.Crates.Instances.{varmint, itertools, cbor, leb_write}
use das_protokoll.Csync.Messages.{ok}
use das_protokoll.Csync.Status.Encode.{encodings}
use das_protokoll.Scsync.Codec.{Msg, transfer_status, flat, deltas, encode, decode}
use das_protokoll.Scsync.Codec.RoundTrip.{Fits, decode-encode_msg}

abbrev status : Msg ℕ ℕ ℕ ℕ
status = transfer_status (record { from = 2; to = 3 } ∷ record { from = 3; to = 300 } ∷ [])

status-Fits : Fits varmint itertools cbor cbor cbor cbor 2000 status
unfolding flat deltas encodings leb_write add64 sub64
status-Fits = (
  (
    omega arith,
    omega arith,
    (omega arith, omega arith, (omega arith, omega arith, (omega arith, omega arith, tt))),
  ),
  omega arith,
  omega arith,
)

decode-encode_msg_example :
    (bytes : List ℕ) × (encode varmint itertools cbor cbor cbor cbor 2000 status ≡ ok bytes)
    × (decode varmint itertools cbor cbor cbor cbor bytes ≡ ok (some status))
decode-encode_msg_example =
    decode-encode_msg varmint itertools cbor cbor cbor cbor 2000 status status-Fits
