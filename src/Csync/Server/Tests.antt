-- ===== src/Csync/Server/Tests.antt =====
-- A client that uploads four bytes connects.
use das_protokoll.Base.{
  zero, suc, ◌<◌, replicate, ℕ, ◌≤◌, ◌≡◌, refl, Bool, true, Option, none, some, List, [], ◌∷◌,
  length, arith,
}
use das_protokoll.Crates.Instances.{varmint, itertools, byteorder, leb_write}
use das_protokoll.Csync.Async.{ready, not_ready, failed}
use das_protokoll.Csync.Chunks.{mtu}
use das_protokoll.Csync.Status.{default}
use das_protokoll.Csync.Messages.{
  upload_request, Login, encode, encode_command, encode_upload_request,
}
use das_protokoll.Csync.Messages.RoundTrip.{Sendable}
use das_protokoll.Csync.Client
use das_protokoll.Csync.Client.{Client}
use das_protokoll.Csync.Server.{
  Listener, Received, listen, Connection, serving, handle_client, going, forward,
}
use das_protokoll.Csync.Server.Connecting.{Greets, first_update}

abbrev source : List ℕ
source = 7 ∷ 8 ∷ 9 ∷ 10 ∷ []

abbrev any_text : List ℕ → Bool
any_text bytes = true

-- An empty file cannot be mapped.
abbrev mapped : List ℕ → Option (List ℕ)
mapped [] = none
mapped (b ∷ bytes) = some (b ∷ bytes)

maps_zeros : (n : ℕ) → 0 < n → mapped (replicate n 0) ≡ some (replicate n 0)
maps_zeros zero h = absurd (omega (arith, h))
maps_zeros (suc n) h = refl

abbrev no_map : List ℕ → List ℕ → Option (List ℕ)
no_map token path = none

-- A file that is longer was stored.
abbrev older : List ℕ → List ℕ → List ℕ
older token path = 1 ∷ 1 ∷ 1 ∷ 1 ∷ 1 ∷ []

abbrev login : Login
login = record {
  client_token = 114 ∷ [];
  command = upload_request (record { path = 97 ∷ []; length = 4 });
}

abbrev idle : Client
idle = record { missing = default; phase = Client.waiting; sent = [] }

abbrev listener : Listener
listener = record { buf = [] }

login-Sendable : Sendable varmint any_text (114 ∷ []) (record { path = 97 ∷ []; length = 4 })
login-Sendable = record {
  token_length = omega arith;
  path_length = omega arith;
  file_length = omega arith;
  text = refl;
}

fits_mtu : length (encode varmint login) ≤ mtu
unfolding encode encode_command encode_upload_request leb_write
fits_mtu = omega arith

first_update_example :
    (l' : Listener) × (r : Received) × (conn conn' conn'' : Connection) × (listen
        (ready (encode varmint login, 9))
        listener
      ≡ (l', ready r))
    × (handle_client varmint any_text mapped no_map older 40 r ≡ some (serving conn))
    × (forward varmint not_ready conn ≡ some (going conn'))
    × (forward varmint failed conn' ≡ some (going conn''))
    × Greets varmint itertools byteorder source login-Sendable.file_length idle conn''
first_update_example =
    first_update varmint itertools byteorder any_text mapped no_map older (114 ∷ []) (97 ∷ [])
      source 9 40 listener not_ready failed idle login-Sendable fits_mtu (omega arith) maps_zeros
      refl refl
