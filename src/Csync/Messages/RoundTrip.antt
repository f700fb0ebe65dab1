-- ===== src/Csync/Messages/RoundTrip.antt =====
-- v1/csync/src/codec.rs: the login between the client that writes it and the server that reads it.
use das_protokoll.Base.{
  ℕ, suc, ◌≡◌, ◌≤◌, refl, Bool, true, some, List, [], ◌∷◌, ◌++◌, length, arith, append-nil,
  length-append, take-append, drop-append, sym,
}
use das_protokoll.Base.Word.{IsU64}
use das_protokoll.Crates.{Varmint}
use das_protokoll.Csync.Messages.{
  UploadRequest, upload_request, Login, ok, panic, read_bytes, encode_upload_request,
  encode_command, encode, decode_upload_request, decode_command, decode,
}

module _ (V : Varmint) where
  open V use {write_u64_varint, read_u64_varint, len_u64_varint, read-write, len-write}

  read_bytes-write :
      (bytes rest : List ℕ)
      → IsU64 (length bytes)
      → read_bytes V (write_u64_varint (length bytes) ++ (bytes ++ rest)) ≡ some (bytes, rest)
  unfolding read_bytes
  read_bytes-write bytes rest h = ground (
    arith,
    read-write (length bytes) (bytes ++ rest) h,
    length-append bytes rest,
    take-append bytes rest,
    drop-append bytes rest,
  )

  -- A client's token and path are short enough for their lengths to be written, and the path is text.
  pub record Sendable (is_utf8 : List ℕ → Bool) (token : List ℕ) (req : UploadRequest)
      : Type 0 where
    pub token_length : IsU64 (length token)
    pub path_length : IsU64 (length req.path)
    pub file_length : IsU64 req.length
    pub text : is_utf8 req.path ≡ true

  request-RoundTrip :
      (is_utf8 : List ℕ → Bool) (token : List ℕ) (req : UploadRequest)
      → Sendable is_utf8 token req
      → decode_upload_request V is_utf8 (encode_upload_request V req).0 ≡ ok req
  unfolding decode_upload_request encode_upload_request
  request-RoundTrip is_utf8 token req s =
      rw
        (
          read_bytes-write req.path (write_u64_varint req.length) s.path_length,
          s.text,
          sym (append-nil (write_u64_varint req.length)),
          read-write req.length [] s.file_length,
        )
        refl

  -- Where all lengths are `u64`s and the path is text, the server reads back the login that a client
  -- has written, without an error or a panic, and the number that the encoder of the command returns
  -- is the number of the bytes that it wrote.
  pub decode-encode :
      (is_utf8 : List ℕ → Bool) (token : List ℕ) (req : UploadRequest)
      → Sendable is_utf8 token req
      → let login : Login = record { client_token = token; command = upload_request req } in
        (decode V is_utf8 (encode V login) ≡ ok login)
        × ((encode_command V login.command).1 ≡ length (encode_command V login.command).0)
  unfolding decode encode encode_command decode_command
  decode-encode is_utf8 token req s = (
    rw
        (
          read_bytes-write token (0 ∷ (encode_upload_request V req).0) s.token_length,
          request-RoundTrip is_utf8 token req s,
        )
        refl,
    unfold encode_upload_request in
        omega (
          arith,
          len-write (length req.path) s.path_length,
          len-write req.length s.file_length,
          length-append (write_u64_varint (length req.path))
              (req.path ++ write_u64_varint req.length),
          length-append req.path (write_u64_varint req.length),
        ),
  )

  -- A token whose written length is more than the bytes that follow makes the server panic.
  pub decode_overlong :
      (is_utf8 : List ℕ → Bool) (size : ℕ) (bytes : List ℕ)
      → IsU64 size
      → suc (length bytes) ≤ size
      → decode V is_utf8 (write_u64_varint size ++ bytes) ≡ panic
  unfolding decode read_bytes
  decode_overlong is_utf8 size bytes h lt = ground (arith, read-write size bytes h)
