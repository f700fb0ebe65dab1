-- ===== src/Csync/Messages.antt =====
-- v1/csync/src/codec.rs, lines 11-99: the login message, which holds the command. A reader is the bytes
-- that are left of its input. A `usize` has 64 bits; `from_utf8` is the parameter `is_utf8`, and a
-- string is the list of its bytes.
pub mod RoundTrip
use das_protokoll.Base.{
  ℕ, zero, suc, ◌+◌, Bool, true, false, Option, none, some, List, [], ◌∷◌, ◌++◌, leb, if◌then◌else◌,
  ◌>>=◌, ◌>>◌, assert, length, take, drop,
}
use das_protokoll.Crates.{Varmint, Read, got, unexpected_eof, read_error}

pub record UploadRequest : Type 0 where
  pub path : List ℕ
  pub length : ℕ

pub data Command : Type 0 where
  upload_request : UploadRequest → Command

pub record Login : Type 0 where
  pub client_token : List ℕ
  pub command : Command

-- The three ways in which a decoder ends.
pub data Outcome {ℓ} (A : Type ℓ) : Type ℓ where
  ok : A → Outcome A
  io_error : Outcome A
  panic : Outcome A

module _ (V : Varmint) where
  open V use {write_u64_varint, read_u64_varint, len_u64_varint}

  -- The length that is read is trusted: a slice that is too short is a panic.
  unfoldable pub read_bytes : List ℕ → Option (List ℕ × List ℕ)
  read_bytes src = elim (read_u64_varint src) [
    | got size rest ↦ (do assert (leb size (length rest)); some (take size rest, drop size rest))
    | unexpected_eof ↦ none
    | read_error ↦ none
  ]

  -- What is written, and the number that is returned.
  unfoldable pub encode_upload_request : UploadRequest → List ℕ × ℕ
  encode_upload_request req = (
    write_u64_varint (length req.path) ++ (req.path ++ write_u64_varint req.length),
    len_u64_varint (length req.path) + length req.path + len_u64_varint req.length,
  )

  unfoldable pub encode_command : Command → List ℕ × ℕ
  encode_command (upload_request req) =
      (0 ∷ (encode_upload_request req).0, (encode_upload_request req).1 + 1)

  unfoldable pub encode : Login → List ℕ
  encode login =
      write_u64_varint (length login.client_token)
      ++ (login.client_token ++ (encode_command login.command).0)

  module _ (is_utf8 : List ℕ → Bool) where
    -- `src.read_u64_varint()?`, behind the path.
    abbrev with_length : List ℕ → Read → Outcome UploadRequest
    with_length path (got v rest) = ok (record { path = path; length = v })
    with_length path unexpected_eof = io_error
    with_length path read_error = io_error

    abbrev with_path : Option (List ℕ × List ℕ) → Outcome UploadRequest
    with_path none = panic
    with_path (some (path, rest)) =
        if is_utf8 path then with_length path (read_u64_varint rest) else io_error

    unfoldable pub decode_upload_request : List ℕ → Outcome UploadRequest
    decode_upload_request src = with_path (read_bytes src)

    abbrev as_command : Outcome UploadRequest → Outcome Command
    as_command (ok req) = ok (upload_request req)
    as_command io_error = io_error
    as_command panic = panic

    unfoldable pub decode_command : List ℕ → Outcome Command
    decode_command [] = io_error
    decode_command (zero ∷ src) = as_command (decode_upload_request src)
    decode_command (suc c ∷ src) = panic

    abbrev as_login : List ℕ → Outcome Command → Outcome Login
    as_login token (ok command) = ok (record { client_token = token; command = command })
    as_login token io_error = io_error
    as_login token panic = panic

    abbrev with_token : Option (List ℕ × List ℕ) → Outcome Login
    with_token none = panic
    with_token (some (token, rest)) = as_login token (decode_command rest)

    unfoldable pub decode : List ℕ → Outcome Login
    decode src = with_token (read_bytes src)
