-- ===== src/Storage/Signed.antt =====
-- internal/storage/verifier.go and disk.go: the signed ids of blobs, and the keys that expire. The
-- JSON of a key, RFC 3339 times, the quoting of file names and what http.Redirect makes of a location
-- (it cleans the path) are a parameter.
pub mod Laws
pub mod Small
use trekr_go.Prelude.{
  ℕ, String, ◌+◌, ◌*◌, ◌/◌, ◌≡◌, ◌≢◌, Bool, true, false, Option, none, some, List, [], ◌∷◌, ◌++◌,
  ◌==◌, nat_instance, list_instance, Bytes, codes, All, if◌then◌else◌,
}
use trekr_go.GoText.{itoa, parse_int, trim_codes}
use trekr_go.Models.{ℤ, pos}
use trekr_go.Storage.Verifier.{
  Crypto, RailsMeta, Verified, verified, rejected, generate, verify, trim_newlines,
}

-- `BlobKeyData`
pub record BlobKeyData : Type 0 where
  pub key : Bytes
  pub disposition : Bytes
  pub content_type : String
  pub service_name : String

pub record KeyCodec : Type 0 where
  pub marshal : BlobKeyData → Option Bytes
  pub unmarshal : Bytes → Option BlobKeyData
  pub format_time : ℕ → Bytes
  pub quote : Bytes → Bytes
  pub path_escape : Bytes → Bytes
  pub clean_location : Bytes → Bytes

abbrev pub millisecond : ℕ
millisecond = 1000000

-- A key as JSON gives it back: what is not UTF-8 is replaced.
abbrev pub as_text : Crypto → BlobKeyData → BlobKeyData
as_text C d = record d { key = C.coerce d.key; disposition = C.coerce d.disposition }

-- What is documented: decoding undoes encoding, but for what is not UTF-8, and what is encoded has no
-- insignificant space, nor has a number; a time is written to the millisecond, as text.
pub record IsKeyCodec (C : Crypto) (K : KeyCodec) : Type 0 where
  pub unmarshal-marshal :
      (d : BlobKeyData) (b : Bytes) → K.marshal d ≡ some b → K.unmarshal b ≡ some (as_text C d)
  pub compact-marshal : (d : BlobKeyData) (b : Bytes) → K.marshal d ≡ some b → C.compact b ≡ b
  pub compact_number : (n : ℕ) → C.compact (codes (itoa (pos n))) ≡ codes (itoa (pos n))
  pub parse_format : (t : ℕ) → C.parse_time (K.format_time t) ≡ some (t / millisecond * millisecond)
  pub coerce_time : (t : ℕ) → C.coerce (K.format_time t) ≡ K.format_time t

abbrev pub signed_id_purpose : Bytes
signed_id_purpose = codes "blob_id"

abbrev pub blob_key_purpose : Bytes
blob_key_purpose = codes "blob_key"

-- `ServiceURLExpiry`, in nanoseconds
abbrev pub service_url_expiry : ℕ
service_url_expiry = 5 * 60 * 1000000000

module _ (K : KeyCodec) where
  -- `ContentDisposition`
  unfoldable pub content_disposition : Bytes → Bytes → Bytes
  content_disposition disposition filename =
      (if disposition == codes "attachment" then disposition else codes "inline")
      ++ codes "; filename="
      ++ K.quote filename
      ++ codes "; filename*=UTF-8''"
      ++ K.path_escape filename

module _ (C : Crypto) where
  -- `GenerateSignedID`
  unfoldable pub generate_signed_id : Bytes → ℕ → Option Bytes
  generate_signed_id base blob_id =
      generate C base (codes (itoa (pos blob_id))) signed_id_purpose []

  abbrev pub id_of : Verified → Option ℤ
  id_of (verified content) = parse_int (trim_codes content)
  id_of (rejected e) = none

  -- `VerifySignedID`, at the time `now`
  unfoldable pub verify_signed_id : Bytes → ℕ → Bytes → Option ℤ
  verify_signed_id base now token = id_of (verify C base now token signed_id_purpose)

  module _ (K : KeyCodec) where
    abbrev pub key_for : Bytes → ℕ → Option Bytes → Option Bytes
    key_for base until none = none
    key_for base until (some payload) =
        generate C base payload blob_key_purpose (K.format_time until)

    -- `GenerateBlobKey`, at the time `now`
    unfoldable pub generate_blob_key : Bytes → ℕ → BlobKeyData → ℕ → Option Bytes
    generate_blob_key base now content expires_in =
        key_for base (now + expires_in) (K.marshal content)

    abbrev pub key_of : Verified → Option BlobKeyData
    key_of (verified content) = K.unmarshal content
    key_of (rejected e) = none

    -- `VerifyBlobKey`, at the time `now`
    unfoldable pub verify_blob_key : Bytes → ℕ → Bytes → Option BlobKeyData
    verify_blob_key base now token = key_of (verify C base now token blob_key_purpose)
