-- ===== src/Storage/Verifier.antt =====
-- internal/storage/verifier.go: signed tokens. A token is the base64 of a JSON envelope, two dashes,
-- and the hexadecimal HMAC of the base64. The cryptography and the encodings are a parameter.
pub mod Laws
mod Tests
use trekr_go.Prelude.{
  ◌<◌, ℕ, Bool, true, false, ◌&&◌, Option, none, some, List, [], ◌∷◌, ◌++◌, ◌≡◌, ◌≢◌, ltb, ◌==◌,
  nat_instance, list_instance, Bytes, All, if◌then◌else◌,
}

-- `railsMeta`
pub record RailsMeta : Type 0 where
  pub payload : Bytes
  pub exp : Bytes
  pub pur : Bytes

-- PBKDF2, HMAC-SHA1 in hexadecimal, base64, the JSON of the envelope, what the encoder makes of raw
-- JSON (it takes out insignificant space) and of a string (it replaces what is not UTF-8), and RFC
-- 3339 times.
pub record Crypto : Type 0 where
  pub derive : Bytes → Option Bytes
  pub hmac_hex : Bytes → Bytes → Bytes
  pub encode64 : Bytes → Bytes
  pub decode64 : Bytes → Option Bytes
  pub encode_json : RailsMeta → Option Bytes
  pub decode_json : Bytes → Option RailsMeta
  pub compact : Bytes → Bytes
  pub coerce : Bytes → Bytes
  pub parse_time : Bytes → Option ℕ

pub data TokenError : Type 0 where
  no_secret missing_signature signature_mismatch bad_base64 bad_json : TokenError
  purpose_mismatch bad_expiry expired : TokenError

pub data Verified : Type 0 where
  verified : Bytes → Verified
  rejected : TokenError → Verified

-- `bytes.TrimRight(b, "\n")`
abbrev pub trim_newlines : Bytes → Bytes
trim_newlines [] = []
trim_newlines (c ∷ s) = let rest = trim_newlines s in if c == 10 && rest == [] then [] else c ∷ rest

abbrev pub prepend : ℕ → Option (Bytes × Bytes) → Option (Bytes × Bytes)
prepend c none = none
prepend c (some (before, after)) = some (c ∷ before, after)

-- `strings.Cut(token, "--")`
unfoldable pub cut : Bytes → Option (Bytes × Bytes)
cut [] = none
cut (c ∷ []) = none
cut (c ∷ d ∷ s) =
    let rest = prepend c (cut (d ∷ s)) in if c == b'-' && d == b'-' then some ([], s) else rest

module _ (C : Crypto) where
  -- What the documentation of the encodings says: decoding base64 undoes encoding it, and its
  -- alphabet has no dash; a decoded envelope has the raw JSON and the strings of the encoded one as
  -- the encoder writes them; and ASCII is UTF-8.
  pub record IsCrypto : Type 0 where
    pub decode-encode64 : (b : Bytes) → C.decode64 (C.encode64 b) ≡ some b
    pub encode64_no_dash : (b : Bytes) → All (λ c. c ≢ b'-') (C.encode64 b)
    pub decode-encode_json :
        (m : RailsMeta) (b : Bytes)
        → C.encode_json m ≡ some b
        → C.decode_json (trim_newlines b)
          ≡ some
              (record { payload = C.compact m.payload; exp = C.coerce m.exp; pur = C.coerce m.pur })
    pub coerce_ascii : (b : Bytes) → All (λ c. c < 128) b → C.coerce b ≡ b

  abbrev pub signed : Bytes → Bytes → Bytes
  signed secret payload = payload ++ b'-' ∷ b'-' ∷ C.hmac_hex secret payload

  abbrev pub sealed : Bytes → Option Bytes → Option Bytes
  sealed secret none = none
  sealed secret (some json) = some (signed secret (C.encode64 (trim_newlines json)))

  abbrev pub generate_with : Option Bytes → RailsMeta → Option Bytes
  generate_with none m = none
  generate_with (some secret) m = sealed secret (C.encode_json m)

  -- `generate`; none stands for an error
  unfoldable pub generate : Bytes → Bytes → Bytes → Bytes → Option Bytes
  generate secret_key_base content purpose exp =
      generate_with (C.derive secret_key_base)
        (record { payload = content; exp = exp; pur = purpose })

  abbrev pub check_time : ℕ → Option ℕ → Bytes → Verified
  check_time now none payload = rejected bad_expiry
  check_time now (some time) payload = if ltb time now then rejected expired else verified payload

  abbrev pub check_expiry : ℕ → RailsMeta → Verified
  check_expiry now m =
      if m.exp == [] then verified m.payload else check_time now (C.parse_time m.exp) m.payload

  abbrev pub check_message : ℕ → Bytes → Option RailsMeta → Verified
  check_message now purpose none = rejected bad_json
  check_message now purpose (some m) =
      if m.pur == purpose then check_expiry now m else rejected purpose_mismatch

  abbrev pub check_payload : ℕ → Bytes → Option Bytes → Verified
  check_payload now purpose none = rejected bad_base64
  check_payload now purpose (some raw) = check_message now purpose (C.decode_json raw)

  abbrev pub check_cut : Bytes → ℕ → Bytes → Option (Bytes × Bytes) → Verified
  check_cut secret now purpose none = rejected missing_signature
  check_cut secret now purpose (some (payload, sig)) =
      if C.hmac_hex secret payload == sig
      then check_payload now purpose (C.decode64 payload)
      else rejected signature_mismatch

  abbrev pub check_with : Option Bytes → ℕ → Bytes → Bytes → Verified
  check_with none now token purpose = rejected no_secret
  check_with (some secret) now token purpose = check_cut secret now purpose (cut token)

  -- `verify`, at the time `now`
  unfoldable pub verify : Bytes → ℕ → Bytes → Bytes → Verified
  verify secret_key_base now token purpose = check_with (C.derive secret_key_base) now token purpose
