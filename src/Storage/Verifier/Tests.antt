-- ===== src/Storage/Verifier/Tests.antt =====
-- The theorems on tokens with a small encoding that signs one message.
use trekr_go.Prelude.{
  Bool, true, ◌&&◌, none, some, [], ◌∷◌, ◌++◌, ◌≡◌, ◌≢◌, ◌+◌, ◌-◌, refl, ap, inl, inr, ◌==◌,
  nat_instance, list_instance, list_eq_iff, Bytes, All, if◌then◌else◌, arith, Bool-cases, map,
  codes,
}
use trekr_go.Storage.Verifier.{RailsMeta, Crypto, IsCrypto, verified, cut, signed, generate, verify}
use trekr_go.Storage.Verifier.Laws.{verify-generate, verify-signed}

abbrev message : RailsMeta
message = record { payload = 7 ∷ []; exp = []; pur = codes "blob_id" }

abbrev is_message : RailsMeta → Bool
is_message m = m.payload == message.payload && (m.exp == message.exp && m.pur == message.pur)

abbrev small : Crypto
small = record {
  derive = λ base. some base;
  hmac_hex = λ secret p. secret ++ p;
  encode64 = map (λ c. c + 100);
  decode64 = λ b. some (map (λ c. c - 100) b);
  encode_json = λ m. if is_message m then some (1 ∷ 10 ∷ []) else none;
  decode_json = λ b. some message;
  compact = λ b. b;
  coerce = λ b. b;
  parse_time = λ b. none;
}

decode-encode : (b : Bytes) → map (λ c. c - 100) (map (λ c. c + 100) b) ≡ b
decode-encode [] = refl
decode-encode (c ∷ b) =
    let same : c + 100 - 100 ≡ c = omega arith in rw (same, decode-encode b) refl

no_dash : (b : Bytes) → All (λ c. c ≢ b'-') (map (λ c. c + 100) b)
no_dash [] = tt
no_dash (c ∷ b) = (omega arith, no_dash b)

message-is_message : (m : RailsMeta) → is_message m ≡ true → message ≡ m
message-is_message m h =
    let p : m.payload ≡ message.payload =
      (list_eq_iff m.payload message.payload).0 (ground arith) in
    let e : m.exp ≡ message.exp = (list_eq_iff m.exp message.exp).0 (ground arith) in
    let u : m.pur ≡ message.pur = (list_eq_iff m.pur message.pur).0 (ground arith) in cc

small-IsCrypto : IsCrypto small
small-IsCrypto = record {
  decode-encode64 = λ b. ap some (decode-encode b);
  encode64_no_dash = no_dash;
  decode-encode_json = λ m b h. elim (Bool-cases (is_message m)) [
    | inl e ↦ ap some (message-is_message m e)
    | inr e ↦ let refused = rw e at h in cc
  ];
  coerce_ascii = λ b h. refl;
}

steps : Unit {0}
unfolding generate verify cut
steps = tt

abbrev token : Bytes
token = 101 ∷ b'-' ∷ b'-' ∷ 3 ∷ 101 ∷ []

generated : generate small (3 ∷ []) (7 ∷ []) (codes "blob_id") [] ≡ some token
unfolding steps
generated = refl

verify-generate_example : verify small (3 ∷ []) 50 token (codes "blob_id") ≡ verified (7 ∷ [])
verify-generate_example =
    verify-generate small 50 small-IsCrypto (3 ∷ []) (7 ∷ []) (codes "blob_id") [] token generated
      refl refl (inl refl)

verify-signed_example :
    (secret : Bytes) × (p : Bytes) × (some (3 ∷ []) ≡ some secret) × (token ≡ signed small secret p)
unfolding steps
verify-signed_example = verify-signed small 50 (3 ∷ []) token (codes "blob_id") (7 ∷ []) refl
