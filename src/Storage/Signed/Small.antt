-- ===== src/Storage/Signed/Small.antt =====
-- internal/storage/verifier.go: small encodings that sign two messages, the id of blob 1 and one key,
-- which show that the documented behaviour can be met.
use trekr_go.Prelude.{
  ℕ, Bool, true, ◌&&◌, Option, none, some, [], ◌∷◌, ◌++◌, ◌≡◌, ◌≢◌, ◌+◌, ◌-◌, ◌*◌, ◌/◌, refl, ap,
  inl, inr, ◌==◌, nat_instance, string_instance, list_instance, list_eq_iff, Bytes, All,
  if◌then◌else◌, arith, Bool-cases, map, codes,
}
use trekr_go.Storage.Verifier.{RailsMeta, Crypto, IsCrypto, trim_newlines}
use trekr_go.Storage.Signed.{BlobKeyData, KeyCodec, IsKeyCodec, millisecond}

abbrev id_message : RailsMeta
id_message = record { payload = codes "1"; exp = []; pur = codes "blob_id" }

abbrev key_message : RailsMeta
key_message = record { payload = 9 ∷ []; exp = 300000 ∷ []; pur = codes "blob_key" }

abbrev same : RailsMeta → RailsMeta → Bool
same a b = a.payload == b.payload && (a.exp == b.exp && a.pur == b.pur)

abbrev decoded : Bytes → Option RailsMeta
decoded [] = none
decoded (c ∷ s) = some (if c == 1 then id_message else key_message)

abbrev time_of : Bytes → Option ℕ
time_of [] = none
time_of (t ∷ s) = some (t * millisecond)

abbrev pub small : Crypto
small = record {
  derive = λ base. some base;
  hmac_hex = λ secret p. secret ++ p;
  encode64 = map (λ c. c + 100);
  decode64 = λ b. some (map (λ c. c - 100) b);
  encode_json = λ m.
      if same m id_message
      then some (1 ∷ [])
      else if same m key_message
      then some (2 ∷ [])
      else none;
  decode_json = decoded;
  compact = λ b. b;
  coerce = λ b. b;
  parse_time = time_of;
}

abbrev pub the_key : BlobKeyData
the_key = record {
  key = codes "abcd";
  disposition = codes "inline; filename=; filename*=UTF-8''";
  content_type = "image/png";
  service_name = "local";
}

abbrev same_key : BlobKeyData → BlobKeyData → Bool
same_key a b =
    a.key == b.key
    && (a.disposition == b.disposition
        && (a.content_type == b.content_type && a.service_name == b.service_name))

abbrev pub codec : KeyCodec
codec = record {
  marshal = λ d. if same_key d the_key then some (9 ∷ []) else none;
  unmarshal = λ b. some the_key;
  format_time = λ t. t / millisecond ∷ [];
  quote = λ b. [];
  path_escape = λ b. [];
  clean_location = λ b. b;
}

decode-encode : (b : Bytes) → map (λ c. c - 100) (map (λ c. c + 100) b) ≡ b
decode-encode [] = refl
decode-encode (c ∷ b) = let own : c + 100 - 100 ≡ c = omega arith in rw (own, decode-encode b) refl

no_dash : (b : Bytes) → All (λ c. c ≢ b'-') (map (λ c. c + 100) b)
no_dash [] = tt
no_dash (c ∷ b) = (omega arith, no_dash b)

same-eq : (a b : RailsMeta) → same a b ≡ true → b ≡ a
same-eq a b h =
    let p : a.payload ≡ b.payload = (list_eq_iff a.payload b.payload).0 (ground arith) in
    let e : a.exp ≡ b.exp = (list_eq_iff a.exp b.exp).0 (ground arith) in
    let u : a.pur ≡ b.pur = (list_eq_iff a.pur b.pur).0 (ground arith) in cc

same_key-eq : (a b : BlobKeyData) → same_key a b ≡ true → b ≡ a
same_key-eq a b h =
    let k : a.key ≡ b.key = (list_eq_iff a.key b.key).0 (ground arith) in
    let d : a.disposition ≡ b.disposition =
      (list_eq_iff a.disposition b.disposition).0 (ground arith) in
    let c : a.content_type ≡ b.content_type =
      (string_instance.tells_same_iff a.content_type b.content_type).0 (ground arith) in
    let s : a.service_name ≡ b.service_name =
      (string_instance.tells_same_iff a.service_name b.service_name).0 (ground arith) in
    cc

decode-encode_json :
    (m : RailsMeta) (b : Bytes) → small.encode_json m ≡ some b → decoded (trim_newlines b) ≡ some m
decode-encode_json m b h = elim (Bool-cases (same m id_message)) [
  | inl e ↦
      let made : some (1 ∷ []) ≡ some b = rw e at h in
      let is_b : 1 ∷ [] ≡ b = cc in rw (← is_b) (ap some (same-eq m id_message e))
  | inr e ↦ elim (Bool-cases (same m key_message)) [
    | inl k ↦
        let made : some (2 ∷ []) ≡ some b = rw (e, k) at h in
        let is_b : 2 ∷ [] ≡ b = cc in rw (← is_b) (ap some (same-eq m key_message k))
    | inr k ↦ let none_made = rw (e, k) at h in cc
  ]
]

pub small-IsCrypto : IsCrypto small
small-IsCrypto = record {
  decode-encode64 = λ b. ap some (decode-encode b);
  encode64_no_dash = no_dash;
  decode-encode_json = decode-encode_json;
  coerce_ascii = λ b h. refl;
}

pub codec-IsKeyCodec : IsKeyCodec small codec
codec-IsKeyCodec = record {
  unmarshal-marshal = λ d b h. elim (Bool-cases (same_key d the_key)) [
    | inl e ↦ ap some (same_key-eq d the_key e)
    | inr e ↦ let none_made = rw e at h in cc
  ];
  parse_format = λ t. refl;
  compact-marshal = λ d b h. refl;
  compact_number = λ n. refl;
  coerce_time = λ t. refl;
}
