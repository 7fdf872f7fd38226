-- ===== src/Storage/Signed/Laws.antt =====
-- internal/storage/verifier.go: a signed id and a key lead back to what was signed.
use Prim.Native.Char.{code}
use Prim.Native.String.{char_at}
use trekr_go.Prelude.{
  ℕ, zero, suc, ◌+◌, ◌*◌, ◌/◌, ◌%◌, ◌≤◌, ◌<◌, ◌≡◌, refl, ap, ◌∙◌, false, String, Option, none, some,
  [], ◌∷◌, nat_instance, Bytes, codes, All, arith, inl, inr, Bool-cases, ltb,
}
use trekr_go.GoText.{
  itoa, parse_int, trim_codes, trim_front, trim_back, is_space, max_int64, put_digits,
}
use trekr_go.GoText.Numbers.{parse_int-itoa, code-digit}
use trekr_go.Models.{pos}
use trekr_go.Storage.Verifier.{Crypto, IsCrypto, verify}
use trekr_go.Storage.Verifier.Laws.{verify-generate}
use trekr_go.Storage.Signed.{
  BlobKeyData, KeyCodec, IsKeyCodec, generate_signed_id, verify_signed_id, generate_blob_key,
  verify_blob_key, signed_id_purpose, blob_key_purpose, key_for, millisecond, key_of, id_of,
  as_text,
}

-- No digit is a space.
digit_no_space : (d : ℕ) → d < 10 → is_space (48 + d) ≡ false
digit_no_space d h = ground arith

put_digits_no_space :
    (fuel n : ℕ) (acc : String)
    → All (λ c. is_space c ≡ false) (codes acc)
    → All (λ c. is_space c ≡ false) (codes (put_digits fuel n acc))
unfolding put_digits
put_digits_no_space zero n acc h = h
put_digits_no_space (suc fuel) n acc h =
    let digit : is_space (code (char_at "0123456789" (n % 10))) ≡ false =
      rw (code-digit n) (digit_no_space (n % 10) (omega arith)) in
    let more : All (λ c. is_space c ≡ false)
        (codes (String.◌∷◌ (char_at "0123456789" (n % 10)) acc)) =
      (digit, h) in
    elim (Bool-cases (ltb n 10)) [
      | inl small ↦ rw small more
      | inr large ↦
          rw large (
            put_digits_no_space fuel (n / 10) (String.◌∷◌ (char_at "0123456789" (n % 10)) acc) more)
    ]

trim_back_same : (s : Bytes) → All (λ c. is_space c ≡ false) s → trim_back s ≡ s
trim_back_same [] h = refl
trim_back_same (c ∷ s) h = let here = h.0 in rw here (ap (λ s. c ∷ s) (trim_back_same s h.1))

trim_front_same : (s : Bytes) → All (λ c. is_space c ≡ false) s → trim_front s ≡ s
trim_front_same [] h = refl
trim_front_same (c ∷ s) h = let here = h.0 in rw here refl

trim_codes-itoa : (n : ℕ) → trim_codes (codes (itoa (pos n))) ≡ codes (itoa (pos n))
unfolding trim_codes itoa
trim_codes-itoa n =
    let plain = put_digits_no_space (suc n) n "" tt in
    ap trim_back (trim_front_same _ plain) ∙ trim_back_same _ plain

module _ (C : Crypto) (laws : IsCrypto C) (K : KeyCodec) (codec : IsKeyCodec C K) where
  purpose_id : C.coerce signed_id_purpose ≡ signed_id_purpose
  purpose_id = laws.coerce_ascii signed_id_purpose (
    omega arith,
    (omega arith, (omega arith, (omega arith, (omega arith, (omega arith, (omega arith, tt)))))),
  )

  purpose_key : C.coerce blob_key_purpose ≡ blob_key_purpose
  purpose_key = laws.coerce_ascii blob_key_purpose (
    omega arith,
    (
      omega arith,
      (omega arith, (omega arith, (omega arith, (omega arith, (omega arith, (omega arith, tt)))))),
    ),
  )

  -- The signed id of a blob verifies to the id, at any time.
  pub verify_signed_id-generate_signed_id :
      (base token : Bytes) (id now : ℕ)
      → id ≤ max_int64
      → generate_signed_id C base id ≡ some token
      → verify_signed_id C base now token ≡ some (pos id)
  unfolding generate_signed_id verify_signed_id
  verify_signed_id-generate_signed_id base token id now small made =
      let read =
        verify-generate C now laws base (codes (itoa (pos id))) signed_id_purpose [] token made
          purpose_id (laws.coerce_ascii [] tt) (inl refl) in
      ap (id_of C) read
      ∙ ap (λ b. parse_int (trim_codes b)) (codec.compact_number id)
      ∙ ap parse_int (trim_codes-itoa id)
      ∙ parse_int-itoa (pos id) small

  marshalled :
      (base token : Bytes) (d : BlobKeyData) (payload : Option Bytes) (until now : ℕ)
      → K.marshal d ≡ payload
      → key_for C K base until payload ≡ some token
      → now + millisecond ≤ until
      → key_of C K (verify C base now token blob_key_purpose) ≡ some (as_text C d)
  marshalled base token d none until now at made early = cc
  marshalled base token d (some payload) until now at made early =
      let read =
        verify-generate C now laws base payload blob_key_purpose (K.format_time until) token made
          purpose_key (codec.coerce_time until)
          (inr (until / millisecond * millisecond, codec.parse_format until, omega arith)) in
      ap (key_of C K) read
      ∙ ap K.unmarshal (codec.compact-marshal d payload at)
      ∙ codec.unmarshal-marshal d payload at

  -- A key that was generated verifies, until a millisecond before it expires, to what was signed,
  -- with what is not UTF-8 in its texts replaced.
  pub verify_blob_key-generate_blob_key :
      (base token : Bytes) (d : BlobKeyData) (made_at expires_in now : ℕ)
      → generate_blob_key C K base made_at d expires_in ≡ some token
      → now + millisecond ≤ made_at + expires_in
      → verify_blob_key C K base now token ≡ some (as_text C d)
  unfolding generate_blob_key verify_blob_key
  verify_blob_key-generate_blob_key base token d made_at expires_in now made early =
      marshalled base token d (K.marshal d) (made_at + expires_in) now refl made early
