-- ===== src/Storage/Verifier/Laws.antt =====
-- What a token that verifies says, and that a generated token verifies.
use trekr_go.Prelude.{
  ℕ, true, ◌&&◌, Option, none, some, [], ◌∷◌, ◌++◌, ◌≡◌, ◌≢◌, ◌≤◌, ◌⊎◌, inl, inr, refl, sym, ap,
  ◌∙◌, ◌==◌, nat_instance, list_instance, list_eq_iff, Bytes, All, arith, Bool-cases,
}
use trekr_go.Storage.Verifier.{
  RailsMeta, Crypto, IsCrypto, verified, cut, trim_newlines, signed, generate, verify, check_cut,
  check_expiry, check_with, sealed, generate_with, prepend,
}

-- A text without a dash is cut off whole.
cut-append : (p s : Bytes) → All (λ c. c ≢ b'-') p → cut (p ++ b'-' ∷ b'-' ∷ s) ≡ some (p, s)
unfolding cut
cut-append [] s h = refl
cut-append (c ∷ []) s h = ground (arith, h.0)
cut-append (c ∷ d ∷ p) s h = ground (arith, h.0, cut-append (d ∷ p) s h.1)

-- What is cut is what was joined.
append-cut : (t p s : Bytes) → cut t ≡ some (p, s) → t ≡ p ++ b'-' ∷ b'-' ∷ s
unfolding cut
append-cut [] p s h = cc
append-cut (c ∷ []) p s h = cc
append-cut (c ∷ d ∷ t) p s h = elim (Bool-cases (c == b'-' && d == b'-')) [
  | inl e ↦
      let here : ◌≡◌ {A = Option (Bytes × Bytes)} (some ([], t)) (some (p, s)) = rw e at h in
      let no_payload : [] ≡ p = cc in
      let rest : t ≡ s = cc in
      let first_dash : c ≡ b'-' = ground arith in
      let second_dash : d ≡ b'-' = ground arith in
      rw (← no_payload, ← rest, first_dash, second_dash) refl
  | inr e ↦ later (cut (d ∷ t)) refl (rw e at h) (λ p' s'. append-cut (d ∷ t) p' s')
]
  where
    later :
        (r : Option (Bytes × Bytes))
        → cut (d ∷ t) ≡ r
        → prepend c r ≡ some (p, s)
        → ((p' s' : Bytes) → cut (d ∷ t) ≡ some (p', s') → d ∷ t ≡ p' ++ b'-' ∷ b'-' ∷ s')
        → c ∷ d ∷ t ≡ p ++ b'-' ∷ b'-' ∷ s
    later none at h inner = cc
    later (some (p', s')) at h inner =
        let joined : c ∷ p' ≡ p = cc in
        let rest : s' ≡ s = cc in rw (← joined, ← rest) (ap (λ l. c ∷ l) (inner p' s' at))

eq_self : (b : Bytes) → (b == b) ≡ true
eq_self b = (list_eq_iff b b).1 refl

-- The token has no expiry, or one that has not passed.
abbrev pub IsFresh : Crypto → Bytes → ℕ → Type 0
IsFresh C exp now = (exp ≡ []) ⊎ ((time : ℕ) × (C.parse_time exp ≡ some time) × (now ≤ time))

-- The strings of an envelope that the encoder does not change.
abbrev IsText : Crypto → RailsMeta → Type 0
IsText C m = (C.coerce m.exp ≡ m.exp) × (C.coerce m.pur ≡ m.pur)

module _ (C : Crypto) (now : ℕ) where
  check_expiry-verified :
      (m : RailsMeta) → IsFresh C m.exp now → check_expiry C now m ≡ verified m.payload
  check_expiry-verified m (inl none_given) = rw none_given refl
  check_expiry-verified m (inr (time, at, later)) = elim (Bool-cases (m.exp == [])) [
    | inl e ↦ rw e refl
    | inr e ↦ rw (e, at) (ground arith)
  ]

  module _ (laws : IsCrypto C) where
    check_cut-sealed :
        (secret : Bytes) (m : RailsMeta) (json : Option Bytes) (token : Bytes)
        → C.encode_json m ≡ json
        → sealed C secret json ≡ some token
        → IsText C m
        → IsFresh C m.exp now
        → check_cut C secret now m.pur (cut token) ≡ verified (C.compact m.payload)
    check_cut-sealed secret m none token at h text fresh = cc
    check_cut-sealed secret m (some b) token at h text fresh =
        let p = C.encode64 (trim_newlines b) in
        let same : signed C secret p ≡ token = cc in
        let parts : cut token ≡ some (p, C.hmac_hex secret p) =
          rw (← same)
            (cut-append p (C.hmac_hex secret p) (laws.encode64_no_dash (trim_newlines b))) in
        rw
          (
            parts,
            eq_self (C.hmac_hex secret p),
            laws.decode-encode64 (trim_newlines b),
            laws.decode-encode_json m b at,
            text.0,
            text.1,
            eq_self m.pur,
          )
          (check_expiry-verified (record m { payload = C.compact m.payload }) fresh)

    with_secret :
        (secret : Option Bytes) (m : RailsMeta) (token : Bytes)
        → generate_with C secret m ≡ some token
        → IsText C m
        → IsFresh C m.exp now
        → check_with C secret now token m.pur ≡ verified (C.compact m.payload)
    with_secret none m token h text fresh = cc
    with_secret (some secret) m token h text fresh =
        check_cut-sealed secret m (C.encode_json m) token refl h text fresh

    -- A token that was generated verifies for its purpose, and gives back what was signed, without
    -- its insignificant space, if the purpose and the expiry are UTF-8 and there is no expiry or one
    -- that has not passed.
    pub verify-generate :
        (base content purpose exp token : Bytes)
        → generate C base content purpose exp ≡ some token
        → C.coerce purpose ≡ purpose
        → C.coerce exp ≡ exp
        → IsFresh C exp now
        → verify C base now token purpose ≡ verified (C.compact content)
    unfolding generate verify
    verify-generate base content purpose exp token h plain plain_exp fresh =
        with_secret (C.derive base) (record { payload = content; exp = exp; pur = purpose }) token h
          (plain_exp, plain) fresh

  check_cut-eq-verified :
      (secret token purpose content : Bytes) (parts : Option (Bytes × Bytes))
      → cut token ≡ parts
      → check_cut C secret now purpose parts ≡ verified content
      → (p : Bytes) × (token ≡ signed C secret p)
  check_cut-eq-verified secret token purpose content none at h = cc
  check_cut-eq-verified secret token purpose content (some (p, s)) at h =
      elim (Bool-cases (C.hmac_hex secret p == s)) [
        | inl e ↦ (
          p,
          append-cut token p s at
              ∙ ap (λ s'. p ++ b'-' ∷ b'-' ∷ s') (sym ((list_eq_iff (C.hmac_hex secret p) s).0 e)),
        )
        | inr e ↦ let refused = rw e at h in cc
      ]

  -- A token that verifies, for whatever purpose, is a payload with its HMAC under the secret.
  pub verify-signed :
      (base token purpose content : Bytes)
      → verify C base now token purpose ≡ verified content
      → (secret : Bytes) × (p : Bytes) × (C.derive base ≡ some secret) × (token ≡ signed C secret p)
  unfolding verify
  verify-signed base token purpose content h = by_secret (C.derive base) refl h
    where
      by_secret :
          (secret : Option Bytes)
          → C.derive base ≡ secret
          → check_with C secret now token purpose ≡ verified content
          → (k : Bytes) × (p : Bytes) × (C.derive base ≡ some k) × (token ≡ signed C k p)
      by_secret none at h = cc
      by_secret (some k) at h =
          let (p, same) = check_cut-eq-verified k token purpose content (cut token) refl h in
          (k, p, at, same)
