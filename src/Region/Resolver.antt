-- ===== src/Region/Resolver.antt =====
-- The resolver over a manifest that passed the check: a town has one region, wherever it stands.
use mathlib.Core.List.{Memᴰ}
use trekr_go.Prelude.{
  ℕ, String, true, false, List, [], ◌∷◌, ◌≡◌, ◌≢◌, ◌⊎◌, inl, inr, refl, sym, ap, ◌∙◌, ◌==◌,
  string_instance, eq_iff, any, AllPairs, mem-append_left, mem-append_right, AllPairs-split,
  Option-cases, Bool-cases, arith, subst,
}
use trekr_go.Region.{
  Region, Manifest, Decoded, decoded, undecodable, validated, parsed, ensure_unique_towns, parse,
  resolve_in, resolve, all_towns,
}
use trekr_go.Region.Towns.{ensure_unique_towns_iff}

-- Some region of the list lists the town.
pub record Covers (town : String) (rs : List Region) (r : Region) : Type 0 where
  pub listed : Memᴰ r rs
  pub has_town : Memᴰ town r.towns

mem-of_any : (t : String) (ts : List String) → any ts (λ u. u == t) ≡ true → Memᴰ t ts
mem-of_any t [] h = cc
mem-of_any t (u ∷ ts) h = elim (Bool-cases (u == t)) [
  | inl same ↦ Memᴰ.head (sym ((eq_iff u t).0 same))
  | inr other ↦ Memᴰ.tail (mem-of_any t ts (ground arith))
]

any-of_mem : (t : String) (ts : List String) → Memᴰ t ts → any ts (λ u. u == t) ≡ true
any-of_mem t [] m = elim m [ ]
any-of_mem t (u ∷ ts) (Memᴰ.head e) = ground (arith, eq_iff u t)
any-of_mem t (u ∷ ts) (Memᴰ.tail m) = ground (arith, any-of_mem t ts m)

not_covered :
    (t : String) (q : Region) (rs : List Region)
    → any q.towns (λ u. u == t) ≡ false
    → ((r : Region) → Covers t rs r → ⊥)
    → (r : Region) → Covers t (q ∷ rs) r
    → ⊥
not_covered t q rs missing none_later r c = at c.listed
  where
    at : Memᴰ r (q ∷ rs) → ⊥
    at (Memᴰ.head e) = cc (any-of_mem t q.towns (subst (λ x. Memᴰ t x.towns) e c.has_town))
    at (Memᴰ.tail m) = none_later r (record { listed = m; has_town = c.has_town })

-- The resolver finds a region that lists the town, or there is none.
resolve_in-cases :
    (t : String) (rs : List Region)
    → ((r : Region) × Covers t rs r × (resolve_in t rs ≡ r.slug))
      ⊎ (((r : Region) → Covers t rs r → ⊥) × (resolve_in t rs ≡ ""))
unfolding resolve_in
resolve_in-cases t [] = inr ((λ r c. elim c.listed [ ]), refl)
resolve_in-cases t (q ∷ rs) = elim (Bool-cases (any q.towns (λ u. u == t))) [
  | inl here ↦
      inl (q, record { listed = Memᴰ.head refl; has_town = mem-of_any t q.towns here }, rw here)
  | inr missing ↦ elim (resolve_in-cases t rs) [
    | inl (r, c, e) ↦
        inl (r, record { listed = Memᴰ.tail c.listed; has_town = c.has_town }, rw missing e)
    | inr (no_region, e) ↦ inr (not_covered t q rs missing no_region, rw missing e)
  ]
]

mem-all_towns :
    {r : Region} (t : String) (rs : List Region)
    → Memᴰ r rs
    → Memᴰ t r.towns
    → Memᴰ t (all_towns rs)
mem-all_towns t [] m h = elim m [ ]
mem-all_towns t (q ∷ rs) (Memᴰ.head e) h =
    mem-append_left q.towns (all_towns rs) (subst (λ x. Memᴰ t x.towns) e h)
mem-all_towns t (q ∷ rs) (Memᴰ.tail m) h =
    mem-append_right q.towns (all_towns rs) (mem-all_towns t rs m h)

resolve_in-eq-slug :
    (t : String) (rs : List Region) (r : Region)
    → AllPairs (λ a b. a ≢ b) (all_towns rs)
    → Memᴰ r rs
    → Memᴰ t r.towns
    → resolve_in t rs ≡ r.slug
unfolding resolve_in
resolve_in-eq-slug t [] r u m h = elim m [ ]
resolve_in-eq-slug t (q ∷ rs) r u (Memᴰ.head e) h =
    rw (any-of_mem t q.towns (subst (λ x. Memᴰ t x.towns) e h)) (ap (λ x. x.slug) (sym e))
resolve_in-eq-slug t (q ∷ rs) r u (Memᴰ.tail m) h =
    let (_, rest, apart) = AllPairs-split (λ a b. a ≢ b) q.towns (all_towns rs) u in
    elim (Bool-cases (any q.towns (λ u. u == t))) [
      | inl here ↦ absurd (apart t t (mem-of_any t q.towns here) (mem-all_towns t rs m h) refl)
      | inr missing ↦ rw missing (resolve_in-eq-slug t rs r rest m h)
    ]

validated_unique :
    (d : Decoded) (m : Manifest)
    → validated d ≡ parsed m
    → AllPairs (λ a b. a ≢ b) (all_towns m.regions)
validated_unique (undecodable message) m h = cc
validated_unique (decoded regions) m h = elim (Option-cases (ensure_unique_towns regions)) [
  | inl passed ↦
      let same : regions ≡ m.regions = ground (arith, passed) in
      rw (← same) ((ensure_unique_towns_iff regions).0 passed)
  | inr (message, refused) ↦ absurd (ground (arith, refused))
]

resolve-cases :
    (m : Manifest) (town state postcode : String)
    → ((r : Region) × Covers town m.regions r × (resolve m town state postcode ≡ r.slug))
      ⊎ (((r : Region) → Covers town m.regions r → ⊥) × (resolve m town state postcode ≡ ""))
unfolding resolve
resolve-cases m town state postcode = resolve_in-cases town m.regions

module _ (unmarshal : List ℕ → Decoded) (bytes : List ℕ) (m : Manifest) where
  parsed_unique : parse unmarshal bytes ≡ parsed m → AllPairs (λ a b. a ≢ b) (all_towns m.regions)
  unfolding parse
  parsed_unique h = validated_unique (unmarshal bytes) m h

  -- In a manifest that `Parse` returns, a town of a region resolves to the slug of that region,
  -- whatever the state, the postcode and the order of the file.
  pub resolve-eq-slug :
      (r : Region) (town state postcode : String)
      → parse unmarshal bytes ≡ parsed m
      → Memᴰ r m.regions
      → Memᴰ town r.towns
      → resolve m town state postcode ≡ r.slug
  unfolding resolve
  resolve-eq-slug r town state postcode h listed has_town =
      resolve_in-eq-slug town m.regions r (parsed_unique h) listed has_town

-- Two accepted manifests with the same regions, in any order, resolve every location alike.
pub resolve_order_free :
    (unmarshal : List ℕ → Decoded) (bytes bytes' : List ℕ) (m m' : Manifest)
    (town state postcode : String)
    → parse unmarshal bytes ≡ parsed m
    → parse unmarshal bytes' ≡ parsed m'
    → ((r : Region) → Memᴰ r m.regions → Memᴰ r m'.regions)
    → ((r : Region) → Memᴰ r m'.regions → Memᴰ r m.regions)
    → resolve m town state postcode ≡ resolve m' town state postcode
resolve_order_free unmarshal bytes bytes' m m' town state postcode h h' to from =
    elim (resolve-cases m town state postcode) [
      | inl (r, c, e) ↦
          e
          ∙ sym (
              resolve-eq-slug unmarshal bytes' m' r town state postcode h' (to r c.listed)
                c.has_town)
      | inr (nowhere, e) ↦ elim (resolve-cases m' town state postcode) [
        | inl (r, c, e') ↦
            absurd (nowhere r (record { listed = from r c.listed; has_town = c.has_town }))
        | inr (_, e') ↦ e ∙ sym e'
      ]
    ]
