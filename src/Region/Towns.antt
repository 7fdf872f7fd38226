-- ===== src/Region/Towns.antt =====
-- `ensureUniqueTowns` accepts exactly the manifests in which no town is listed twice.
use trekr_go.Prelude.{
  ℕ, ◌+◌, ◌≤◌, String, none, List, [], ◌∷◌, ◌++◌, ◌≡◌, ◌≢◌, ◌↔◌, refl, ◌==◌, string_instance,
  eq_iff, if◌then◌else◌, All, AllPairs, arith, Bool-cases, inl, inr,
}
use trekr_go.Region.{
  Region, Counts, bump, count_towns, count_regions, dupes, ensure_unique_towns, all_towns,
}

abbrev get : String → Counts → ℕ
get t [] = 0
get t ((k, n) ∷ m) = if k == t then n else get t m

abbrev occurrences : String → List String → ℕ
occurrences t [] = 0
occurrences t (k ∷ ks) = (if k == t then 1 else 0) + occurrences t ks

get-bump : (t u : String) (m : Counts) → get u (bump t m) ≡ get u m + (if t == u then 1 else 0)
unfolding bump
get-bump t u [] = ground (arith, eq_iff t u)
get-bump t u ((k, n) ∷ m) = ground (arith, get-bump t u m, eq_iff k t, eq_iff k u, eq_iff t u)

get-count_towns :
    (u : String) (ts : List String) (m : Counts)
    → get u (count_towns ts m) ≡ get u m + occurrences u ts
unfolding count_towns
get-count_towns u [] m = omega arith
get-count_towns u (t ∷ ts) m = omega (arith, get-count_towns u ts (bump t m), get-bump t u m)

occurrences-append :
    (u : String) (xs ys : List String)
    → occurrences u (xs ++ ys) ≡ occurrences u xs + occurrences u ys
occurrences-append u [] ys = omega arith
occurrences-append u (x ∷ xs) ys = omega (arith, occurrences-append u xs ys)

get-count_regions :
    (u : String) (rs : List Region) (m : Counts)
    → get u (count_regions rs m) ≡ get u m + occurrences u (all_towns rs)
unfolding count_regions
get-count_regions u [] m = omega arith
get-count_regions u (r ∷ rs) m = omega (
  arith,
  get-count_regions u rs (count_towns r.towns m),
  get-count_towns u r.towns m,
  occurrences-append u r.towns (all_towns rs),
)

-- An entry is what a lookup of its key finds: the keys are distinct.
abbrev HasDistinctKeys : Counts → Type 0
HasDistinctKeys = AllPairs (λ a b. a.0 ≢ b.0)

bump-All-ne :
    (k t : String) (m : Counts) → k ≢ t → All (λ e. k ≢ e.0) m → All (λ e. k ≢ e.0) (bump t m)
unfolding bump
bump-All-ne k t [] ne h = (ne, tt)
bump-All-ne k t ((j, n) ∷ m) ne h = elim (Bool-cases (j == t)) [
  | inl same ↦ rw same h
  | inr other ↦ rw other (h.0, bump-All-ne k t m ne h.1)
]

bump-HasDistinctKeys : (t : String) (m : Counts) → HasDistinctKeys m → HasDistinctKeys (bump t m)
unfolding bump
bump-HasDistinctKeys t [] h = (tt, tt)
bump-HasDistinctKeys t ((k, n) ∷ m) h = elim (Bool-cases (k == t)) [
  | inl same ↦ rw same h
  | inr other ↦
      rw other
        (bump-All-ne k t m (λ e. ground (arith, eq_iff k t)) h.0, bump-HasDistinctKeys t m h.1)
]

count_towns-HasDistinctKeys :
    (ts : List String) (m : Counts) → HasDistinctKeys m → HasDistinctKeys (count_towns ts m)
unfolding count_towns
count_towns-HasDistinctKeys [] m h = h
count_towns-HasDistinctKeys (t ∷ ts) m h =
    count_towns-HasDistinctKeys ts (bump t m) (bump-HasDistinctKeys t m h)

count_regions-HasDistinctKeys :
    (rs : List Region) (m : Counts) → HasDistinctKeys m → HasDistinctKeys (count_regions rs m)
unfolding count_regions
count_regions-HasDistinctKeys [] m h = h
count_regions-HasDistinctKeys (r ∷ rs) m h =
    count_regions-HasDistinctKeys rs _ (count_towns-HasDistinctKeys r.towns m h)

get-of_absent : (k : String) (m : Counts) → All (λ e. k ≢ e.0) m → get k m ≡ 0
get-of_absent k [] h = refl
get-of_absent k ((j, n) ∷ m) h = ground (arith, eq_iff j k, get-of_absent k m)

get-le-one : (u : String) (m : Counts) → dupes m ≡ [] → get u m ≤ 1
unfolding dupes
get-le-one u [] h = omega arith
get-le-one u ((k, n) ∷ m) h = ground (arith, get-le-one u m)

dupes-eq-nil : (m : Counts) → HasDistinctKeys m → ((u : String) → get u m ≤ 1) → dupes m ≡ []
unfolding dupes
dupes-eq-nil [] d h = refl
dupes-eq-nil ((k, n) ∷ m) d h = ground (
  arith,
  h k,
  eq_iff k k,
  dupes-eq-nil m d.1 (λ u. ground (arith, h u, eq_iff k u, get-of_absent k m d.0)),
)

occurrences-eq-zero : (x : String) (xs : List String) → (occurrences x xs ≡ 0) ↔ All (λ y. x ≢ y) xs
occurrences-eq-zero x [] = (λ _. tt, λ _. refl)
occurrences-eq-zero x (y ∷ ys) = (
  λ h. (λ e. ground (arith, eq_iff y x), (occurrences-eq-zero x ys).0 (ground arith)),
  λ h. ground (arith, eq_iff y x, (occurrences-eq-zero x ys).1 h.1),
)

occurrences-le-one :
    (xs : List String) → ((u : String) → occurrences u xs ≤ 1) ↔ AllPairs (λ a b. a ≢ b) xs
occurrences-le-one [] = (λ _. tt, λ _ u. omega arith)
occurrences-le-one (x ∷ xs) = (
  λ h. (
    (occurrences-eq-zero x xs).0 (ground (arith, h x, eq_iff x x)),
    (occurrences-le-one xs).0 (λ u. ground (arith, h u)),
  ),
  λ h u.
      ground (arith, eq_iff x u, (occurrences-eq-zero x xs).1 h.0, (occurrences-le-one xs).1 h.1 u),
)

-- The check passes exactly when no two places of the manifest list the same town; a town listed
-- twice in one region fails it too.
pub ensure_unique_towns_iff :
    (regions : List Region)
    → (ensure_unique_towns regions ≡ none) ↔ AllPairs (λ a b. a ≢ b) (all_towns regions)
unfolding ensure_unique_towns
ensure_unique_towns_iff regions = (
  λ h. (occurrences-le-one (all_towns regions)).0 (λ u. omega (
    arith,
    get-count_regions u regions [],
    get-le-one u (count_regions regions []) (ground arith),
  )),
  λ h.
      let counted = count_regions regions [] in
      rw (
        dupes-eq-nil counted (count_regions-HasDistinctKeys regions [] tt) (λ u.
          omega (
            arith,
            get-count_regions u regions [],
            (occurrences-le-one (all_towns regions)).1 h u,
          ))),
)
