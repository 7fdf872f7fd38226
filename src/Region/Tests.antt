-- ===== src/Region/Tests.antt =====
-- The manifest check and the resolver at concrete manifests.
use mathlib.Core.List.{Memᴰ}
use trekr_go.Prelude.{ℕ, String, none, List, [], ◌∷◌, ◌≡◌, ◌≢◌, ◌↔◌, refl, AllPairs}
use trekr_go.Region.{
  Region, Decoded, decoded, parsed, parse_failed, manifest_error, bump, count_towns, count_regions,
  dupes, insert, sort_strings, join, error_message, ensure_unique_towns, parse, resolve, resolve_in,
  all_towns,
}
use trekr_go.Region.Towns.{ensure_unique_towns_iff}
use trekr_go.Region.Resolver.{resolve-eq-slug, resolve_order_free}

abbrev region : String → List String → Region
region slug towns = record { slug = slug; name = slug; state = "NSW"; towns = towns; doc = "" }

abbrev two_regions : List Region
two_regions =
    region "sydney" ("Sydney" ∷ "Bondi Beach" ∷ []) ∷ region "byron-bay" ("Byron Bay" ∷ []) ∷ []

abbrev clashing : List Region
clashing = region "b" ("Sydney" ∷ "Lorne" ∷ []) ∷ region "a" ("Lorne" ∷ "Sydney" ∷ []) ∷ []

steps : Unit {0}
unfolding parse ensure_unique_towns count_regions count_towns bump dupes sort_strings insert join
    error_message resolve resolve_in
steps = tt

-- A decoder that gives these regions, whatever the bytes.
abbrev yields : List Region → List ℕ → Decoded
yields regions bytes = decoded regions

accepted_manifest : parse (yields two_regions) [] ≡ parsed (record { regions = two_regions })
unfolding steps
accepted_manifest = refl

refused_manifest :
    parse (yields clashing) []
    ≡ parse_failed (
        manifest_error
          "regions.yml maps Lorne, Sydney to more than one region; each town must resolve to exactly one region (ADR-0013).")
unfolding steps
refused_manifest = refl

ensure_unique_towns_iff_example :
    (ensure_unique_towns two_regions ≡ none) ↔ AllPairs (λ a b. a ≢ b) (all_towns two_regions)
ensure_unique_towns_iff_example = ensure_unique_towns_iff two_regions

resolve-eq-slug_example :
    resolve (record { regions = two_regions }) "Byron Bay" "NSW" "2481" ≡ "byron-bay"
unfolding steps
resolve-eq-slug_example =
    resolve-eq-slug (yields two_regions) [] (record { regions = two_regions })
      (region "byron-bay" ("Byron Bay" ∷ [])) "Byron Bay" "NSW" "2481" refl
      (Memᴰ.tail (Memᴰ.head refl)) (Memᴰ.head refl)

nowhere : resolve (record { regions = two_regions }) "Perth" "WA" "6000" ≡ ""
unfolding steps
nowhere = refl

abbrev swapped : List Region
swapped =
    region "byron-bay" ("Byron Bay" ∷ []) ∷ region "sydney" ("Sydney" ∷ "Bondi Beach" ∷ []) ∷ []

abbrev by_first_byte : List ℕ → Decoded
by_first_byte [] = decoded two_regions
by_first_byte (b ∷ bytes) = decoded swapped

swap_two : {a b : Region} (r : Region) → Memᴰ r (a ∷ b ∷ []) → Memᴰ r (b ∷ a ∷ [])
swap_two r (Memᴰ.head e) = Memᴰ.tail (Memᴰ.head e)
swap_two r (Memᴰ.tail (Memᴰ.head e)) = Memᴰ.head e
swap_two r (Memᴰ.tail (Memᴰ.tail m)) = elim m [ ]

resolve_order_free_example :
    resolve (record { regions = two_regions }) "Sydney" "NSW" "2000"
    ≡ resolve (record { regions = swapped }) "Sydney" "NSW" "2000"
unfolding steps
resolve_order_free_example =
    resolve_order_free by_first_byte [] (1 ∷ []) (record { regions = two_regions })
      (record { regions = swapped }) "Sydney" "NSW" "2000" refl refl swap_two swap_two
