-- ===== src/Region.antt =====
-- internal/region/region.go: the manifest of regions, its check at load, and the resolver. The YAML
-- decoder is a library: `parse` takes it as an argument.
pub mod Towns
pub mod Resolver
mod Tests
use Prim.Native.String
use text.Mathlib.Text.{is_le}
use trekr_go.Prelude.{
  ℕ, suc, String, Bool, true, false, Option, none, some, List, [], ◌∷◌, ◌++◌, ltb, ◌==◌,
  string_instance, any, if◌then◌else◌,
}

pub record Region : Type 0 where
  pub slug : String
  pub name : String
  pub state : String
  pub towns : List String
  pub doc : String

pub record Manifest : Type 0 where
  pub regions : List Region

pub data ParseError : Type 0 where
  bad_yaml manifest_error : String → ParseError

pub data Parsed : Type 0 where
  parsed : Manifest → Parsed
  parse_failed : ParseError → Parsed

-- The `counts` map, as an association list.
abbrev pub Counts : Type 0
Counts = List (String × ℕ)

-- `counts[t]++`
unfoldable pub bump : String → Counts → Counts
bump t [] = (t, 1) ∷ []
bump t ((k, n) ∷ m) = if k == t then (k, suc n) ∷ m else (k, n) ∷ bump t m

unfoldable pub count_towns : List String → Counts → Counts
count_towns [] m = m
count_towns (t ∷ ts) m = count_towns ts (bump t m)

unfoldable pub count_regions : List Region → Counts → Counts
count_regions [] m = m
count_regions (r ∷ rs) m = count_regions rs (count_towns r.towns m)

unfoldable pub dupes : Counts → List String
dupes [] = []
dupes ((k, n) ∷ m) = if ltb 1 n then k ∷ dupes m else dupes m

-- `sort.Strings`
unfoldable pub insert : String → List String → List String
insert a [] = a ∷ []
insert a (b ∷ l) = if is_le (String.compare a b) then a ∷ b ∷ l else b ∷ insert a l

unfoldable pub sort_strings : List String → List String
sort_strings [] = []
sort_strings (a ∷ l) = insert a (sort_strings l)

-- `strings.Join`
unfoldable pub join : String → List String → String
join sep [] = ""
join sep (a ∷ []) = a
join sep (a ∷ b ∷ l) = String.◌++◌ a (String.◌++◌ sep (join sep (b ∷ l)))

unfoldable pub error_message : List String → String
error_message towns = String.◌++◌ "regions.yml maps " (
    String.◌++◌ (join ", " towns) (
      String.◌++◌ " to more than one region; "
        "each town must resolve to exactly one region (ADR-0013)."))

abbrev duplicate_error : List String → Option String
duplicate_error [] = none
duplicate_error (t ∷ ts) = some (error_message (sort_strings (t ∷ ts)))

-- `ensureUniqueTowns`: the message of the error, if there is one.
unfoldable pub ensure_unique_towns : List Region → Option String
ensure_unique_towns regions = duplicate_error (dupes (count_regions regions []))

abbrev pub checked : List Region → Option String → Parsed
checked regions none = parsed (record { regions = regions })
checked regions (some message) = parse_failed (manifest_error message)

-- What the decoder makes of the bytes: the regions, or the text of its error.
pub data Decoded : Type 0 where
  decoded : List Region → Decoded
  undecodable : String → Decoded

abbrev pub validated : Decoded → Parsed
validated (decoded regions) = checked regions (ensure_unique_towns regions)
validated (undecodable message) =
    parse_failed (bad_yaml (String.◌++◌ "region: parsing manifest: " message))

-- `Parse`
unfoldable pub parse : (List ℕ → Decoded) → List ℕ → Parsed
parse unmarshal bytes = validated (unmarshal bytes)

find_in : String → List Region → Option Region
find_in slug [] = none
find_in slug (r ∷ rs) = if r.slug == slug then some r else find_in slug rs

-- `Manifest.Find`
unfoldable pub find : Manifest → String → Option Region
unfolding find_in
find m slug = find_in slug m.regions

unfoldable pub resolve_in : String → List Region → String
resolve_in town [] = ""
resolve_in town (r ∷ rs) = if any r.towns (λ t. t == town) then r.slug else resolve_in town rs

-- `Manifest.Resolve`: the state and the postcode are not looked at.
unfoldable pub resolve : Manifest → String → String → String → String
resolve m town state postcode = resolve_in town m.regions

-- The towns of all regions, in file order.
abbrev pub all_towns : List Region → List String
all_towns [] = []
all_towns (r ∷ rs) = r.towns ++ all_towns rs
