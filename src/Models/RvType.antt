-- ===== src/Models/RvType.antt =====
-- internal/models/rv_listing.go: the enum rv_type and its names.
use trekr_go.Prelude.{
  ℕ, zero, suc, String, Option, none, some, ◌<◌, ◌≡◌, refl, sym, ap, ◌∙◌, ◌↔◌, ◌==◌, nat_instance,
  string_instance, eq_iff, if◌then◌else◌, arith,
}

unfoldable pub rv_type_name : ℕ → String
rv_type_name n =
    if n == 0
    then "caravan"
    else if n == 1
    then "motorhome"
    else if n == 2
    then "camper_trailer"
    else ""

unfoldable pub rv_type_value : String → Option ℕ
rv_type_value name =
    if name == "caravan"
    then some 0
    else if name == "motorhome"
    then some 1
    else if name == "camper_trailer"
    then some 2
    else none

too_large : (n : ℕ) → suc (suc (suc n)) < 3 → ⊥
too_large n h = omega arith

-- The name of each of the three values.
value-rv_type_name : (n : ℕ) → n < 3 → rv_type_value (rv_type_name n) ≡ some n
unfolding rv_type_name rv_type_value
value-rv_type_name zero h = refl
value-rv_type_name (suc zero) h = refl
value-rv_type_name (suc (suc zero)) h = refl
value-rv_type_name (suc (suc (suc n))) h = elim (too_large n h) [ ]

-- A name has the value `n` exactly if it is the name of `n`, and `n` is one of the three values.
pub rv_type_value_iff :
    (name : String) (n : ℕ) → (rv_type_value name ≡ some n) ↔ ((n < 3) × (rv_type_name n ≡ name))
unfolding rv_type_name rv_type_value
rv_type_value_iff name n = (
  λ h. ground (arith, eq_iff name "caravan", eq_iff name "motorhome", eq_iff name "camper_trailer"),
  λ h. ap rv_type_value (sym h.1) ∙ value-rv_type_name n h.0,
)
