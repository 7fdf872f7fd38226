-- ===== src/Models/Tests.antt =====
-- The theorem on the names of the enum at a concrete input.
use trekr_go.Prelude.{some, ◌≡◌, ◌<◌, ◌↔◌, string_instance, nat_instance}
use trekr_go.Models.RvType.{rv_type_name, rv_type_value, rv_type_value_iff}

rv_type_value_iff_example :
    (rv_type_value "motorhome" ≡ some 1) ↔ ((1 < 3) × (rv_type_name 1 ≡ "motorhome"))
rv_type_value_iff_example = rv_type_value_iff "motorhome" 1
