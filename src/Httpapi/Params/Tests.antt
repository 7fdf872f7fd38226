-- ===== src/Httpapi/Params/Tests.antt =====
-- Requests for a listing as they are read.
use trekr_go.Prelude.{none, some, [], ◌∷◌, ◌≡◌, refl, codes, Option, String, ℕ}
use trekr_go.GoText.{trim_space, parse_int, read_digits, parse_bool}
use trekr_go.Models.{pos}
use trekr_go.Httpapi.Params.{
  Form, is_multipart, form_val, multipart_listing_params, collect_files, json_listing_params,
  parse_listing_request, parse_image_upload, listing_file_keys,
}

abbrev no_float : String → Option ℕ
no_float v = none

abbrev form : Form
form = record {
  value =
      ("listing[title]", "Van" ∷ "Car" ∷ [])
      ∷ ("listing[max_guests]", " 4 " ∷ [])
      ∷ ("listing[pet_friendly]", "yes" ∷ [])
      ∷ ("listing[town]", [])
      ∷ [];
  file =
      ("images[]", (record { filename = "b"; content_type = ""; bytes = some (1 ∷ []) }) ∷ [])
      ∷ ("images", (record { filename = "c"; content_type = "image/png"; bytes = none }) ∷ [])
      ∷ [];
}

steps : Unit {0}
unfolding trim_space parse_int read_digits parse_bool is_multipart form_val multipart_listing_params
    collect_files json_listing_params parse_listing_request parse_image_upload
steps = tt

fields :
    let p = multipart_listing_params no_float form in
    (p.title ≡ some "Van")
    × (p.town ≡ none)
    × (p.max_guests ≡ some (pos 4))
    × (p.pet_friendly ≡ none)
unfolding steps
fields = (refl, refl, refl, refl)

files :
    collect_files form listing_file_keys
    ≡ some (
        (record { filename = "b"; content_type = "application/octet-stream"; bytes = 1 ∷ [] }) ∷ [])
unfolding steps
files = refl

unreadable : collect_files form ("images" ∷ []) ≡ none
unfolding steps
unreadable = refl

no_form :
    parse_image_upload
      (record { content_type = codes "application/json"; form = none; json = none })
    ≡ some []
unfolding steps
no_form = refl
