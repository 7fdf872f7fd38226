-- ===== src/Httpapi/Middleware/Tests.antt =====
-- Requests with and without JSON.
use trekr_go.Prelude.{ℕ, false, Bool, ◌≡◌, refl, codes, Bytes}
use trekr_go.GoText.{trim_codes}
use trekr_go.Store.Memory.{empty_tables, state_at}
use trekr_go.Httpapi.{Handler, reply, no_body, malformed}
use trekr_go.Httpapi.Middleware.{RawRequest, absent, readable, expects_json_body, malformed_json}

abbrev never : Bytes → Bool
never bytes = false

abbrev next : Handler ℕ
next s = (reply 204 no_body, s)

abbrev post : RawRequest
post = record {
  method = "POST";
  content_type = codes "application/json; charset=utf-8";
  body = readable (codes "{");
}

steps : Unit {0}
unfolding trim_codes expects_json_body malformed_json
steps = tt

replies :
    ((malformed_json never post next (state_at 0 empty_tables)).0 ≡ malformed)
    × ((malformed_json never
          (record post { body = readable (codes " \n") })
          next
          (state_at 0 empty_tables)).0
        ≡ reply 204 no_body)
    × ((malformed_json never (record post { method = "GET" }) next (state_at 0 empty_tables)).0
        ≡ reply 204 no_body)
    × ((malformed_json never (record post { body = absent }) next (state_at 0 empty_tables)).0
        ≡ reply 204 no_body)
unfolding steps
replies = (refl, refl, refl, refl)
