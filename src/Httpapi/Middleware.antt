-- ===== src/Httpapi/Middleware.antt =====
-- httpapi/middleware/malformed_json.go: a body that is declared as JSON and is none is refused before
-- any handler runs. `json.Valid` is a parameter.
mod Tests
use trekr_go.Prelude.{
  ℕ, String, Bool, true, false, ◌&&◌, ◌||◌, not, Option, none, some, List, [], ◌∷◌, ◌==◌,
  string_instance, list_instance, nat_instance, Bytes, codes, if◌then◌else◌,
}
use trekr_go.GoText.{contains, trim_codes}
use trekr_go.Auth.{is_empty}
use trekr_go.Httpapi.{fail_body, Reply, reply, Handler, malformed}

-- A body: none at all, one that fails to be read, or its bytes.
pub data RawBody : Type 0 where
  absent : RawBody
  unreadable : RawBody
  readable : Bytes → RawBody

pub record RawRequest : Type 0 where
  pub method : String
  pub content_type : Bytes
  pub body : RawBody

abbrev is_absent : RawBody → Bool
is_absent absent = true
is_absent _ = false

-- `expectsJSONBody`
unfoldable pub expects_json_body : RawRequest → Bool
expects_json_body r =
    if is_absent r.body
    then false
    else if r.method == "GET" || (r.method == "HEAD" || r.method == "OPTIONS")
    then false
    else contains (codes "application/json") r.content_type

module _ {W : Type 0} (valid : Bytes → Bool) where
  abbrev check_body : RawBody → Handler W → Handler W
  check_body absent next s = next s
  check_body unreadable next s = (malformed, s)
  check_body (readable bytes) next s =
      if not (is_empty (trim_codes bytes)) && not (valid bytes) then (malformed, s) else next s

  -- `MalformedJSON`; `next` reads the same bytes
  unfoldable pub malformed_json : RawRequest → Handler W → Handler W
  malformed_json r next s = if not (expects_json_body r) then next s else check_body r.body next s
