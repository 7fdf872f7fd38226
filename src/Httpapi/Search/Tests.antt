-- ===== src/Httpapi/Search/Tests.antt =====
-- Searches with an empty query, without an answer of the server, and without listings.
use trekr_go.Prelude.{ℕ, [], ◌∷◌, ◌≡◌, refl, leb}
use trekr_go.GoText.{trim_space, itoa, put_digits}
use trekr_go.Store.{State}
use trekr_go.Store.Memory.{memory_engine, empty_tables, state_at}
use trekr_go.Embeddings.{Ollama, responded, decoded, read_answer, new_ai_request, call}
use trekr_go.Storage.Signed.Small.{small, codec}
use trekr_go.Services.Search.{Vectors, ranking, nearest}
use trekr_go.Json.Images.{load_images}
use trekr_go.Json.Listings.{serialize_listings}
use trekr_go.Httpapi.{reply, error_body, status_error, scored_view}
use trekr_go.Httpapi.Accounts.Session.{request}
use trekr_go.Httpapi.Search.{listings_search}

abbrev flat : Vectors
flat = record { distance = λ v q. 0; at_most = leb }

abbrev server : ℕ → Ollama ℕ
server code = record {
  post = λ text w. (responded code "{}", w);
  decode = λ body. decoded (1 ∷ 2 ∷ []);
  content_hash = λ document. document;
}

abbrev empty : State ℕ
empty = state_at 9 empty_tables

steps : Unit {0}
unfolding trim_space itoa put_digits read_answer new_ai_request call ranking nearest load_images
    serialize_listings listings_search
steps = tt

no_query :
    (listings_search flat memory_engine (server 200) small codec [] (request "  ") empty).0
    ≡ reply 422 (error_body "query is required")
unfolding steps
no_query = refl

nothing_found :
    (listings_search flat memory_engine (server 200) small codec [] (request "van") empty).0
    ≡ reply 200 (scored_view [])
unfolding steps
nothing_found = refl

unanswered :
    (listings_search flat memory_engine (server 500) small codec [] (request "van") empty).0
    ≡ reply 503 (status_error "Ollama embeddings error (500): {}")
unfolding steps
unanswered = refl
