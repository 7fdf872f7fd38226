-- ===== src/Httpapi/Search.antt =====
-- httpapi/search.go
mod Tests
use trekr_go.Prelude.{
  ℕ, String, Option, none, some, List, [], ◌∷◌, map, Bytes, ◌==◌, string_instance, if◌then◌else◌,
}
use trekr_go.GoText.{trim_space}
use trekr_go.Models.{User, RvListing}
use trekr_go.Sql.{Result, ok, err}
use trekr_go.Store.{Engine, State, Action, pure, ◌>>=◌}
use trekr_go.Embeddings.{Ollama, call}
use trekr_go.Services.Search.{Vectors, ScoredListing, nearest}
use trekr_go.Storage.Verifier.{Crypto}
use trekr_go.Storage.Signed.{KeyCodec}
use trekr_go.Json.Listings.{ListingJson, ScoredListingJson, serialize_listings}
use trekr_go.Httpapi.{
  error_body, status_error, scored_view, Reply, reply, Handler, Request, answer, run, with_body,
}
use trekr_go.Httpapi.Accounts.{error_text}
use trekr_go.Httpapi.Public.{preload_owners}

abbrev id_of : Option User → Option ℕ
id_of none = none
id_of (some u) = some u.id

-- An error of the embedder is a 503 with its text.
abbrev or_503 : {W A : Type 0} → Result A × State W → (A → Handler W) → Reply × State W
or_503 (ok a, s) f = f a s
or_503 (err e, s) f = (reply 503 (status_error (error_text e)), s)

-- The listings with their scores, both in the order of the search.
abbrev with_scores : List ListingJson → List ScoredListing → List ScoredListingJson
with_scores [] scored = []
with_scores (l ∷ ls) [] = []
with_scores (l ∷ ls) (x ∷ xs) = record { listing = l; score = x.score } ∷ with_scores ls xs

abbrev listings_of : List ScoredListing → List RvListing
listings_of scored = map (λ x. x.listing) scored

module _ {W : Type 0} (V : Vectors) (E : Engine W) (O : Ollama W) (C : Crypto) (K : KeyCodec)
    (base : Bytes) where
  abbrev render_scored : List ScoredListing × List (RvListing × Option User) → Handler W
  render_scored (scored, owned) =
      run (serialize_listings C K base E owned) "could not serialize listings"
        (λ out. answer (reply 200 (scored_view (with_scores out scored))))

  -- The search preloads the owners.
  abbrev nearest_owned : List ℕ → Action W (List ScoredListing × List (RvListing × Option User))
  nearest_owned vector = do
    scored ← nearest V E vector
    owned ← preload_owners E (listings_of scored)
    pure (scored, owned)

  abbrev search_near : List ℕ → Handler W
  search_near vector = run (nearest_owned vector) "could not search listings" render_scored

  abbrev search_for : Option User → String → Handler W
  search_for user query s =
      if query == ""
      then answer (reply 422 (error_body "query is required")) s
      else or_503 (call E O query "nl_search" (id_of user) s) search_near

  -- `listingsSearch`; the body is the query, empty if there is no body
  unfoldable pub listings_search : Request String → Handler W
  listings_search r = with_body r.body (λ query. search_for r.user (trim_space query))
