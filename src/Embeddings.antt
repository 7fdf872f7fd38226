-- ===== src/Embeddings.antt =====
-- models/embedding_document.go, ai/embedder.go and jobs/embed_listing.go: the text that stands for a
-- listing, the call of the embedding server, and the job that stores the vector. The server, the
-- JSON decoder and SHA-256 are a parameter, `Ollama`.
pub mod Laws
mod Tests
use Prim.Native.Char.{Char, code}
use Prim.Native.String
use Prim.Native.String.{char_at}
use trekr_go.Prelude.{
  ℕ, zero, suc, ◌-◌, ◌/◌, ◌%◌, ◌+◌, String, Bool, true, false, ◌&&◌, ◌||◌, not, Option, none, some,
  List, [], ◌∷◌, ◌==◌, nat_instance, string_instance, leb, ltb, if◌then◌else◌, length,
}
use trekr_go.GoText.{itoa, trim_space}
use trekr_go.Models.{RvListing, ListingEmbedding, AiRequest, ℤ, pos, negsuc, rv_type_name}
use trekr_go.Sql.{Result, ok, err, failed}
use trekr_go.Store.{
  Engine, State, Action, pure, ◌>>=◌, find, create, save, listings, embeddings, ai_requests,
}

-- `strings.ReplaceAll(s, "_", " ")`
abbrev spaced : String → String
spaced String.[] = ""
spaced (String.◌∷◌ c s) =
    let rest = spaced s in String.◌∷◌ (if code c == b'_' then char_at " " 0 else c) rest

-- `strings.ToUpper` of one ASCII character
abbrev to_upper : Char → Char
to_upper c =
    if leb 97 (code c) && leb (code c) 122
    then char_at "ABCDEFGHIJKLMNOPQRSTUVWXYZ" (code c - 97)
    else c

abbrev capital : String → String
capital String.[] = ""
capital (String.◌∷◌ c s) = String.◌∷◌ (to_upper c) s

unfoldable pub humanize : String → String
humanize s = capital (spaced s)

-- `strings.Join(parts, " ")`
abbrev join_words : List String → String
join_words [] = ""
join_words (p ∷ []) = p
join_words (p ∷ q ∷ ps) = String.◌++◌ p (String.◌++◌ " " (join_words (q ∷ ps)))

abbrev pet_words : Bool → List String → List String
pet_words true parts = "Pet-friendly." ∷ parts
pet_words false parts = parts

-- `EmbeddingDocument`
unfoldable pub embedding_document : RvListing → String
embedding_document l =
    let place = String.◌++◌ l.town (String.◌++◌ ", " (String.◌++◌ l.state ".")) in
    trim_space (
      join_words (
        String.◌++◌ (humanize (rv_type_name l.rv_type)) (String.◌++◌ " in " place)
        ∷ String.◌++◌ "Sleeps " (String.◌++◌ (itoa l.max_guests) " guests.")
        ∷ pet_words l.pet_friendly (String.◌++◌ l.title "." ∷ l.description ∷ [])))

-- What comes back from the server: no response, or a status code and a body.
pub data Answer : Type 0 where
  unreachable : String → Answer
  responded : ℕ → String → Answer

-- What the decoder makes of a body: the field `embedding`, or an error.
pub data Decoded : Type 0 where
  undecodable : String → Decoded
  decoded : List ℕ → Decoded

pub record Ollama (W : Type 0) : Type 0 where
  pub post : String → W → Answer × W
  pub decode : String → Decoded
  pub content_hash : String → String

abbrev pub embed_model : String
embed_model = "nomic-embed-text"

abbrev pub problem : String → Result (List ℕ)
problem message = err (failed (String.◌++◌ "Ollama embeddings error: " message))

abbrev from_decoded : Decoded → Result (List ℕ)
from_decoded (undecodable message) = problem message
from_decoded (decoded []) = problem "response missing embedding"
from_decoded (decoded (x ∷ xs)) = ok (x ∷ xs)

abbrev status_problem : ℕ → String → Result (List ℕ)
status_problem status body = err (
    failed (
      String.◌++◌ "Ollama embeddings error ("
        (String.◌++◌ (itoa (pos status)) (String.◌++◌ "): " body))))

module _ {W : Type 0} (O : Ollama W) where
  -- `requestEmbedding`, once the server has answered
  unfoldable pub read_answer : Answer → Result (List ℕ)
  read_answer (unreachable message) = problem message
  read_answer (responded status body) =
      if ltb status 200 || leb 300 status
      then status_problem status body
      else from_decoded (O.decode body)

abbrev error_of : Result (List ℕ) → Option String
error_of (ok vec) = none
error_of (err (failed message)) = some message
error_of (err e) = some "record not found"

abbrev pub succeeded : Result (List ℕ) → Bool
succeeded (ok vec) = true
succeeded (err e) = false

-- The row that `writeAiRequest` inserts; the cost is the bit pattern of 0.0.
unfoldable pub new_ai_request : String → ℕ → Option ℕ → Result (List ℕ) → AiRequest
new_ai_request feature latency_ms user_id r = record {
  id = 0;
  feature = feature;
  model = embed_model;
  prompt_version = none;
  input_tokens = none;
  output_tokens = none;
  latency_ms = some latency_ms;
  estimated_cost_usd = some 0;
  success = succeeded r;
  error_message = error_of r;
  request_payload = none;
  response_payload = none;
  user_id = user_id;
  created_at = 0;
  updated_at = 0;
}

abbrev pub same_hash : String → Option String → Bool
same_hash hash none = false
same_hash hash (some h) = h == hash

abbrev pub is_current : String → Option ListingEmbedding → Bool
is_current hash none = false
is_current hash (some r) = same_hash hash r.content_hash

abbrev pub or_fresh : Option ListingEmbedding → ListingEmbedding
or_fresh (some r) = r
or_fresh none = record {
  id = 0;
  rv_listing_id = 0;
  embedding = [];
  document = none;
  model = none;
  content_hash = none;
  created_at = 0;
  updated_at = 0;
}

abbrev pub top : {A : Type 0} → List A → Option A
top [] = none
top (a ∷ l) = some a

module _ {W : Type 0} (E : Engine W) (O : Ollama W) where
  -- The deferred `writeAiRequest`: its own error is logged and dropped.
  abbrev logged : AiRequest → Result (List ℕ) → State W → Result (List ℕ) × State W
  logged row r s = (r, (create (ai_requests E) row s).1)

  abbrev pub answered : String → Option ℕ → ℕ → Answer × W → State W → Result (List ℕ) × State W
  answered feature user_id start (a, w) s =
      let r = read_answer O a in
      logged (new_ai_request feature ((E.clock w - start) / 1000000) user_id r) r
        (record s { world = w })

  -- `Embedder.Call`
  unfoldable pub call : String → String → Option ℕ → Action W (List ℕ)
  call text feature user_id s = answered feature user_id (E.clock s.world) (O.post text s.world) s

  abbrev store_vector : ℕ → String → Option ListingEmbedding → Action W (Unit {0})
  store_vector listing_id document old = do
    vec ← call document "listing_embedding" none
    _ ← save (embeddings E) (record (or_fresh old) {
      rv_listing_id = listing_id;
      embedding = vec;
      document = some document;
      model = some embed_model;
      content_hash = some (O.content_hash document);
    })
    pure tt

  unfoldable pub refresh : ℕ → String → Option ListingEmbedding → Action W (Unit {0})
  refresh listing_id document old =
      if is_current (O.content_hash document) old
      then pure tt
      else store_vector listing_id document old

  unfoldable pub embed_found : ℕ → Option RvListing → Action W (Unit {0})
  embed_found listing_id none = pure tt
  embed_found listing_id (some l) = do
    rows ← find (embeddings E) (λ r. r.rv_listing_id == listing_id)
    refresh listing_id (embedding_document l) (top rows)

  -- `EmbedListing`
  unfoldable pub embed_listing : ℕ → Action W (Unit {0})
  embed_listing listing_id = do
    ls ← find (listings E) (λ l. l.id == listing_id)
    embed_found listing_id (top ls)
