-- ===== src/Embeddings/Tests.antt =====
-- Runs of the embedding job, and its theorem at a concrete input.
use trekr_go.Prelude.{ℕ, true, none, [], ◌∷◌, ◌≡◌, refl}
use trekr_go.GoText.{itoa, put_digits, trim_space}
use trekr_go.Models.{RvListing, pos, rv_type_name}
use trekr_go.Store.{State}
use trekr_go.Store.Memory.{memory_engine, empty_tables, state_at}
use trekr_go.Embeddings.{
  Ollama, responded, decoded, humanize, embedding_document, read_answer, new_ai_request, call,
  refresh, embed_found, embed_listing,
}

abbrev server : Ollama ℕ
server = record {
  post = λ text w. (responded 200 "{}", w);
  decode = λ body. decoded (1 ∷ 2 ∷ []);
  content_hash = λ document. document;
}

abbrev van : RvListing
van = record {
  id = 7;
  title = "Van";
  description = "A van ";
  price_per_day = none;
  owner_id = 4;
  max_guests = pos 12;
  pet_friendly = true;
  latitude = none;
  longitude = none;
  rv_type = 2;
  town = "Lorne";
  state = "VIC";
  postcode = "3232";
  region = none;
  created_at = 0;
  updated_at = 0;
}

steps : Unit {0}
unfolding humanize itoa put_digits trim_space embedding_document read_answer new_ai_request call
    refresh embed_found embed_listing rv_type_name
steps = tt

document :
    embedding_document van
    ≡ "Camper trailer in Lorne, VIC. Sleeps 12 guests. Pet-friendly. Van. A van"
unfolding steps
document = refl

abbrev before : State ℕ
before = state_at 9 (record empty_tables { listings = van ∷ [] })

-- The second run of the job does nothing.
second_run :
    (embed_listing memory_engine server 7 (embed_listing memory_engine server 7 before).1).1.tables
    ≡ (embed_listing memory_engine server 7 before).1.tables
unfolding steps
second_run = refl
