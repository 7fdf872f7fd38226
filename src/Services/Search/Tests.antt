-- ===== src/Services/Search/Tests.antt =====
-- A run of the search, and its theorem at a concrete input. Vectors of one number, with the
-- difference as the distance.
use trekr_go.Prelude.{ℕ, ◌+◌, ◌-◌, ◌≡◌, false, none, List, [], ◌∷◌, refl, leb, arith}
use trekr_go.Models.{RvListing, ListingEmbedding, pos}
use trekr_go.Sql.{ok}
use trekr_go.Store.{State}
use trekr_go.Store.Memory.{memory_engine, memory_engine-IsEngine, empty_tables, state_at}
use trekr_go.Services.Search.{Vectors, IsVectors, ScoredListing, ranking, nearest}
use trekr_go.Services.Search.Nearest.{IsNearest}
use trekr_go.Services.Search.Complete.{nearest-IsNearest}

abbrev first_number : List ℕ → ℕ
first_number [] = 0
first_number (x ∷ xs) = x

abbrev line : Vectors
line = record {
  distance = λ v q. first_number v - first_number q + (first_number q - first_number v);
  at_most = leb;
}

line-IsVectors : IsVectors line
line-IsVectors = record { total = λ a b h. ground arith; transitive = λ a b c h k. ground arith }

abbrev van : ℕ → RvListing
van i = record {
  id = i;
  title = "Van";
  description = "A van";
  price_per_day = none;
  owner_id = 4;
  max_guests = pos 2;
  pet_friendly = false;
  latitude = none;
  longitude = none;
  rv_type = 0;
  town = "Lorne";
  state = "VIC";
  postcode = "3232";
  region = none;
  created_at = 0;
  updated_at = 0;
}

abbrev embedding : ℕ → ℕ → ListingEmbedding
embedding i x = record {
  id = i;
  rv_listing_id = i;
  embedding = x ∷ [];
  document = none;
  model = none;
  content_hash = none;
  created_at = 0;
  updated_at = 0;
}

-- Listing 3 was deleted, and its embedding is still there.
abbrev before : State ℕ
before = state_at 9 (record empty_tables {
  listings = van 1 ∷ van 2 ∷ [];
  embeddings = embedding 1 9 ∷ embedding 2 5 ∷ embedding 3 4 ∷ [];
})

abbrev out : List ScoredListing
out = (record { listing = van 2; score = 1 }) ∷ (record { listing = van 1; score = 5 }) ∷ []

steps : Unit {0}
unfolding ranking nearest
steps = tt

found : (nearest line memory_engine (4 ∷ []) before).0 ≡ ok out
unfolding steps
found = refl

nearest-IsNearest_example : IsNearest line (4 ∷ []) before.tables out
nearest-IsNearest_example =
    nearest-IsNearest line line-IsVectors memory_engine memory_engine-IsEngine (4 ∷ []) before out
      found
