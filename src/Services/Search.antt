-- ===== src/Services/Search.antt =====
-- services/search_service.go: the listings whose embeddings are nearest to a vector.
pub mod Laws
pub mod Nearest
pub mod Complete
mod Tests
use trekr_go.Prelude.{
  ℕ, zero, suc, Bool, true, false, not, Option, none, some, List, [], ◌∷◌, ◌≡◌, map, order_by, any,
  ◌==◌, nat_instance, if◌then◌else◌,
}
use trekr_go.Models.{RvListing, ListingEmbedding}
use trekr_go.Sql.{Result}
use trekr_go.Store.{Engine, State, Action, pure, ◌>>=◌, find, listings, embeddings}

-- The operators of pgvector: the cosine distance of two vectors, and the order of distances.
pub record Vectors : Type 0 where
  pub distance : List ℕ → List ℕ → ℕ
  pub at_most : ℕ → ℕ → Bool

-- What is documented of the order.
pub record IsVectors (V : Vectors) : Type 0 where
  pub total : (a b : ℕ) → V.at_most a b ≡ false → V.at_most b a ≡ true
  pub transitive : (a b c : ℕ) → V.at_most a b ≡ true → V.at_most b c ≡ true → V.at_most a c ≡ true

abbrev pub search_limit : ℕ
search_limit = 20

-- `ScoredListing`; a score is held as the bit pattern of its `float64`.
pub record ScoredListing : Type 0 where
  pub listing : RvListing
  pub score : ℕ

-- A row of the ranking: the key of a listing and its score.
pub record Ranked : Type 0 where
  pub rv_listing_id : ℕ
  pub score : ℕ

-- `LIMIT`
abbrev pub take : {A : Type 0} → ℕ → List A → List A
take zero l = []
take (suc n) [] = []
take (suc n) (a ∷ l) = a ∷ take n l

-- `embedding IS NOT NULL`; a null column is held as the empty vector.
abbrev pub has_vector : ListingEmbedding → Bool
has_vector r = not_empty r.embedding
  where
    not_empty : List ℕ → Bool
    not_empty [] = false
    not_empty (x ∷ xs) = true

-- The entry of a map that was filled from this list: the last row with the key.
abbrev pub by_id : ℕ → List RvListing → Option RvListing
by_id id [] = none
by_id id (l ∷ ls) = or_this id l (by_id id ls)
  where
    or_this : ℕ → RvListing → Option RvListing → Option RvListing
    or_this id l (some later) = some later
    or_this id l none = if l.id == id then some l else none

abbrev pub scored : Ranked → Option RvListing → List ScoredListing → List ScoredListing
scored r none rest = rest
scored r (some l) rest = record { listing = l; score = r.score } ∷ rest

-- The loop over the ranking, which skips a listing that is not there.
abbrev pub join_listings : List Ranked → List RvListing → List ScoredListing
join_listings [] ls = []
join_listings (r ∷ rs) ls = scored r (by_id r.rv_listing_id ls) (join_listings rs ls)

module _ (V : Vectors) where
  abbrev pub rank_by : List ℕ → ListingEmbedding → Ranked
  rank_by query r = record { rv_listing_id = r.rv_listing_id; score = V.distance r.embedding query }

  abbrev pub nearer : Ranked → Ranked → Bool
  nearer a b = V.at_most a.score b.score

  -- `ORDER BY score ASC LIMIT 20`
  unfoldable pub ranking : List ℕ → List ListingEmbedding → List Ranked
  ranking query rows = take search_limit (order_by nearer (map (rank_by query) rows))

  module _ {W : Type 0} (E : Engine W) where
    abbrev pub with_listings : List Ranked → Action W (List ScoredListing)
    with_listings [] = pure []
    with_listings (r ∷ rs) = do
      ls ← find (listings E) (λ l. any (r ∷ rs) (λ x. x.rv_listing_id == l.id))
      pure (join_listings (r ∷ rs) ls)

    -- `Nearest`
    unfoldable pub nearest : List ℕ → Action W (List ScoredListing)
    nearest query = do rows ← find (embeddings E) has_vector; with_listings (ranking query rows)
