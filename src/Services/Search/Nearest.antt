-- ===== src/Services/Search/Nearest.antt =====
-- services/search_service.go: what the search promises, and that the ranking keeps it.
use mathlib.Core.List.{Perm, Mem}
use mathlib.Core.List.Perm
use trekr_go.Prelude.{
  ℕ, ◌≤◌, Bool, true, false, not, ◌&&◌, ◌||◌, List, ◌≡◌, refl, sym, subst, map, order_by,
  order_by-Perm, order_by-AllPairs, any, any_mem, mem-of_select, All-perm, every_all, All-map,
  All-of_map, every, ◌==◌, nat_instance, select, length, All, AllPairs, AllPairs-split, All-split,
  All-from_mem, All-of_mem, All-select_test, All-append, arith,
}
use trekr_go.Models.{RvListing, ListingEmbedding}
use trekr_go.Store.{Tables}
use trekr_go.Services.Search.{
  Vectors, IsVectors, search_limit, ScoredListing, Ranked, take, has_vector, rank_by, nearer,
}
use trekr_go.Services.Search.Laws.{drop, take-drop}

-- The entry of the result for an embedding.
abbrev pub is_entry : Vectors → List ℕ → ListingEmbedding → ScoredListing → Bool
is_entry V query e x =
    has_vector e && (e.rv_listing_id == x.listing.id && V.distance e.embedding query == x.score)

-- An embedding whose listing is in the table has its entry, or every entry is at least as near.
abbrev pub is_covered :
    Vectors → List ℕ → List RvListing → List ScoredListing → ListingEmbedding → Bool
is_covered V query ls out e =
    not (has_vector e)
    || (not (any ls (λ l. l.id == e.rv_listing_id))
        || (any out (is_entry V query e)
            || every out (λ x. V.at_most x.score (V.distance e.embedding query))))

-- At most twenty entries in the order of their scores; each is for a listing of the table and an
-- embedding of it, with its distance as the score; and no nearer one is left out.
pub record IsNearest (V : Vectors) (query : List ℕ) (t : Tables) (out : List ScoredListing)
    : Type 0 where
  pub limited : length out ≤ 20
  pub ordered : AllPairs (λ a b. V.at_most a.score b.score ≡ true) out
  pub listed : All (λ x. Mem x.listing t.listings) out
  pub embedded : All (λ x. any t.embeddings (λ e. is_entry V query e x) ≡ true) out
  pub complete : All (λ e. is_covered V query t.listings out e ≡ true) t.embeddings

abbrev pub same_row : Ranked → Ranked → Bool
same_row q r = q.rv_listing_id == r.rv_listing_id && q.score == r.score

pub or_true : (a b : Bool) → b ≡ true → (a || b) ≡ true
or_true true b h = refl
or_true false b h = h

module _ (V : Vectors) (order : IsVectors V) (query : List ℕ) where
  abbrev pub made_of : ListingEmbedding → Ranked → Bool
  made_of e r =
      has_vector e
      && (e.rv_listing_id == r.rv_listing_id && V.distance e.embedding query == r.score)

  unfoldable pub sorted : List ListingEmbedding → List Ranked
  sorted rows = order_by (nearer V) (map (rank_by V query) rows)

  own_entry : (e : ListingEmbedding) → has_vector e ≡ true → made_of e (rank_by V query e) ≡ true
  own_entry e h = ground arith

  pub sorted-AllPairs :
      (rows : List ListingEmbedding)
      → AllPairs (λ a b. V.at_most a.score b.score ≡ true) (sorted rows)
  unfolding sorted
  sorted-AllPairs rows =
      order_by-AllPairs (nearer V) (λ a b h. order.total a.score b.score h)
        (λ a b c h k. order.transitive a.score b.score c.score h k) (map (rank_by V query) rows)

  -- Each row of the ranking comes from an embedding.
  pub sorted-made :
      (t rows : List ListingEmbedding)
      → Perm rows (select has_vector t)
      → All (λ r. any t (λ e. made_of e r) ≡ true) (sorted rows)
  unfolding sorted
  sorted-made t rows p = All-perm _ _ _ (order_by-Perm (nearer V) _) (
      All-map _ (rank_by V query) rows (
        All-perm _ rows _ p (
          All-from_mem _ (select has_vector t) (λ e m.
            any_mem _ t e (mem-of_select has_vector t e m)
              (own_entry e (All-of_mem _ _ (All-select_test has_vector t) m))))))

  same_row_self : (r : Ranked) → same_row r r ≡ true
  same_row_self r = ground arith

  -- A row is in the ranking, or the whole ranking is at least as near.
  abbrev pub is_ranked : List Ranked → Ranked → Bool
  is_ranked top r = any top (λ q. same_row q r) || every top (λ q. V.at_most q.score r.score)

  All-is_ranked :
      (n : ℕ) (l : List Ranked)
      → AllPairs (λ a b. V.at_most a.score b.score ≡ true) l
      → All (λ r. is_ranked (take n l) r ≡ true) l
  All-is_ranked n l pairs =
      let (_, _, cross) =
        AllPairs-split (λ a b. V.at_most a.score b.score ≡ true) (take n l) (drop n l)
          (subst (AllPairs (λ a b. V.at_most a.score b.score ≡ true)) (take-drop n l) pairs) in
      let within =
        All-from_mem (λ r. is_ranked (take n l) r ≡ true) (take n l)
          (λ r m.
            let own = any_mem (λ q. same_row q r) (take n l) r m (same_row_self r) in
            rw own refl) in
      let beyond =
        All-from_mem (λ r. is_ranked (take n l) r ≡ true) (drop n l)
          (λ r m.
            let near =
              every_all (λ q. V.at_most q.score r.score) (take n l)
                (All-from_mem _ (take n l) (λ q k. cross q r k m)) in
            or_true _ _ near) in
      subst (All (λ r. is_ranked (take n l) r ≡ true)) (sym (take-drop n l))
        (All-append _ (take n l) (drop n l) within beyond)

  -- Every embedding has its row in the ranking, or the whole ranking is at least as near.
  pub embeddings-is_ranked :
      (t rows : List ListingEmbedding)
      → Perm rows (select has_vector t)
      → All
          (λ e. is_ranked (take search_limit (sorted rows)) (rank_by V query e) ≡ true)
          (select has_vector t)
  unfolding sorted
  embeddings-is_ranked t rows p =
      All-perm (λ e. is_ranked (take search_limit (sorted rows)) (rank_by V query e)) _ rows
        (Perm.symm p)
        (All-of_map _ (rank_by V query) rows (
          All-perm (is_ranked (take search_limit (sorted rows))) _ (sorted rows)
            (Perm.symm (order_by-Perm (nearer V) (map (rank_by V query) rows)))
            (All-is_ranked search_limit (sorted rows) (sorted-AllPairs rows))))

  pub AllPairs-take :
      (n : ℕ) (rows : List ListingEmbedding)
      → AllPairs (λ a b. V.at_most a.score b.score ≡ true) (take n (sorted rows))
  AllPairs-take n rows =
      let (l, _, _) =
        AllPairs-split (λ a b. V.at_most a.score b.score ≡ true) (take n (sorted rows))
          (drop n (sorted rows))
          (subst (AllPairs (λ a b. V.at_most a.score b.score ≡ true)) (take-drop n (sorted rows))
            (sorted-AllPairs rows)) in
      l

  pub All-take : (P : Ranked → Type 0) (n : ℕ) (l : List Ranked) → All P l → All P (take n l)
  All-take P n l h =
      let (first, _) = All-split P (take n l) (drop n l) (subst (All P) (take-drop n l) h) in first
