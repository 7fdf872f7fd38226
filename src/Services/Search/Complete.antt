-- ===== src/Services/Search/Complete.antt =====
-- services/search_service.go: the search returns at most twenty listings, the nearest ones, in the
-- order of their distances.
use mathlib.Core.List.{Perm, Mem}
use mathlib.Core.List.Perm
use mathlib.Core.Logic.{∥∥₁_elim, ∥∥₁_prop}
use trekr_go.Prelude.{
  ℕ, Bool, true, false, not, ◌&&◌, ◌||◌, Option, none, some, List, [], ◌∷◌, ◌≡◌, refl, sym, ap, ◌∙◌,
  inl, inr, any, mem-of_select, any-perm, any-select, any_weaken, every_all, all_every, every, ◌==◌,
  nat_instance, select, All, All-from_mem, All-of_mem, mem-select, arith, Bool-cases,
}
use trekr_go.Models.{RvListing, ListingEmbedding}
use trekr_go.Sql.{ok}
use trekr_go.Store.{Tables, Engine, IsEngine, State, find, listings, embeddings}
use trekr_go.Store.Laws.{>>=-eq-ok}
use trekr_go.Services.Search.{
  Vectors, IsVectors, search_limit, ScoredListing, Ranked, take, has_vector, by_id, scored,
  join_listings, rank_by, ranking, with_listings, nearest,
}
use trekr_go.Services.Search.Laws.{
  by_id-eq-some, length-take, by_id-eq-none, length-join_listings, All-join_listings,
  AllPairs-join_listings,
}
use trekr_go.Services.Search.Nearest.{
  or_true, is_entry, is_covered, IsNearest, made_of, sorted, AllPairs-take, All-take, sorted-made,
  same_row, is_ranked, embeddings-is_ranked,
}

-- The filter of the query for the listings of a ranking.
abbrev in_ranking : List Ranked → RvListing → Bool
in_ranking top l = any top (λ x. x.rv_listing_id == l.id)

-- A row of the ranking whose listing was found has its entry.
any-scored :
    (g : ScoredListing → Bool) (r : Ranked) (o : Option RvListing) (rest : List ScoredListing)
    → any rest g ≡ true
    → any (scored r o rest) g ≡ true
any-scored g r none rest h = h
any-scored g r (some l) rest h = ground arith

same_row-eq :
    (q r : Ranked) → same_row q r ≡ true → (q.rv_listing_id ≡ r.rv_listing_id) × (q.score ≡ r.score)
same_row-eq q r h = ground arith

own_scored :
    (ls : List RvListing) (q r : Ranked) (o : Option RvListing) (rest : List ScoredListing)
    → by_id q.rv_listing_id ls ≡ o
    → same_row q r ≡ true
    → any ls (λ l. l.id == r.rv_listing_id) ≡ true
    → any (scored q o rest) (λ x. r.rv_listing_id == x.listing.id && r.score == x.score) ≡ true
own_scored ls q r none rest at same k =
    let (key, _) = same_row-eq q r same in
    let none = by_id-eq-none q.rv_listing_id ls at in
    let no : true ≡ false = sym k ∙ (rw key at none) in cc
own_scored ls q r (some l) rest at same k =
    let (key, score) = same_row-eq q r same in
    let (_, found) = by_id-eq-some q.rv_listing_id ls l at in
    let hit : (r.rv_listing_id == l.id && r.score == q.score) ≡ true = ground arith in rw hit refl

any-join_listings :
    (ls : List RvListing) (rs : List Ranked) (r : Ranked)
    → any rs (λ q. same_row q r) ≡ true
    → any ls (λ l. l.id == r.rv_listing_id) ≡ true
    → any (join_listings rs ls) (λ x. r.rv_listing_id == x.listing.id && r.score == x.score) ≡ true
any-join_listings ls [] r h k = cc
any-join_listings ls (q ∷ rs) r h k = elim (Bool-cases (same_row q r)) [
  | inl same ↦ own_scored ls q r (by_id q.rv_listing_id ls) (join_listings rs ls) refl same k
  | inr other ↦
      any-scored _ q (by_id q.rv_listing_id ls) (join_listings rs ls)
        (any-join_listings ls rs r (rw other at h) k)
]

module _ {W : Type 0} (V : Vectors) (E : Engine W) (laws : IsEngine E) where
  with_listings-eq-ok :
      (top : List Ranked) (s : State W) (out : List ScoredListing)
      → (with_listings V E top s).0 ≡ ok out
      → (ls : List RvListing) × Perm ls (select (in_ranking top) s.tables.listings)
        × (out ≡ join_listings top ls)
  with_listings-eq-ok [] s out h = (select (in_ranking []) s.tables.listings, Perm.refl _, cc)
  with_listings-eq-ok (r ∷ rs) s out h =
      let (ls, found, left) = >>=-eq-ok (find (listings E) (in_ranking (r ∷ rs))) _ s h in
      let told : ok (join_listings (r ∷ rs) ls) ≡ ok out = sym (ap (λ x. x.0) left) ∙ h in
      let out_eq : out ≡ join_listings (r ∷ rs) ls = cc in
      (ls, laws.listings.find_perm _ _ _ ls found, out_eq)

and_true : (a b : Bool) → a ≡ true → b ≡ true → (a && b) ≡ true
and_true true b h k = k
and_true false b h k = cc

unless_true : (a b : Bool) → a ≡ false → (not a || b) ≡ true
unless_true true b h = cc
unless_true false b h = refl

covered :
    (v t h n : Bool)
    → (v ≡ true → t ≡ true → (h || n) ≡ true)
    → (not v || (not t || (h || n))) ≡ true
covered false t h n f = refl
covered true false h n f = refl
covered true true h n f = f refl refl

module _ (V : Vectors) (order : IsVectors V) (query : List ℕ) (t : Tables)
    (rows : List ListingEmbedding) (ls : List RvListing) where
  abbrev top : List Ranked
  top = take search_limit (sorted V order query rows)

  abbrev result : List ScoredListing
  result = join_listings top ls

  covered_by_entry :
      (e : ListingEmbedding)
      → Perm ls (select (in_ranking top) t.listings)
      → has_vector e ≡ true
      → any t.listings (λ l. l.id == e.rv_listing_id) ≡ true
      → any top (λ q. same_row q (rank_by V query e)) ≡ true
      → any result (is_entry V query e) ≡ true
  covered_by_entry e p vector there h =
      let found =
        any-perm (λ l. l.id == e.rv_listing_id) ls _ p
          (any-select (λ l. l.id == e.rv_listing_id) (in_ranking top) t.listings
            (λ l own.
              any_weaken _ _ top
                (λ q same.
                  let (key, _) = same_row-eq q (rank_by V query e) same in ground (arith, key, own))
                h)
            there) in
      let hit = any-join_listings ls top (rank_by V query e) h found in
      any_weaken _ _ result (λ x k. and_true _ _ vector k) hit

  covered_by_distance :
      (e : ListingEmbedding)
      → every top (λ q. V.at_most q.score (V.distance e.embedding query)) ≡ true
      → every result (λ x. V.at_most x.score (V.distance e.embedding query)) ≡ true
  covered_by_distance e h =
      every_all _ result (All-join_listings ls _ _ top (λ r l near m key. near) (all_every _ top h))

  is_covered-of_ranked :
      (e : ListingEmbedding)
      → Perm ls (select (in_ranking top) t.listings)
      → is_ranked V order query top (rank_by V query e) ≡ true
      → is_covered V query t.listings result e ≡ true
  is_covered-of_ranked e p h =
      covered (has_vector e) (any t.listings (λ l. l.id == e.rv_listing_id))
        (any result (is_entry V query e))
        (every result (λ x. V.at_most x.score (V.distance e.embedding query)))
        (λ vector there. elim (Bool-cases (any top (λ q. same_row q (rank_by V query e)))) [
          | inl hit ↦ let entry = covered_by_entry e p vector there hit in rw entry refl
          | inr miss ↦ or_true _ _ (covered_by_distance e (rw miss at h))
        ])

  -- The entries of the ranking whose listings were found.
  ranked-IsNearest :
      Perm rows (select has_vector t.embeddings)
      → Perm ls (select (in_ranking top) t.listings)
      → IsNearest V query t result
  ranked-IsNearest found p =
      let made : All (λ r. any t.embeddings (λ e. made_of V order query e r) ≡ true) top =
        All-take V order query _ search_limit (sorted V order query rows)
          (sorted-made V order query t.embeddings rows found) in
      record {
        limited =
            let a = length-join_listings ls top in
            let b = length-take search_limit (sorted V order query rows) in omega arith;
        ordered =
            AllPairs-join_listings ls (λ a b. V.at_most a b ≡ true) top
              (AllPairs-take V order query search_limit rows);
        listed =
            All-join_listings ls (λ r. any t.embeddings (λ e. made_of V order query e r) ≡ true)
              (λ x. Mem x.listing t.listings) top
              (λ r l made m key.
                ∥∥₁_elim ((Perm.mem_iff p).0 ∣ m ∣₁) ∥∥₁_prop
                  (λ d. ∣ mem-of_select (in_ranking top) t.listings l d ∣₁))
              made;
        embedded =
            All-join_listings ls (λ r. any t.embeddings (λ e. made_of V order query e r) ≡ true)
              (λ x. any t.embeddings (λ e. is_entry V query e x) ≡ true) top
              (λ r l made m key. any_weaken _ _ t.embeddings (λ e k. rw key k) made) made;
        complete = All-from_mem _ t.embeddings (λ e m. elim (Bool-cases (has_vector e)) [
          | inl vector ↦ is_covered-of_ranked e p (
              All-of_mem _ _ (embeddings-is_ranked V order query t.embeddings rows found)
                (mem-select has_vector t.embeddings vector m))
          | inr missing ↦ unless_true _ _ missing
        ]);
      }

module _ {W : Type 0} (V : Vectors) (order : IsVectors V) (E : Engine W) (laws : IsEngine E) where
  -- The search returns the nearest listings.
  pub nearest-IsNearest :
      (query : List ℕ) (s : State W) (out : List ScoredListing)
      → (nearest V E query s).0 ≡ ok out
      → IsNearest V query s.tables out
  unfolding nearest ranking sorted
  nearest-IsNearest query s out h =
      let (rows, found, left) = >>=-eq-ok (find (embeddings E) has_vector) _ s h in
      let (ls, p, same) =
        with_listings-eq-ok V E laws (ranking V query rows) (find (embeddings E) has_vector s).1 out
          (rw left at h) in
      rw same (
        ranked-IsNearest V order query s.tables rows ls (laws.embeddings.find_perm _ _ _ rows found)
          p)
