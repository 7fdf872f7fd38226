-- ===== src/Services/Search/Laws.antt =====
-- services/search_service.go: what the search returns.
use mathlib.Core.List.{Memᴰ}
use trekr_go.Prelude.{
  ℕ, zero, suc, ◌≤◌, false, Option, none, some, List, [], ◌∷◌, ◌++◌, ◌≡◌, refl, sym, ap, ◌∙◌, inl,
  inr, any, ◌==◌, nat_instance, length, All, AllPairs, arith, Bool-cases, Option-cases,
}
use trekr_go.Models.{RvListing}
use trekr_go.Services.Search.{ScoredListing, Ranked, take, by_id, scored, join_listings}

pub length-take : {A : Type 0} (n : ℕ) (l : List A) → length (take n l) ≤ n
length-take zero l = omega arith
length-take (suc n) [] = omega arith
length-take (suc n) (a ∷ l) = let rest = length-take n l in omega arith

abbrev pub drop : {A : Type 0} → ℕ → List A → List A
drop zero l = l
drop (suc n) [] = []
drop (suc n) (a ∷ l) = drop n l

pub take-drop : {A : Type 0} (n : ℕ) (l : List A) → l ≡ take n l ++ drop n l
take-drop zero l = refl
take-drop (suc n) [] = refl
take-drop (suc n) (a ∷ l) = ap (λ l. a ∷ l) (take-drop n l)

-- The entry for a listing that was found.
pub by_id-eq-some :
    (id : ℕ) (ls : List RvListing) (l : RvListing) → by_id id ls ≡ some l → Memᴰ l ls × (l.id ≡ id)
by_id-eq-some id [] l h = cc
by_id-eq-some id (k ∷ ls) l h = elim (Option-cases (by_id id ls)) [
  | inl e ↦ elim (Bool-cases (k.id == id)) [
    | inl own ↦
        let found : some k ≡ some l = rw (e, own) at h in
        let same : k ≡ l = cc in
        let key : k.id ≡ id = (nat_instance.tells_same_iff k.id id).0 own in
        (Memᴰ.head (sym same), ap (λ x. x.id) (sym same) ∙ key)
    | inr other ↦ let found : none ≡ some l = rw (e, other) at h in cc
  ]
  | inr (later, e) ↦
      let found : some later ≡ some l = rw e at h in
      let (m, key) = by_id-eq-some id ls l (e ∙ found) in (Memᴰ.tail m, key)
]

pub by_id-eq-none :
    (id : ℕ) (ls : List RvListing) → by_id id ls ≡ none → any ls (λ l. l.id == id) ≡ false
by_id-eq-none id [] h = refl
by_id-eq-none id (k ∷ ls) h = elim (Option-cases (by_id id ls)) [
  | inl e ↦ elim (Bool-cases (k.id == id)) [
    | inl own ↦ let found : some k ≡ none = rw (e, own) at h in cc
    | inr other ↦ rw other (by_id-eq-none id ls e)
  ]
  | inr (later, e) ↦ let found : some later ≡ none = rw e at h in cc
]

module _ (ls : List RvListing) where
  length-scored :
      (r : Ranked) (o : Option RvListing) (rest : List ScoredListing)
      → length (scored r o rest) ≤ suc (length rest)
  length-scored r none rest = omega arith
  length-scored r (some l) rest = omega arith

  pub length-join_listings : (rs : List Ranked) → length (join_listings rs ls) ≤ length rs
  length-join_listings [] = omega arith
  length-join_listings (r ∷ rs) =
      let rest = length-join_listings rs in
      let more = length-scored r (by_id r.rv_listing_id ls) (join_listings rs ls) in omega arith

  All-scored :
      (P : ScoredListing → Type 0) (r : Ranked) (o : Option RvListing) (rest : List ScoredListing)
      → ((l : RvListing) → o ≡ some l → P (record { listing = l; score = r.score }))
      → All P rest
      → All P (scored r o rest)
  All-scored P r none rest f h = h
  All-scored P r (some l) rest f h = (f l refl, h)

  -- What holds of the ranking and of the listings that were found holds of their entries.
  pub All-join_listings :
      (Q : Ranked → Type 0) (P : ScoredListing → Type 0) (rs : List Ranked)
      → ((r : Ranked) (l : RvListing)
          → Q r
          → Memᴰ l ls
          → l.id ≡ r.rv_listing_id
          → P (record { listing = l; score = r.score }))
      → All Q rs
      → All P (join_listings rs ls)
  All-join_listings Q P [] f h = tt
  All-join_listings Q P (r ∷ rs) f h =
      All-scored P r (by_id r.rv_listing_id ls) (join_listings rs ls)
        (λ l e. let (m, key) = by_id-eq-some r.rv_listing_id ls l e in f r l h.0 m key)
        (All-join_listings Q P rs f h.1)

  AllPairs-scored :
      (R : ScoredListing → ScoredListing → Type 0) (r : Ranked) (o : Option RvListing)
      (rest : List ScoredListing)
      → ((l : RvListing) → o ≡ some l → All (R (record { listing = l; score = r.score })) rest)
      → AllPairs R rest
      → AllPairs R (scored r o rest)
  AllPairs-scored R r none rest f h = h
  AllPairs-scored R r (some l) rest f h = (f l refl, h)

  -- The entries stand in the order of the ranking.
  pub AllPairs-join_listings :
      (R : ℕ → ℕ → Type 0) (rs : List Ranked)
      → AllPairs (λ a b. R a.score b.score) rs
      → AllPairs (λ a b. R a.score b.score) (join_listings rs ls)
  AllPairs-join_listings R [] h = tt
  AllPairs-join_listings R (r ∷ rs) h =
      AllPairs-scored (λ a b. R a.score b.score) r (by_id r.rv_listing_id ls) (join_listings rs ls)
        (λ l e.
          All-join_listings (λ q. R r.score q.score) (λ x. R r.score x.score) rs
            (λ q k near m key. near) h.0)
        (AllPairs-join_listings R rs h.1)
