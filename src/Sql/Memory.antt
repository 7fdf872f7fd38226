-- ===== src/Sql/Memory.antt =====
-- A table in memory that never fails: it shows that the behaviour in `IsTable` can be met, and it
-- runs the examples. The session is the time on its clock, which a call does not move.
use mathlib.Core.List.{Memᴰ}
use mathlib.Core.List.Perm
use trekr_go.Prelude.{
  ℕ, suc, ◌≤◌, Bool, true, List, [], ◌∷◌, ◌++◌, Option, none, some, ◌≡◌, refl, sym, inl, inr, arith,
  leb, any, ◌==◌, nat_instance, true, false, select, replace, length, All, All-weaken, not,
  Bool-cases, Option-cases, if◌then◌else◌,
}
use trekr_go.Sql.Defs.{Model, Table, Result, ok, err, record_not_found, IsFirst, IsFresh, IsTable}

module _ {Row : Type 0} (M : Model Row) where
  -- the first of two candidates by key
  abbrev closer : Row → Option Row → Row
  closer r none = r
  closer r (some q) = if leb (M.key r) (M.key q) then r else q

  abbrev least : (Row → Bool) → List Row → Option Row
  least p [] = none
  least p (r ∷ t) = let rest = least p t in if p r then some (closer r rest) else rest

  abbrev top : List Row → ℕ
  top [] = 0
  top (r ∷ t) = let rest = top t in if leb (M.key r) rest then rest else M.key r

  abbrev or_not_found : Option Row → Result Row
  or_not_found none = err record_not_found
  or_not_found (some r) = ok r

  abbrev inserted : Row → ℕ → List Row → Result (Row × List Row) × ℕ
  inserted r w t = let r' = M.stamp (suc (top t)) w r in (ok (r', t ++ r' ∷ []), w)

  abbrev saved : Bool → Row → ℕ → List Row → Result (Row × List Row) × ℕ
  saved true r w t = inserted r w t
  saved false r w t =
      let r' = M.touch w r in
      if any t (λ x. M.key x == M.key r)
      then (ok (r', replace (λ x. M.key x == M.key r) (λ _. r') t), w)
      else (ok (r', t ++ r' ∷ []), w)

  abbrev pub memory : Table ℕ Row
  memory = record {
    find = λ p w t. (ok (select p t), w);
    count = λ p w t. (ok (length (select p t)), w);
    first = λ p w t. (or_not_found (least p t), w);
    create = λ r w t. let r' = M.stamp (suc (top t)) w r in (ok (r', t ++ r' ∷ []), w);
    update = λ p f w t. (ok (replace p (λ r. M.touch w (f r)) t), w);
    save = λ r w t. saved (M.key r == 0) r w t;
    delete = λ p w t. (ok (select (λ r. not (p r)) t), w);
  }

module _ {Row : Type 0} (M : Model Row) (p : Row → Bool) where
  least_none : (t : List Row) → least M p t ≡ none → select p t ≡ []
  least_none [] h = refl
  least_none (r ∷ t) h = ground (arith, least_none t)

  AtLeast : ℕ → List Row → Type 0
  AtLeast k t = All (λ x. p x ≡ true → k ≤ M.key x) t

  AtLeast-empty : (k : ℕ) (t : List Row) → select p t ≡ [] → AtLeast k t
  unfolding AtLeast
  AtLeast-empty k [] h = tt
  AtLeast-empty k (x ∷ t) h = (λ q. ground arith, AtLeast-empty k t (ground arith))

  AtLeast-le : (j k : ℕ) (t : List Row) → j ≤ k → AtLeast k t → AtLeast j t
  unfolding AtLeast
  AtLeast-le j k t le h =
      All-weaken (λ x. p x ≡ true → k ≤ M.key x) (λ x. p x ≡ true → j ≤ M.key x) t
        (λ x f q. omega (arith, f q)) h

  -- the candidate of a longer list, from that of its tail
  IsFirst-of_head :
      (x : Row) (t : List Row) → p x ≡ true → AtLeast (M.key x) t → IsFirst M p (x ∷ t) x
  unfolding AtLeast
  IsFirst-of_head x t passes h = record {
    listed = Memᴰ.head refl;
    passes = passes;
    least = (λ _. omega arith, h);
  }

  IsFirst-of_tail :
      (x : Row) (t : List Row) (q : Row)
      → (p x ≡ true → M.key q ≤ M.key x)
      → IsFirst M p t q
      → IsFirst M p (x ∷ t) q
  IsFirst-of_tail x t q le f = record {
    listed = Memᴰ.tail f.listed;
    passes = f.passes;
    least = (le, f.least);
  }

  IsFirst-of_both :
      (x : Row) (t : List Row) (q : Row)
      → p x ≡ true
      → IsFirst M p t q
      → IsFirst M p (x ∷ t) (closer M x (some q))
  IsFirst-of_both x t q passes f = elim (Bool-cases (leb (M.key x) (M.key q))) [
    | inl le ↦ rw le (
        IsFirst-of_head x t passes
          (AtLeast-le (M.key x) (M.key q) t (ground arith) (unfold AtLeast in f.least)))
    | inr gt ↦ rw gt (IsFirst-of_tail x t q (λ _. ground arith) f)
  ]

  least-IsFirst : (t : List Row) (r : Row) → least M p t ≡ some r → IsFirst M p t r
  least-IsFirst [] r h = cc
  least-IsFirst (x ∷ t) r h = elim (Bool-cases (p x)) [
    | inr fails ↦ IsFirst-of_tail x t r (λ q. cc) (least-IsFirst t r (ground arith))
    | inl passes ↦ elim (Option-cases (least M p t)) [
      | inl e ↦
          let same : x ≡ r = ground arith in
          rw (← same) (IsFirst-of_head x t passes (AtLeast-empty (M.key x) t (least_none t e)))
      | inr (q, e) ↦
          let same : closer M x (some q) ≡ r = ground arith in
          rw (← same) (IsFirst-of_both x t q passes (least-IsFirst t q e))
    ]
  ]

module _ {Row : Type 0} (M : Model Row) where
  above_top : (k : ℕ) (t : List Row) → top M t ≤ k → IsFresh M (suc k) t
  above_top k [] h = tt
  above_top k (x ∷ t) h = (λ e. ground arith, above_top k t (ground arith))

  memory_save_existing :
      (r : Row) (w : ℕ) (t : List Row) (r' : Row) (t' : List Row)
      → (M.key r ≡ 0 → ⊥)
      → any t (λ x. M.key x == M.key r) ≡ true
      → ((memory M).save r w t).0 ≡ ok (r', t')
      → (r' ≡ M.touch w r) × (t' ≡ replace (λ x. M.key x == M.key r) (λ _. M.touch w r) t)
  memory_save_existing r w t r' t' set there h = elim (Bool-cases (M.key r == 0)) [
    | inl unset ↦ absurd (set (ground arith))
    | inr _ ↦ ground arith
  ]

  memory_inserted :
      (r : Row) (w : ℕ) (t : List Row) (r' : Row) (t' : List Row)
      → (inserted M r w t).0 ≡ ok (r', t')
      → (r' ≡ M.stamp (M.key r') w r) × (t' ≡ t ++ r' ∷ []) × IsFresh M (M.key r') t
  memory_inserted r w t r' t' h =
      let e : M.stamp (suc (top M t)) w r ≡ r' = ground arith in
      let k : M.key r' ≡ suc (top M t) = rw (← e) (M.key-stamp (suc (top M t)) w r) in
      (rw k (sym e), cc, rw k (above_top (top M t) t (omega arith)))

  memory_save_new :
      (r : Row) (w : ℕ) (t : List Row) (r' : Row) (t' : List Row)
      → M.key r ≡ 0
      → ((memory M).save r w t).0 ≡ ok (r', t')
      → (r' ≡ M.stamp (M.key r') w r) × (t' ≡ t ++ r' ∷ []) × IsFresh M (M.key r') t
  memory_save_new r w t r' t' unset h =
      let test : (M.key r == 0) ≡ true = ground arith in memory_inserted r w t r' t' (rw test at h)

  pub memory-IsTable : IsTable M (λ w. w) (memory M)
  memory-IsTable = record {
    find_perm = λ p w t xs h. let e : select p t ≡ xs = cc in rw (← e) (Perm.refl (select p t));
    count_length = λ p w t n h. cc;
    first_some = λ p w t r h. least-IsFirst M p t r (ground arith);
    first_none = λ p w t h. least_none M p t (ground arith);
    create_row = memory_inserted;
    update_rows = λ p f w t t' h. cc;
    save_existing = λ r w t r' t' set there h. memory_save_existing r w t r' t' set there h;
    save_new = λ r w t r' t' unset h. memory_save_new r w t r' t' unset h;
    delete_rows = λ p w t t' h. cc;
  }
