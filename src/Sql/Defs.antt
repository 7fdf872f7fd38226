-- ===== src/Sql/Defs.antt =====
-- What the program uses of the database, and what is documented of it.
use mathlib.Core.List.{Perm, Memᴰ}
use trekr_go.Prelude.{
  ℕ, String, Bool, true, List, [], ◌∷◌, ◌++◌, ◌≡◌, ◌≤◌, length, select, replace, All, not, any,
  ◌==◌, nat_instance,
}

pub data DbError : Type 0 where
  record_not_found : DbError
  failed : String → DbError

pub data Result {ℓ} (A : Type ℓ) : Type ℓ where
  ok : A → Result A
  err : DbError → Result A

-- What gorm reads off the struct of a model: its primary key, and the columns that it fills in.
-- `stamp i now r` is the row `r` as it is inserted under the key `i`; `touch now r` as it is updated.
pub record Model (Row : Type 0) : Type 0 where
  pub key : Row → ℕ
  pub stamp : ℕ → ℕ → Row → Row
  pub touch : ℕ → Row → Row
  pub key-stamp : (i now : ℕ) (r : Row) → key (stamp i now r) ≡ i

pub record Table (W Row : Type 0) : Type 0 where
  pub find : (Row → Bool) → W → List Row → Result (List Row) × W
  pub count : (Row → Bool) → W → List Row → Result ℕ × W
  pub first : (Row → Bool) → W → List Row → Result Row × W
  pub create : Row → W → List Row → Result (Row × List Row) × W
  pub update : (Row → Bool) → (Row → Row) → W → List Row → Result (List Row) × W
  pub save : Row → W → List Row → Result (Row × List Row) × W
  pub delete : (Row → Bool) → W → List Row → Result (List Row) × W

module _ {Row : Type 0} (M : Model Row) where
  -- `r` is the row of `t` with the least key among those that pass the test.
  pub record IsFirst (p : Row → Bool) (t : List Row) (r : Row) : Type 0 where
    pub listed : Memᴰ r t
    pub passes : p r ≡ true
    pub least : All (λ x. p x ≡ true → M.key r ≤ M.key x) t

  -- No row of `t` has the key `i`.
  abbrev pub IsFresh : ℕ → List Row → Type 0
  IsFresh i t = All (λ x. M.key x ≡ i → ⊥) t

module _ {W Row : Type 0} (M : Model Row) (clock : W → ℕ) where
  -- The documented behaviour of a call that does not fail. A query returns the matching rows, in
  -- no particular order; an insertion adds one row under a new key; an update and a deletion act on
  -- the matching rows and no others.
  pub record IsTable (T : Table W Row) : Type 0 where
    pub find_perm :
        (p : Row → Bool) (w : W) (t : List Row) (xs : List Row)
        → (T.find p w t).0 ≡ ok xs
        → Perm xs (select p t)
    pub count_length :
        (p : Row → Bool) (w : W) (t : List Row) (n : ℕ)
        → (T.count p w t).0 ≡ ok n
        → n ≡ length (select p t)
    pub first_some :
        (p : Row → Bool) (w : W) (t : List Row) (r : Row)
        → (T.first p w t).0 ≡ ok r
        → IsFirst M p t r
    pub first_none :
        (p : Row → Bool) (w : W) (t : List Row)
        → (T.first p w t).0 ≡ err record_not_found
        → select p t ≡ []
    pub create_row :
        (r : Row) (w : W) (t : List Row) (r' : Row) (t' : List Row)
        → (T.create r w t).0 ≡ ok (r', t')
        → (r' ≡ M.stamp (M.key r') (clock w) r) × (t' ≡ t ++ r' ∷ []) × IsFresh M (M.key r') t
    pub update_rows :
        (p : Row → Bool) (f : Row → Row) (w : W) (t t' : List Row)
        → (T.update p f w t).0 ≡ ok t'
        → t' ≡ replace p (λ r. M.touch (clock w) (f r)) t
    -- `Save` updates every column of the row with the key, and inserts a row whose key is not set.
    pub save_existing :
        (r : Row) (w : W) (t : List Row) (r' : Row) (t' : List Row)
        → (M.key r ≡ 0 → ⊥)
        → any t (λ x. M.key x == M.key r) ≡ true
        → (T.save r w t).0 ≡ ok (r', t')
        → (r' ≡ M.touch (clock w) r)
          × (t' ≡ replace (λ x. M.key x == M.key r) (λ _. M.touch (clock w) r) t)
    pub save_new :
        (r : Row) (w : W) (t : List Row) (r' : Row) (t' : List Row)
        → M.key r ≡ 0
        → (T.save r w t).0 ≡ ok (r', t')
        → (r' ≡ M.stamp (M.key r') (clock w) r) × (t' ≡ t ++ r' ∷ []) × IsFresh M (M.key r') t
    pub delete_rows :
        (p : Row → Bool) (w : W) (t t' : List Row)
        → (T.delete p w t).0 ≡ ok t'
        → t' ≡ select (λ r. not (p r)) t
