-- ===== src/Store/Errors.antt =====
-- A statement that fails leaves the tables as they were.
use trekr_go.Prelude.{Bool, ◌≡◌, refl, ◌⊎◌, inl, inr}
use trekr_go.Sql.{Result, ok, err, DbError}
use trekr_go.Store.Defs.{Tables, State, Handle, create, update, writing, storing}

writing-eq-err :
    {W A T : Type 0} (r : Result (A × T) × W) (put : T → Tables → Tables) (s : State W)
    (e : DbError)
    → (writing r put s).0 ≡ err e
    → (writing r put s).1.tables ≡ s.tables
writing-eq-err (ok (a, t), w) put s e h = cc
writing-eq-err (err e', w) put s e h = refl

storing-eq-err :
    {W T : Type 0} (r : Result T × W) (put : T → Tables → Tables) (s : State W) (e : DbError)
    → (storing r put s).0 ≡ err e
    → (storing r put s).1.tables ≡ s.tables
storing-eq-err (ok t, w) put s e h = cc
storing-eq-err (err e', w) put s e h = refl

pub Result-cases :
    {A : Type 0} (r : Result A) → ((a : A) × (r ≡ ok a)) ⊎ ((e : DbError) × (r ≡ err e))
Result-cases (ok a) = inl (a, refl)
Result-cases (err e) = inr (e, refl)

module _ {W Row : Type 0} (h : Handle W Row) where
  pub create-eq-err :
      (r : Row) (s : State W) (e : DbError)
      → (create h r s).0 ≡ err e
      → (create h r s).1.tables ≡ s.tables
  create-eq-err r s e = writing-eq-err (h.table.create r s.world (h.rows s.tables)) h.with_rows s e

  pub update-eq-err :
      (p : Row → Bool) (f : Row → Row) (s : State W) (e : DbError)
      → (update h p f s).0 ≡ err e
      → (update h p f s).1.tables ≡ s.tables
  update-eq-err p f s e =
      storing-eq-err (h.table.update p f s.world (h.rows s.tables)) h.with_rows s e
