-- ===== src/Store/Laws.antt =====
-- Inversion of the statements: what a successful statement, sequence or transaction tells.
use trekr_go.Prelude.{
  ℕ, Bool, true, false, [], ◌∷◌, ◌++◌, ◌≡◌, refl, ap, ◌∙◌, select, replace, not, any, ◌==◌,
  nat_instance, arith, ◌⊎◌, inl, inr,
}
use trekr_go.Sql.{Result, ok, err, Model, IsTable, IsFresh}
use trekr_go.Store.Defs.{
  Tables, Engine, State, Action, continue, ◌>>=◌, writing, storing, Handle, create, update, save,
  delete, Outcome, accepted, invalid, transaction,
}

abbrev pub is_ok : {A : Type 0} → Result A → Bool
is_ok (ok a) = true
is_ok (err e) = false

abbrev pub is_accepted : {A : Type 0} → Result (Outcome A) → Bool
is_accepted (ok (accepted a)) = true
is_accepted (ok (invalid es)) = false
is_accepted (err e) = false

pub accepted-cases :
    {A : Type 0} (r : Result (Outcome A))
    → (is_accepted r ≡ false) ⊎ ((a : A) × (r ≡ ok (accepted a)))
accepted-cases (ok (accepted a)) = inr (a, refl)
accepted-cases (ok (invalid es)) = inl refl
accepted-cases (err e) = inl refl

pub ok-of_is_ok : {A : Type 0} (r : Result A) → is_ok r ≡ true → (a : A) × (r ≡ ok a)
ok-of_is_ok (ok a) h = (a, refl)
ok-of_is_ok (err e) h = cc

module _ {W A B : Type 0} where
  continue-eq-ok :
      (r : Result A × State W) (f : A → Action W B) {b : B}
      → (continue r f).0 ≡ ok b
      → (a : A) × (r.0 ≡ ok a) × (continue r f ≡ f a r.1)
  continue-eq-ok (ok a, s) f h = (a, refl, refl)
  continue-eq-ok (err e, s) f h = cc

  -- A sequence that succeeds is its second part, after a first part that succeeded.
  pub >>=-eq-ok :
      (m : Action W A) (f : A → Action W B) (s : State W) {b : B}
      → ((m >>= f) s).0 ≡ ok b
      → (a : A) × ((m s).0 ≡ ok a) × ((m >>= f) s ≡ f a (m s).1)
  >>=-eq-ok m f s h = continue-eq-ok (m s) f h

module _ {W Row : Type 0} (M : Model Row) (clock : W → ℕ) where
  writing-eq-ok :
      {A T : Type 0} (r : Result (A × T) × W) (put : T → Tables → Tables) (s : State W) (a : A)
      → (writing r put s).0 ≡ ok a
      → (t : T) × (r.0 ≡ ok (a, t))
        × ((writing r put s).1 ≡ record s { world = r.1; tables = put t s.tables })
  writing-eq-ok (ok (a', t), w) put s a h = (t, cc, refl)
  writing-eq-ok (err e, w) put s a h = cc

  -- An insertion that succeeds adds the stamped row, under a new key, and nothing else.
  pub create-eq-ok :
      (h : Handle W Row)
      → IsTable M clock h.table
      → (r : Row) (s : State W) (r' : Row) → (create h r s).0 ≡ ok r'
      → ((create h r s).1.tables ≡ h.with_rows (h.rows s.tables ++ r' ∷ []) s.tables)
        × (r' ≡ M.stamp (M.key r') (clock s.world) r)
        × IsFresh M (M.key r') (h.rows s.tables)
  create-eq-ok h laws r s r' e =
      let x = h.table.create r s.world (h.rows s.tables) in
      let (t, made, left) = writing-eq-ok x h.with_rows s r' e in
      let (stamped, rows, fresh) = laws.create_row r s.world (h.rows s.tables) r' t made in
      (rw left (ap (λ l. h.with_rows l s.tables) rows), stamped, fresh)

  storing-eq-ok :
      {T : Type 0} (r : Result T × W) (put : T → Tables → Tables) (s : State W) (u : Unit {0})
      → (storing r put s).0 ≡ ok u
      → (t : T) × (r.0 ≡ ok t)
        × ((storing r put s).1 ≡ record s { world = r.1; tables = put t s.tables })
  storing-eq-ok (ok t, w) put s u h = (t, refl, refl)
  storing-eq-ok (err e, w) put s u h = cc

  pub update-eq-ok :
      (h : Handle W Row)
      → IsTable M clock h.table
      → (p : Row → Bool) (f : Row → Row) (s : State W) (u : Unit {0}) → (update h p f s).0 ≡ ok u
      → (update h p f s).1.tables
        ≡ h.with_rows (replace p (λ r. M.touch (clock s.world) (f r)) (h.rows s.tables)) s.tables
  update-eq-ok h laws p f s u e =
      let x = h.table.update p f s.world (h.rows s.tables) in
      let (t, made, left) = storing-eq-ok x h.with_rows s u e in
      rw left
        (ap (λ l. h.with_rows l s.tables) (laws.update_rows p f s.world (h.rows s.tables) t made))

  -- A row that is saved under the key of a row of the table replaces that one.
  pub save-eq-ok :
      (h : Handle W Row)
      → IsTable M clock h.table
      → (r : Row) (s : State W) (r' : Row) → (M.key r ≡ 0 → ⊥)
      → any (h.rows s.tables) (λ x. M.key x == M.key r) ≡ true
      → (save h r s).0 ≡ ok r'
      → (r' ≡ M.touch (clock s.world) r)
        × ((save h r s).1.tables
            ≡ h.with_rows
                (replace
                  (λ x. M.key x == M.key r)
                  (λ _. M.touch (clock s.world) r)
                  (h.rows s.tables))
                s.tables)
  save-eq-ok h laws r s r' set there e =
      let x = h.table.save r s.world (h.rows s.tables) in
      let (t, made, left) = writing-eq-ok x h.with_rows s r' e in
      let (touched, rows) = laws.save_existing r s.world (h.rows s.tables) r' t set there made in
      (touched, rw left (ap (λ l. h.with_rows l s.tables) rows))

  pub delete-eq-ok :
      (h : Handle W Row)
      → IsTable M clock h.table
      → (p : Row → Bool) (s : State W) (u : Unit {0}) → (delete h p s).0 ≡ ok u
      → (delete h p s).1.tables ≡ h.with_rows (select (λ r. not (p r)) (h.rows s.tables)) s.tables
  delete-eq-ok h laws p s u e =
      let x = h.table.delete p s.world (h.rows s.tables) in
      let (t, made, left) = storing-eq-ok x h.with_rows s u e in
      rw left
        (ap (λ l. h.with_rows l s.tables) (laws.delete_rows p s.world (h.rows s.tables) t made))

module _ {W A : Type 0} (E : Engine W) where
  -- A transaction that is accepted ran its body, which was accepted, and kept what it wrote.
  pub transaction-eq-accepted :
      (body : Action W (Outcome A)) (s : State W) (a : A)
      → (transaction E body s).0 ≡ ok (accepted a)
      → let s₀ : State W = record s { world = (E.begin s.world).1 } in
        ((body s₀).0 ≡ ok (accepted a)) × ((transaction E body s).1.tables ≡ (body s₀).1.tables)
  unfolding transaction
  transaction-eq-accepted body s a h = ground arith

  -- Any other transaction leaves the tables as they were.
  pub transaction_atomic :
      (body : Action W (Outcome A)) (s : State W)
      → is_accepted (transaction E body s).0 ≡ false
      → (transaction E body s).1.tables ≡ s.tables
  unfolding transaction
  transaction_atomic body s h = ground arith

  -- The outcome of a transaction is that of its body.
  pub transaction-eq-ok :
      (body : Action W (Outcome A)) (s : State W) (o : Outcome A)
      → (transaction E body s).0 ≡ ok o
      → (body (record s { world = (E.begin s.world).1 })).0 ≡ ok o
  unfolding transaction
  transaction-eq-ok body s o h = ground arith

-- `m` leaves this view of the tables as it was, however it ends.
abbrev pub Keeps : {W A X : Type 0} → (Tables → X) → Action W A → Type 0
Keeps {W} view m = (s : State W) → view (m s).1.tables ≡ view s.tables

module _ {W A B X : Type 0} (view : Tables → X) where
  continue-kept :
      (r : Result A × State W) (f : A → Action W B)
      → ((a : A) → Keeps view (f a))
      → view (continue r f).1.tables ≡ view r.1.tables
  continue-kept (ok a, s) f h = h a s
  continue-kept (err e, s) f h = refl

  -- A sequence of actions that keep a view keeps it.
  pub >>=-Keeps :
      (m : Action W A) (f : A → Action W B)
      → Keeps view m
      → ((a : A) → Keeps view (f a))
      → Keeps view (m >>= f)
  >>=-Keeps m f h k s = continue-kept (m s) f k ∙ h s

-- A transaction keeps what its body keeps.
pub transaction-Keeps :
    {W A X : Type 0} (E : Engine W) (view : Tables → X) (body : Action W (Outcome A))
    → Keeps view body
    → Keeps view (transaction E body)
transaction-Keeps E view body h s = elim (accepted-cases (transaction E body s).0) [
  | inl refused ↦ ap view (transaction_atomic E body s refused)
  | inr (a, done) ↦
      ap view ((transaction-eq-accepted E body s a done).1)
      ∙ h (record s { world = (E.begin s.world).1 })
]

-- `m` keeps a property of the tables, however it ends.
abbrev pub Preserves : {W A : Type 0} → (Tables → Type 0) → Action W A → Type 0
Preserves {W} P m = (s : State W) → P s.tables → P (m s).1.tables

module _ {W A B : Type 0} (P : Tables → Type 0) where
  pub continue-preserved :
      (r : Result A × State W) (f : A → Action W B)
      → ((a : A) → Preserves P (f a))
      → P r.1.tables
      → P (continue r f).1.tables
  continue-preserved (ok a, s) f h p = h a s p
  continue-preserved (err e, s) f h p = p

  -- A sequence of actions that keep a property keeps it.
  pub >>=-Preserves :
      (m : Action W A) (f : A → Action W B)
      → Preserves P m
      → ((a : A) → Preserves P (f a))
      → Preserves P (m >>= f)
  >>=-Preserves m f h k s p = continue-preserved (m s) f k (h s p)

module _ {W Row : Type 0} (M : Model Row) (clock : W → ℕ) where
  storing-cases :
      {T : Type 0} (r : Result T × W) (put : T → Tables → Tables) (s : State W)
      → ((storing r put s).1.tables ≡ s.tables)
        ⊎ ((t : T) × (r.0 ≡ ok t) × ((storing r put s).1.tables ≡ put t s.tables))
  storing-cases (ok t, w) put s = inr (t, refl, refl)
  storing-cases (err e, w) put s = inl refl

  -- An update changes the matching rows, or, when it fails, nothing.
  pub update-cases :
      (h : Handle W Row)
      → IsTable M clock h.table
      → (p : Row → Bool) (f : Row → Row) (s : State W)
      → ((update h p f s).1.tables ≡ s.tables)
        ⊎ ((update h p f s).1.tables
            ≡ h.with_rows
                (replace p (λ r. M.touch (clock s.world) (f r)) (h.rows s.tables))
                s.tables)
  update-cases h laws p f s =
      let x = h.table.update p f s.world (h.rows s.tables) in
      elim (storing-cases x h.with_rows s) [
        | inl e ↦ inl e
        | inr (t, made, left) ↦ inr (
            left
            ∙ ap (λ l. h.with_rows l s.tables)
                (laws.update_rows p f s.world (h.rows s.tables) t made))
      ]

  writing-cases :
      {A T : Type 0} (r : Result (A × T) × W) (put : T → Tables → Tables) (s : State W)
      → ((writing r put s).1.tables ≡ s.tables)
        ⊎ ((a : A) × (t : T) × (r.0 ≡ ok (a, t)) × ((writing r put s).1.tables ≡ put t s.tables))
  writing-cases (ok (a, t), w) put s = inr (a, t, refl, refl)
  writing-cases (err e, w) put s = inl refl

  -- An insertion adds the stamped row, or, when it fails, nothing.
  pub create-cases :
      (h : Handle W Row)
      → IsTable M clock h.table
      → (r : Row) (s : State W)
      → ((create h r s).1.tables ≡ s.tables)
        ⊎ ((r' : Row) × ((create h r s).1.tables
              ≡ h.with_rows (h.rows s.tables ++ r' ∷ []) s.tables)
            × (r' ≡ M.stamp (M.key r') (clock s.world) r))
  create-cases h laws r s =
      let x = h.table.create r s.world (h.rows s.tables) in
      elim (writing-cases x h.with_rows s) [
        | inl e ↦ inl e
        | inr (r', t, made, left) ↦
            let (stamped, rows, _) = laws.create_row r s.world (h.rows s.tables) r' t made in
            inr (r', left ∙ ap (λ l. h.with_rows l s.tables) rows, stamped)
      ]
