-- ===== src/Services/Booking/Interleaved/Invariant.antt =====
-- services/booking_service.go: what holds of the requests for listings that have a booking, whose
-- lock serializes them.
use trekr_go.Prelude.{
  ℕ, Bool, true, false, ◌&&◌, List, [], ◌∷◌, ◌++◌, ◌≡◌, refl, sym, subst, any, ◌==◌, nat_instance,
  Bool-cases, inl, inr, arith, All, if◌then◌else◌,
}
use trekr_go.Models.{Booking}
use trekr_go.Services.Booking.Spec.{NoConflicts}
use trekr_go.Services.Booking.Interleaved.{
  Attempt, Phase, idle, waiting, holding, clear, finished, held, System, set_phase, in_phase,
  rows_of, disjoint, meets,
}

-- The key of the first booking of a listing.
abbrev pub anchor : ℕ → List Booking → ℕ
anchor l [] = 0
anchor l (b ∷ rows) = let rest = anchor l rows in if b.rv_listing_id == l then b.id else rest

abbrev pub has_row : ℕ → ℕ → List Booking → Bool
has_row l k rows = any rows (λ b. b.rv_listing_id == l && b.id == k)

pub has_row-anchor :
    (l : ℕ) (rows : List Booking)
    → any rows (λ b. b.rv_listing_id == l) ≡ true
    → has_row l (anchor l rows) rows ≡ true
has_row-anchor l [] h = cc
has_row-anchor l (b ∷ rows) h = elim (Bool-cases (b.rv_listing_id == l)) [
  | inl own ↦ rw own (ground arith)
  | inr other ↦ rw other (has_row-anchor l rows (rw other at h))
]

pub any_append :
    {A : Type 0} (p : A → Bool) (xs ys : List A) → any xs p ≡ true → any (xs ++ ys) p ≡ true
any_append p [] ys h = cc
any_append p (x ∷ xs) ys h = elim (Bool-cases (p x)) [
  | inl e ↦ rw e refl
  | inr e ↦ rw e (any_append p xs ys (rw e at h))
]

pub any-rows_of :
    (l k : ℕ) (rows : List Booking)
    → has_row l k rows ≡ true
    → any (rows_of l rows) (λ j. j == k) ≡ true
unfolding rows_of
any-rows_of l k [] h = cc
any-rows_of l k (b ∷ rows) h = elim (Bool-cases (b.rv_listing_id == l)) [
  | inl own ↦ rw own (elim (Bool-cases (b.id == k)) [
    | inl e ↦ rw e refl
    | inr e ↦ rw e (any-rows_of l k rows (rw (own, e) at h))
  ])
  | inr other ↦ rw other (any-rows_of l k rows (rw other at h))
]

pub disjoint_shared :
    (k : ℕ) (is js : List ℕ)
    → any is (λ j. j == k) ≡ true
    → any js (λ j. j == k) ≡ true
    → disjoint is js ≡ true
    → ⊥
disjoint_shared k [] js h h' d = cc
disjoint_shared k (i ∷ is) js h h' d = elim (Bool-cases (i == k)) [
  | inl e ↦
      let same : k ≡ i = sym ((nat_instance.tells_same_iff i k).0 e) in
      let found : any js (λ j. j == i) ≡ true = subst (λ k. any js (λ j. j == k) ≡ true) same h' in
      let no = rw found at d in cc
  | inr e ↦ disjoint_shared k is js (rw e at h) h' (ground arith)
]

pub any_none :
    {A : Type 0} (p : A → Bool) (xs : List A) → any xs p ≡ false → All (λ x. p x ≡ false) xs
any_none p [] h = tt
any_none p (x ∷ xs) h = ground (arith, any_none p xs)

abbrev pub holds : Phase → Bool
holds idle = false
holds (waiting ids) = false
holds (holding ids) = true
holds (clear ids) = true
holds finished = false

abbrev pub is_clear : Phase → Bool
is_clear (clear ids) = true
is_clear _ = false

-- A lock, wanted or taken, is for the row `k` among others.
abbrev pub asks : ℕ → Phase → Bool
asks k idle = true
asks k (waiting ids) = any ids (λ j. j == k)
asks k (holding ids) = any ids (λ j. j == k)
asks k (clear ids) = any ids (λ j. j == k)
asks k finished = true

pub held_asked :
    (k : ℕ) (p : Phase) → holds p ≡ true → asks k p ≡ true → any (held p) (λ j. j == k) ≡ true
held_asked k idle h a = cc
held_asked k (waiting ids) h a = cc
held_asked k (holding ids) h a = a
held_asked k (clear ids) h a = a
held_asked k finished h a = cc

pub set_phase_all :
    (P : ℕ → Phase → Type 0) (c : ℕ) (p : Phase) (phases : ℕ → Phase) (d : ℕ)
    → P c p
    → P d (phases d)
    → P d (set_phase c p phases d)
set_phase_all P c p phases d own other = elim (Bool-cases (d == c)) [
  | inl e ↦
      let same : d ≡ c = (nat_instance.tells_same_iff d c).0 e in
      rw e (subst (λ d. P d p) (sym same) own)
  | inr e ↦ rw e other
]

module _ (attempts : ℕ → Attempt) (key : ℕ → ℕ) where
  -- What holds of the system at any time; `key` is a row of each listing.
  pub record IsSerial (s : System) : Type 0 where
    pub free_of_conflicts : NoConflicts s.rows
    pub anchored :
        (c : ℕ) → has_row (attempts c).listing_id (key (attempts c).listing_id) s.rows ≡ true
    pub asked : (c : ℕ) → asks (key (attempts c).listing_id) (s.phases c) ≡ true
    pub exclusive :
        (c d : ℕ)
        → (d == c) ≡ false
        → (attempts d).listing_id ≡ (attempts c).listing_id
        → holds (s.phases c) ≡ true
        → holds (s.phases d) ≡ true
        → ⊥
    pub free : (c : ℕ) → is_clear (s.phases c) ≡ true → any s.rows (meets (attempts c)) ≡ false

  -- A request that goes on keeps it, if it holds a lock only when it did, and is clear only when
  -- its dates are free.
  pub IsSerial-in_phase :
      (s : System) (c : ℕ) (p : Phase)
      → IsSerial s
      → asks (key (attempts c).listing_id) p ≡ true
      → (holds p ≡ true → holds (s.phases c) ≡ true)
      → (is_clear p ≡ true → any s.rows (meets (attempts c)) ≡ false)
      → IsSerial (in_phase c p s)
  IsSerial-in_phase s c p inv asked held free = record {
    free_of_conflicts = inv.free_of_conflicts;
    anchored = inv.anchored;
    asked = λ d.
        set_phase_all (λ d q. asks (key (attempts d).listing_id) q ≡ true) c p s.phases d asked
          (inv.asked d);
    exclusive = λ a b other same ha hb.
        inv.exclusive a b other same
          (set_phase_all (λ d q. holds q ≡ true → holds (s.phases d) ≡ true) c p s.phases a held
            (λ h. h) ha)
          (set_phase_all (λ d q. holds q ≡ true → holds (s.phases d) ≡ true) c p s.phases b held
            (λ h. h) hb);
    free = λ d.
        set_phase_all (λ d q. is_clear q ≡ true → any s.rows (meets (attempts d)) ≡ false) c p
          s.phases d free (inv.free d);
  }
