-- ===== src/Services/Booking/Interleaved/First.antt =====
-- services/booking_service.go: two requests for a listing without bookings are not serialized, as
-- there is no row to lock.
use trekr_go.Prelude.{
  ℕ, true, false, List, [], ◌∷◌, ◌++◌, ◌≡◌, refl, any, select, map, ◌==◌, nat_instance, ap,
  Bool-cases, inl, inr, arith, ◌≤◌,
}
use trekr_go.Models.{Booking}
use trekr_go.Services.Booking.{overlaps, is_active, new_booking}
use trekr_go.Services.Booking.Spec.{conflicts}
use trekr_go.Services.Booking.Interleaved.{
  Attempt, System, rows_of, meets, row_for, begin_lock, take_lock, find_free, insert_commit, Steps,
  no_step, then_step, started, disjoint,
}

rows_of_none :
    (listing_id : ℕ) (rows : List Booking)
    → select (λ b. b.rv_listing_id == listing_id) rows ≡ []
    → rows_of listing_id rows ≡ []
unfolding rows_of
rows_of_none listing_id rows h = ap (map (λ b. b.id)) h

meets_none :
    (a : Attempt) (rows : List Booking)
    → select (λ b. b.rv_listing_id == a.listing_id) rows ≡ []
    → any rows (meets a) ≡ false
unfolding overlaps
meets_none a [] h = refl
meets_none a (b ∷ rows) h = elim (Bool-cases (b.rv_listing_id == a.listing_id)) [
  | inl own ↦ let h' = rw own at h in cc
  | inr other ↦ rw other (meets_none a rows (rw other at h))
]

none_held : (ids other : List ℕ) → ids ≡ [] → disjoint ids other ≡ true
none_held ids other h = rw h refl

rows_conflict :
    (a b : Attempt) (i j now : ℕ)
    → a.listing_id ≡ b.listing_id
    → a.start ≤ b.end
    → b.start ≤ a.end
    → conflicts (row_for a i now) (row_for b j now) ≡ true
unfolding conflicts is_active new_booking
rows_conflict a b i j now e l r = ground (arith, e, l, r)

module _ (attempts : ℕ → Attempt) (rows : List Booking) (i j now : ℕ) where
  -- Two first requests for a listing whose dates meet can both be accepted.
  pub first_bookings_conflict :
      (attempts 0).listing_id ≡ (attempts 1).listing_id
      → (attempts 0).start ≤ (attempts 1).end
      → (attempts 1).start ≤ (attempts 0).end
      → select (λ b. b.rv_listing_id == (attempts 0).listing_id) rows ≡ []
      → (s : System) × Steps attempts (started rows) s
        × (s.rows ≡ (rows ++ row_for (attempts 0) i now ∷ []) ++ row_for (attempts 1) j now ∷ [])
        × (conflicts (row_for (attempts 0) i now) (row_for (attempts 1) j now) ≡ true)
  first_bookings_conflict same l r empty =
      let none = rows_of_none (attempts 0).listing_id rows empty in
      let empty' : select (λ b. b.rv_listing_id == (attempts 1).listing_id) rows ≡ [] =
        rw same at empty in
      let none' = rows_of_none (attempts 1).listing_id rows empty' in
      let before = no_step in
      let s₁ = then_step before (begin_lock 0 refl) in
      let s₂ = then_step s₁ (take_lock 0 _ refl (λ d other. none_held _ _ none)) in
      let s₃ = then_step s₂ (find_free 0 _ refl (meets_none (attempts 0) rows empty)) in
      let s₄ = then_step s₃ (begin_lock 1 refl) in
      let s₅ = then_step s₄ (take_lock 1 _ refl (λ d other. none_held _ _ none')) in
      let s₆ = then_step s₅ (find_free 1 _ refl (meets_none (attempts 1) rows empty')) in
      let s₇ = then_step s₆ (insert_commit 0 _ i now refl) in
      let s₈ = then_step s₇ (insert_commit 1 _ j now refl) in
      (_, s₈, refl, rows_conflict (attempts 0) (attempts 1) i j now same l r)
