-- ===== src/Services/Booking/Messages.antt =====
-- Which validation messages `create_booking` returns.
use trekr_go.Prelude.{
  not, inl, inr, ◌&&◌, ◌||◌, string_instance, Bool-cases, ℕ, String, Bool, false, Option, none,
  some, List, [], ◌∷◌, ◌++◌, ◌≡◌, ◌≢◌, refl, sym, ap, ◌∙◌, ltb, ◌==◌, nat_instance, any,
  length-select-pos, if◌then◌else◌, arith,
}
use trekr_go.Dates.{parse_date, today}
use trekr_go.Models.{Booking, RvListing}
use trekr_go.Sql.{ok}
use trekr_go.Store.{
  Engine, IsEngine, State, find, count, bookings, create, Outcome, accepted, invalid,
}
use trekr_go.Store.Laws.{>>=-eq-ok, transaction-eq-ok}
use trekr_go.Services.Booking.{
  is_active, overlaps, date_errors, overlap_errors, has_overlap, insert_valid, new_booking,
  create_locked, create_booking,
}

-- An active row of the listing has a day in common with the two dates, if there are two.
abbrev pub taken : ℕ → Option ℕ → Option ℕ → List Booking → Bool
taken listing_id (some start) (some end) t = any t (λ b.
    (b.rv_listing_id == listing_id && (b.status == "pending" || (b.status == "confirmed" || false)))
    && not (ltb b.end_date start || ltb end b.start_date))
taken listing_id _ _ t = false

-- The messages of the dates, by which of them were read, on a day.
abbrev pub past_message : ℕ → ℕ → List String
past_message start day = if ltb start day then "Start date cannot be in the past" ∷ [] else []

abbrev pub order_message : ℕ → ℕ → List String → List String
order_message start end rest =
    if ltb start end then rest else "End date must be after start date" ∷ rest

abbrev pub date_messages : Option ℕ → Option ℕ → ℕ → List String
date_messages none none day = "Start date can't be blank" ∷ "End date can't be blank" ∷ []
date_messages none (some end) day = "Start date can't be blank" ∷ []
date_messages (some start) none day = "End date can't be blank" ∷ past_message start day
date_messages (some start) (some end) day = order_message start end (past_message start day)

date_errors-eq-messages :
    (start end : Option ℕ) (day : ℕ) → date_errors start end day ≡ date_messages start end day
unfolding date_errors
date_errors-eq-messages none none day = refl
date_errors-eq-messages none (some end) day = refl
date_errors-eq-messages (some start) none day = refl
date_errors-eq-messages (some start) (some end) day = elim (Bool-cases (ltb start end)) [
  | inl before ↦ rw before refl
  | inr after ↦ rw after refl
]

abbrev pub overlap_message : Bool → List String
overlap_message found = if found then "Booking dates overlap with existing booking" ∷ [] else []

abbrev pub messages : Outcome Booking → List String
messages (accepted b) = []
messages (invalid errs) = errs

module _ {W : Type 0} (E : Engine W) (laws : IsEngine E) where
  has_overlap-eq-ok :
      (listing_id x y : ℕ) (s : State W) (found : Bool)
      → (has_overlap E listing_id x y s).0 ≡ ok found
      → found ≡ any s.tables.bookings (overlaps listing_id x y)
  unfolding has_overlap
  has_overlap-eq-ok listing_id x y s found h =
      let p : Booking → Bool = overlaps listing_id x y in
      let (n, counted, left) = >>=-eq-ok (count (bookings E) p) _ s h in
      let told : ltb 0 n ≡ found = ground (arith, ap (λ r. r.0) left) in
      sym told
      ∙ ap (λ k. ltb 0 k) (laws.bookings.count_length p s.world s.tables.bookings n counted)
      ∙ length-select-pos p s.tables.bookings

  overlap_query :
      (listing_id x y : ℕ) (t : List Booking)
      → any t (overlaps listing_id x y) ≡ taken listing_id (some x) (some y) t
  unfolding overlaps is_active
  overlap_query listing_id x y t = refl

  overlap_errors-eq-ok :
      (listing_id : ℕ) (start end : Option ℕ) (s : State W) (errs : List String)
      → (overlap_errors E listing_id start end s).0 ≡ ok errs
      → errs ≡ overlap_message (taken listing_id start end s.tables.bookings)
  unfolding overlap_errors
  overlap_errors-eq-ok listing_id (some x) (some y) s errs h =
      let (found, told, left) = >>=-eq-ok (has_overlap E listing_id x y) _ s h in
      let shown : overlap_message found ≡ errs = ground (arith, ap (λ r. r.0) left) in
      sym shown
      ∙ ap overlap_message (
          has_overlap-eq-ok listing_id x y s found told
          ∙ overlap_query listing_id x y s.tables.bookings)
  overlap_errors-eq-ok listing_id none end s errs h = cc
  overlap_errors-eq-ok listing_id (some x) none s errs h = cc

  insert_valid-eq-ok :
      (errs : List String) (r : Booking) (s : State W) (o : Outcome Booking)
      → (insert_valid E errs r s).0 ≡ ok o
      → (messages o ≡ errs) × (o ≢ invalid [])
  unfolding insert_valid
  insert_valid-eq-ok [] r s (accepted b) h = (refl, λ e. cc)
  insert_valid-eq-ok [] r s (invalid es) h =
      let (b, made, left) = >>=-eq-ok (create (bookings E) r) _ s h in cc (ap (λ r. r.0) left, h)
  insert_valid-eq-ok (e ∷ es) r s (accepted b) h = cc
  insert_valid-eq-ok (e ∷ es) r s (invalid es') h = let same : es' ≡ e ∷ es = cc in (same, λ q. cc)

  create_locked-eq-ok :
      (hirer_id listing_id : ℕ) (start end : Option ℕ) (errs : List String) (s : State W)
      (o : Outcome Booking)
      → (create_locked E hirer_id listing_id start end errs s).0 ≡ ok o
      → (messages o ≡ errs ++ overlap_message (taken listing_id start end s.tables.bookings))
        × (o ≢ invalid [])
  unfolding create_locked
  create_locked-eq-ok hirer_id listing_id start end errs s o h =
      let lock = find (bookings E) (λ b. b.rv_listing_id == listing_id) in
      let (locked, _, after_find) = >>=-eq-ok lock _ s h in
      let s₁ = (lock s).1 in
      let (found, checked, after_check) =
        >>=-eq-ok (overlap_errors E listing_id start end) _ s₁ (rw after_find at h) in
      let s₂ = (overlap_errors E listing_id start end s₁).1 in
      let (told, ran) =
        insert_valid-eq-ok (errs ++ found) (new_booking hirer_id listing_id start end) s₂ o
          (rw after_check at (rw after_find at h)) in
      (told ∙ ap (λ l. errs ++ l) (overlap_errors-eq-ok listing_id start end s₁ found checked), ran)

  -- A request that meets no database error gets these messages and no others, in this order: of a
  -- start date that was not read, of an end date that was not, of an end that is not after the
  -- start, of a start before today, and of an active row of the listing that shares a day with the
  -- dates. It is refused if there is a message, and accepted if there is none.
  pub messages-create_booking :
      (hirer_id : ℕ) (listing : RvListing) (start_str end_str : String) (s : State W)
      (o : Outcome Booking)
      → (create_booking E hirer_id listing start_str end_str s).0 ≡ ok o
      → let start = parse_date start_str in
        let end = parse_date end_str in
        (messages o
          ≡ date_messages start end (today (E.clock s.world))
            ++ overlap_message (taken listing.id start end s.tables.bookings))
        × (o ≢ invalid [])
  unfolding create_booking
  messages-create_booking hirer_id listing start_str end_str s o h =
      let start = parse_date start_str in
      let end = parse_date end_str in
      let (told, ran) =
        create_locked-eq-ok hirer_id listing.id start end _ _ o (transaction-eq-ok E _ s o h) in
      (
        told
            ∙ ap (λ l. l ++ overlap_message (taken listing.id start end s.tables.bookings))
                (date_errors-eq-messages start end (today (E.clock s.world))),
        ran,
      )
