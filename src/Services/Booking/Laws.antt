-- ===== src/Services/Booking/Laws.antt =====
-- What `create_booking` and `set_status` do to the table of bookings.
use trekr_go.Prelude.{
  ℕ, String, false, ◌<◌, ◌≤◌, Option, none, some, List, [], ◌∷◌, ◌++◌, ◌≡◌, refl, sym, ap, ◌∙◌,
  ◌==◌, nat_instance, All, arith, All-of_select-empty, AllPairs-append, All-weaken, append-eq-nil,
  subst, inl, inr,
}
use trekr_go.Dates.{parse_date, today}
use trekr_go.Models.{Booking, RvListing, booking_model}
use trekr_go.Sql.{ok}
use trekr_go.Store.{Tables, Engine, IsEngine, State, find, count, create, bookings, accepted}
use trekr_go.Store.Laws.{
  accepted-cases, is_accepted, >>=-eq-ok, create-eq-ok, transaction-eq-accepted, transaction_atomic,
}
use trekr_go.Services.Booking.{
  overlaps, date_errors, overlap_errors, has_overlap, insert_valid, new_booking, create_locked,
  create_booking, or_zero_time,
}
use trekr_go.Services.Booking.Spec.{conflicts, NoConflicts, conflicts_of_overlaps}

module _ {W : Type 0} (E : Engine W) (laws : IsEngine E) where
  insert_valid-eq-accepted :
      (errs : List String) (r : Booking) (s : State W) (b : Booking)
      → (insert_valid E errs r s).0 ≡ ok (accepted b)
      → (errs ≡ [])
        × (b ≡ booking_model.stamp b.id (E.clock s.world) r)
        × ((insert_valid E errs r s).1.tables
            ≡ record s.tables { bookings = s.tables.bookings ++ b ∷ [] })
  unfolding insert_valid
  insert_valid-eq-accepted [] r s b h =
      let (b', made, left) = >>=-eq-ok (create (bookings E) r) _ s h in
      let (rows, stamped, fresh) =
        create-eq-ok booking_model E.clock (bookings E) laws.bookings r s b' made in
      let same : b' ≡ b = cc (ap (λ x. x.0) left) in
      (refl, rw (← same) stamped, rw left (rw (← same) rows))
  insert_valid-eq-accepted (e ∷ es) r s b h = cc

  module _ (listing_id x y : ℕ) where
    has_overlap-eq-false :
        (s : State W)
        → (has_overlap E listing_id x y s).0 ≡ ok false
        → All (λ b. overlaps listing_id x y b ≡ false) s.tables.bookings
    unfolding has_overlap
    has_overlap-eq-false s h =
        let (n, counted, left) = >>=-eq-ok (count (bookings E) (overlaps listing_id x y)) _ s h in
        let none_counted : n ≡ 0 = ground (arith, ap (λ r. r.0) left) in
        All-of_select-empty (overlaps listing_id x y) s.tables.bookings
          (sym (laws.bookings.count_length _ _ _ n counted) ∙ none_counted)

    overlap_errors-eq-empty :
        (s : State W)
        → (overlap_errors E listing_id (some x) (some y) s).0 ≡ ok []
        → All (λ b. overlaps listing_id x y b ≡ false) s.tables.bookings
    unfolding overlap_errors
    overlap_errors-eq-empty s h =
        let (found, told, left) = >>=-eq-ok (has_overlap E listing_id x y) _ s h in
        let free : found ≡ false = ground (arith, ap (λ r. r.0) left) in
        has_overlap-eq-false s (rw free at told)

  overlap_errors-free :
      (listing_id x y : ℕ) (start end : Option ℕ) (s : State W)
      → start ≡ some x
      → end ≡ some y
      → (overlap_errors E listing_id start end s).0 ≡ ok []
      → All (λ b. overlaps listing_id x y b ≡ false) s.tables.bookings
  overlap_errors-free listing_id x y (some x') (some y') s p q h =
      let same_x : x' ≡ x = cc in
      let same_y : y' ≡ y = cc in
      rw (← same_x, ← same_y) (overlap_errors-eq-empty listing_id x' y' s h)
  overlap_errors-free listing_id x y none end s p q h = cc
  overlap_errors-free listing_id x y (some x') none s p q h = cc

  tables-overlap_errors :
      (listing_id : ℕ) (start end : Option ℕ) (s : State W)
      → (overlap_errors E listing_id start end s).1.tables ≡ s.tables
  unfolding overlap_errors has_overlap
  tables-overlap_errors listing_id start end s = ground arith

date_errors-eq-nil :
    (start end : Option ℕ) (day : ℕ)
    → date_errors start end day ≡ []
    → (start ≡ some (or_zero_time start))
      × (end ≡ some (or_zero_time end))
      × (or_zero_time start < or_zero_time end)
      × (day ≤ or_zero_time start)
unfolding date_errors
date_errors-eq-nil start end day h = ground arith

-- What a booking is that the service accepts: its dates are those of the request, in order and not
-- past; it is pending, of this hirer and listing; and it conflicts with no row of the table.
pub record IsBooked (hirer_id : ℕ) (listing : RvListing) (start_str end_str : String) (time : ℕ)
    (t : List Booking) (b : Booking) : Type 0 where
  pub start : parse_date start_str ≡ some b.start_date
  pub end : parse_date end_str ≡ some b.end_date
  pub ordered : b.start_date < b.end_date
  pub not_past : today time ≤ b.start_date
  pub pending : b.status ≡ "pending"
  pub hirer : b.hirer_id ≡ hirer_id
  pub listed : b.rv_listing_id ≡ listing.id
  pub free : All (λ c. conflicts c b ≡ false) t

-- A stamped row is booked if the checks of its dates and the overlap query found nothing.
stamped-IsBooked :
    (hirer_id : ℕ) (listing : RvListing) (start_str end_str : String) (time stamp_time : ℕ)
    (t : List Booking) (b : Booking)
    → let start = parse_date start_str in
      let end = parse_date end_str in
      date_errors start end (today time) ≡ []
      → b ≡ booking_model.stamp b.id stamp_time (new_booking hirer_id listing.id start end)
      → All (λ c. overlaps listing.id (or_zero_time start) (or_zero_time end) c ≡ false) t
      → IsBooked hirer_id listing start_str end_str time t b
unfolding new_booking
stamped-IsBooked hirer_id listing start_str end_str time stamp_time t b clear stamped free =
    let start = parse_date start_str in
    let end = parse_date end_str in
    let (start_some, end_some, ordered, not_past) =
      date_errors-eq-nil start end (today time) clear in
    let at_start : b.start_date ≡ or_zero_time start = ap (λ r. r.start_date) stamped in
    let at_end : b.end_date ≡ or_zero_time end = ap (λ r. r.end_date) stamped in
    let listed : b.rv_listing_id ≡ listing.id = ap (λ r. r.rv_listing_id) stamped in
    record {
      start = rw at_start start_some;
      end = rw at_end end_some;
      ordered = omega arith;
      not_past = omega arith;
      pending = ap (λ r. r.status) stamped;
      hirer = ap (λ r. r.hirer_id) stamped;
      listed = listed;
      free =
          All-weaken _ _ t (λ c e. conflicts_of_overlaps c b (rw (listed, at_start, at_end) e))
            free;
    }

module _ {W : Type 0} (E : Engine W) (laws : IsEngine E) where
  -- The body of the transaction, when it inserts a booking.
  create_locked-eq-accepted :
      (hirer_id listing_id : ℕ) (start end : Option ℕ) (errs : List String) (s : State W)
      (b : Booking)
      → (create_locked E hirer_id listing_id start end errs s).0 ≡ ok (accepted b)
      → (errs ≡ [])
        × ((overlap_errors E listing_id start end
              (find (bookings E) (λ b. b.rv_listing_id == listing_id) s).1).0
            ≡ ok [])
        × ((time : ℕ) × (b
              ≡ booking_model.stamp b.id time (new_booking hirer_id listing_id start end)))
        × ((create_locked E hirer_id listing_id start end errs s).1.tables
            ≡ record s.tables { bookings = s.tables.bookings ++ b ∷ [] })
  unfolding create_locked
  create_locked-eq-accepted hirer_id listing_id start end errs s b h =
      let (locked, _, after_find) =
        >>=-eq-ok (find (bookings E) (λ b. b.rv_listing_id == listing_id)) _ s h in
      let s₁ = (find (bookings E) (λ b. b.rv_listing_id == listing_id) s).1 in
      let (found, checked, after_check) =
        >>=-eq-ok (overlap_errors E listing_id start end) _ s₁ (rw after_find at h) in
      let s₂ = (overlap_errors E listing_id start end s₁).1 in
      let (clear, stamped, rows) =
        insert_valid-eq-accepted E laws (errs ++ found) (new_booking hirer_id listing_id start end)
          s₂ b (rw after_check at (rw after_find at h)) in
      let (no_errs, no_found) = append-eq-nil errs found clear in
      let kept : s₂.tables ≡ s.tables = tables-overlap_errors E laws listing_id start end s₁ in
      (
        no_errs,
        rw no_found at checked,
        (E.clock s₂.world, stamped),
        ap (λ r. r.1.tables) after_find
            ∙ ap (λ r. r.1.tables) after_check
            ∙ rows
            ∙ ap {A = Tables} {B = Tables} (λ t. record t { bookings = t.bookings ++ b ∷ [] }) kept,
      )

  module _ (hirer_id : ℕ) (listing : RvListing) (start_str end_str : String) (s : State W) where
    -- An accepted booking has the dates of the request, in order and not past, is pending, and
    -- conflicts with no row; the table of bookings grows by it and no other table changes.
    pub create_booking-IsBooked :
        (b : Booking)
        → (create_booking E hirer_id listing start_str end_str s).0 ≡ ok (accepted b)
        → IsBooked hirer_id listing start_str end_str (E.clock s.world) s.tables.bookings b
          × ((create_booking E hirer_id listing start_str end_str s).1.tables
              ≡ record s.tables { bookings = s.tables.bookings ++ b ∷ [] })
    unfolding create_booking
    create_booking-IsBooked b h =
        let start = parse_date start_str in
        let end = parse_date end_str in
        let errs = date_errors start end (today (E.clock s.world)) in
        let body = create_locked E hirer_id listing.id start end errs in
        let (ran, kept) = transaction-eq-accepted E body s b h in
        let s₀ : State W = record s { world = (E.begin s.world).1 } in
        let (clear, checked, (time, stamped), rows) =
          create_locked-eq-accepted hirer_id listing.id start end errs s₀ b ran in
        let (start_some, end_some, _, _) = date_errors-eq-nil start end _ clear in
        (
          stamped-IsBooked hirer_id listing start_str end_str (E.clock s.world) time
              s.tables.bookings b clear stamped
              (overlap_errors-free E laws listing.id _ _ start end _ start_some end_some checked),
          kept ∙ rows,
        )

    -- A request that is not accepted leaves every table as it was.
    create_booking_atomic :
        is_accepted (create_booking E hirer_id listing start_str end_str s).0 ≡ false
        → (create_booking E hirer_id listing start_str end_str s).1.tables ≡ s.tables
    unfolding create_booking
    create_booking_atomic h = transaction_atomic E _ s h

    -- Whatever the request and its result, the table stays free of conflicts.
    pub create_booking-NoConflicts :
        NoConflicts s.tables.bookings
        → NoConflicts (create_booking E hirer_id listing start_str end_str s).1.tables.bookings
    create_booking-NoConflicts h =
        elim (accepted-cases (create_booking E hirer_id listing start_str end_str s).0) [
          | inl refused ↦
              subst (λ t. NoConflicts t.bookings) (sym (create_booking_atomic refused)) h
          | inr (b, made) ↦
              let (booked, rows) = create_booking-IsBooked b made in
              subst (λ t. NoConflicts t.bookings) (sym rows)
                (AllPairs-append _ s.tables.bookings b h booked.free)
        ]
