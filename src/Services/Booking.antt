-- ===== src/Services/Booking.antt =====
-- services/booking_service.go: creating a booking and setting its status.
pub mod Spec
pub mod Laws
pub mod Status
pub mod Messages
pub mod Interleaved
mod Tests
use trekr_go.Prelude.{
  ℕ, String, Bool, true, false, not, ◌&&◌, ◌||◌, Option, none, some, List, [], ◌∷◌, ◌++◌, ltb, ◌==◌,
  nat_instance, string_instance, any, if◌then◌else◌,
}
use trekr_go.Dates.{parse_date, today}
use trekr_go.Models.{Booking, RvListing}
use trekr_go.Sql.{Result, ok, err}
use trekr_go.Store.{
  Engine, State, Action, ◌>>=◌, ◌>>◌, pure, now, find, count, update, create, bookings,
  count_chunks, Outcome, accepted, invalid, transaction,
}

abbrev pub active_booking_statuses : List String
active_booking_statuses = "pending" ∷ "confirmed" ∷ []

-- `status IN ?`
unfoldable pub is_active : Booking → Bool
is_active b = any active_booking_statuses (λ s. b.status == s)

-- The `WHERE` clauses of `hasOverlap`.
unfoldable pub overlaps : ℕ → ℕ → ℕ → Booking → Bool
overlaps listing_id start end b =
    (b.rv_listing_id == listing_id && is_active b)
    && not (ltb b.end_date start || ltb end b.start_date)

abbrev error_if : Bool → String → List String
error_if test message = if test then message ∷ [] else []

abbrev is_blank : Option ℕ → Bool
is_blank none = true
is_blank (some d) = false

-- `startOK && endOK && !end.After(start)`
abbrev ends_early : Option ℕ → Option ℕ → Bool
ends_early (some start) (some end) = not (ltb start end)
ends_early _ _ = false

-- `startOK && start.Before(today())`
abbrev is_past : Option ℕ → ℕ → Bool
is_past (some start) day = ltb start day
is_past none day = false

-- The messages of the checks that need no database, in the order of the code.
unfoldable pub date_errors : Option ℕ → Option ℕ → ℕ → List String
date_errors start end day =
    error_if (is_blank start) "Start date can't be blank"
    ++ error_if (is_blank end) "End date can't be blank"
    ++ error_if (ends_early start end) "End date must be after start date"
    ++ error_if (is_past start day) "Start date cannot be in the past"

-- `time.Time{}`, the first day of the year 1, stands for a date that was not parsed.
abbrev pub or_zero_time : Option ℕ → ℕ
or_zero_time none = 366
or_zero_time (some d) = d

abbrev no_errors : List String → Bool
no_errors [] = true
no_errors (e ∷ es) = false

-- The row that is inserted; the database fills in its key and its timestamps.
unfoldable pub new_booking : ℕ → ℕ → Option ℕ → Option ℕ → Booking
new_booking hirer_id listing_id start end = record {
  id = 0;
  start_date = or_zero_time start;
  end_date = or_zero_time end;
  status = "pending";
  hirer_id = hirer_id;
  rv_listing_id = listing_id;
  created_at = 0;
  updated_at = 0;
}

module _ {W : Type 0} (E : Engine W) where
  -- `hasOverlap`
  unfoldable pub has_overlap : ℕ → ℕ → ℕ → Action W Bool
  has_overlap listing_id start end = do
    n ← count (bookings E) (overlaps listing_id start end)
    pure (ltb 0 n)

  -- the check under `startOK && endOK`
  unfoldable pub overlap_errors : ℕ → Option ℕ → Option ℕ → Action W (List String)
  overlap_errors listing_id (some start) (some end) = do
    found ← has_overlap listing_id start end
    pure (if found then "Booking dates overlap with existing booking" ∷ [] else [])
  overlap_errors listing_id _ _ = pure []

  -- The end of the transaction's body: it fails with `errBookingInvalid` if there are messages.
  unfoldable pub insert_valid : List String → Booking → Action W (Outcome Booking)
  insert_valid [] booking = do created ← create (bookings E) booking; pure (accepted created)
  insert_valid (e ∷ es) booking = pure (invalid (e ∷ es))

  -- The body of the transaction. The first query takes the row locks.
  unfoldable pub create_locked :
      ℕ → ℕ → Option ℕ → Option ℕ → List String → Action W (Outcome Booking)
  create_locked hirer_id listing_id start end errs = do
    _ ← find (bookings E) (λ b. b.rv_listing_id == listing_id)
    found ← overlap_errors listing_id start end
    insert_valid (errs ++ found) (new_booking hirer_id listing_id start end)

  -- `BookingService.Create`
  unfoldable pub create_booking : ℕ → RvListing → String → String → Action W (Outcome Booking)
  create_booking hirer_id listing start_str end_str = do
    time ← now E
    let start = parse_date start_str
    let end = parse_date end_str
    transaction E (create_locked hirer_id listing.id start end (date_errors start end (today time)))

  -- `BookingService.SetStatus`: the booking with the new status, which is written to its row.
  unfoldable pub set_status : Booking → String → Action W Booking
  set_status booking status = do
    update (bookings E) (λ b. b.id == booking.id) (λ b. record b { status = status })
    pure (record booking { status = status })

  -- The region of a listing that is there and has one.
  abbrev region_of : Option RvListing → Option String
  region_of none = none
  region_of (some l) = l.region

  -- The query of `TripPlanningAvailable`; its error counts as false.
  abbrev has_corpus : String → Action W Bool
  has_corpus region s = elim (count_chunks E (λ r. r == region) s).0 [
    | ok n ↦ (ok (ltb 0 n), (count_chunks E (λ r. r == region) s).1)
    | err e ↦ (ok false, (count_chunks E (λ r. r == region) s).1)
  ]

  abbrev trip_planning_for : Bool → Option String → Action W Bool
  trip_planning_for false region = pure false
  trip_planning_for true none = pure false
  trip_planning_for true (some region) = if region == "" then pure false else has_corpus region

  -- `BookingService.TripPlanningAvailable`
  unfoldable pub trip_planning_available : Booking → Option RvListing → Action W Bool
  trip_planning_available booking listing =
      trip_planning_for (booking.status == "confirmed") (region_of listing)
