-- ===== src/Services/Booking/Tests.antt =====
-- Runs of the booking service on the engine in memory, and the theorems at concrete inputs.
use mathlib.Core.List.{Memᴰ}
use trekr_go.Prelude.{
  ℕ, String, false, none, some, List, [], ◌∷◌, ◌++◌, ◌≡◌, ◌≢◌, refl, arith, nat_instance,
}
use trekr_go.Dates.{parse_date, read_date, ordinal, days_in, today}
use trekr_go.Models.{Booking, RvListing, pos}
use trekr_go.Sql.{ok}
use trekr_go.Store.{State, Outcome, accepted, invalid, transaction}
use trekr_go.Store.Memory.{memory_engine, memory_engine-IsEngine, empty_tables, state_at}
use trekr_go.Services.Booking.{
  is_active, overlaps, date_errors, new_booking, has_overlap, overlap_errors, insert_valid,
  create_locked, create_booking, set_status,
}
use trekr_go.Services.Booking.Spec.{conflicts, NoConflicts}
use trekr_go.Services.Booking.Laws.{IsBooked, create_booking-IsBooked, create_booking-NoConflicts}
use trekr_go.Services.Booking.Messages.{
  messages, taken, date_messages, overlap_message, messages-create_booking,
}
use trekr_go.Services.Booking.Status.{set_status-NoConflicts, set_status_double_booking}

-- 2026-07-14, shortly after six
abbrev morning : ℕ
morning = 1784009246123000000

abbrev van : RvListing
van = record {
  id = 7;
  title = "Van";
  description = "A van";
  price_per_day = some "120.00";
  owner_id = 1;
  max_guests = pos 2;
  pet_friendly = false;
  latitude = none;
  longitude = none;
  rv_type = 0;
  town = "Lorne";
  state = "VIC";
  postcode = "3232";
  region = some "great-ocean-road";
  created_at = 0;
  updated_at = 0;
}

-- From 2026-08-01 to 2026-08-05.
abbrev booked : ℕ → String → Booking
booked i status = record {
  id = i;
  start_date = 740194;
  end_date = 740198;
  status = status;
  hirer_id = 2;
  rv_listing_id = 7;
  created_at = morning;
  updated_at = morning;
}

abbrev with_bookings : List Booking → State ℕ
with_bookings t = state_at morning (record empty_tables { bookings = t })

steps : Unit {0}
unfolding create_booking create_locked transaction overlap_errors has_overlap insert_valid
    new_booking date_errors parse_date read_date ordinal days_in today overlaps is_active conflicts
steps = tt

first_run :
    (create_booking memory_engine 2 van "2026-08-01" "2026-08-05" (with_bookings [])).0
    ≡ ok (accepted (booked 1 "pending"))
unfolding steps
first_run = refl

-- The next booking may not start on the last day of the first.
second_run :
    (create_booking memory_engine 3 van "2026-08-05" "2026-08-09"
      (with_bookings (booked 1 "pending" ∷ []))).0
    ≡ ok (invalid ("Booking dates overlap with existing booking" ∷ []))
unfolding steps
second_run = refl

refused_run :
    (create_booking memory_engine 3 van "2026-07-13" "2026-07-13" (with_bookings [])).0
    ≡ ok (invalid ("End date must be after start date" ∷ "Start date cannot be in the past" ∷ []))
unfolding steps
refused_run = refl

create_booking-IsBooked_example :
    IsBooked 2 van "2026-08-01" "2026-08-05" morning [] (booked 1 "pending")
    × ((create_booking memory_engine 2 van "2026-08-01" "2026-08-05" (with_bookings [])).1.tables
        ≡ record empty_tables { bookings = booked 1 "pending" ∷ [] })
create_booking-IsBooked_example =
    create_booking-IsBooked memory_engine memory_engine-IsEngine 2 van "2026-08-01" "2026-08-05"
      (with_bookings []) (booked 1 "pending") first_run

create_booking-NoConflicts_example :
    NoConflicts
      (create_booking memory_engine 3 van "2026-08-06" "2026-08-09"
        (with_bookings (booked 1 "pending" ∷ []))).1.tables.bookings
create_booking-NoConflicts_example =
    create_booking-NoConflicts memory_engine memory_engine-IsEngine 3 van "2026-08-06" "2026-08-09"
      (with_bookings (booked 1 "pending" ∷ [])) (tt, tt)

messages-create_booking_example :
    (messages (invalid ("Booking dates overlap with existing booking" ∷ []))
      ≡ date_messages (parse_date "2026-08-05") (parse_date "2026-08-09") (today morning)
        ++ overlap_message
            (taken 7 (parse_date "2026-08-05") (parse_date "2026-08-09") (booked 1 "pending" ∷ [])))
    × (◌≢◌ {A = Outcome Booking}
        (invalid ("Booking dates overlap with existing booking" ∷ []))
        (invalid []))
messages-create_booking_example =
    messages-create_booking memory_engine memory_engine-IsEngine 3 van "2026-08-05" "2026-08-09"
      (with_bookings (booked 1 "pending" ∷ [])) _ second_run

set_status-NoConflicts_example :
    NoConflicts
      (set_status memory_engine
        (booked 1 "pending")
        "confirmed"
        (with_bookings (booked 1 "pending" ∷ []))).1.tables.bookings
unfolding is_active
set_status-NoConflicts_example =
    set_status-NoConflicts memory_engine memory_engine-IsEngine (booked 1 "pending") "confirmed"
      (with_bookings (booked 1 "pending" ∷ [])) (λ _ _. refl, tt) (tt, tt)

-- A rejected booking is confirmed although its dates went to another one.
abbrev rebooked : List Booking
rebooked = booked 1 "rejected" ∷ booked 2 "pending" ∷ []

rebooked-NoConflicts : NoConflicts rebooked
unfolding steps
rebooked-NoConflicts = ((refl, tt), (tt, tt))

set_status_double_booking_example :
    ¬ NoConflicts
      (set_status memory_engine
        (booked 1 "rejected")
        "confirmed"
        (with_bookings rebooked)).1.tables.bookings
unfolding steps set_status
set_status_double_booking_example =
    set_status_double_booking memory_engine memory_engine-IsEngine (booked 1 "rejected") "confirmed"
      (with_bookings rebooked) (booked 1 "rejected") (booked 2 "pending") (Memᴰ.head refl)
      (Memᴰ.tail (Memᴰ.head refl)) refl (omega arith) refl refl refl refl refl
