-- ===== src/Httpapi/Bookings.antt =====
-- httpapi/bookings.go
pub mod Laws
use trekr_go.Prelude.{
  ℕ, String, Bool, true, false, ◌&&◌, ◌||◌, not, Option, none, some, List, [], ◌∷◌, ◌==◌,
  nat_instance, if◌then◌else◌, any, order_by, leb,
}
use trekr_go.Models.{User, Booking, RvListing, ℤ}
use trekr_go.Sql.{Result, ok, err}
use trekr_go.Store.{
  Engine, State, Action, pure, ◌>>=◌, find, first_or_none, bookings, listings, Outcome, accepted,
  invalid,
}
use trekr_go.Services.Booking.{create_booking, set_status, trip_planning_available}
use trekr_go.Httpapi.{
  Body, fail_body, error_body, plain_text, validation_errors, booking_body, booking_view, Reply,
  reply, panicked, Handler, Checked, go, stop, Check, Request, parse_id, has_id, answer,
  unauthorized, or_500, run, checking, with_user, with_body, or_422,
}

-- `bookingParamsRequest`
pub record BookingParams : Type 0 where
  pub start_date : String
  pub end_date : String

abbrev pub not_found : Reply
not_found = reply 404 (error_body "Not found")

-- What `First(&row, id)` with its error leads to.
abbrev pub loaded : {W A : Type 0} → String → Result (Option A) × State W → Checked A × State W
loaded message (ok (some a), s) = (go a, s)
loaded message (ok none, s) = (stop not_found, s)
loaded message (err e, s) = (stop (reply 500 (plain_text message)), s)

-- The listing of a preload.
abbrev pub head : {A : Type 0} → List A → Option A
head [] = none
head (a ∷ l) = some a

module _ {W : Type 0} (E : Engine W) where
  abbrev find_listing : Option ℤ → Check W RvListing
  find_listing none s = (stop not_found, s)
  find_listing (some id) s =
      loaded "could not load listing" (first_or_none (listings E) (λ l. has_id id l.id) s)

  -- The load of the listing that the requests on `/listings/:listing_id` share.
  unfoldable pub load_listing : String → Check W RvListing
  load_listing param s = find_listing (parse_id param) s

  abbrev create_for : User → RvListing → BookingParams → Handler W
  create_for user listing p =
      run (create_booking E user.id listing p.start_date p.end_date) "could not create booking"
        (or_422 (λ b. answer (reply 201 (booking_body b))))

  abbrev create_unless_owner : User → Option BookingParams → RvListing → Handler W
  create_unless_owner user body listing =
      if listing.owner_id == user.id
      then answer (reply 403 (error_body "Owners cannot book their own listing"))
      else with_body body (create_for user listing)

  -- `bookingsCreate`
  unfoldable pub bookings_create : Request BookingParams → Handler W
  bookings_create r =
      with_user r.user (λ user. checking (load_listing r.id) (create_unless_owner user r.body))
        (answer unauthorized)

  abbrev pub with_listing : Option Booking → Action W (Option (Booking × Option RvListing))
  with_listing none = pure none
  with_listing (some b) = do
    ls ← find (listings E) (λ l. l.id == b.rv_listing_id)
    pure (some (b, head ls))

  abbrev pub find_booking : Option ℤ → Check W (Booking × Option RvListing)
  find_booking none s = (stop not_found, s)
  find_booking (some id) s =
      loaded "could not load booking"
        ((first_or_none (bookings E) (λ b. has_id id b.id) >>= with_listing) s)

  -- `loadBooking`, with the listing that it preloads
  unfoldable pub load_booking : String → Check W (Booking × Option RvListing)
  load_booking param s = find_booking (parse_id param) s

  abbrev show_booking : Booking → Option RvListing → Handler W
  show_booking b l =
      run (trip_planning_available E b l) "unreachable"
        (λ available. answer (reply 200 (booking_view b l available)))

  abbrev show_to : User → Booking × Option RvListing → Handler W
  show_to user (b, none) =
      if not (b.hirer_id == user.id) then answer panicked else show_booking b none
  show_to user (b, some l) =
      if not (b.hirer_id == user.id) && not (l.owner_id == user.id)
      then answer not_found
      else show_booking b (some l)

  -- `bookingsShow`
  unfoldable pub bookings_show : Request (Unit {0}) → Handler W
  bookings_show r =
      with_user r.user (λ user. checking (load_booking r.id) (show_to user)) (answer unauthorized)

  abbrev pub transition_by : User → String → String → Booking × Option RvListing → Handler W
  transition_by user status message (b, none) = answer panicked
  transition_by user status message (b, some l) =
      if not (l.owner_id == user.id)
      then answer (reply 403 (error_body message))
      else run (set_status E b status) "could not update booking"
          (λ b'. answer (reply 200 (booking_body b')))

  -- `transitionBooking`
  unfoldable pub transition_booking : String → String → Request (Unit {0}) → Handler W
  transition_booking status message r =
      with_user r.user (λ user. checking (load_booking r.id) (transition_by user status message))
        (answer unauthorized)

  -- `bookingsConfirm`
  unfoldable pub bookings_confirm : Request (Unit {0}) → Handler W
  bookings_confirm r = transition_booking "confirmed" "Only listing owner can confirm" r

  -- `bookingsReject`
  unfoldable pub bookings_reject : Request (Unit {0}) → Handler W
  bookings_reject r = transition_booking "rejected" "Only listing owner can reject" r
