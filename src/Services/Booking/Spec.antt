-- ===== src/Services/Booking/Spec.antt =====
-- What the booking service promises: two bookings conflict when both are active, on one listing,
-- and share a day, and no two rows of the table conflict.
use trekr_go.Prelude.{
  Bool, false, not, ◌&&◌, ◌||◌, List, ◌≡◌, ltb, ◌==◌, nat_instance, AllPairs, arith,
}
use trekr_go.Models.{Booking}
use trekr_go.Services.Booking.{is_active, overlaps}

-- The days of two bookings, both ends included, have one in common.
abbrev pub share_a_day : Booking → Booking → Bool
share_a_day a b = not (ltb a.end_date b.start_date || ltb b.end_date a.start_date)

unfoldable pub conflicts : Booking → Booking → Bool
conflicts a b =
    (a.rv_listing_id == b.rv_listing_id && (is_active a && is_active b)) && share_a_day a b

-- No two rows of the table conflict.
abbrev pub NoConflicts : List Booking → Type 0
NoConflicts = AllPairs (λ a b. conflicts a b ≡ false)

-- A row that the overlap query does not count does not conflict with a booking of those dates.
pub conflicts_of_overlaps :
    (b c : Booking)
    → overlaps c.rv_listing_id c.start_date c.end_date b ≡ false
    → conflicts b c ≡ false
unfolding conflicts overlaps
conflicts_of_overlaps b c h = ground arith

pub conflicts_comm : (a b : Booking) → conflicts a b ≡ conflicts b a
unfolding conflicts
conflicts_comm a b = ground arith
