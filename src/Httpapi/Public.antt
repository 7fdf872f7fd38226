-- ===== src/Httpapi/Public.antt =====
-- httpapi/listings.go, and the list of bookings of httpapi/bookings.go: the reads that render rows
-- with what is preloaded.
mod Tests
use trekr_go.Prelude.{
  ℕ, String, Bool, true, false, ◌&&◌, ◌||◌, Option, none, some, List, [], ◌∷◌, ◌==◌, nat_instance,
  any, leb, order_by, Bytes, if◌then◌else◌,
}
use trekr_go.Models.{User, RvListing, Booking, ℤ}
use trekr_go.Storage.Verifier.{Crypto}
use trekr_go.Storage.Signed.{KeyCodec}
use trekr_go.Store.{
  Engine, State, Action, pure, ◌>>=◌, find, first_or_none, listings, users, bookings,
}
use trekr_go.Json.{BookingParticipantsJson, serialize_booking_participants}
use trekr_go.Json.Listings.{ListingJson, serialize_listings}
use trekr_go.Httpapi.{
  error_body, plain_text, listings_view, listing_view, bookings_view, Reply, reply, panicked,
  Handler, Request, parse_id, has_id, answer, run, with_user, unauthorized,
}

-- The row that a preload puts at an association.
abbrev user_by_id : ℕ → List User → Option User
user_by_id id [] = none
user_by_id id (u ∷ us) = if u.id == id then some u else user_by_id id us

abbrev listing_by_id : ℕ → List RvListing → Option RvListing
listing_by_id id [] = none
listing_by_id id (l ∷ ls) = if l.id == id then some l else listing_by_id id ls

abbrev owned_by : List User → List RvListing → List (RvListing × Option User)
owned_by us [] = []
owned_by us (l ∷ ls) = (l, user_by_id l.owner_id us) ∷ owned_by us ls

abbrev with_owner : List User → Option RvListing → Option (RvListing × Option User)
with_owner us none = none
with_owner us (some l) = some (l, user_by_id l.owner_id us)

-- All payloads, or none if a nil pointer was followed.
abbrev both :
    Option BookingParticipantsJson
    → Option (List BookingParticipantsJson)
    → Option (List BookingParticipantsJson)
both none rest = none
both (some b) none = none
both (some b) (some rest) = some (b ∷ rest)

abbrev participants_of :
    List User → List RvListing → List User → List Booking → Option (List BookingParticipantsJson)
participants_of hirers ls owners [] = some []
participants_of hirers ls owners (b ∷ bs) =
    both
      (serialize_booking_participants b (user_by_id b.hirer_id hirers)
        (with_owner owners (listing_by_id b.rv_listing_id ls)) none)
      (participants_of hirers ls owners bs)

-- The join with the listings, and `hirer_id = ? OR owner_id = ?`
abbrev concerns : ℕ → List RvListing → Booking → Bool
concerns user_id ls b =
    any ls (λ l. l.id == b.rv_listing_id && (b.hirer_id == user_id || l.owner_id == user_id))

abbrev or_panic : {W : Type 0} → Option (List BookingParticipantsJson) → Handler W
or_panic none = answer panicked
or_panic (some out) = answer (reply 200 (bookings_view out))

module _ {W : Type 0} (E : Engine W) where
  -- `Preload("Owner")`, which makes no query without rows
  abbrev pub preload_owners : List RvListing → Action W (List (RvListing × Option User))
  preload_owners [] = pure []
  preload_owners (l ∷ ls) = do
    us ← find (users E) (λ u. any (l ∷ ls) (λ x. x.owner_id == u.id))
    pure (owned_by us (l ∷ ls))

  abbrev preload_participants : List Booking → Action W (Option (List BookingParticipantsJson))
  preload_participants [] = pure (some [])
  preload_participants (b ∷ bs) = do
    hirers ← find (users E) (λ u. any (b ∷ bs) (λ x. x.hirer_id == u.id))
    ls ← find (listings E) (λ l. any (b ∷ bs) (λ x. x.rv_listing_id == l.id))
    owners ← find (users E) (λ u. any ls (λ l. l.owner_id == u.id))
    pure (participants_of hirers ls owners (b ∷ bs))

  abbrev bookings_of : ℕ → Action W (Option (List BookingParticipantsJson))
  bookings_of user_id = do
    ls ← find (listings E) (λ l. true)
    bs ← find (bookings E) (concerns user_id ls)
    preload_participants (order_by (λ a b. leb b.created_at a.created_at) bs)

  -- `bookingsIndex`
  unfoldable pub bookings_index : Request (Unit {0}) → Handler W
  bookings_index r =
      with_user r.user (λ user. run (bookings_of user.id) "could not load bookings" or_panic)
        (answer unauthorized)

module _ (C : Crypto) (K : KeyCodec) (base : Bytes) {W : Type 0} (E : Engine W) where
  abbrev render_all : List (RvListing × Option User) → Handler W
  render_all ls =
      run (serialize_listings C K base E ls) "could not serialize listings"
        (λ out. answer (reply 200 (listings_view out)))

  -- `listingsIndex`
  unfoldable pub listings_index : Handler W
  listings_index =
      run (find (listings E) (λ l. true) >>= preload_owners E) "could not load listings" render_all

  abbrev missing : Handler W
  missing = answer (reply 404 (error_body "Not Found"))

  abbrev render_first : List ListingJson → Handler W
  render_first [] = answer panicked
  render_first (l ∷ ls) = answer (reply 200 (listing_view l))

  abbrev render_one : List (RvListing × Option User) → Handler W
  render_one [] = missing
  render_one (l ∷ ls) =
      run (serialize_listings C K base E (l ∷ [])) "could not serialize listing" render_first

  abbrev to_list : Option RvListing → List RvListing
  to_list none = []
  to_list (some l) = l ∷ []

  abbrev show_listing : Option ℤ → Handler W
  show_listing none = missing
  show_listing (some id) =
      run (do l ← first_or_none (listings E) (λ l. has_id id l.id); preload_owners E (to_list l))
        "could not load listing" render_one

  -- `listingsShow`
  unfoldable pub listings_show : String → Handler W
  listings_show param = show_listing (parse_id param)
