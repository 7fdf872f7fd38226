-- ===== src/Httpapi/Public/Tests.antt =====
-- Runs of the public reads and of the list of bookings.
use trekr_go.Prelude.{ℕ, none, some, [], ◌∷◌, ◌++◌, ◌≡◌, refl, codes, false, String}
use trekr_go.GoText.{parse_int, read_digits, itoa, put_digits}
use trekr_go.Dates.{days_in}
use trekr_go.Dates.Format.{format_date, format_time}
use trekr_go.Models.{
  User, RvListing, Booking, ActiveStorageAttachment, ActiveStorageBlob, pos, rv_type_name,
}
use trekr_go.Store.{State}
use trekr_go.Store.Memory.{memory_engine, empty_tables, state_at}
use trekr_go.Storage.Verifier.{generate}
use trekr_go.Storage.Signed.{generate_signed_id}
use trekr_go.Storage.Signed.Small.{small, codec}
use trekr_go.Json.{BookingParticipantsJson, serialize_booking_participants}
use trekr_go.Json.Images.{format_decimal, sign_rows, load_images}
use trekr_go.Json.Listings.{ListingJson, listing_json, serialize_listings}
use trekr_go.Httpapi.{
  Request, reply, error_body, listing_view, listings_view, bookings_view, parse_id,
}
use trekr_go.Httpapi.Public.{bookings_index, listings_index, listings_show}

abbrev user : ℕ → String → User
user i name = record {
  id = i;
  email = "a@b.c";
  encrypted_password = "x";
  reset_password_token = none;
  reset_password_sent_at = none;
  remember_created_at = none;
  name = name;
  created_at = 0;
  updated_at = 0;
}

abbrev van : RvListing
van = record {
  id = 7;
  title = "Van";
  description = "A van";
  price_per_day = some "149.90";
  owner_id = 4;
  max_guests = pos 2;
  pet_friendly = false;
  latitude = none;
  longitude = none;
  rv_type = 0;
  town = "Lorne";
  state = "VIC";
  postcode = "3232";
  region = none;
  created_at = 0;
  updated_at = 0;
}

abbrev booking : ℕ → ℕ → Booking
booking i created = record {
  id = i;
  start_date = 740194;
  end_date = 740198;
  status = "pending";
  hirer_id = 8;
  rv_listing_id = 7;
  created_at = created;
  updated_at = 0;
}

abbrev image : ActiveStorageAttachment
image = record {
  id = 3;
  name = "images";
  record_type = "RvListing";
  record_id = 7;
  blob_id = 1;
  created_at = 0;
}

abbrev photo : ActiveStorageBlob
photo = record {
  id = 1;
  key = codes "abcd";
  filename = "v";
  content_type = "image/png";
  metadata = none;
  service_name = "local";
  byte_size = 2;
  checksum = none;
  created_at = 0;
}

abbrev before : State ℕ
before = state_at 9 (record empty_tables {
  users = user 4 "Ann" ∷ user 8 "Bob" ∷ [];
  listings = van ∷ [];
  bookings = booking 1 5 ∷ booking 2 6 ∷ [];
  attachments = image ∷ [];
  blobs = photo ∷ [];
})

steps : Unit {0}
unfolding parse_int read_digits itoa put_digits parse_id days_in format_date format_time
    rv_type_name generate generate_signed_id serialize_booking_participants format_decimal sign_rows
    load_images listing_json serialize_listings bookings_index listings_index listings_show
steps = tt

abbrev view : ListingJson
view = record {
  id = 7;
  title = "Van";
  description = "A van";
  rv_type = "caravan";
  town = "Lorne";
  state = "VIC";
  postcode = "3232";
  price_per_day = some "149.9";
  owner_id = 4;
  max_guests = pos 2;
  pet_friendly = false;
  latitude = none;
  longitude = none;
  owner = record { id = 4; name = "Ann" };
  images =
      (record {
        id = 3;
        url =
            codes "/rails/active_storage/blobs/redirect/"
            ++ 101 ∷ b'-' ∷ b'-' ∷ 3 ∷ 101 ∷ b'/' ∷ [];
      })
      ∷ [];
}

shown :
    (listings_show small codec (3 ∷ []) memory_engine "7" before).0 ≡ reply 200 (listing_view view)
unfolding steps
shown = refl

listed :
    (listings_index small codec (3 ∷ []) memory_engine before).0
    ≡ reply 200 (listings_view (view ∷ []))
unfolding steps
listed = refl

not_there :
    (listings_show small codec (3 ∷ []) memory_engine "8" before).0
    ≡ reply 404 (error_body "Not Found")
unfolding steps
not_there = refl

abbrev row : ℕ → BookingParticipantsJson
row i = record {
  id = i;
  start_date = "2026-08-01";
  end_date = "2026-08-05";
  status = "pending";
  hirer_id = 8;
  rv_listing_id = 7;
  hirer = record { id = 8; name = "Bob" };
  owner = record { id = 4; name = "Ann" };
  listing_title = "Van";
  trip_planning_available = none;
}

abbrev ask : ℕ → Request (Unit {0})
ask i = record { user = some (user i "x"); id = ""; other_id = ""; body = some tt }

-- The latest first, for the owner and for the hirer.
own_bookings :
    ((bookings_index memory_engine (ask 4) before).0
      ≡ reply 200 (bookings_view (row 2 ∷ row 1 ∷ [])))
    × ((bookings_index memory_engine (ask 5) before).0 ≡ reply 200 (bookings_view []))
unfolding steps
own_bookings = (refl, refl)
