-- ===== src/Httpapi/Tests.antt =====
-- Runs of the handlers, and their theorems at concrete inputs.
use trekr_go.Prelude.{
  arith, ℕ, String, false, none, some, List, [], ◌∷◌, ◌≡◌, refl, ◌⊎◌, nat_instance, string_instance,
}
use trekr_go.GoText.{parse_int, read_digits}
use trekr_go.Models.{User, Booking, RvListing, Chat, pos, negsuc}
use trekr_go.Storage.Memory.{memory_host}
use trekr_go.Store.{State}
use trekr_go.Store.Memory.{memory_engine, memory_engine-IsEngine, empty_tables, state_at}
use trekr_go.Services.Booking.{set_status}
use trekr_go.Services.Chat.{list_messages}
use trekr_go.Services.Listing.{ListingParams, UploadedImage}
use trekr_go.Services.Listing.Outside.{besides}
use trekr_go.Services.Listing.Service.{Config}
use trekr_go.Httpapi.{Request, reply, error_body, booking_body, parse_id}
use trekr_go.Httpapi.Bookings.{load_booking, transition_booking, bookings_confirm}
use trekr_go.Httpapi.Bookings.Laws.{IsTransition, transition_booking-IsTransition}
use trekr_go.Httpapi.Chats.{
  load_chat, load_chat_messages, chats_show, messages_create, messages_index,
}
use trekr_go.Httpapi.Chats.Laws.{IsGuarded, chats-IsGuarded}
use trekr_go.Httpapi.Listings.{listings_update, images_create, listings_destroy, images_destroy}
use trekr_go.Httpapi.Listings.Laws.{IsOwnerOnly, rows_elsewhere, listings-IsOwnerOnly}

abbrev user : ℕ → User
user i = record {
  id = i;
  email = "a@b.c";
  encrypted_password = "x";
  reset_password_token = none;
  reset_password_sent_at = none;
  remember_created_at = none;
  name = "A";
  created_at = 0;
  updated_at = 0;
}

abbrev van : RvListing
van = record {
  id = 7;
  title = "Van";
  description = "A van";
  price_per_day = some "1.00";
  owner_id = 4;
  max_guests = pos 2;
  pet_friendly = false;
  latitude = none;
  longitude = none;
  rv_type = 0;
  town = "Lorne";
  state = "VIC";
  postcode = "3232";
  region = none;
  created_at = 0;
  updated_at = 0;
}

abbrev booking : Booking
booking = record {
  id = 1;
  start_date = 740194;
  end_date = 740198;
  status = "pending";
  hirer_id = 8;
  rv_listing_id = 7;
  created_at = 0;
  updated_at = 0;
}

abbrev chat : Chat
chat = record {
  id = 1;
  hirer_id = 8;
  owner_id = 4;
  rv_listing_id = some 7;
  booking_id = none;
  created_at = 5;
  updated_at = 6;
  last_message_at = none;
  last_message_content = none;
  hirer_last_read_at = none;
  owner_last_read_at = none;
}

abbrev before : State ℕ
before =
    state_at 9
      (record empty_tables { listings = van ∷ []; bookings = booking ∷ []; chats = chat ∷ [] })

abbrev settings : Config
settings = record { storage_root = []; regions = record { regions = [] }; has_queue = false }

abbrev ask : {B : Type 0} → ℕ → String → B → Request B
ask i id b = record { user = some (user i); id = id; other_id = "1"; body = some b }

steps : Unit {0}
unfolding bookings_confirm transition_booking load_booking parse_id parse_int read_digits set_status
    chats_show load_chat load_chat_messages list_messages
steps = tt

plus : parse_id "+7" ≡ some (pos 7)
unfolding steps
plus = refl

minus : parse_id "-7" ≡ some (negsuc 6)
unfolding steps
minus = refl

no_number : parse_id "7x" ≡ none
unfolding steps
no_number = refl

too_large : parse_id "9223372036854775808" ≡ none
unfolding steps
too_large = refl

by_owner :
    (bookings_confirm memory_engine (ask 4 "1" tt) before).0
    ≡ reply 200 (booking_body (record booking { status = "confirmed" }))
unfolding steps
by_owner = refl

by_hirer :
    (bookings_confirm memory_engine (ask 8 "1" tt) before).0
    ≡ reply 403 (error_body "Only listing owner can confirm")
unfolding steps
by_hirer = refl

transition_booking-IsTransition_example :
    ((transition_booking memory_engine "confirmed" "no" (ask 4 "1" tt) before).1.tables
      ≡ before.tables)
    ⊎ IsTransition "confirmed"
        (ask 4 "1" tt)
        before.tables
        (transition_booking memory_engine "confirmed" "no" (ask 4 "1" tt) before).1.tables
transition_booking-IsTransition_example =
    transition_booking-IsTransition memory_engine memory_engine-IsEngine "confirmed" "no"
      (ask 4 "1" tt) before

by_stranger :
    (chats_show memory_engine (ask 3 "1" "hi") before).0 ≡ reply 403 (error_body "Forbidden")
unfolding steps
by_stranger = refl

chats-IsGuarded_example :
    IsGuarded (some (user 4)) "1" before (chats_show memory_engine (ask 4 "1" "hi") before)
    × IsGuarded (some (user 4)) "1" before (messages_create memory_engine (ask 4 "1" "hi") before)
    × IsGuarded (some (user 4)) "1" before (messages_index memory_engine (ask 4 "1" "hi") before)
chats-IsGuarded_example =
    chats-IsGuarded memory_engine memory_engine-IsEngine (ask 4 "1" "hi") before

abbrev no_params : ListingParams
no_params = record {
  title = none;
  description = none;
  rv_type = none;
  town = none;
  state = none;
  postcode = none;
  price_per_day = none;
  max_guests = none;
  pet_friendly = none;
  latitude = none;
  longitude = none;
}

listings-IsOwnerOnly_example :
    let update : Request (ListingParams × List UploadedImage) = ask 4 "7" (no_params, []) in
    let upload : Request (List UploadedImage) = ask 4 "7" [] in
    let r : Request (Unit {0}) = ask 4 "7" tt in
    IsOwnerOnly besides update.user "7" before
      (listings_update memory_engine memory_host settings update before)
    × IsOwnerOnly besides upload.user "7" before
        (images_create memory_engine memory_host settings upload before)
    × IsOwnerOnly rows_elsewhere r.user "7" before
        (listings_destroy memory_engine memory_host settings r before)
    × IsOwnerOnly rows_elsewhere r.user "7" before
        (images_destroy memory_engine memory_host settings r before)
listings-IsOwnerOnly_example =
    listings-IsOwnerOnly memory_engine memory_engine-IsEngine memory_host settings
      (ask 4 "7" (no_params, [])) (ask 4 "7" []) (ask 4 "7" tt) before ((λ e. omega arith), tt)
