-- ===== src/Json.antt =====
-- httpapi/booking_serializer.go, chat_serializer.go and listing_serializer.go: the values that are
-- rendered as JSON, field by field. A row that a query preloads is an argument, none for a nil
-- pointer, and a section that is left out is none.
pub mod Images
pub mod Listings
mod Tests
use trekr_go.Prelude.{ℕ, String, Bool, true, false, Option, none, some, List, map}
use trekr_go.Dates.Format.{format_date, format_time}
use trekr_go.Models.{User, RvListing, Booking, Chat, Message}

pub record OwnerJson : Type 0 where
  pub id : ℕ
  pub name : String

pub record BookingJson : Type 0 where
  pub id : ℕ
  pub start_date : String
  pub end_date : String
  pub status : String
  pub hirer_id : ℕ
  pub rv_listing_id : ℕ

pub record BookingParticipantsJson : Type 0 where
  pub id : ℕ
  pub start_date : String
  pub end_date : String
  pub status : String
  pub hirer_id : ℕ
  pub rv_listing_id : ℕ
  pub hirer : OwnerJson
  pub owner : OwnerJson
  pub listing_title : String
  pub trip_planning_available : Option Bool

-- `serializeBooking`
unfoldable pub serialize_booking : Booking → BookingJson
serialize_booking b = record {
  id = b.id;
  start_date = format_date b.start_date;
  end_date = format_date b.end_date;
  status = b.status;
  hirer_id = b.hirer_id;
  rv_listing_id = b.rv_listing_id;
}

abbrev pub owner_json : User → OwnerJson
owner_json u = record { id = u.id; name = u.name }

abbrev owner_or_zero : Option User → OwnerJson
owner_or_zero none = record { id = 0; name = "" }
owner_or_zero (some u) = owner_json u

-- `serializeBookingParticipants`, of the hirer, and the listing with its owner; without a listing a
-- nil pointer is followed, which is none.
unfoldable pub serialize_booking_participants :
    Booking
    → Option User
    → Option (RvListing × Option User)
    → Option Bool
    → Option BookingParticipantsJson
serialize_booking_participants b hirer none trip_available = none
serialize_booking_participants b hirer (some (listing, owner)) trip_available = some (record {
  id = b.id;
  start_date = format_date b.start_date;
  end_date = format_date b.end_date;
  status = b.status;
  hirer_id = b.hirer_id;
  rv_listing_id = b.rv_listing_id;
  hirer = owner_or_zero hirer;
  owner = owner_or_zero owner;
  listing_title = listing.title;
  trip_planning_available = trip_available;
})

-- `formatRailsTime` and `formatRailsTimePtr`
abbrev pub format_rails_time : ℕ → String
format_rails_time t = format_time t

abbrev pub format_rails_time_ptr : Option ℕ → Option String
format_rails_time_ptr none = none
format_rails_time_ptr (some t) = some (format_rails_time t)

pub record MessageJson : Type 0 where
  pub id : ℕ
  pub content : String
  pub user_id : ℕ
  pub chat_id : ℕ
  pub read_at : Option String
  pub created_at : String

-- The title of the listing of a chat: left out, null, or a text.
pub data ListingTitle : Type 0 where
  omitted : ListingTitle
  null_title : ListingTitle
  titled : String → ListingTitle

pub record ChatJson : Type 0 where
  pub id : ℕ
  pub hirer_id : ℕ
  pub owner_id : ℕ
  pub rv_listing_id : Option ℕ
  pub booking_id : Option ℕ
  pub last_message_at : Option String
  pub last_message_content : Option String
  pub hirer_last_read_at : Option String
  pub owner_last_read_at : Option String
  pub messages : Option (List MessageJson)
  pub hirer : Option OwnerJson
  pub owner : Option OwnerJson
  pub listing_title : ListingTitle

-- `serializeMessage`
unfoldable pub serialize_message : Message → MessageJson
serialize_message m = record {
  id = m.id;
  content = m.content;
  user_id = m.user_id;
  chat_id = m.chat_id;
  read_at = format_rails_time_ptr m.read_at;
  created_at = format_rails_time m.created_at;
}

-- `serializeMessages`
unfoldable pub serialize_messages : List Message → List MessageJson
serialize_messages ms = map serialize_message ms

-- The participants that are preloaded with a chat.
pub record Participants : Type 0 where
  pub hirer : Option User
  pub owner : Option User
  pub listing : Option RvListing

abbrev owner_if_there : Option User → Option OwnerJson
owner_if_there none = none
owner_if_there (some u) = some (owner_json u)

abbrev title_of : Option RvListing → ListingTitle
title_of none = null_title
title_of (some l) = titled l.title

abbrev section_messages : Bool → List Message → Option (List MessageJson)
section_messages false ms = none
section_messages true ms = some (serialize_messages ms)

abbrev with_participants : Bool → Participants → ChatJson → ChatJson
with_participants false p out = out
with_participants true p out = record out {
  hirer = owner_if_there p.hirer;
  owner = owner_if_there p.owner;
  listing_title = title_of p.listing;
}

-- `serializeChat`, with the messages and the participants of the chat
unfoldable pub serialize_chat : Chat → List Message → Participants → Bool → Bool → ChatJson
serialize_chat c ms p include_messages include_participants =
    with_participants include_participants p (record {
      id = c.id;
      hirer_id = c.hirer_id;
      owner_id = c.owner_id;
      rv_listing_id = c.rv_listing_id;
      booking_id = c.booking_id;
      last_message_at = format_rails_time_ptr c.last_message_at;
      last_message_content = c.last_message_content;
      hirer_last_read_at = format_rails_time_ptr c.hirer_last_read_at;
      owner_last_read_at = format_rails_time_ptr c.owner_last_read_at;
      messages = section_messages include_messages ms;
      hirer = none;
      owner = none;
      listing_title = omitted;
    })
