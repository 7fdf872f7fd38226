-- ===== src/Json/Tests.antt =====
-- Rows as they are rendered.
use trekr_go.Prelude.{none, some, [], ◌≡◌, refl, true, false}
use trekr_go.Dates.{days_in}
use trekr_go.Dates.Format.{format_date, format_time}
use trekr_go.Models.{Booking, Chat}
use trekr_go.Json.{
  Participants, ChatJson, serialize_booking, serialize_booking_participants, serialize_message,
  serialize_messages, serialize_chat, omitted, null_title,
}
use trekr_go.Json.Images.{format_decimal}

steps : Unit {0}
unfolding days_in format_date format_time serialize_booking serialize_booking_participants
    serialize_message serialize_messages serialize_chat format_decimal
steps = tt

decimals :
    (format_decimal (some "149") ≡ some "149.0")
    × (format_decimal (some "250.00") ≡ some "250.0")
    × (format_decimal (some "149.90") ≡ some "149.9")
    × (format_decimal none ≡ none)
unfolding steps
decimals = (refl, refl, refl, refl)

abbrev booking : Booking
booking = record {
  id = 1;
  start_date = 740194;
  end_date = 740198;
  status = "pending";
  hirer_id = 8;
  rv_listing_id = 7;
  created_at = 0;
  updated_at = 0;
}

rendered_booking : serialize_booking booking ≡ record {
  id = 1;
  start_date = "2026-08-01";
  end_date = "2026-08-05";
  status = "pending";
  hirer_id = 8;
  rv_listing_id = 7;
}
unfolding steps
rendered_booking = refl

no_listing : serialize_booking_participants booking none none none ≡ none
unfolding steps
no_listing = refl

abbrev chat : Chat
chat = record {
  id = 1;
  hirer_id = 8;
  owner_id = 4;
  rv_listing_id = none;
  booking_id = none;
  created_at = 5;
  updated_at = 6;
  last_message_at = some 0;
  last_message_content = some "hi";
  hirer_last_read_at = none;
  owner_last_read_at = none;
}

abbrev bare : ChatJson
bare = record {
  id = 1;
  hirer_id = 8;
  owner_id = 4;
  rv_listing_id = none;
  booking_id = none;
  last_message_at = some "1970-01-01T00:00:00.000Z";
  last_message_content = some "hi";
  hirer_last_read_at = none;
  owner_last_read_at = none;
  messages = none;
  hirer = none;
  owner = none;
  listing_title = omitted;
}

abbrev nobody : Participants
nobody = record { hirer = none; owner = none; listing = none }

rendered_chats :
    (serialize_chat chat [] nobody false false ≡ bare)
    × (serialize_chat chat [] nobody true true
        ≡ record bare { messages = some []; listing_title = null_title })
unfolding steps
rendered_chats = (refl, refl)
