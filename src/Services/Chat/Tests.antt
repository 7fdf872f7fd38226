-- ===== src/Services/Chat/Tests.antt =====
-- Runs of the chat service, and its theorems at concrete inputs.
use mathlib.Core.List.{Perm}
use trekr_go.Prelude.{
  not, ◌&&◌, if◌then◌else◌, replace, ℕ, String, true, false, none, some, [], ◌∷◌, ◌≡◌, refl,
  nat_instance, string_instance, ◌==◌, All, AllPairs, leb, select,
}
use trekr_go.Models.{RvListing, Chat, Message, pos}
use trekr_go.Sql.{ok}
use trekr_go.Store.{State, accepted, invalid}
use trekr_go.Store.Memory.{memory_engine, memory_engine-IsEngine, empty_tables, state_at}
use trekr_go.Services.Chat.{
  is_null, is_blank, create_message, open_chat, list_messages, reload, create_from_listing,
  chats_for_role, mark_read,
}
use trekr_go.Services.Chat.Spec.{both_open, OneOpenChat, IsUpToDate}
use trekr_go.Services.Chat.Laws.{create_from_listing-OneOpenChat}
use trekr_go.Services.Chat.Reading.{
  create_message-IsUpToDate, list_messages-IsOrdered, mark_read-read, is_unread_for,
}

abbrev van : RvListing
van = record {
  id = 7;
  title = "Van";
  description = "A van";
  price_per_day = none;
  owner_id = 4;
  max_guests = pos 2;
  pet_friendly = false;
  latitude = none;
  longitude = none;
  rv_type = 0;
  town = "Lorne";
  state = "VIC";
  postcode = "3232";
  region = none;
  created_at = 0;
  updated_at = 0;
}

abbrev chat : Chat
chat = record {
  id = 1;
  hirer_id = 8;
  owner_id = 4;
  rv_listing_id = some 7;
  booking_id = none;
  created_at = 5;
  updated_at = 6;
  last_message_at = some 6;
  last_message_content = some "hi";
  hirer_last_read_at = none;
  owner_last_read_at = none;
}

abbrev message : ℕ → ℕ → String → Message
message i time content = record {
  id = i;
  content = content;
  user_id = 8;
  chat_id = 1;
  read_at = none;
  created_at = time;
  updated_at = time;
}

steps : Unit {0}
unfolding create_from_listing create_message open_chat list_messages reload mark_read is_blank
    chats_for_role both_open
steps = tt

abbrev one_chat : State ℕ
one_chat = state_at 6 (record empty_tables { chats = chat ∷ []; messages = message 1 6 "hi" ∷ [] })

-- The first message opens a chat; another one goes to the same chat.
first_message :
    (create_from_listing memory_engine 8 van "hi" (state_at 5 empty_tables)).1.tables.messages
    ≡ message 1 5 "hi" ∷ []
unfolding steps
first_message = refl

blank_message :
    (create_from_listing memory_engine 8 van " " (state_at 5 empty_tables)).0
    ≡ ok (invalid ("Content can't be blank" ∷ []))
unfolding steps
blank_message = refl

create_from_listing-OneOpenChat_example :
    OneOpenChat (create_from_listing memory_engine 8 van "again" one_chat).1.tables
create_from_listing-OneOpenChat_example =
    create_from_listing-OneOpenChat memory_engine memory_engine-IsEngine 8 van "again" one_chat
      (tt, tt)

second_message :
    (create_message memory_engine 1 8 "you?" one_chat).0 ≡ ok (accepted (message 2 6 "you?"))
unfolding steps
second_message = refl

create_message-IsUpToDate_example :
    IsUpToDate (create_message memory_engine 1 8 "you?" one_chat).1.tables
create_message-IsUpToDate_example =
    create_message-IsUpToDate memory_engine memory_engine-IsEngine 1 8 "you?" (message 2 6 "you?")
      one_chat second_message ((refl, tt), tt)

abbrev two_messages : State ℕ
two_messages = state_at 9 (record empty_tables {
  chats = chat ∷ [];
  messages = message 2 6 "you?" ∷ message 1 5 "hi" ∷ [];
})

list_messages-IsOrdered_example :
    Perm
      (message 1 5 "hi" ∷ message 2 6 "you?" ∷ [])
      (select (λ m. m.chat_id == 1) (message 2 6 "you?" ∷ message 1 5 "hi" ∷ []))
    × AllPairs
        (λ a b. leb a.created_at b.created_at ≡ true)
        (message 1 5 "hi" ∷ message 2 6 "you?" ∷ [])
unfolding steps
list_messages-IsOrdered_example =
    list_messages-IsOrdered memory_engine memory_engine-IsEngine 1 two_messages
      (message 1 5 "hi" ∷ message 2 6 "you?" ∷ []) refl

mark_read-read_example :
    All
      (λ m. is_unread_for 1 4 m ≡ false)
      (mark_read memory_engine chat 4 two_messages).1.tables.messages
    × ((now : ℕ) × (later : ℕ) × ((mark_read memory_engine chat 4 two_messages).1.tables
          ≡ record two_messages.tables {
            messages =
                replace
                  (λ m. m.chat_id == 1 && (not (m.user_id == 4) && is_null m.read_at))
                  (λ m. record m { read_at = some 9; updated_at = now })
                  two_messages.tables.messages;
            chats =
                replace
                  (λ c. c.id == 1)
                  (λ c.
                    if chat.hirer_id == 4
                    then record c { hirer_last_read_at = some 9; updated_at = later }
                    else record c { owner_last_read_at = some 9; updated_at = later })
                  two_messages.tables.chats;
          }))
unfolding steps
mark_read-read_example =
    mark_read-read memory_engine memory_engine-IsEngine chat 4 two_messages refl
