-- ===== src/Services/Chat.antt =====
-- services/chat_service.go: the chats and their messages.
pub mod Spec
pub mod Laws
pub mod Reading
pub mod Outside
mod Tests
use trekr_go.Prelude.{
  ℕ, String, Bool, true, false, not, ◌&&◌, ◌||◌, Option, none, some, List, [], ◌∷◌, ◌==◌,
  nat_instance, string_instance, ltb, leb, codes, if◌then◌else◌, order_by, every,
}
use trekr_go.GoText.{is_space}
use trekr_go.Models.{RvListing, Chat, Message}
use trekr_go.Sql.{Result, ok, err}
use trekr_go.Store.{
  Engine, State, Action, pure, ◌>>=◌, ◌>>◌, find, first, first_or_none, create, update, now, chats,
  messages, Outcome, accepted, invalid,
}

-- `strings.TrimSpace(s) == ""`
unfoldable pub is_blank : String → Bool
is_blank s = every (codes s) is_space

abbrev pub is_null : Option ℕ → Bool
is_null none = true
is_null (some t) = false

-- `last_message_at IS NULL OR last_message_at < ?`
abbrev pub is_older : Option ℕ → ℕ → Bool
is_older none time = true
is_older (some t) time = ltb t time

-- `hirer_id = ? AND owner_id = ? AND booking_id IS NULL`
abbrev pub is_open : ℕ → ℕ → Chat → Bool
is_open hirer_id owner_id c =
    c.hirer_id == hirer_id && (c.owner_id == owner_id && is_null c.booking_id)

-- `models.Message{ChatID: chatID, UserID: userID, Content: content}`
abbrev pub new_message : ℕ → ℕ → String → Message
new_message chat_id user_id content = record {
  id = 0;
  content = content;
  user_id = user_id;
  chat_id = chat_id;
  read_at = none;
  created_at = 0;
  updated_at = 0;
}

-- `models.Chat{HirerID: hirerID, OwnerID: listing.OwnerID, RvListingID: &lid}`
abbrev pub new_chat : ℕ → RvListing → Chat
new_chat hirer_id listing = record {
  id = 0;
  hirer_id = hirer_id;
  owner_id = listing.owner_id;
  rv_listing_id = some listing.id;
  booking_id = none;
  created_at = 0;
  updated_at = 0;
  last_message_at = none;
  last_message_content = none;
  hirer_last_read_at = none;
  owner_last_read_at = none;
}

-- The chat with its messages, and whether it was opened.
pub record Opened : Type 0 where
  pub chat : Chat
  pub created : Bool
  pub messages : List Message

-- The columns of the inbox that a message sets, and those that a reader sets.
abbrev pub with_last : Message → Chat → Chat
with_last m c = record c {
  last_message_at = some m.created_at;
  last_message_content = some m.content;
}

abbrev pub read_by : Chat → ℕ → ℕ → Chat → Chat
read_by chat user_id time c =
    if chat.hirer_id == user_id
    then record c { hirer_last_read_at = some time }
    else record c { owner_last_read_at = some time }

-- `last_message_at DESC`, where PostgreSQL puts the nulls first.
abbrev pub newer_time : Option ℕ → Option ℕ → Bool
newer_time none y = true
newer_time (some t) none = false
newer_time (some t) (some u) = leb u t

abbrev pub newer : Chat → Chat → Bool
newer a b = newer_time a.last_message_at b.last_message_at

abbrev pub earlier : Message → Message → Bool
earlier a b = leb a.created_at b.created_at

module _ {W : Type 0} (E : Engine W) where
  abbrev pub append_message : ℕ → ℕ → String → Action W (Outcome Message)
  append_message chat_id user_id content = do
    m ← create (messages E) (new_message chat_id user_id content)
    update (chats E) (λ c. c.id == chat_id && is_older c.last_message_at m.created_at) (with_last m)
    pure (accepted m)

  -- `createMessage`, and `CreateMessage` that calls it
  unfoldable pub create_message : ℕ → ℕ → String → Action W (Outcome Message)
  create_message chat_id user_id content =
      if is_blank content
      then pure (invalid ("Content can't be blank" ∷ []))
      else append_message chat_id user_id content

  -- The `switch` of `CreateFromListing`.
  unfoldable pub open_chat : ℕ → RvListing → Option Chat → Action W (Chat × Bool)
  open_chat hirer_id listing none = do
    c ← create (chats E) (new_chat hirer_id listing)
    pure (c, true)
  open_chat hirer_id listing (some c) = do
    update (chats E) (λ x. x.id == c.id) (λ x. record x { rv_listing_id = some listing.id })
    pure (record c { rv_listing_id = some listing.id }, false)

  -- `ListMessages`. The engine orders the rows; equal keys come in any order.
  unfoldable pub list_messages : ℕ → Action W (List Message)
  list_messages chat_id = do
    ms ← find (messages E) (λ m. m.chat_id == chat_id)
    pure (order_by earlier ms)

  unfoldable pub reload : ℕ → Bool → Outcome Message → Action W (Outcome Opened)
  reload chat_id created (accepted m) = do
    c ← first (chats E) (λ x. x.id == chat_id)
    ms ← list_messages chat_id
    pure (accepted (record { chat = c; created = created; messages = ms }))
  reload chat_id created (invalid errs) = pure (invalid errs)

  abbrev pub send_first : ℕ → String → Chat × Bool → Action W (Outcome Opened)
  send_first hirer_id content (c, created) = do
    out ← create_message c.id hirer_id content
    reload c.id created out

  -- `CreateFromListing`
  unfoldable pub create_from_listing : ℕ → RvListing → String → Action W (Outcome Opened)
  create_from_listing hirer_id listing content = do
    existing ← first_or_none (chats E) (is_open hirer_id listing.owner_id)
    opened ← open_chat hirer_id listing existing
    send_first hirer_id content opened

  -- `ChatsForRole`, without the preloads
  unfoldable pub chats_for_role : ℕ → String → Action W (List Chat)
  chats_for_role user_id role = do
    cs ←
        find (chats E)
          (λ c. if role == "hirer" then c.hirer_id == user_id else c.owner_id == user_id)
    pure (order_by newer cs)

  -- `MarkRead`
  unfoldable pub mark_read : Chat → ℕ → Action W (Unit {0})
  mark_read chat user_id = do
    time ← now E
    update (messages E)
        (λ m. m.chat_id == chat.id && (not (m.user_id == user_id) && is_null m.read_at))
        (λ m. record m { read_at = some time })
    update (chats E) (λ c. c.id == chat.id) (read_by chat user_id time)
