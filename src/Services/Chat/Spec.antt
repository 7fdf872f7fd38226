-- ===== src/Services/Chat/Spec.antt =====
-- What the chat service promises: one open chat for a hirer and an owner, and an inbox column that
-- is as late as the messages of the chat.
use trekr_go.Prelude.{
  ℕ, Bool, true, false, not, ◌&&◌, ◌||◌, leb, none, ◌≡◌, Option, some, ◌==◌, nat_instance, All,
  AllPairs,
}
use trekr_go.Models.{Chat, Message}
use trekr_go.Store.{Tables}
use trekr_go.Services.Chat.{is_null}

-- Two chats of one hirer with one owner that are both without a booking.
unfoldable pub both_open : Chat → Chat → Bool
both_open a b =
    a.hirer_id == b.hirer_id
    && (a.owner_id == b.owner_id && (is_null a.booking_id && is_null b.booking_id))

-- No hirer has two open chats with one owner.
abbrev pub OneOpenChat : Tables → Type 0
OneOpenChat t = AllPairs (λ a b. both_open a b ≡ false) t.chats

abbrev pub is_by : ℕ → Option ℕ → Bool
is_by time none = false
is_by time (some last) = leb time last

-- The last message of the inbox of `c` is no earlier than `m`, if `m` is of the chat.
abbrev pub covers : Chat → Message → Bool
covers c m = not (m.chat_id == c.id) || is_by m.created_at c.last_message_at

abbrev pub IsUpToDate : Tables → Type 0
IsUpToDate t = All (λ c. All (λ m. covers c m ≡ true) t.messages) t.chats
