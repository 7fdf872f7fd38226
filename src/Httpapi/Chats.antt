-- ===== src/Httpapi/Chats.antt =====
-- httpapi/chats.go
pub mod Laws
use trekr_go.Prelude.{
  ℕ, String, Bool, true, false, ◌||◌, not, Option, none, some, List, [], ◌∷◌, ◌==◌, nat_instance,
  if◌then◌else◌,
}
use trekr_go.Models.{User, RvListing, Chat, Message, ℤ}
use trekr_go.Sql.{Result, ok, err}
use trekr_go.Store.{Engine, State, first_or_none, chats, Outcome}
use trekr_go.Services.Chat.{
  Opened, create_from_listing, create_message, list_messages, chats_for_role, mark_read,
}
use trekr_go.Httpapi.{
  error_body, plain_text, opened_body, chat_lists, chat_body, message_body, messages_body, Reply,
  reply, Handler, Checked, go, stop, Check, Request, parse_id, has_id, answer, unauthorized, run,
  checking, with_user, with_body, or_422,
}
use trekr_go.Httpapi.Bookings.{not_found, loaded, load_listing}

-- `isParticipant`
abbrev pub is_participant : Chat → ℕ → Bool
is_participant chat user_id = chat.hirer_id == user_id || chat.owner_id == user_id

abbrev pub forbidden : Reply
forbidden = reply 403 (error_body "Forbidden")

abbrev status_of : Bool → ℕ
status_of created = if created then 201 else 200

module _ {W : Type 0} (E : Engine W) where
  abbrev find_chat : Option ℤ → Check W Chat
  find_chat none s = (stop not_found, s)
  find_chat (some id) s =
      loaded "could not load chat" (first_or_none (chats E) (λ c. has_id id c.id) s)

  -- `loadChatRow`: `loadChatWith` without a scope
  unfoldable pub load_chat : String → Check W Chat
  load_chat param s = find_chat (parse_id param) s

  abbrev pub preloaded :
      Chat → Result (List Message) × State W → Checked (Chat × List Message) × State W
  preloaded c (ok ms, s) = (go (c, ms), s)
  preloaded c (err e, s) = (stop (reply 500 (plain_text "could not load chat")), s)

  abbrev pub with_messages : Checked Chat × State W → Checked (Chat × List Message) × State W
  with_messages (stop y, s) = (stop y, s)
  with_messages (go c, s) = preloaded c (list_messages E c.id s)

  -- `loadChat`: `loadChatWith` with the messages in order
  unfoldable pub load_chat_messages : String → Check W (Chat × List Message)
  load_chat_messages param s = with_messages (load_chat param s)

  -- The check that the handlers of one chat share.
  abbrev pub for_participant :
      {A : Type 0} → Option User → Check W A → (A → Chat) → (User → A → Handler W) → Handler W
  for_participant user load chat_of f =
      with_user user
        (λ u.
          checking load (λ a. if is_participant (chat_of a) u.id then f u a else answer forbidden))
        (answer unauthorized)

  -- `chatsCreate`; the body is the content of the message
  unfoldable pub chats_create : Request String → Handler W
  chats_create r =
      with_user r.user
        (λ user. checking (load_listing E r.id) (λ listing. with_body r.body (λ content.
          run (create_from_listing E user.id listing content) "could not create chat"
            (or_422 (λ o. answer (reply (status_of o.created) (opened_body o)))))))
        (answer unauthorized)

  -- `chatsIndex`
  unfoldable pub chats_index : Request String → Handler W
  chats_index r =
      with_user r.user
        (λ user. run (chats_for_role E user.id "hirer") "could not load chats" (λ as_hirer.
          run (chats_for_role E user.id "owner") "could not load chats"
            (λ as_owner. answer (reply 200 (chat_lists as_hirer as_owner)))))
        (answer unauthorized)

  -- `chatsShow`
  unfoldable pub chats_show : Request String → Handler W
  chats_show r =
      for_participant r.user (load_chat_messages r.id) (λ a. a.0)
        (λ user a. answer (reply 200 (chat_body a.0 a.1)))

  -- `messagesCreate`
  unfoldable pub messages_create : Request String → Handler W
  messages_create r =
      for_participant r.user (load_chat r.id) (λ c. c)
        (λ user chat. with_body r.body (λ content.
          run (create_message E chat.id user.id content) "could not create message"
            (or_422 (λ m. answer (reply 201 (message_body m))))))

  -- `messagesIndex`
  unfoldable pub messages_index : Request String → Handler W
  messages_index r =
      for_participant r.user (load_chat r.id) (λ c. c)
        (λ user chat. run (mark_read E chat user.id) "could not update messages" (λ _.
          run (list_messages E chat.id) "could not load messages"
            (λ ms. answer (reply 200 (messages_body ms)))))
