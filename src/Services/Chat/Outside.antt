-- ===== src/Services/Chat/Outside.antt =====
-- What sending, listing and reading the messages of a chat leave of the other chats.
use trekr_go.Prelude.{
  ℕ, String, Bool, true, false, not, some, List, ◌≡◌, refl, ap, ◌∙◌, inl, inr, ◌&&◌, ◌==◌,
  nat_instance, arith, Bool-cases, select, select-snoc_out, select-replace_out,
}
use trekr_go.Models.{Chat, Message, chat_model, message_model}
use trekr_go.Store.{Tables, Engine, IsEngine, create, update, chats, messages}
use trekr_go.Store.Laws.{Keeps, >>=-Keeps, create-cases, update-cases}
use trekr_go.Services.Chat.{
  is_blank, is_null, is_older, new_message, with_last, append_message, create_message, mark_read,
  read_by,
}

-- Every row but those of a chat and of its messages.
abbrev pub outside : ℕ → Tables → Tables
outside chat_id t = record t {
  messages = select (λ m. not (m.chat_id == chat_id)) t.messages;
  chats = select (λ c. not (c.id == chat_id)) t.chats;
}

new_message_in :
    (chat_id user_id id now : ℕ) (content : String)
    → (message_model.stamp id now (new_message chat_id user_id content)).chat_id ≡ chat_id
new_message_in chat_id user_id id now content = refl

read_by_id : (chat c : Chat) (user_id time : ℕ) → (read_by chat user_id time c).id ≡ c.id
read_by_id chat c user_id time = elim (Bool-cases (chat.hirer_id == user_id)) [
  | inl e ↦ rw e refl
  | inr e ↦ rw e refl
]

not_own : (a b : ℕ) → (a == b) ≡ true → not (a == b) ≡ false
not_own a b e = rw e refl

module _ {W : Type 0} (E : Engine W) (laws : IsEngine E) (chat_id : ℕ) where
  -- A change of rows of the chat, or of its messages, by any test.
  outside-update_chats :
      (p : Chat → Bool) (f : Chat → Chat)
      → ((c : Chat) → p c ≡ true → c.id ≡ chat_id)
      → ((c : Chat) → (f c).id ≡ c.id)
      → Keeps (outside chat_id) (update (chats E) p f)
  outside-update_chats p f own same s =
      elim (update-cases chat_model E.clock (chats E) laws.chats p f s) [
        | inl kept ↦ ap (outside chat_id) kept
        | inr left ↦
            ap (outside chat_id) left
            ∙ ap {A = List Chat} {B = Tables} (λ l. record (outside chat_id s.tables) { chats = l })
                (select-replace_out (λ c. not (c.id == chat_id)) p
                  (λ c. chat_model.touch (E.clock s.world) (f c)) s.tables.chats
                  (λ c hit.
                    let e = (nat_instance.tells_same_iff c.id chat_id).1 (own c hit) in
                    (not_own c.id chat_id e, rw (same c) (not_own c.id chat_id e))))
      ]

  outside-update_messages :
      (p : Message → Bool) (f : Message → Message)
      → ((m : Message) → p m ≡ true → m.chat_id ≡ chat_id)
      → ((m : Message) → (f m).chat_id ≡ m.chat_id)
      → Keeps (outside chat_id) (update (messages E) p f)
  outside-update_messages p f own same s =
      elim (update-cases message_model E.clock (messages E) laws.messages p f s) [
        | inl kept ↦ ap (outside chat_id) kept
        | inr left ↦
            ap (outside chat_id) left
            ∙ ap {A = List Message} {B = Tables}
                (λ l. record (outside chat_id s.tables) { messages = l })
                (select-replace_out (λ m. not (m.chat_id == chat_id)) p
                  (λ m. message_model.touch (E.clock s.world) (f m)) s.tables.messages
                  (λ m hit.
                    let e = (nat_instance.tells_same_iff m.chat_id chat_id).1 (own m hit) in
                    (not_own m.chat_id chat_id e, rw (same m) (not_own m.chat_id chat_id e))))
      ]

  outside-create_row :
      (user_id : ℕ) (content : String)
      → Keeps (outside chat_id) (create (messages E) (new_message chat_id user_id content))
  outside-create_row user_id content s =
      elim (create-cases message_model E.clock (messages E) laws.messages
        (new_message chat_id user_id content) s) [
          | inl kept ↦ ap (outside chat_id) kept
          | inr (m, left, stamped) ↦
              let here : m.chat_id ≡ chat_id =
                ap (λ x. x.chat_id) stamped
                ∙ new_message_in chat_id user_id m.id (E.clock s.world) content in
              ap (outside chat_id) left
              ∙ ap {A = List Message} {B = Tables}
                  (λ l. record (outside chat_id s.tables) { messages = l })
                  (select-snoc_out (λ m. not (m.chat_id == chat_id)) s.tables.messages m
                    (not_own m.chat_id chat_id ((nat_instance.tells_same_iff _ _).1 here)))
        ]

  outside-append_message :
      (user_id : ℕ) (content : String)
      → Keeps (outside chat_id) (append_message E chat_id user_id content)
  outside-append_message user_id content =
      >>=-Keeps (outside chat_id) (create (messages E) (new_message chat_id user_id content)) _
        (outside-create_row user_id content)
        (λ m.
          >>=-Keeps (outside chat_id)
            (update (chats E) (λ c. c.id == chat_id && is_older c.last_message_at m.created_at)
              (with_last m))
            _ (outside-update_chats _ (with_last m) (λ c h. ground arith) (λ c. refl))
            (λ u s. refl))

  -- A message of a chat changes rows of this chat only.
  pub outside-create_message :
      (user_id : ℕ) (content : String)
      → Keeps (outside chat_id) (create_message E chat_id user_id content)
  unfolding create_message
  outside-create_message user_id content s = elim (Bool-cases (is_blank content)) [
    | inl e ↦ rw e refl
    | inr e ↦ rw e (outside-append_message user_id content s)
  ]

module _ {W : Type 0} (E : Engine W) (laws : IsEngine E) (chat : Chat) (user_id : ℕ) where
  -- Reading a chat changes rows of this chat only.
  pub outside-mark_read : Keeps (outside chat.id) (mark_read E chat user_id)
  unfolding mark_read
  outside-mark_read s =
      let time = E.clock s.world in
      >>=-Keeps (outside chat.id)
        (update (messages E)
          (λ m. m.chat_id == chat.id && (not (m.user_id == user_id) && is_null m.read_at))
          (λ m. record m { read_at = some time }))
        _ (outside-update_messages E laws chat.id _ _ (λ m h. ground arith) (λ m. refl))
        (λ u.
          outside-update_chats E laws chat.id (λ c. c.id == chat.id) (read_by chat user_id time)
            (λ c h. ground arith) (λ c. read_by_id chat c user_id time))
        s
