-- ===== src/Services/Chat/Reading.antt =====
-- Sending, listing and reading the messages of a chat.
use mathlib.Core.List.{Perm}
use mathlib.Core.List.Perm
use trekr_go.Prelude.{
  ℕ, String, Bool, true, false, not, some, List, [], ◌∷◌, ◌≡◌, refl, sym, subst, inl, inr, ap, ◌∙◌,
  ◌==◌, nat_instance, ◌&&◌, if◌then◌else◌, ◌⊎◌, All, AllPairs, All-append, All-weaken, All-replace,
  All-always, Bool-cases, leb, arith, select, ◌++◌, replace, order_by, order_by-Perm,
  order_by-AllPairs,
}
use trekr_go.Models.{Chat, Message, chat_model, message_model}
use trekr_go.Sql.{ok}
use trekr_go.Store.{
  Tables, Engine, IsEngine, State, create, update, find, chats, messages, accepted,
}
use trekr_go.Store.Laws.{>>=-eq-ok, create-eq-ok, update-eq-ok}
use trekr_go.Services.Chat.{
  is_blank, is_null, is_older, new_message, with_last, append_message, create_message,
  list_messages, earlier, read_by, mark_read,
}
use trekr_go.Services.Chat.Spec.{covers, IsUpToDate}

-- Nothing of another user in the chat is unread.
abbrev pub is_unread_for : ℕ → ℕ → Message → Bool
is_unread_for chat_id user_id m =
    m.chat_id == chat_id && (not (m.user_id == user_id) && is_null m.read_at)

module _ (m : Message) (chat_id now : ℕ) where
  covers_hit :
      (c : Chat) (x : Message)
      → (c.id == chat_id && is_older c.last_message_at m.created_at) ≡ true
      → covers c x ≡ true
      → covers (chat_model.touch now (with_last m c)) x ≡ true
  covers_hit c x h k = ground arith

  covers_miss :
      (c : Chat)
      → m.chat_id ≡ chat_id
      → (c.id == chat_id && is_older c.last_message_at m.created_at) ≡ false
      → covers c m ≡ true
  covers_miss c e h = ground arith

module _ {W : Type 0} (E : Engine W) (laws : IsEngine E) where
  append_message-eq-accepted :
      (chat_id user_id : ℕ) (content : String) (m : Message) (s : State W)
      → (append_message E chat_id user_id content s).0 ≡ ok (accepted m)
      → (m ≡ message_model.stamp m.id (E.clock s.world) (new_message chat_id user_id content))
        × ((now : ℕ) × ((append_message E chat_id user_id content s).1.tables ≡ record s.tables {
          messages = s.tables.messages ++ m ∷ [];
          chats =
              replace
                (λ c. c.id == chat_id && is_older c.last_message_at m.created_at)
                (λ c. chat_model.touch now (with_last m c))
                s.tables.chats;
        }))
  append_message-eq-accepted chat_id user_id content m s h₀ =
      let (m', d₀, l₀) =
        >>=-eq-ok (create (messages E) (new_message chat_id user_id content)) _ s h₀ in
      let s₁ = (create (messages E) (new_message chat_id user_id content) s).1 in
      let set =
        update (chats E) (λ c. c.id == chat_id && is_older c.last_message_at m'.created_at)
          (with_last m') in
      let (u, d₁, l₁) = >>=-eq-ok set _ s₁ (rw l₀ at h₀) in
      let (rows, stamped, _) =
        create-eq-ok message_model E.clock (messages E) laws.messages _ s m' d₀ in
      let same : m' ≡ m = cc in
      let now = E.clock s₁.world in
      let put : Tables → Tables = λ t. record t {
        chats =
            replace (λ c. c.id == chat_id && is_older c.last_message_at m'.created_at)
              (λ c. chat_model.touch now (with_last m' c)) t.chats;
      } in
      let left : (append_message E chat_id user_id content s).1.tables ≡ put (s₁.tables) =
        ap (λ r. r.1.tables) (l₀ ∙ l₁)
        ∙ update-eq-ok chat_model E.clock (chats E) laws.chats _ (with_last m') s₁ u d₁ in
      rw (← same) (stamped, (now, left ∙ ap put rows))

  create_message-eq-accepted :
      (chat_id user_id : ℕ) (content : String) (m : Message) (s : State W)
      → (create_message E chat_id user_id content s).0 ≡ ok (accepted m)
      → (is_blank content ≡ false)
        × ((append_message E chat_id user_id content s).0 ≡ ok (accepted m))
        × ((create_message E chat_id user_id content s).1
            ≡ (append_message E chat_id user_id content s).1)
  unfolding create_message
  create_message-eq-accepted chat_id user_id content m s h = elim (Bool-cases (is_blank content)) [
    | inl e ↦ let h' = rw e at h in cc
    | inr e ↦ rw e (refl, rw e at h, refl)
  ]

  -- The inbox of every chat stays as late as its messages when a message is sent.
  pub create_message-IsUpToDate :
      (chat_id user_id : ℕ) (content : String) (m : Message) (s : State W)
      → (create_message E chat_id user_id content s).0 ≡ ok (accepted m)
      → IsUpToDate s.tables
      → IsUpToDate (create_message E chat_id user_id content s).1.tables
  create_message-IsUpToDate chat_id user_id content m s h inv =
      let (_, sent, same) = create_message-eq-accepted chat_id user_id content m s h in
      let (stamped, (now, left)) = append_message-eq-accepted chat_id user_id content m s sent in
      let in_chat : m.chat_id ≡ chat_id = ap (λ x. x.chat_id) stamped in
      subst IsUpToDate (sym (ap (λ r. r.tables) same ∙ left)) (
        All-replace (λ c. All (λ x. covers c x ≡ true) s.tables.messages)
          (λ c. All (λ x. covers c x ≡ true) (s.tables.messages ++ m ∷ [])) _ _ s.tables.chats
          (λ c covered hit.
            All-append (λ x. covers (chat_model.touch now (with_last m c)) x ≡ true)
              s.tables.messages (m ∷ [])
              (All-weaken _ _ s.tables.messages (λ x k. covers_hit m chat_id now c x hit k) covered)
              (ground arith, tt))
          (λ c covered miss.
            All-append (λ x. covers c x ≡ true) s.tables.messages (m ∷ []) covered
              (covers_miss m chat_id now c in_chat miss, tt))
          inv)

  -- The messages of a chat, each of them once, the oldest first.
  pub list_messages-IsOrdered :
      (chat_id : ℕ) (s : State W) (ms : List Message)
      → (list_messages E chat_id s).0 ≡ ok ms
      → Perm ms (select (λ m. m.chat_id == chat_id) s.tables.messages)
        × AllPairs (λ a b. leb a.created_at b.created_at ≡ true) ms
  unfolding list_messages
  list_messages-IsOrdered chat_id s ms h =
      let (found, d₀, l₀) = >>=-eq-ok (find (messages E) (λ m. m.chat_id == chat_id)) _ s h in
      let sorted : order_by earlier found ≡ ms = cc in
      rw (← sorted) (
        Perm.trans (order_by-Perm earlier found) (laws.messages.find_perm _ _ _ found d₀),
        order_by-AllPairs earlier (λ a b e. ground arith) (λ a b c e k. ground arith) found,
      )

  module _ (chat : Chat) (user_id : ℕ) (s : State W) where
    marks : Tables → ℕ → ℕ → Tables
    marks t now later = record t {
      messages =
          replace (is_unread_for chat.id user_id)
            (λ m. message_model.touch now (record m { read_at = some (E.clock s.world) }))
            t.messages;
      chats =
          replace (λ c. c.id == chat.id)
            (λ c. chat_model.touch later (read_by chat user_id (E.clock s.world) c)) t.chats;
    }

    mark_read-eq-ok :
        (mark_read E chat user_id s).0 ≡ ok tt
        → (now : ℕ) × (later : ℕ) × ((mark_read E chat user_id s).1.tables
            ≡ marks s.tables now later)
    unfolding mark_read marks
    mark_read-eq-ok h =
        let time = E.clock s.world in
        let set =
          update (messages E) (is_unread_for chat.id user_id)
            (λ m. record m { read_at = some time }) in
        let s₁ = (set s).1 in
        let (u, d₀, l₀) = >>=-eq-ok set _ s h in
        let d₁ = rw l₀ at h in
        let put : Tables → Tables = λ t. record t {
          chats =
              replace (λ c. c.id == chat.id)
                (λ c. chat_model.touch (E.clock s₁.world) (read_by chat user_id time c)) t.chats;
        } in
        let marked : s₁.tables ≡ record s.tables {
          messages =
              replace (is_unread_for chat.id user_id)
                (λ m. message_model.touch time (record m { read_at = some time }))
                s.tables.messages;
        } =
          update-eq-ok message_model E.clock (messages E) laws.messages _ _ s u d₀ in
        let stamped : (mark_read E chat user_id s).1.tables ≡ put s₁.tables =
          ap (λ r. r.1.tables) l₀
          ∙ update-eq-ok chat_model E.clock (chats E) laws.chats _ (read_by chat user_id time) s₁ tt
              d₁ in
        (time, E.clock s₁.world, stamped ∙ ap put marked)

    -- What a row of messages is after it was read by the user: nothing of the other user is unread.
    read_all :
        (now : ℕ) (ms : List Message)
        → All
            (λ m. is_unread_for chat.id user_id m ≡ false)
            (replace
              (is_unread_for chat.id user_id)
              (λ m. message_model.touch now (record m { read_at = some (E.clock s.world) }))
              ms)
    read_all now ms =
        All-replace (λ m. m ≡ m) _ (is_unread_for chat.id user_id) _ ms (λ m _ e. ground arith)
          (λ m _ e. e) (All-always (λ m. m ≡ m) ms (λ _. refl))

    marked_rows :
        (now later : ℕ)
        → ((chat.hirer_id == user_id) ≡ true) ⊎ ((chat.hirer_id == user_id) ≡ false)
        → marks s.tables now later ≡ record s.tables {
          messages =
              replace
                (is_unread_for chat.id user_id)
                (λ m. record m { read_at = some (E.clock s.world); updated_at = now })
                s.tables.messages;
          chats =
              replace
                (λ c. c.id == chat.id)
                (λ c.
                  if chat.hirer_id == user_id
                  then record c { hirer_last_read_at = some (E.clock s.world); updated_at = later }
                  else record c { owner_last_read_at = some (E.clock s.world); updated_at = later })
                s.tables.chats;
        }
    unfolding marks
    marked_rows now later (inl hirer) = rw hirer refl
    marked_rows now later (inr owner) = rw owner refl

    -- When a chat was read, the messages in it that are not the user's own and were unread have the
    -- time of the reading as their read_at, and every other message, of this chat or another, is as
    -- it was; so nothing of the other user is unread. The chat has that time in the column of the
    -- user, the hirer's or the owner's, and nothing else has changed.
    pub mark_read-read :
        (mark_read E chat user_id s).0 ≡ ok tt
        → All
            (λ m. is_unread_for chat.id user_id m ≡ false)
            (mark_read E chat user_id s).1.tables.messages
          × ((now : ℕ) × (later : ℕ) × ((mark_read E chat user_id s).1.tables ≡ record s.tables {
            messages =
                replace
                  (λ m. m.chat_id == chat.id && (not (m.user_id == user_id) && is_null m.read_at))
                  (λ m. record m { read_at = some (E.clock s.world); updated_at = now })
                  s.tables.messages;
            chats =
                replace
                  (λ c. c.id == chat.id)
                  (λ c.
                    if chat.hirer_id == user_id
                    then record c {
                      hirer_last_read_at = some (E.clock s.world);
                      updated_at = later;
                    }
                    else record c {
                      owner_last_read_at = some (E.clock s.world);
                      updated_at = later;
                    })
                  s.tables.chats;
          }))
    unfolding marks
    mark_read-read h =
        let (now, later, left) = mark_read-eq-ok h in
        (
          subst (λ t. All (λ m. is_unread_for chat.id user_id m ≡ false) t.messages) (sym left)
              (read_all now s.tables.messages),
          (now, later, left ∙ marked_rows now later (Bool-cases (chat.hirer_id == user_id))),
        )
