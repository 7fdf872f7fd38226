-- ===== src/Services/Chat/Laws.antt =====
-- What opening a chat and sending a message do to the tables.
use trekr_go.Prelude.{
  ℕ, String, Bool, false, Option, none, some, ◌≡◌, refl, sym, subst, inl, inr, ap, ◌∙◌, ◌==◌,
  nat_instance, ◌&&◌, All, AllPairs, AllPairs-append, AllPairs-replace_same, All-of_select-empty,
  All-weaken, Bool-cases, arith, length,
}
use trekr_go.Models.{RvListing, Chat, Message, chat_model}
use trekr_go.Sql.{Result, ok, err, record_not_found}
use trekr_go.Store.{
  Engine, IsEngine, State, continue, ◌>>=◌, create, update, first, first_or_none, chats, messages,
  Outcome, accepted, invalid,
}
use trekr_go.Store.Laws.{Preserves, >>=-Preserves, continue-preserved, update-cases, create-cases}
use trekr_go.Services.Chat.{
  is_blank, is_older, is_open, new_message, new_chat, with_last, append_message, create_message,
  open_chat, list_messages, reload, send_first, create_from_listing,
}
use trekr_go.Services.Chat.Spec.{both_open, OneOpenChat}

both_open_comm : (a b : Chat) → both_open a b ≡ both_open b a
unfolding both_open
both_open_comm a b = ground arith

both_open_listed :
    (now listing_id : ℕ) (a b : Chat)
    → both_open (chat_model.touch now (record a { rv_listing_id = some listing_id })) b
      ≡ both_open a b
unfolding both_open
both_open_listed now listing_id a b = refl

-- A new chat is the only open one if no open one was found.
new_chat-alone :
    (hirer_id i time : ℕ) (listing : RvListing) (c : Chat)
    → is_open hirer_id listing.owner_id c ≡ false
    → both_open c (chat_model.stamp i time (new_chat hirer_id listing)) ≡ false
unfolding both_open
new_chat-alone hirer_id i time listing c h = ground arith

module _ {W : Type 0} (E : Engine W) (laws : IsEngine E) where
  -- An update of the inbox or of the listing of chats.
  update-OneOpenChat :
      (p : Chat → Bool) (f : Chat → Chat)
      → ((now : ℕ) (a b : Chat) → both_open (chat_model.touch now (f a)) b ≡ both_open a b)
      → Preserves OneOpenChat (update (chats E) p f)
  update-OneOpenChat p f same s h =
      elim (update-cases chat_model E.clock (chats E) laws.chats p f s) [
        | inl e ↦ subst OneOpenChat (sym e) h
        | inr e ↦ subst OneOpenChat (sym e) (
            AllPairs-replace_same both_open p (λ r. chat_model.touch (E.clock s.world) (f r))
              s.tables.chats both_open_comm (same (E.clock s.world)) h)
      ]

  append_message-OneOpenChat :
      (chat_id user_id : ℕ) (content : String)
      → Preserves OneOpenChat (append_message E chat_id user_id content)
  unfolding both_open
  append_message-OneOpenChat chat_id user_id content =
      >>=-Preserves OneOpenChat (create (messages E) (new_message chat_id user_id content)) _
        (λ s h. subst (AllPairs (λ a b. both_open a b ≡ false)) (ground arith) h)
        (λ m.
          >>=-Preserves OneOpenChat
            (update (chats E) (λ c. c.id == chat_id && is_older c.last_message_at m.created_at)
              (with_last m))
            _ (update-OneOpenChat _ (with_last m) (λ now a b. refl)) (λ _ s h. h))

  create_message-OneOpenChat :
      (chat_id user_id : ℕ) (content : String)
      → Preserves OneOpenChat (create_message E chat_id user_id content)
  unfolding create_message
  create_message-OneOpenChat chat_id user_id content s h = elim (Bool-cases (is_blank content)) [
    | inl e ↦ rw e h
    | inr e ↦ rw e (append_message-OneOpenChat chat_id user_id content s h)
  ]

  chats-list_messages :
      (chat_id : ℕ) (s : State W) → (list_messages E chat_id s).1.tables ≡ s.tables
  unfolding list_messages
  chats-list_messages chat_id s = ground arith

  reload-OneOpenChat :
      (chat_id : ℕ) (created : Bool) (out : Outcome Message)
      → Preserves OneOpenChat (reload E chat_id created out)
  unfolding reload
  reload-OneOpenChat chat_id created (accepted m) =
      >>=-Preserves OneOpenChat (first (chats E) (λ x. x.id == chat_id)) _
        (λ s h.
          subst OneOpenChat {x = s.tables} {y = (first (chats E) (λ x. x.id == chat_id) s).1.tables}
            (ground arith) h)
        (λ c.
          >>=-Preserves OneOpenChat (list_messages E chat_id) _
            (λ s h. subst OneOpenChat (sym (chats-list_messages chat_id s)) h) (λ ms s h. h))
  reload-OneOpenChat chat_id created (invalid errs) = λ s h. h

  send_first-OneOpenChat :
      (hirer_id : ℕ) (content : String) (opened : Chat × Bool)
      → Preserves OneOpenChat (send_first E hirer_id content opened)
  send_first-OneOpenChat hirer_id content (c, created) =
      >>=-Preserves OneOpenChat (create_message E c.id hirer_id content) _
        (create_message-OneOpenChat c.id hirer_id content) (reload-OneOpenChat c.id created)

  module _ (hirer_id : ℕ) (listing : RvListing) where
    open_chat-OneOpenChat :
        (found : Option Chat) (s : State W)
        → (found ≡ none → All (λ c. is_open hirer_id listing.owner_id c ≡ false) s.tables.chats)
        → OneOpenChat s.tables
        → OneOpenChat (open_chat E hirer_id listing found s).1.tables
    unfolding open_chat
    open_chat-OneOpenChat none s free h =
        continue-preserved OneOpenChat (create (chats E) (new_chat hirer_id listing) s) _
          (λ c s' k. k)
          (elim (create-cases chat_model E.clock (chats E) laws.chats (new_chat hirer_id listing)
            s) [
              | inl e ↦ subst OneOpenChat (sym e) h
              | inr (c, rows, stamped) ↦ subst OneOpenChat (sym rows) (
                  AllPairs-append _ s.tables.chats c h (
                    All-weaken _ _ s.tables.chats
                      (λ x e.
                        ap (both_open x) stamped
                        ∙ new_chat-alone hirer_id c.id (E.clock s.world) listing x e)
                      (free refl)))
            ])
    open_chat-OneOpenChat (some c) s free h =
        >>=-Preserves OneOpenChat
          (update (chats E) (λ x. x.id == c.id) (λ x. record x { rv_listing_id = some listing.id }))
          _ (update-OneOpenChat _ _ (λ now a b. both_open_listed now listing.id a b)) (λ _ s' k. k)
          s h

    found-OneOpenChat :
        (content : String) (r : Result (Option Chat) × State W)
        → (r.0 ≡ ok none → All (λ c. is_open hirer_id listing.owner_id c ≡ false) r.1.tables.chats)
        → OneOpenChat r.1.tables
        → OneOpenChat
            (continue r (λ found.
              open_chat E hirer_id listing found >>= send_first E hirer_id content)).1.tables
    found-OneOpenChat content (ok found, s) free h =
        continue-preserved OneOpenChat (open_chat E hirer_id listing found s) _
          (send_first-OneOpenChat hirer_id content)
          (open_chat-OneOpenChat found s (λ e. free (ap ok e)) h)
    found-OneOpenChat content (err e, s) free h = h

    -- The chats that a query for one chat did not find.
    first_or_none-eq-none :
        (p : Chat → Bool) (s : State W)
        → (first_or_none (chats E) p s).0 ≡ ok none
        → All (λ c. p c ≡ false) s.tables.chats
    first_or_none-eq-none p s h =
        let missing : (first (chats E) p s).0 ≡ err record_not_found = ground arith in
        All-of_select-empty p s.tables.chats
          (ap length (laws.chats.first_none p s.world s.tables.chats missing))

    -- Whatever is sent, and however it ends, no hirer gets two open chats with one owner.
    pub create_from_listing-OneOpenChat :
        (content : String) → Preserves OneOpenChat (create_from_listing E hirer_id listing content)
    unfolding create_from_listing
    create_from_listing-OneOpenChat content s h =
        let look = first_or_none (chats E) (is_open hirer_id listing.owner_id) in
        let kept : (look s).1.tables ≡ s.tables = ground arith in
        found-OneOpenChat content (look s)
          (λ e.
            subst (λ t. All (λ c. is_open hirer_id listing.owner_id c ≡ false) t.chats) (sym kept)
              (first_or_none-eq-none (is_open hirer_id listing.owner_id) s e))
          (subst OneOpenChat (sym kept) h)
