-- ===== src/Httpapi/Chats/Laws.antt =====
-- httpapi/chats.go: who may see and change a chat.
use mathlib.Core.List.{Memᴰ}
use trekr_go.Prelude.{
  ℕ, String, Bool, true, false, Option, none, some, List, ◌≡◌, refl, sym, ap, ◌∙◌, inl, inr, ◌⊎◌,
  nat_instance, arith, Bool-cases, leb, if◌then◌else◌,
}
use trekr_go.Models.{User, Chat, Message, ℤ}
use trekr_go.Sql.{Result, ok, err}
use trekr_go.Store.{
  Tables, Outcome, accepted, invalid, Engine, IsEngine, State, first, first_or_none, chats,
}
use trekr_go.Services.Chat.{list_messages, create_message, mark_read}
use trekr_go.Services.Chat.Outside.{outside, outside-create_message, outside-mark_read}
use trekr_go.Httpapi.{
  or_500, or_422, run, with_body, message_body, messages_body, Check, Reply, reply, panicked,
  Handler, Checked, go, stop, Request, parse_id, has_id, proceed, answer,
}
use trekr_go.Httpapi.Bookings.Laws.{loaded-eq-go, first_or_none-eq-ok}
use trekr_go.Httpapi.Chats.{
  is_participant, find_chat, load_chat, for_participant, forbidden, preloaded, with_messages,
  load_chat_messages, chats_show, messages_create, messages_index,
}

-- The request is for a chat of the table that its user takes part in, and the rows of other chats
-- and their messages, and all other tables, are as they were.
pub record IsParticipant (user : Option User) (param : String) (before after : Tables)
    : Type 0 where
  pub chat : Chat
  pub reader : User
  pub signed_in : user ≡ some reader
  pub id : ℤ
  pub parsed : parse_id param ≡ some id
  pub requested : has_id id chat.id ≡ true
  pub listed : Memᴰ chat before.chats
  pub takes_part : (chat.hirer_id ≡ reader.id) ⊎ (chat.owner_id ≡ reader.id)
  pub within : outside chat.id after ≡ outside chat.id before

participant_side :
    (c : Chat) (i : ℕ) → is_participant c i ≡ true → (c.hirer_id ≡ i) ⊎ (c.owner_id ≡ i)
participant_side c i h = ground arith

-- What loading the chat of a parameter has found.
abbrev IsLoaded : String → Tables → Chat → Type 0
IsLoaded param t c =
    (id : ℤ) × (parse_id param ≡ some id) × (has_id id c.id ≡ true) × Memᴰ c t.chats

-- A status code of 400 or more.
abbrev pub is_refusal : Reply → Bool
is_refusal (reply code body) = leb 400 code
is_refusal panicked = false

-- The request is refused and changes nothing, or its user takes part in the chat that it names.
abbrev pub IsGuarded : {W : Type 0} → Option User → String → State W → Reply × State W → Type 0
IsGuarded user param s r =
    ((is_refusal r.0 ≡ true) × (r.1.tables ≡ s.tables))
    ⊎ IsParticipant user param s.tables r.1.tables

-- The answer to the result of an action changes what the answer of a success changes.
pub or_500-kept :
    {W A X : Type 0} (view : Tables → X) (x : Result A × State W) (message : String)
    (f : A → Handler W)
    → ((a : A) (t : State W) → view (f a t).1.tables ≡ view t.tables)
    → view (or_500 x message f).1.tables ≡ view x.1.tables
or_500-kept view (ok a, s) message f h = h a s
or_500-kept view (err e, s) message f h = refl

or_422_state :
    {W A : Type 0} (r : A → Reply) (o : Outcome A) (s : State W)
    → (or_422 (λ a. answer (r a)) o s).1 ≡ s
or_422_state r (accepted a) s = refl
or_422_state r (invalid es) s = refl

module _ {W : Type 0} (E : Engine W) (laws : IsEngine E) where
  load_chat-eq-go :
      (param : String) (c : Chat) (s : State W)
      → (load_chat E param s).0 ≡ go c
      → IsLoaded param s.tables c
  unfolding load_chat
  load_chat-eq-go param c s h = in_table (parse_id param) refl h
    where
      in_table :
          (id : Option ℤ)
          → parse_id param ≡ id
          → (find_chat E id s).0 ≡ go c
          → IsLoaded param s.tables c
      in_table none parsed h = cc
      in_table (some id) parsed h =
          let made =
            loaded-eq-go "could not load chat" (first_or_none (chats E) (λ c. has_id id c.id) s) c
              h in
          let there = first_or_none-eq-ok (first (chats E) (λ c. has_id id c.id) s) c made in
          let row = laws.chats.first_some (λ c. has_id id c.id) s.world s.tables.chats c there in
          (id, parsed, row.passes, row.listed)

  load_chat-eq-stop :
      (param : String) (s : State W)
      → ((load_chat E param s).1.tables ≡ s.tables)
        × ((y : Reply) → (load_chat E param s).0 ≡ stop y → is_refusal y ≡ true)
  unfolding load_chat
  load_chat-eq-stop param s = (ground arith, λ y h. ground arith)

  tables-list_messages : (i : ℕ) (s : State W) → (list_messages E i s).1.tables ≡ s.tables
  unfolding list_messages
  tables-list_messages i s = ground arith

  -- Loading the messages keeps the tables and the chat, and refuses if it fails.
  preloaded-cases :
      (c : Chat) (x : Result (List Message) × State W)
      → ((preloaded E c x).1.tables ≡ x.1.tables)
        × ((y : Reply) → (preloaded E c x).0 ≡ stop y → is_refusal y ≡ true)
        × ((a : Chat × List Message) → (preloaded E c x).0 ≡ go a → a.0 ≡ c)
  preloaded-cases c (ok ms, s) =
      (refl, λ y h. cc, λ a h. let same : (c, ms) ≡ a = cc in sym (ap (λ p. p.0) same))
  preloaded-cases c (err e, s) = (refl, λ y h. ground arith, λ a h. cc)

  with_messages-cases :
      (x : Checked Chat × State W)
      → ((y : Reply) → x.0 ≡ stop y → is_refusal y ≡ true)
      → ((with_messages E x).1.tables ≡ x.1.tables)
        × ((y : Reply) → (with_messages E x).0 ≡ stop y → is_refusal y ≡ true)
        × ((a : Chat × List Message) → (with_messages E x).0 ≡ go a → x.0 ≡ go a.0)
  with_messages-cases (stop y, s) refused =
      (refl, λ y' h. let same : y ≡ y' = cc in refused y' (ap stop same), λ a h. cc)
  with_messages-cases (go c, s) refused =
      let (kept, stops, goes) = preloaded-cases c (list_messages E c.id s) in
      (kept ∙ tables-list_messages c.id s, stops, λ a h. ap go (sym (goes a h)))

  module _ {A : Type 0} (user : Option User) (param : String) (load : Check W A)
      (chat_of : A → Chat) (f : User → A → Handler W) (s : State W)
      (within : (u : User) (a : A) (t : State W)
        → outside (chat_of a).id (f u a t).1.tables ≡ outside (chat_of a).id t.tables) where
    participant-cases :
        (x : Checked A × State W) (u : User)
        → user ≡ some u
        → x.1.tables ≡ s.tables
        → ((y : Reply) → x.0 ≡ stop y → is_refusal y ≡ true)
        → ((a : A) → x.0 ≡ go a → IsLoaded param s.tables (chat_of a))
        → IsGuarded user param s
            (proceed x (λ a. if is_participant (chat_of a) u.id then f u a else answer forbidden))
    participant-cases (stop y, s') u signed kept refused listed = inl (refused y refl, kept)
    participant-cases (go a, s') u signed kept refused listed =
        elim (Bool-cases (is_participant (chat_of a) u.id)) [
          | inl e ↦
              let (id, parsed, requested, there) = listed a refl in
              rw e (
                inr (record {
                  chat = chat_of a;
                  reader = u;
                  signed_in = signed;
                  id = id;
                  parsed = parsed;
                  requested = requested;
                  listed = there;
                  takes_part = participant_side (chat_of a) u.id e;
                  within = within u a s' ∙ ap (outside (chat_of a).id) kept;
                }))
          | inr e ↦ inl (rw e (refl, kept))
        ]

    for_participant-IsGuarded :
        (load s).1.tables ≡ s.tables
        → ((y : Reply) → (load s).0 ≡ stop y → is_refusal y ≡ true)
        → ((a : A) → (load s).0 ≡ go a → IsLoaded param s.tables (chat_of a))
        → IsGuarded user param s (for_participant E user load chat_of f s)
    for_participant-IsGuarded kept refused listed = by_user user refl
      where
        by_user :
            (v : Option User)
            → user ≡ v
            → IsGuarded user param s (for_participant E v load chat_of f s)
        by_user none signed = inl (refl, refl)
        by_user (some u) signed = participant-cases (load s) u signed kept refused listed

  row-IsGuarded :
      (r : Request String) (f : User → Chat → Handler W) (s : State W)
      → ((u : User) (c : Chat) (t : State W)
          → outside c.id (f u c t).1.tables ≡ outside c.id t.tables)
      → IsGuarded r.user r.id s (for_participant E r.user (load_chat E r.id) (λ c. c) f s)
  row-IsGuarded r f s within =
      let (kept, refused) = load_chat-eq-stop r.id s in
      for_participant-IsGuarded r.user r.id (load_chat E r.id) (λ c. c) f s within kept refused
        (λ c h. load_chat-eq-go r.id c s h)

  chats_show-IsGuarded :
      (r : Request String) (s : State W) → IsGuarded r.user r.id s (chats_show E r s)
  unfolding chats_show load_chat_messages
  chats_show-IsGuarded r s =
      let (kept, refused) = load_chat-eq-stop r.id s in
      let (kept', stops, goes) = with_messages-cases (load_chat E r.id s) refused in
      for_participant-IsGuarded r.user r.id (load_chat_messages E r.id) (λ a. a.0) _ s
        (λ u a t. refl) (kept' ∙ kept) stops (λ a h. load_chat-eq-go r.id a.0 s (goes a h))

  send_within :
      (body : Option String) (u : User) (c : Chat) (t : State W)
      → outside c.id
          (with_body body
            (λ content.
              run
                (create_message E c.id u.id content)
                "could not create message"
                (or_422 (λ m. answer (reply 201 (message_body m)))))
            t).1.tables
        ≡ outside c.id t.tables
  send_within none u c t = refl
  send_within (some content) u c t =
      or_500-kept (outside c.id) (create_message E c.id u.id content t) _ _ (λ o t'.
        ap (λ x. outside c.id x.tables) (or_422_state (λ m. reply 201 (message_body m)) o t'))
      ∙ outside-create_message E laws c.id u.id content t

  list_within :
      (u : User) (c : Chat) (t : State W)
      → outside c.id
          (run
            (mark_read E c u.id)
            "could not update messages"
            (λ _.
              run
                (list_messages E c.id)
                "could not load messages"
                (λ ms. answer (reply 200 (messages_body ms))))
            t).1.tables
        ≡ outside c.id t.tables
  list_within u c t =
      or_500-kept (outside c.id) (mark_read E c u.id t) _ _ (λ _ t'.
        or_500-kept (outside c.id) (list_messages E c.id t') _ _ (λ ms t''. refl)
        ∙ ap (outside c.id) (tables-list_messages c.id t'))
      ∙ outside-mark_read E laws c u.id t

  -- A request to show a chat, to send a message in it or to list its messages is refused and changes
  -- nothing, unless it names a chat of the table in which its user takes part; then it changes no
  -- row but that chat's and its messages'.
  pub chats-IsGuarded :
      (r : Request String) (s : State W)
      → IsGuarded r.user r.id s (chats_show E r s)
        × IsGuarded r.user r.id s (messages_create E r s)
        × IsGuarded r.user r.id s (messages_index E r s)
  unfolding messages_create messages_index
  chats-IsGuarded r s = (
    chats_show-IsGuarded r s,
    row-IsGuarded r _ s (send_within r.body),
    row-IsGuarded r _ s list_within,
  )
