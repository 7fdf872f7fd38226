-- ===== src/Httpapi/Passwords/Laws.antt =====
-- httpapi/password_reset.go: what a request for a reset does.
pub mod Reset
pub mod Once
use trekr_go.Prelude.{
  subst, ℕ, String, Bool, true, false, Option, none, some, List, [], ◌∷◌, ◌≡◌, refl, sym, ap, ◌∙◌,
  ◌⊎◌, inl, inr, Bool-cases, ◌==◌, nat_instance, string_instance, replace,
}
use trekr_go.GoText.{trim_space}
use trekr_go.Models.{User, user_model}
use trekr_go.Sql.{DbError, record_not_found, failed, Result, ok, err, IsFirst}
use trekr_go.Store.{
  Tables, Engine, IsEngine, State, first, first_or_none, or_missing, update, users,
}
use trekr_go.Store.Laws.{update-eq-ok}
use trekr_go.Store.Errors.{Result-cases, update-eq-err}
use trekr_go.Auth.{
  Secrets, IsSecrets, hash_password, verify_password, generate_reset_token, reset_token_digest,
}
use trekr_go.Httpapi.{Reply, reply, Handler, answer, message_text, fail_body, Request}
use trekr_go.Httpapi.Bookings.Laws.{first_or_none-eq-ok}
use trekr_go.Httpapi.Chats.Laws.{is_refusal}
use trekr_go.Httpapi.Accounts.{or_reply, with_world, normalize_email, unless_errors}
use trekr_go.Httpapi.Accounts.Session.{request}
use trekr_go.Httpapi.Passwords.{
  UpdateRequest, reset_instructions_message, validate_new_password, is_expired, with_token,
  with_password, not_processed, or_not_processed, instructed, store_digest, digest_and_store,
  issue_reset_token, instruct, create_password_reset, store_password, set_password, reset_for,
  has_digest, reset_by, update_password_reset,
}

-- The rows of one key with a change.
abbrev pub changed : ℕ → ℕ → (User → User) → Tables → Tables
changed id now f t = record t {
  users = replace (λ u. u.id == id) (λ u. user_model.touch now (f u)) t.users;
}

module _ {W : Type 0} where
  or_missing_state : {A : Type 0} (x : Result A × State W) → (or_missing x).1 ≡ x.1
  or_missing_state (ok b, s) = refl
  or_missing_state (err record_not_found, s) = refl
  or_missing_state (err (failed m), s) = refl

  pub or_not_processed-ok :
      {A : Type 0} (x : Result A × State W) (f : A → Handler W) (a : A)
      → x.0 ≡ ok a
      → or_not_processed x f ≡ f a x.1
  or_not_processed-ok (ok b, s) f a h = let e : b ≡ a = cc in ap (λ a. f a s) e
  or_not_processed-ok (err e, s) f a h = cc

  or_not_processed-err :
      {A : Type 0} (x : Result A × State W) (f : A → Handler W) (e : DbError)
      → x.0 ≡ err e
      → or_not_processed x f ≡ not_processed x.1
  or_not_processed-err (ok b, s) f a h = cc
  or_not_processed-err (err e, s) f a h = refl

module _ {W : Type 0} (E : Engine W) (laws : IsEngine E) where
  -- The end of a request: it changes the rows of a key and replies, or fails and changes nothing.
  pub update_user-cases :
      (id : ℕ) (f : User → User) (r : Reply) (s : State W)
      → let x = or_not_processed (update (users E) (λ u. u.id == id) f s) (λ _. answer r) in
        ((e : DbError) × ((update (users E) (λ u. u.id == id) f s).0 ≡ err e)
          × (x.0 ≡ reply 500 (fail_body "Could not process request"))
          × (x.1.tables ≡ s.tables))
        ⊎ ((x.0 ≡ r) × ((now : ℕ) × (x.1.tables ≡ changed id now f s.tables)))
  update_user-cases id f r s =
      let x = update (users E) (λ u. u.id == id) f s in
      elim (Result-cases x.0) [
        | inl (u, made) ↦
            let e = or_not_processed-ok x (λ _. answer r) u made in
            inr (
              ap (λ y. y.0) e,
              (
                E.clock s.world,
                ap (λ y. y.1.tables) e
                    ∙ update-eq-ok user_model E.clock (users E) laws.users (λ u. u.id == id) f s u
                        made,
              ),
            )
        | inr (e, missed) ↦
            let e' = or_not_processed-err x (λ _. answer r) e missed in
            inl (
              e,
              missed,
              ap (λ y. y.0) e',
              ap (λ y. y.1.tables) e' ∙ update-eq-err (users E) (λ u. u.id == id) f s e missed,
            )
      ]

abbrev pub told_instructions : Reply
told_instructions =
    reply 200 (message_text "If that email is registered you will receive a reset link shortly.")

abbrev pub told_failure : Reply
told_failure = reply 500 (fail_body "Could not process request")

module _ {W : Type 0} (K : Secrets W) (E : Engine W) (secret : String) where
  -- Why a request of a known user fails: there was no randomness, no digest, or the row could not be
  -- written.
  abbrev pub IsStuck : User → State W → Type 0
  IsStuck user s =
      ((generate_reset_token K s.world).0 ≡ none)
      ⊎ ((raw : String) × ((generate_reset_token K s.world).0 ≡ some raw)
          × ((reset_token_digest K secret raw ≡ none)
              ⊎ ((f : User → User) × (e : DbError) × ((update (users E) (λ u. u.id == user.id) f
                      (record s { world = (generate_reset_token K s.world).1 })).0
                    ≡ err e))))

  -- The row of the user has the digest of the token that was generated, and the time at which it was
  -- sent, and no other row has changed.
  abbrev pub IsStored : User → State W → Tables → Type 0
  IsStored user s after =
      (raw : String) × (digest : String) × (now : ℕ) × ((generate_reset_token K s.world).0
        ≡ some raw)
      × (reset_token_digest K secret raw ≡ some digest)
      × (after
          ≡ changed user.id now
              (λ u. record u {
                reset_password_token = some digest;
                reset_password_sent_at = some (E.clock (generate_reset_token K s.world).1);
              })
              s.tables)

  -- The end of the request of a user whose row was found.
  abbrev pub IsIssued : User → State W → Reply × State W → Type 0
  IsIssued user s x =
      ((x.0 ≡ told_instructions) × IsStored user s x.1.tables)
      ⊎ ((x.0 ≡ told_failure) × (x.1.tables ≡ s.tables) × IsStuck user s)

  -- What the request does by what the query for the row of the email gives.
  abbrev pub IsHandled : String → Result (Option User) × State W → Reply × State W → Type 0
  IsHandled email q x =
      ((q.0 ≡ ok none) × (x.0 ≡ told_instructions) × (x.1.tables ≡ q.1.tables))
      ⊎ (((user : User) × (q.0 ≡ ok (some user))
            × IsFirst user_model (λ u. u.email == K.to_lower (trim_space email)) q.1.tables.users
                user
            × IsIssued user q.1 x)
          ⊎ ((e : DbError) × (q.0 ≡ err e) × (x.0 ≡ told_failure) × (x.1.tables ≡ q.1.tables)))

  module _ (laws : IsEngine E) where
    digest-IsIssued :
        (user : User) (raw : String) (digest : Option String) (s : State W)
        → (generate_reset_token K s.world).0 ≡ some raw
        → reset_token_digest K secret raw ≡ digest
        → IsIssued user s (
            or_reply
              (digest, record s { world = (generate_reset_token K s.world).1 })
              not_processed
              (store_digest K E secret user))
    digest-IsIssued user raw none s made digested = inr (refl, refl, inr (raw, made, inl digested))
    digest-IsIssued user raw (some digest) s made digested =
        let w = (generate_reset_token K s.world).1 in
        elim (update_user-cases E laws user.id (with_token digest (E.clock w)) told_instructions
          (record s { world = w })) [
            | inl (e, missed, refused, kept) ↦
                inr (refused, kept, inr (raw, made, inr (_, e, missed)))
            | inr (told, (now, left)) ↦ inl (told, (raw, digest, now, made, digested, left))
          ]

    token-IsIssued :
        (user : User) (x : Option String × W) (s : State W)
        → generate_reset_token K s.world ≡ x
        → IsIssued user s
            (or_reply (with_world x s) not_processed (digest_and_store K E secret user))
    token-IsIssued user (none, w) s made = inr (refl, refl, inl (ap (λ y. y.0) made))
    token-IsIssued user (some raw, w) s made =
        subst
          (λ v. IsIssued user s (
            or_reply (reset_token_digest K secret raw, record s { world = v }) not_processed
              (store_digest K E secret user)))
          (ap (λ y. y.1) made)
          (digest-IsIssued user raw (reset_token_digest K secret raw) s (ap (λ y. y.0) made) refl)

    found-IsHandled :
        (email : String) (q : Result (Option User) × State W)
        → ((u : User)
            → q.0 ≡ ok (some u)
            → IsFirst user_model (λ u. u.email == K.to_lower (trim_space email)) q.1.tables.users u)
        → IsHandled email q (or_not_processed q (instruct K E secret))
    unfolding issue_reset_token
    found-IsHandled email (ok (some u), s) found =
        inr (inl (u, refl, found u refl, token-IsIssued u (generate_reset_token K s.world) s refl))
    found-IsHandled email (ok none, s) found = inl (refl, refl, refl)
    found-IsHandled email (err e, s) found = inr (inr (e, refl, refl, refl))

    -- A request for a reset whose email is of no user is answered with the instructions message and
    -- changes nothing. When the email is of a user, the answer is the same message and the user's
    -- row alone has changed, with the digest of a token that was generated and the time; unless the
    -- token, its digest or the update failed. Only such a failure, or one of the query for the email,
    -- is answered with a 500, and it changes nothing.
    pub create_password_reset-IsHandled :
        (email : String) (s : State W)
        → IsHandled email
            (first_or_none (users E) (λ u. u.email == K.to_lower (trim_space email)) s)
            (create_password_reset K E secret (request email) s)
    unfolding create_password_reset normalize_email
    create_password_reset-IsHandled email s =
        let q = first (users E) (λ u. u.email == K.to_lower (trim_space email)) s in
        found-IsHandled email (or_missing q) (λ u made.
          subst
            (λ t.
              IsFirst user_model (λ u. u.email == K.to_lower (trim_space email)) t.tables.users u)
            (sym (or_missing_state q))
            (laws.users.first_some _ _ _ u (first_or_none-eq-ok q u made)))
