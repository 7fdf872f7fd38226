-- ===== src/Httpapi/Accounts/Laws.antt =====
-- httpapi/register.go: what a registration does.
use trekr_go.Prelude.{
  append-eq-nil, Bool, false, ltb, ◌==◌, string_instance, ℕ, String, true, Option, none, some, List,
  [], ◌∷◌, ◌++◌, ◌≡◌, refl, ap, ◌∙◌, ◌⊎◌, inl, inr, Bool-cases,
}
use trekr_go.GoText.{trim_space, byte_length}
use trekr_go.Models.{User, user_model}
use trekr_go.Sql.{IsFresh, DbError, Result, ok, err}
use trekr_go.Store.{Tables, Engine, IsEngine, State, create, users}
use trekr_go.Store.Laws.{create-eq-ok}
use trekr_go.Store.Errors.{Result-cases, create-eq-err}
use trekr_go.Auth.{Secrets, IsSecrets, verify_password, hash_password}
use trekr_go.Httpapi.{Reply, reply, user_body, user_view}
use trekr_go.Httpapi.Chats.Laws.{is_refusal}
use trekr_go.Httpapi.Accounts.{
  error_if, RegisterRequest, validate_register_request, normalize_email, new_user, created_user,
  insert_user, hash_and_insert, register_user, is_duplicate_email_error, fail_with, unless_errors,
  or_reply, with_world,
}

-- The request was valid, and the row that it made was added to the users and to nothing else. The
-- row has the email of the request, normalized, its name without the spaces around it, no reset of
-- a password under way, and a hash that the password of the request matches.
pub record IsRegistered {W : Type 0} (K : Secrets W) (p : RegisterRequest) (before after : Tables)
    (r : Reply) : Type 0 where
  pub user : User
  pub now : ℕ
  pub email_given : (trim_space p.email == "") ≡ false
  pub name_given : (trim_space p.name == "") ≡ false
  pub long : ltb (byte_length p.password) 6 ≡ false
  pub confirmed : p.password ≡ p.password_confirmation
  pub row : user ≡ record {
    id = user.id;
    email = K.to_lower (trim_space p.email);
    encrypted_password = user.encrypted_password;
    reset_password_token = none;
    reset_password_sent_at = none;
    remember_created_at = none;
    name = trim_space p.name;
    created_at = now;
    updated_at = now;
  }
  pub fresh : IsFresh user_model user.id before.users
  pub password : verify_password K p.password user.encrypted_password ≡ true
  pub added : after ≡ record before { users = before.users ++ user ∷ [] }
  pub told :
      r ≡ reply 201 (user_body (record { id = user.id; email = user.email; name = user.name }))

error_if-eq-nil : (t : Bool) (m : String) → error_if t m ≡ [] → t ≡ false
error_if-eq-nil true m h = cc
error_if-eq-nil false m h = refl

-- What a request without messages is.
valid_facts :
    (p : RegisterRequest)
    → validate_register_request p ≡ []
    → ((trim_space p.email == "") ≡ false)
      × ((trim_space p.name == "") ≡ false)
      × (ltb (byte_length p.password) 6 ≡ false)
      × (p.password ≡ p.password_confirmation)
unfolding validate_register_request
valid_facts p h =
    let (h₅, differs) = append-eq-nil _ _ h in
    let (h₄, short) = append-eq-nil _ _ h₅ in
    let (h₃, again) = append-eq-nil _ _ h₄ in
    let (h₂, given) = append-eq-nil _ _ h₃ in
    let (email, name) = append-eq-nil _ _ h₂ in
    let given' = error_if-eq-nil (p.password == "") _ given in
    let again' = error_if-eq-nil (p.password_confirmation == "") _ again in
    (
      error_if-eq-nil (trim_space p.email == "") _ email,
      error_if-eq-nil (trim_space p.name == "") _ name,
      error_if-eq-nil (ltb (byte_length p.password) 6) _ (rw given' at short),
      (string_instance.tells_same_iff p.password p.password_confirmation).0
          (elim (Bool-cases (p.password == p.password_confirmation)) [
            | inl same ↦ same
            | inr other ↦ let h' = rw given' at (rw again' at (rw other at differs)) in cc
          ]),
    )

-- A request is refused and changes no table, or registers a user.
abbrev pub IsDone : {W : Type 0} → Secrets W → RegisterRequest → Tables → Reply × State W → Type 0
IsDone K p before x =
    ((is_refusal x.0 ≡ true) × (x.1.tables ≡ before)) ⊎ IsRegistered K p before x.1.tables x.0

module _ {W : Type 0} (K : Secrets W) (keys : IsSecrets K) (E : Engine W) (laws : IsEngine E) where
  created_user-ok :
      (x : Result User × State W) (u : User)
      → x.0 ≡ ok u
      → created_user x ≡ (reply 201 (user_body (user_view u)), x.1)
  created_user-ok (ok v, s) u h = cc
  created_user-ok (err e, s) u h = cc

  created_user-err :
      (x : Result User × State W) (e : DbError)
      → x.0 ≡ err e
      → (is_refusal (created_user x).0 ≡ true) × ((created_user x).1 ≡ x.1)
  created_user-err (ok v, s) e h = cc
  created_user-err (err e', s) e h = elim (Bool-cases (is_duplicate_email_error e')) [
    | inl same ↦ rw same (refl, refl)
    | inr other ↦ rw other (refl, refl)
  ]

  filled_hash :
      (p : RegisterRequest) (hash : String) (id now : ℕ) (u : User)
      → u ≡ user_model.stamp id now (new_user (normalize_email K p.email) (trim_space p.name) hash)
      → u.encrypted_password ≡ hash
  unfolding new_user
  filled_hash p hash id now u h = ap (λ x. x.encrypted_password) h

  filled_row :
      (p : RegisterRequest) (hash : String) (id now : ℕ) (u : User)
      → u ≡ user_model.stamp id now (new_user (normalize_email K p.email) (trim_space p.name) hash)
      → user_model.stamp id now (new_user (normalize_email K p.email) (trim_space p.name) hash)
        ≡ record {
          id = id;
          email = K.to_lower (trim_space p.email);
          encrypted_password = u.encrypted_password;
          reset_password_token = none;
          reset_password_sent_at = none;
          remember_created_at = none;
          name = trim_space p.name;
          created_at = now;
          updated_at = now;
        }
  unfolding new_user normalize_email
  filled_row p hash id now u h = rw (ap (λ x. x.encrypted_password) h) refl

  insert_user-IsDone :
      (p : RegisterRequest) (hash : String) (s : State W)
      → validate_register_request p ≡ []
      → verify_password K p.password hash ≡ true
      → IsDone K p s.tables (insert_user K E p hash s)
  insert_user-IsDone p hash s valid password =
      let row = new_user (normalize_email K p.email) (trim_space p.name) hash in
      let x = create (users E) row s in
      elim (Result-cases x.0) [
        | inl (u, made) ↦
            let (rows, stamped, fresh) =
              create-eq-ok user_model E.clock (users E) laws.users row s u made in
            let (email, name, long, confirmed) = valid_facts p valid in
            rw (created_user-ok x u made) (
              inr (record {
                user = u;
                now = E.clock s.world;
                email_given = email;
                name_given = name;
                long = long;
                confirmed = confirmed;
                row = stamped ∙ filled_row p hash u.id (E.clock s.world) u stamped;
                fresh = fresh;
                password = rw (filled_hash p hash u.id (E.clock s.world) u stamped) password;
                added = rows;
                told = refl;
              }))
        | inr (e, failed) ↦
            let (refused, kept) = created_user-err x e failed in
            inl (refused, ap (λ t. t.tables) kept ∙ create-eq-err (users E) row s e failed)
      ]

  or_reply-IsDone :
      (p : RegisterRequest) (s : State W) (x : Option String × W)
      → validate_register_request p ≡ []
      → hash_password K p.password s.world ≡ x
      → IsDone K p s.tables
          (or_reply (with_world x s) (fail_with 500 "Could not create user") (insert_user K E p))
  or_reply-IsDone p s (none, w) valid h = inl (refl, refl)
  or_reply-IsDone p s (some hash, w) valid h =
      insert_user-IsDone p hash (record s { world = w }) valid
        (keys.compare_hash 12 p.password hash s.world (ap (λ x. x.0) h))

  unless_errors-IsDone :
      (p : RegisterRequest) (s : State W) (errs : List String)
      → validate_register_request p ≡ errs
      → IsDone K p s.tables (unless_errors errs (hash_and_insert K E p) s)
  unless_errors-IsDone p s [] valid =
      or_reply-IsDone p s (hash_password K p.password s.world) valid refl
  unless_errors-IsDone p s (e ∷ es) valid = inl (refl, refl)

  -- A registration is refused and changes no table; or the request is valid, with an email, a name
  -- and a confirmed password of six bytes at least, and the user of it is added to the users, with
  -- the normalized email, the trimmed name and a hash that matches the password, and is replied.
  pub register_user-IsDone :
      (user : Option User) (id other : String) (p : RegisterRequest) (s : State W)
      → IsDone K p s.tables
          (register_user K E (record { user = user; id = id; other_id = other; body = some p }) s)
  unfolding register_user
  register_user-IsDone user id other p s =
      unless_errors-IsDone p s (validate_register_request p) refl
