-- ===== src/Httpapi/Passwords.antt =====
-- httpapi/password_reset.go
pub mod Laws
mod Tests
use trekr_go.Prelude.{
  ℕ, ◌+◌, ◌*◌, ◌-◌, String, Bool, true, false, ◌&&◌, ◌||◌, not, Option, none, some, List, [], ◌∷◌,
  ◌++◌, ◌==◌, string_instance, nat_instance, ltb, if◌then◌else◌,
}
use trekr_go.GoText.{byte_length}
use trekr_go.Models.{User}
use trekr_go.Sql.{DbError, record_not_found, failed, Result, ok, err}
use trekr_go.Store.{Engine, State, first, first_or_none, update, users}
use trekr_go.Auth.{Secrets, second, hash_password, generate_reset_token, reset_token_digest}
use trekr_go.Httpapi.{
  message_text, fail_body, validation_errors, Reply, reply, Handler, Request, answer, with_body,
}
use trekr_go.Httpapi.Accounts.{
  error_if, fail_with, unless_errors, or_reply, with_world, normalize_email,
}

-- `passwordResetUpdateRequest`; the request to create one is the email.
pub record UpdateRequest : Type 0 where
  pub reset_password_token : String
  pub password : String
  pub password_confirmation : String

-- `resetPasswordWithin`, in nanoseconds
abbrev pub reset_password_within : ℕ
reset_password_within = 6 * 3600 * second

abbrev pub reset_instructions_message : String
reset_instructions_message = "If that email is registered you will receive a reset link shortly."

-- `validateNewPassword`
unfoldable pub validate_new_password : String → String → List String
validate_new_password password confirmation =
    if password == ""
    then "Password can't be blank" ∷ []
    else error_if (ltb (byte_length password) 6) "Password is too short (minimum is 6 characters)"
      ++ error_if (not (password == confirmation)) "Password confirmation doesn't match Password"

-- `ResetPasswordSentAt == nil || time.Since(*ResetPasswordSentAt) > resetPasswordWithin`
unfoldable pub is_expired : Option ℕ → ℕ → Bool
is_expired none now = true
is_expired (some sent) now = ltb (sent + reset_password_within) now

-- The columns that a reset sets.
abbrev pub with_token : String → ℕ → User → User
with_token digest now u = record u {
  reset_password_token = some digest;
  reset_password_sent_at = some now;
}

abbrev pub with_password : String → User → User
with_password hash u = record u {
  encrypted_password = hash;
  reset_password_token = none;
  reset_password_sent_at = none;
}

-- `reset_password_token = ?`; null equals nothing.
abbrev pub has_digest : String → Option String → Bool
has_digest digest none = false
has_digest digest (some d) = d == digest

module _ {W : Type 0} where
  abbrev pub not_processed : Handler W
  not_processed = fail_with 500 "Could not process request"

  -- A statement that fails is a 500.
  abbrev pub or_not_processed :
      {A : Type 0} → Result A × State W → (A → Handler W) → Reply × State W
  or_not_processed (ok a, s) f = f a s
  or_not_processed (err e, s) f = not_processed s

  abbrev pub errors : List String → Handler W
  errors es = answer (reply 422 (validation_errors es))

  abbrev pub instructed : Handler W
  instructed = answer (reply 200 (message_text reset_instructions_message))

module _ {W : Type 0} (K : Secrets W) (E : Engine W) (secret : String) where
  abbrev pub store_digest : User → String → Handler W
  store_digest user digest s =
      or_not_processed
        (update (users E) (λ u. u.id == user.id) (with_token digest (E.clock s.world)) s)
        (λ _. instructed)

  abbrev pub digest_and_store : User → String → Handler W
  digest_and_store user raw s =
      or_reply (reset_token_digest K secret raw, s) not_processed (store_digest user)

  -- `issueResetToken` and the reply that follows it
  unfoldable pub issue_reset_token : User → Handler W
  issue_reset_token user s =
      or_reply (with_world (generate_reset_token K s.world) s) not_processed (digest_and_store user)

  abbrev pub instruct : Option User → Handler W
  instruct none = instructed
  instruct (some user) = issue_reset_token user

  -- `createPasswordReset`
  unfoldable pub create_password_reset : Request String → Handler W
  create_password_reset r = with_body r.body (λ email s.
      or_not_processed (first_or_none (users E) (λ u. u.email == normalize_email K email) s)
        instruct)

  abbrev pub store_password : User → String → Handler W
  store_password user hash s =
      or_not_processed (update (users E) (λ u. u.id == user.id) (with_password hash) s)
        (λ _. answer (reply 200 (message_text "Password updated successfully.")))

  abbrev pub set_password : User → UpdateRequest → Handler W
  set_password user p s =
      or_reply (with_world (hash_password K p.password s.world) s) not_processed
        (store_password user)

  abbrev pub reset_for : UpdateRequest → Option User → Handler W
  reset_for p none s = errors ("Reset password token is invalid" ∷ []) s
  reset_for p (some user) s =
      if is_expired user.reset_password_sent_at (E.clock s.world)
      then errors ("Reset password token has expired, please request a new one" ∷ []) s
      else unless_errors (validate_new_password p.password p.password_confirmation)
          (set_password user p) s

  abbrev pub reset_by : UpdateRequest → String → Handler W
  reset_by p digest s =
      or_not_processed (first_or_none (users E) (λ u. has_digest digest u.reset_password_token) s)
        (reset_for p)

  -- `updatePasswordReset`
  unfoldable pub update_password_reset : Request UpdateRequest → Handler W
  update_password_reset r = with_body r.body (λ p s.
      or_reply (reset_token_digest K secret p.reset_password_token, s) not_processed (reset_by p))
