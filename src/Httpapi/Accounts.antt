-- ===== src/Httpapi/Accounts.antt =====
-- httpapi/register.go, signin.go and signout.go
pub mod Laws
pub mod Session
pub mod Returning
mod Tests
use trekr_go.Prelude.{
  ℕ, String, Bool, true, false, ◌&&◌, ◌||◌, not, Option, none, some, List, [], ◌∷◌, ◌++◌, ◌==◌,
  string_instance, Bytes, codes, ltb, if◌then◌else◌,
}
use trekr_go.GoText.{trim_space, contains, byte_length}
use trekr_go.Models.{User}
use trekr_go.Sql.{DbError, record_not_found, failed, Result, ok, err}
use trekr_go.Store.{Engine, State, first, create, users}
use trekr_go.Auth.{Secrets, hash_password, verify_password, issue_token}
use trekr_go.Auth.Laws.{bearer}
use trekr_go.Httpapi.{
  Body, fail_body, validation_errors, user_body, session_body, no_body, user_view, Reply, reply,
  Handler, Request, answer, with_body,
}

-- `registerRequest`
pub record RegisterRequest : Type 0 where
  pub email : String
  pub password : String
  pub password_confirmation : String
  pub name : String

-- `signInRequest`
pub record SignInRequest : Type 0 where
  pub email : String
  pub password : String

abbrev pub error_if : Bool → String → List String
error_if test message = if test then message ∷ [] else []

-- `validateRegisterRequest`
unfoldable pub validate_register_request : RegisterRequest → List String
validate_register_request p =
    error_if (trim_space p.email == "") "Email can't be blank"
    ++ error_if (trim_space p.name == "") "Name can't be blank"
    ++ error_if (p.password == "") "Password can't be blank"
    ++ error_if (p.password_confirmation == "") "Password confirmation can't be blank"
    ++ error_if (not (p.password == "") && ltb (byte_length p.password) 6)
        "Password is too short (minimum is 6 characters)"
    ++ error_if
        (not (p.password == "")
          && (not (p.password_confirmation == "") && not (p.password == p.password_confirmation)))
        "Password confirmation doesn't match Password"

abbrev pub error_text : DbError → String
error_text record_not_found = "record not found"
error_text (failed message) = message

-- `isDuplicateEmailError`
unfoldable pub is_duplicate_email_error : DbError → Bool
is_duplicate_email_error e =
    contains (codes "duplicate key") (codes (error_text e))
    || (contains (codes "unique constraint") (codes (error_text e))
        || contains (codes "idx_users_on_email") (codes (error_text e)))

-- The row that is inserted; the database fills in its key and its timestamps.
unfoldable pub new_user : String → String → String → User
new_user email name hash = record {
  id = 0;
  email = email;
  encrypted_password = hash;
  reset_password_token = none;
  reset_password_sent_at = none;
  remember_created_at = none;
  name = name;
  created_at = 0;
  updated_at = 0;
}

module _ {W : Type 0} where
  abbrev pub fail_with : ℕ → String → Handler W
  fail_with status message = answer (reply status (fail_body message))

  -- Messages are a 422.
  abbrev pub unless_errors : List String → Handler W → Handler W
  unless_errors [] next = next
  unless_errors (e ∷ es) next = answer (reply 422 (validation_errors (e ∷ es)))

  -- A step of the libraries that fails is a reply of its own.
  abbrev pub or_reply :
      {A : Type 0} → Option A × State W → Handler W → (A → Handler W) → Reply × State W
  or_reply (some a, s) r f = f a s
  or_reply (none, s) r f = r s

  abbrev pub with_world : {A : Type 0} → A × W → State W → A × State W
  with_world (a, w) s = (a, record s { world = w })

  abbrev created_user : Result User × State W → Reply × State W
  created_user (ok u, s) = (reply 201 (user_body (user_view u)), s)
  created_user (err e, s) =
      if is_duplicate_email_error e
      then answer (reply 422 (validation_errors ("Email has already been taken" ∷ []))) s
      else fail_with 500 "Could not create user" s

  -- `signOut`
  unfoldable pub sign_out : Handler W
  sign_out = answer (reply 204 no_body)

  -- `writeInvalidCredentials`
  abbrev pub write_invalid_credentials : Handler W
  write_invalid_credentials = fail_with 401 "Invalid Email or password."

module _ {W : Type 0} (K : Secrets W) where
  -- `normalizeEmail`
  unfoldable pub normalize_email : String → String
  normalize_email email = K.to_lower (trim_space email)

module _ {W : Type 0} (K : Secrets W) (E : Engine W) where
  abbrev pub insert_user : RegisterRequest → String → Handler W
  insert_user p hash s =
      created_user
        (create (users E) (new_user (normalize_email K p.email) (trim_space p.name) hash) s)

  abbrev pub hash_and_insert : RegisterRequest → Handler W
  hash_and_insert p s =
      or_reply (with_world (hash_password K p.password s.world) s)
        (fail_with 500 "Could not create user") (insert_user p)

  -- `registerUser`
  unfoldable pub register_user : Request RegisterRequest → Handler W
  register_user r =
      with_body r.body (λ p. unless_errors (validate_register_request p) (hash_and_insert p))

  module _ (secret : String) where
    abbrev pub start_session : User → Handler W
    start_session u s =
        or_reply (issue_token K E secret u.id s) (fail_with 500 "Could not sign in")
          (λ token. answer (reply 200 (session_body (bearer token) (user_view u))))

    -- What the query leads to. After an error the row has only zero fields, so the password is
    -- compared with an empty hash.
    abbrev pub authenticate : SignInRequest → Result User × State W → Reply × State W
    authenticate p (ok u, s) =
        if verify_password K p.password u.encrypted_password
        then start_session u s
        else write_invalid_credentials s
    authenticate p (err record_not_found, s) = write_invalid_credentials s
    authenticate p (err (failed message), s) =
        if verify_password K p.password ""
        then fail_with 500 "Could not sign in" s
        else write_invalid_credentials s

    -- `signIn`
    unfoldable pub sign_in : Request SignInRequest → Handler W
    sign_in r =
        with_body r.body
          (λ p s. authenticate p (first (users E) (λ u. u.email == normalize_email K p.email) s))
