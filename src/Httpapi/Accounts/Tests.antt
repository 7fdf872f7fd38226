-- ===== src/Httpapi/Accounts/Tests.antt =====
-- Runs of the registration and the sign-in, and their theorems at concrete inputs.
use trekr_go.Prelude.{ℕ, none, some, [], ◌∷◌, ◌≡◌, refl, arith, ◌==◌, string_instance, nat_instance}
use trekr_go.GoText.{itoa, put_digits, parse_int, read_digits, trim_space, trim_codes, byte_length}
use trekr_go.Models.{User, user_model}
use trekr_go.Sql.{failed, err, ok}
use trekr_go.Sql.Memory.{memory}
use trekr_go.Store.{Engine, State, first, users}
use trekr_go.Store.Memory.{memory_engine, memory_engine-IsEngine, empty_tables, state_at}
use trekr_go.Auth.{issue_token, resolve_user, bearer_token, parse_token}
use trekr_go.Auth.Laws.{bearer}
use trekr_go.Auth.Memory.{memory_secrets, memory_secrets-IsSecrets, one_token}
use trekr_go.Httpapi.{UserView, user_view, reply, user_body, session_body, fail_body}
use trekr_go.Httpapi.Accounts.{
  RegisterRequest, SignInRequest, validate_register_request, normalize_email, new_user,
  register_user, sign_in,
}
use trekr_go.Httpapi.Accounts.Laws.{IsDone, register_user-IsDone}
use trekr_go.Httpapi.Accounts.Session.{request, IsSession, sign_in-IsSession, sign_in-eq-failed}
use trekr_go.Httpapi.Accounts.Returning.{register_user-sign_in}

abbrev ann : RegisterRequest
ann = record {
  email = " a@b.c ";
  password = "secret";
  password_confirmation = "secret";
  name = "Ann";
}

abbrev ann_again : SignInRequest
ann_again = record { email = "a@b.c"; password = "secret" }

abbrev ann_view : UserView
ann_view = record { id = 1; email = "a@b.c"; name = "Ann" }

abbrev empty : State ℕ
empty = state_at 0 empty_tables

steps : Unit {0}
unfolding itoa put_digits parse_int read_digits trim_space trim_codes byte_length issue_token
    resolve_user bearer_token parse_token validate_register_request normalize_email new_user
    register_user sign_in
steps = tt

abbrev registered : State ℕ
registered = (register_user memory_secrets memory_engine (request ann) empty).1

abbrev ann_row : User
ann_row = record {
  id = 1;
  email = "a@b.c";
  encrypted_password = "hsecret";
  reset_password_token = none;
  reset_password_sent_at = none;
  remember_created_at = none;
  name = "Ann";
  created_at = 0;
  updated_at = 0;
}

accepted_request :
    (register_user memory_secrets memory_engine (request ann) empty).0
    ≡ reply 201 (user_body ann_view)
unfolding steps
accepted_request = refl

two_faults :
    validate_register_request (record ann { password = "short" })
    ≡ "Password is too short (minimum is 6 characters)"
      ∷ "Password confirmation doesn't match Password" ∷ []
unfolding steps
two_faults = refl

wrong_password :
    (sign_in memory_secrets memory_engine "s"
      (request (record ann_again { password = "other" }))
      registered).0
    ≡ reply 401 (fail_body "Invalid Email or password.")
unfolding steps
wrong_password = refl

register_user-IsDone_example :
    IsDone memory_secrets ann empty.tables
      (register_user memory_secrets memory_engine (request ann) empty)
register_user-IsDone_example =
    register_user-IsDone memory_secrets memory_secrets-IsSecrets memory_engine
      memory_engine-IsEngine none "" "" ann empty

signed_in :
    (sign_in memory_secrets memory_engine "s" (request ann_again) registered).0
    ≡ reply 200 (session_body (bearer one_token) ann_view)
unfolding steps
signed_in = refl

sign_in-IsSession_example :
    IsSession memory_secrets memory_secrets-IsSecrets memory_engine memory_engine-IsEngine "s"
      ann_again registered
      (bearer one_token)
      ann_view
sign_in-IsSession_example =
    sign_in-IsSession memory_secrets memory_secrets-IsSecrets memory_engine memory_engine-IsEngine
      "s" ann_again registered (bearer one_token) ann_view signed_in

abbrev no_connection : Engine ℕ
no_connection = record memory_engine {
  users = record (memory user_model) { first = λ p w t. (err (failed "no connection"), w) };
}

sign_in-eq-failed_example :
    (sign_in memory_secrets no_connection "s" (request ann_again) registered).0
    ≡ reply 401 (fail_body "Invalid Email or password.")
sign_in-eq-failed_example =
    sign_in-eq-failed memory_secrets memory_secrets-IsSecrets no_connection "s" ann_again registered
      (failed "no connection") refl

same_email :
    normalize_email memory_secrets ann_again.email ≡ normalize_email memory_secrets ann.email
unfolding steps
same_email = refl

found_by_email :
    (first
      (users memory_engine)
      (λ u. u.email == normalize_email memory_secrets ann_again.email)
      registered).0
    ≡ ok ann_row
unfolding steps
found_by_email = refl

signed :
    (issue_token memory_secrets memory_engine "s" 1
      (first
        (users memory_engine)
        (λ u. u.email == normalize_email memory_secrets ann_again.email)
        registered).1).0
    ≡ some one_token
unfolding steps
signed = refl

found_by_id : (first (users memory_engine) (λ u. u.id == 1) registered).0 ≡ ok ann_row
unfolding steps
found_by_id = refl

register_user-sign_in_example :
    ((sign_in memory_secrets memory_engine "s" (request ann_again) registered).0
      ≡ reply 200 (session_body (bearer one_token) ann_view))
    × ((resolve_user memory_secrets memory_engine "s" (bearer one_token) registered).0
        ≡ some ann_row)
    × (user_view ann_row ≡ ann_view)
register_user-sign_in_example =
    register_user-sign_in memory_secrets memory_secrets-IsSecrets memory_engine
      memory_engine-IsEngine "s" ann ann_view empty accepted_request refl (omega arith) ann_again
      registered ann_row one_token same_email refl refl found_by_email signed registered ann_row
      refl (omega arith) found_by_id
