-- ===== src/Httpapi/Passwords/Tests.antt =====
-- Runs of the password reset, and its theorems at concrete inputs.
use trekr_go.Prelude.{◌==◌, string_instance, ℕ, none, some, [], ◌∷◌, ◌≡◌, refl, ap, true}
use trekr_go.GoText.{trim_space, byte_length}
use trekr_go.GoText.{trim_space}
use trekr_go.Models.{User}
use trekr_go.Sql.{ok}
use trekr_go.Store.{State, first_or_none, users}
use trekr_go.Store.Memory.{memory_engine, memory_engine-IsEngine, empty_tables, state_at}
use trekr_go.Auth.{reset_token_digest, generate_reset_token}
use trekr_go.Auth.Memory.{memory_secrets, memory_secrets-IsSecrets}
use trekr_go.Httpapi.{reply, message_text, validation_errors}
use trekr_go.Httpapi.Chats.Laws.{is_refusal}
use trekr_go.Httpapi.Accounts.{normalize_email}
use trekr_go.Httpapi.Accounts.Session.{request}
use trekr_go.Httpapi.Passwords.{
  UpdateRequest, validate_new_password, is_expired, issue_reset_token, create_password_reset,
  has_digest, update_password_reset, reset_instructions_message,
}
use trekr_go.Httpapi.Passwords.Laws.{IsHandled, create_password_reset-IsHandled}
use trekr_go.Httpapi.Passwords.Laws.Reset.{
  IsResetOrRefused, asked_at, update_password_reset-IsReset,
}
use trekr_go.Httpapi.Passwords.Laws.Once.{update_password_reset_once}

abbrev ann : User
ann = record {
  id = 1;
  email = "a@b.c";
  encrypted_password = "hsecret";
  reset_password_token = none;
  reset_password_sent_at = none;
  remember_created_at = none;
  name = "Ann";
  created_at = 0;
  updated_at = 0;
}

abbrev waiting : State ℕ
waiting = state_at 9 (record empty_tables {
  users = (record ann { reset_password_token = some "d"; reset_password_sent_at = some 5 }) ∷ [];
})

abbrev wish : UpdateRequest
wish = record {
  reset_password_token = "r";
  password = "renewed";
  password_confirmation = "renewed";
}

steps : Unit {0}
unfolding trim_space byte_length reset_token_digest generate_reset_token normalize_email
    validate_new_password is_expired issue_reset_token create_password_reset update_password_reset
steps = tt

unknown_email :
    (create_password_reset memory_secrets memory_engine "s" (request "x@y.z") waiting).0
    ≡ reply 200 (message_text reset_instructions_message)
unfolding steps
unknown_email = refl

stored :
    (create_password_reset memory_secrets memory_engine "s"
      (request "a@b.c")
      (state_at 5 (record empty_tables { users = ann ∷ [] }))).1.tables.users
    ≡ (record ann {
      reset_password_token = some "d";
      reset_password_sent_at = some 6;
      updated_at = 6;
    })
      ∷ []
unfolding steps
stored = refl

create_password_reset-IsHandled_example :
    IsHandled memory_secrets memory_engine "s" "a@b.c"
      (first_or_none
        (users memory_engine)
        (λ u. u.email == memory_secrets.to_lower (trim_space "a@b.c"))
        waiting)
      (create_password_reset memory_secrets memory_engine "s" (request "a@b.c") waiting)
create_password_reset-IsHandled_example =
    create_password_reset-IsHandled memory_secrets memory_engine "s" memory_engine-IsEngine "a@b.c"
      waiting

update_password_reset-IsReset_example :
    IsResetOrRefused memory_secrets "s" wish
      (asked_at memory_engine waiting)
      waiting.tables
      (update_password_reset memory_secrets memory_engine "s" (request wish) waiting)
update_password_reset-IsReset_example =
    update_password_reset-IsReset memory_secrets memory_secrets-IsSecrets memory_engine
      memory_engine-IsEngine "s" wish waiting

abbrev done : State ℕ
done = (update_password_reset memory_secrets memory_engine "s" (request wish) waiting).1

replied :
    (update_password_reset memory_secrets memory_engine "s" (request wish) waiting).0
    ≡ reply 200 (message_text "Password updated successfully.")
unfolding steps
replied = refl

too_late : is_expired (some 5) 21600000000006 ≡ true
unfolding steps
too_late = refl

digested : reset_token_digest memory_secrets "s" "r" ≡ some "d"
unfolding steps
digested = refl

gone :
    (first_or_none (users memory_engine) (λ u. has_digest "d" u.reset_password_token) done).0
    ≡ ok none
unfolding steps
gone = refl

update_password_reset_once_example :
    (update_password_reset memory_secrets memory_engine "s" (request wish) done).0
    ≡ reply 422 (validation_errors ("Reset password token is invalid" ∷ []))
update_password_reset_once_example =
    update_password_reset_once memory_secrets memory_secrets-IsSecrets memory_engine
      memory_engine-IsEngine "s" wish wish "d" 1 waiting done none digested (refl, tt)
      (ap is_refusal replied) refl refl gone
