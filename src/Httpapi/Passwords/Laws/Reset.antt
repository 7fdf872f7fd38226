-- ===== src/Httpapi/Passwords/Laws/Reset.antt =====
-- httpapi/password_reset.go: what a reset changes, and when.
use trekr_go.Prelude.{
  Bool, ltb, ◌+◌, ◌==◌, ℕ, String, true, false, Option, none, some, List, [], ◌∷◌, ◌≡◌, refl, ap,
  ◌⊎◌, inl, inr, Bool-cases, nat_instance, string_instance,
}
use trekr_go.GoText.{byte_length}
use trekr_go.Models.{User, user_model}
use trekr_go.Sql.{record_not_found, failed, Result, ok, err, IsFirst}
use trekr_go.Store.{Tables, Engine, IsEngine, State, first, or_missing, users}
use trekr_go.Auth.{Secrets, IsSecrets, hash_password, verify_password, reset_token_digest}
use trekr_go.Httpapi.{Reply, reply, message_text}
use trekr_go.Httpapi.Chats.Laws.{is_refusal}
use trekr_go.Httpapi.Accounts.{or_reply, with_world, unless_errors}
use trekr_go.Httpapi.Accounts.Session.{request}
use trekr_go.Httpapi.Passwords.{
  UpdateRequest, validate_new_password, is_expired, with_password, not_processed, or_not_processed,
  store_password, set_password, reset_for, has_digest, reset_by, update_password_reset,
}
use trekr_go.Httpapi.Passwords.Laws.{changed, update_user-cases}

-- The token belongs to a row, was sent at most six hours before the row was looked up, and the row,
-- the first one with the token, has got the new password and no token any more. The time of the
-- lookup by a digest is `asked`.
pub record IsReset {W : Type 0} (K : Secrets W) (secret : String) (p : UpdateRequest)
    (asked : String → ℕ) (before after : Tables) (r : Reply) : Type 0 where
  pub user : User
  pub digest : String
  pub hash : String
  pub sent_at : ℕ
  pub set_at : ℕ
  pub digested : reset_token_digest K secret p.reset_password_token ≡ some digest
  pub found : IsFirst user_model (λ u. has_digest digest u.reset_password_token) before.users user
  pub sent : user.reset_password_sent_at ≡ some sent_at
  pub in_time : ltb (sent_at + 21600000000000) (asked digest) ≡ false
  pub long : ltb (byte_length p.password) 6 ≡ false
  pub confirmed : p.password ≡ p.password_confirmation
  pub password : verify_password K p.password hash ≡ true
  pub left :
      after
      ≡ changed user.id set_at
          (λ u. record u {
            encrypted_password = hash;
            reset_password_token = none;
            reset_password_sent_at = none;
          })
          before
  pub told : r ≡ reply 200 (message_text "Password updated successfully.")

-- A request is refused and changes nothing, or resets a password.
abbrev pub IsResetOrRefused :
    {W : Type 0}
    → Secrets W
    → String
    → UpdateRequest
    → (String → ℕ)
    → Tables
    → Reply × State W
    → Type 0
IsResetOrRefused K secret p asked before x =
    ((is_refusal x.0 ≡ true) × (x.1.tables ≡ before))
    ⊎ IsReset K secret p asked before x.1.tables x.0

-- The time after the query for the row of a digest.
abbrev pub asked_at : {W : Type 0} → Engine W → State W → String → ℕ
asked_at E s digest =
    E.clock (first (users E) (λ u. has_digest digest u.reset_password_token) s).1.world

sent_in_time :
    (sent : Option ℕ) (now : ℕ)
    → is_expired sent now ≡ false
    → (t : ℕ) × (sent ≡ some t) × (ltb (t + 21600000000000) now ≡ false)
unfolding is_expired
sent_in_time none now h = cc
sent_in_time (some t) now h = (t, refl, h)

valid_password :
    (password confirmation : String) (a b : Bool)
    → (password == "") ≡ a
    → (password == confirmation) ≡ b
    → validate_new_password password confirmation ≡ []
    → (ltb (byte_length password) 6 ≡ false) × (password ≡ confirmation)
unfolding validate_new_password
valid_password password confirmation true b empty e h = let h' = rw empty at h in cc
valid_password password confirmation false false given e h =
    elim (Bool-cases (ltb (byte_length password) 6)) [
      | inl short ↦ let h' = rw given at (rw short at h) in cc
      | inr long ↦ let h' = rw given at (rw long at (rw e at h)) in cc
    ]
valid_password password confirmation false true given e h =
    elim (Bool-cases (ltb (byte_length password) 6)) [
      | inl short ↦ let h' = rw given at (rw short at h) in cc
      | inr long ↦ (long, (string_instance.tells_same_iff password confirmation).0 e)
    ]

module _ {W : Type 0} (K : Secrets W) (keys : IsSecrets K) (E : Engine W) (laws : IsEngine E)
    (secret : String) where
  module _ (p : UpdateRequest) (asked : String → ℕ) (digest : String)
      (digested : reset_token_digest K secret p.reset_password_token ≡ some digest) where
    hash-IsReset :
        (user : User) (x : Option String × W) (s : State W)
        → IsFirst user_model (λ u. has_digest digest u.reset_password_token) s.tables.users user
        → is_expired user.reset_password_sent_at (asked digest) ≡ false
        → validate_new_password p.password p.password_confirmation ≡ []
        → hash_password K p.password s.world ≡ x
        → IsResetOrRefused K secret p asked s.tables
            (or_reply (with_world x s) not_processed (store_password K E secret user))
    hash-IsReset user (none, w) s found in_time valid made = inl (refl, refl)
    hash-IsReset user (some hash, w) s found in_time valid made =
        elim (update_user-cases E laws user.id (with_password hash)
          (reply 200 (message_text "Password updated successfully.")) (record s { world = w })) [
            | inl (e, _, refused, kept) ↦ inl (ap is_refusal refused, kept)
            | inr (told, (now, left)) ↦
                let (sent_at, sent, early) =
                  sent_in_time user.reset_password_sent_at (asked digest) in_time in
                let (long, confirmed) =
                  valid_password p.password p.password_confirmation _ _ refl refl valid in
                inr (record {
                  user = user;
                  digest = digest;
                  hash = hash;
                  sent_at = sent_at;
                  set_at = now;
                  digested = digested;
                  found = found;
                  sent = sent;
                  in_time = early;
                  long = long;
                  confirmed = confirmed;
                  password = keys.compare_hash 12 p.password hash s.world (ap (λ x. x.0) made);
                  left = left;
                  told = told;
                })
          ]

    valid-IsReset :
        (user : User) (errs : List String) (s : State W)
        → IsFirst user_model (λ u. has_digest digest u.reset_password_token) s.tables.users user
        → is_expired user.reset_password_sent_at (asked digest) ≡ false
        → validate_new_password p.password p.password_confirmation ≡ errs
        → IsResetOrRefused K secret p asked s.tables
            (unless_errors errs (set_password K E secret user p) s)
    valid-IsReset user [] s found in_time valid =
        hash-IsReset user (hash_password K p.password s.world) s found in_time valid refl
    valid-IsReset user (e ∷ es) s found in_time valid = inl (refl, refl)

    found-IsReset :
        (x : Result User × State W)
        → ((u : User)
            → x.0 ≡ ok u
            → IsFirst user_model (λ u. has_digest digest u.reset_password_token) x.1.tables.users u)
        → E.clock x.1.world ≡ asked digest
        → IsResetOrRefused K secret p asked x.1.tables
            (or_not_processed (or_missing x) (reset_for K E secret p))
    found-IsReset (ok u, s) found time =
        elim (Bool-cases (is_expired u.reset_password_sent_at (E.clock s.world))) [
          | inl late ↦ rw late (inl (refl, refl))
          | inr in_time ↦ rw in_time (
              valid-IsReset u (validate_new_password p.password p.password_confirmation) s
                (found u refl) (rw time at in_time) refl)
        ]
    found-IsReset (err record_not_found, s) found time = inl (refl, refl)
    found-IsReset (err (failed m), s) found time = inl (refl, refl)

  digest-IsReset :
      (p : UpdateRequest) (x : Option String) (s : State W)
      → reset_token_digest K secret p.reset_password_token ≡ x
      → IsResetOrRefused K secret p
          (asked_at E s)
          s.tables
          (or_reply (x, s) not_processed (reset_by K E secret p))
  digest-IsReset p none s digested = inl (refl, refl)
  digest-IsReset p (some digest) s digested =
      found-IsReset p (asked_at E s) digest digested
        (first (users E) (λ u. has_digest digest u.reset_password_token) s)
        (λ u made. laws.users.first_some _ _ _ u made) refl

  -- A reset is refused and changes no table; or the digest of the request's token is that of a row,
  -- which was sent it at most six hours before the row was found, the new password is confirmed and
  -- has six bytes at least, and only that row changes: it gets a hash that matches the password, and
  -- its token is cleared.
  pub update_password_reset-IsReset :
      (p : UpdateRequest) (s : State W)
      → IsResetOrRefused K secret p
          (asked_at E s)
          s.tables
          (update_password_reset K E secret (request p) s)
  unfolding update_password_reset
  update_password_reset-IsReset p s =
      digest-IsReset p (reset_token_digest K secret p.reset_password_token) s refl
