-- ===== src/Httpapi/Passwords/Laws/Once.antt =====
-- httpapi/password_reset.go: the token of a reset is used up.
use trekr_go.Prelude.{
  ℕ, String, Bool, true, false, not, ◌||◌, Option, none, some, List, [], ◌∷◌, ◌≡◌, refl, sym, ap,
  ◌∙◌, inl, inr, Bool-cases, ◌==◌, nat_instance, string_instance, replace, select, All, subst,
  All-of_mem, mem-select,
}
use trekr_go.Models.{User, user_model}
use trekr_go.Sql.{ok}
use trekr_go.Store.{Tables, Engine, IsEngine, State, first_or_none, users}
use trekr_go.Auth.{Secrets, IsSecrets, reset_token_digest}
use trekr_go.Httpapi.{Reply, reply, validation_errors}
use trekr_go.Httpapi.Chats.Laws.{is_refusal}
use trekr_go.Httpapi.Accounts.Session.{request, none_in_nil}
use trekr_go.Httpapi.Passwords.{
  UpdateRequest, with_password, has_digest, reset_by, update_password_reset,
}
use trekr_go.Httpapi.Passwords.Laws.{changed, or_not_processed-ok}
use trekr_go.Httpapi.Bookings.Laws.{first_or_none-eq-ok}
use trekr_go.Httpapi.Passwords.Laws.Reset.{
  IsResetOrRefused, asked_at, update_password_reset-IsReset,
}

-- A token of one user only: every row that has it has this id.
abbrev pub is_only : String → ℕ → User → Bool
is_only digest id u = not (has_digest digest u.reset_password_token) || u.id == id

first_false : (a b : Bool) → (not a || b) ≡ true → b ≡ false → a ≡ false
first_false true b h k = sym h ∙ k
first_false false b h k = refl

second_true : (a b : Bool) → (not a || b) ≡ true → a ≡ true → b ≡ true
second_true true b h k = h
second_true false b h k = cc

used_up :
    (digest hash : String) (id now : ℕ) (t : List User)
    → All (λ u. is_only digest id u ≡ true) t
    → select
        (λ u. has_digest digest u.reset_password_token)
        (replace (λ u. u.id == id) (λ u. user_model.touch now (with_password hash u)) t)
      ≡ []
used_up digest hash id now [] h = refl
used_up digest hash id now (u ∷ t) h =
    let rest = used_up digest hash id now t h.1 in
    elim (Bool-cases (u.id == id)) [
      | inl own ↦ rw own rest
      | inr other ↦
          let e : has_digest digest u.reset_password_token ≡ false = first_false _ _ h.0 other in
          rw other (rw e rest)
    ]

module _ {W : Type 0} (K : Secrets W) (keys : IsSecrets K) (E : Engine W) (laws : IsEngine E)
    (secret : String) where
  after_reset :
      (p : UpdateRequest) (digest : String) (id : ℕ) (asked : String → ℕ) (before : Tables)
      (x : Reply × State W)
      → reset_token_digest K secret p.reset_password_token ≡ some digest
      → All (λ u. is_only digest id u ≡ true) before.users
      → IsResetOrRefused K secret p asked before x
      → is_refusal x.0 ≡ false
      → select (λ u. has_digest digest u.reset_password_token) x.1.tables.users ≡ []
  after_reset p digest id asked before x digested only (inl (refused, kept)) done =
      let no : true ≡ false = sym refused ∙ done in cc
  after_reset p digest id asked before x digested only (inr d) done =
      let told : some d.digest ≡ some digest = sym d.digested ∙ digested in
      let same : d.digest ≡ digest = cc in
      let has : has_digest digest d.user.reset_password_token ≡ true =
        subst (λ e. has_digest e d.user.reset_password_token ≡ true) same d.found.passes in
      let key : d.user.id ≡ id =
        (nat_instance.tells_same_iff d.user.id id).0
          (second_true _ _ (All-of_mem _ before.users only d.found.listed) has) in
      let rows : x.1.tables.users ≡ (changed id d.set_at (with_password d.hash) before).users =
        rw key at (ap (λ t. t.users) d.left) in
      rw rows (used_up digest d.hash id d.set_at before.users only)

  reset_none :
      (q : UpdateRequest) (digest : String) (t : State W) (x : Option User)
      → select (λ u. has_digest digest u.reset_password_token) t.tables.users ≡ []
      → (first_or_none (users E) (λ u. has_digest digest u.reset_password_token) t).0 ≡ ok x
      → (reset_by K E secret q digest t).0
        ≡ reply 422 (validation_errors ("Reset password token is invalid" ∷ []))
  reset_none q digest t none used found = ap (λ y. y.0) (or_not_processed-ok _ _ none found)
  reset_none q digest t (some u) used found =
      let d = laws.users.first_some _ _ _ u (first_or_none-eq-ok _ u found) in
      absurd (none_in_nil _ used (mem-select _ t.tables.users d.passes d.listed))

  -- A token that reset a password resets no other: it is invalid from then on.
  pub update_password_reset_once :
      (p q : UpdateRequest) (digest : String) (id : ℕ) (s t : State W) (x : Option User)
      → reset_token_digest K secret p.reset_password_token ≡ some digest
      → All (λ u. is_only digest id u ≡ true) s.tables.users
      → is_refusal (update_password_reset K E secret (request p) s).0 ≡ false
      → q.reset_password_token ≡ p.reset_password_token
      → t.tables.users ≡ (update_password_reset K E secret (request p) s).1.tables.users
      → (first_or_none (users E) (λ u. has_digest digest u.reset_password_token) t).0 ≡ ok x
      → (update_password_reset K E secret (request q) t).0
        ≡ reply 422 (validation_errors ("Reset password token is invalid" ∷ []))
  unfolding update_password_reset
  update_password_reset_once p q digest id s t x digested only done token kept found =
      let used =
        after_reset p digest id (asked_at E s) s.tables
          (update_password_reset K E secret (request p) s) digested only
          (update_password_reset-IsReset K keys E laws secret p s) done in
      rw token (rw digested (reset_none q digest t x (rw kept used) found))
