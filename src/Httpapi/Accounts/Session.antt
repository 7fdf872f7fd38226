-- ===== src/Httpapi/Accounts/Session.antt =====
-- httpapi/register.go, signin.go and middleware/auth.go: who is signed in.
use mathlib.Core.List.{Memᴰ}
use trekr_go.Prelude.{
  String, true, false, Option, none, some, List, [], ◌∷◌, ◌++◌, ◌≡◌, refl, ◌⊎◌, inl, inr,
  Bool-cases, subst, select, ◌==◌, string_instance, nat_instance, All-of_mem, mem-select, Bytes,
}
use trekr_go.Models.{User, user_model}
use trekr_go.Sql.{DbError, record_not_found, failed, Result, ok, err, IsFirst}
use trekr_go.Store.{Tables, Engine, IsEngine, State, first, users}
use trekr_go.Auth.{Secrets, IsSecrets, verify_password, issue_token}
use trekr_go.Auth.Laws.{bearer}
use trekr_go.Httpapi.{UserView, Reply, reply, session_body, answer, fail_body, user_view, Request}
use trekr_go.Httpapi.Accounts.{
  or_reply, fail_with, RegisterRequest, SignInRequest, normalize_email, sign_in, authenticate,
}
use trekr_go.Httpapi.Accounts.Laws.{IsRegistered}

-- A request with this body.
abbrev pub request : {B : Type 0} → B → Request B
request b = record { user = none; id = ""; other_id = ""; body = some b }

mem-snoc : {A : Type 0} {x : A} (xs : List A) (y : A) → Memᴰ x (xs ++ y ∷ []) → Memᴰ x xs ⊎ (x ≡ y)
mem-snoc [] y (Memᴰ.head e) = inr e
mem-snoc [] y (Memᴰ.tail m) = elim m [ ]
mem-snoc (z ∷ xs) y (Memᴰ.head e) = inl (Memᴰ.head e)
mem-snoc (z ∷ xs) y (Memᴰ.tail m) = elim (mem-snoc xs y m) [
  | inl old ↦ inl (Memᴰ.tail old)
  | inr new ↦ inr new
]

pub none_in_nil : {A : Type 0} {x : A} (xs : List A) → xs ≡ [] → Memᴰ x xs → ⊥
none_in_nil xs e (Memᴰ.head h) = cc
none_in_nil xs e (Memᴰ.tail m) = cc

-- The user of the handler's reply, when the token was signed.
opened :
    {W : Type 0} (x : Option Bytes × State W) (u : User) (header : Bytes) (v : UserView)
    → (or_reply x
        (fail_with 500 "Could not sign in")
        (λ token. answer (reply 200 (session_body (bearer token) (user_view u))))).0
      ≡ reply 200 (session_body header v)
    → (v ≡ user_view u) × ((token : Bytes) × (x.0 ≡ some token) × (header ≡ bearer token))
opened (none, s) u header v h = cc
opened (some token, s) u header v h = (cc, (token, refl, cc))

module _ {W : Type 0} (K : Secrets W) (keys : IsSecrets K) (E : Engine W) (secret : String) where
  authenticate-eq-failed :
      (q : SignInRequest) (x : Result User × State W) (e : DbError)
      → x.0 ≡ err e
      → (authenticate K E secret q x).0 ≡ reply 401 (fail_body "Invalid Email or password.")
  authenticate-eq-failed q (ok u, t) e h = cc
  authenticate-eq-failed q (err record_not_found, t) e h = refl
  authenticate-eq-failed q (err (failed message), t) e h =
      let wrong : verify_password K q.password "" ≡ false = keys.compare_empty q.password in
      rw wrong refl

  -- Whatever error the query of a sign-in has, the reply is that the credentials are wrong.
  pub sign_in-eq-failed :
      (q : SignInRequest) (s : State W) (e : DbError)
      → (first (users E) (λ u. u.email == normalize_email K q.email) s).0 ≡ err e
      → (sign_in K E secret (request q) s).0 ≡ reply 401 (fail_body "Invalid Email or password.")
  unfolding sign_in
  sign_in-eq-failed q s e h =
      authenticate-eq-failed q (first (users E) (λ u. u.email == normalize_email K q.email) s) e h

module _ {W : Type 0} (K : Secrets W) (keys : IsSecrets K) (E : Engine W) (laws : IsEngine E)
    (secret : String) where
  -- The sign-in succeeded for a row of the table that has the email and matches the password, with
  -- a token that was issued for the row.
  pub record IsSession (q : SignInRequest) (s : State W) (header : Bytes) (v : UserView)
      : Type 0 where
    pub user : User
    pub listed : Memᴰ user s.tables.users
    pub email : user.email ≡ normalize_email K q.email
    pub password : verify_password K q.password user.encrypted_password ≡ true
    pub view : v ≡ user_view user
    pub token : Bytes
    pub issued : State W
    pub signed : (issue_token K E secret user.id issued).0 ≡ some token
    pub header_eq : header ≡ bearer token

  authenticate-IsSession :
      (q : SignInRequest) (s : State W) (x : Result User × State W) (header : Bytes) (v : UserView)
      → ((u : User)
          → x.0 ≡ ok u
          → IsFirst user_model (λ u. u.email == normalize_email K q.email) s.tables.users u)
      → (authenticate K E secret q x).0 ≡ reply 200 (session_body header v)
      → IsSession q s header v
  authenticate-IsSession q s (ok u, t) header v found h =
      elim (Bool-cases (verify_password K q.password u.encrypted_password)) [
        | inl right ↦
            let (view, (token, signed, header_eq)) =
              opened (issue_token K E secret u.id t) u header v (rw right at h) in
            record {
              user = u;
              listed = (found u refl).listed;
              email = (string_instance.tells_same_iff _ _).0 (found u refl).passes;
              password = right;
              view = view;
              token = token;
              issued = t;
              signed = signed;
              header_eq = header_eq;
            }
        | inr wrong ↦ let h' = rw wrong at h in cc
      ]
  authenticate-IsSession q s (err record_not_found, t) header v found h = cc
  authenticate-IsSession q s (err (failed message), t) header v found h =
      elim (Bool-cases (verify_password K q.password "")) [
        | inl right ↦ let h' = rw right at h in cc
        | inr wrong ↦ let h' = rw wrong at h in cc
      ]

  -- Only the password of a row opens a session.
  pub sign_in-IsSession :
      (q : SignInRequest) (s : State W) (header : Bytes) (v : UserView)
      → (sign_in K E secret (request q) s).0 ≡ reply 200 (session_body header v)
      → IsSession q s header v
  unfolding sign_in
  sign_in-IsSession q s header v h =
      authenticate-IsSession q s (first (users E) (λ u. u.email == normalize_email K q.email) s)
        header v (λ u made. laws.users.first_some _ _ _ u made) h

  module _ (p : RegisterRequest) (before after : Tables) (r : Reply)
      (d : IsRegistered K p before after r) where
    pub registered_by_email :
        (u : User)
        → select (λ u. u.email == normalize_email K p.email) before.users ≡ []
        → IsFirst user_model (λ u. u.email == normalize_email K p.email) after.users u
        → u ≡ d.user
    registered_by_email u none_before found =
        elim (mem-snoc before.users d.user (subst (λ t. Memᴰ u t.users) d.added found.listed)) [
          | inl old ↦
              absurd (none_in_nil _ none_before (mem-select _ before.users found.passes old))
          | inr new ↦ new
        ]

    pub registered_by_id :
        (u : User) → IsFirst user_model (λ u. u.id == d.user.id) after.users u → u ≡ d.user
    registered_by_id u found =
        let same : u.id ≡ d.user.id = (nat_instance.tells_same_iff u.id d.user.id).0 found.passes in
        elim (mem-snoc before.users d.user (subst (λ t. Memᴰ u t.users) d.added found.listed)) [
          | inl old ↦ absurd (All-of_mem _ before.users d.fresh old same)
          | inr new ↦ new
        ]

    pub registered_password : verify_password K p.password d.user.encrypted_password ≡ true
    registered_password = d.password
