-- ===== src/Httpapi/Accounts/Returning.antt =====
-- httpapi/register.go, signin.go and middleware/auth.go: a user who registers can sign in and is
-- then recognised.
use trekr_go.Prelude.{
  ◌+◌, ◌≤◌, String, true, none, some, [], ◌≡◌, refl, sym, ap, ◌∙◌, inl, inr, select, ◌==◌,
  string_instance, nat_instance, Bytes,
}
use trekr_go.GoText.{max_int64}
use trekr_go.Models.{User, user_model}
use trekr_go.Sql.{Result, ok, err, IsFirst}
use trekr_go.Store.{Tables, Engine, IsEngine, State, first, users}
use trekr_go.Auth.{
  Secrets, IsSecrets, verify_password, issue_token, resolve_user, second, jwt_expiry,
}
use trekr_go.Auth.Laws.{bearer, resolve_user-issue_token}
use trekr_go.Httpapi.{UserView, Reply, reply, user_body, session_body, user_view}
use trekr_go.Httpapi.Chats.Laws.{is_refusal}
use trekr_go.Httpapi.Accounts.{
  RegisterRequest, SignInRequest, normalize_email, register_user, sign_in, authenticate,
}
use trekr_go.Httpapi.Accounts.Laws.{IsRegistered, IsDone, register_user-IsDone}
use trekr_go.Httpapi.Accounts.Session.{
  request, registered_by_email, registered_by_id, registered_password,
}

user_of_body : (u v : UserView) → reply 201 (user_body u) ≡ reply 201 (user_body v) → u ≡ v
user_of_body u v h = cc

module _ {W : Type 0} (K : Secrets W) (keys : IsSecrets K) (E : Engine W) (laws : IsEngine E)
    (secret : String) where
  register_user-IsRegistered :
      (p : RegisterRequest) (before : Tables) (x : Reply × State W) (v : UserView)
      → IsDone K p before x
      → x.0 ≡ reply 201 (user_body v)
      → IsRegistered K p before x.1.tables x.0
  register_user-IsRegistered p before x v (inl (refused, kept)) h =
      let no : is_refusal (reply 201 (user_body v)) ≡ true = rw h at refused in cc
  register_user-IsRegistered p before x v (inr d) h = d

  authenticate-eq-session :
      (q : SignInRequest) (x : Result User × State W) (u : User) (token : Bytes)
      → x.0 ≡ ok u
      → verify_password K q.password u.encrypted_password ≡ true
      → (issue_token K E secret u.id x.1).0 ≡ some token
      → (authenticate K E secret q x).0 ≡ reply 200 (session_body (bearer token) (user_view u))
  authenticate-eq-session q (ok u', t) u token h right signed =
      let e : u' ≡ u = cc in rw e (rw right (rw signed refl))
  authenticate-eq-session q (err e, t) u token h right signed = cc

  -- A user who registers under a new email can sign in with it and the password, and the header
  -- of the sign-in leads the middleware to the user, for an hour.
  pub register_user-sign_in :
      (p : RegisterRequest) (v : UserView) (s : State W)
      → (register_user K E (request p) s).0 ≡ reply 201 (user_body v)
      → select (λ u. u.email == normalize_email K p.email) s.tables.users ≡ []
      → v.id ≤ max_int64
      → (q : SignInRequest) (t : State W) (u : User) (token : Bytes)
      → normalize_email K q.email ≡ normalize_email K p.email
      → q.password ≡ p.password
      → t.tables.users ≡ (register_user K E (request p) s).1.tables.users
      → (first (users E) (λ u. u.email == normalize_email K q.email) t).0 ≡ ok u
      → (issue_token K E secret u.id
          (first (users E) (λ u. u.email == normalize_email K q.email) t).1).0
        ≡ some token
      → (later : State W) (w : User) → later.tables.users ≡ t.tables.users
      → E.clock later.world + second
        ≤ E.clock (first (users E) (λ u. u.email == normalize_email K q.email) t).1.world
          + jwt_expiry
      → (first (users E) (λ u. u.id == v.id) later).0 ≡ ok w
      → ((sign_in K E secret (request q) t).0 ≡ reply 200 (session_body (bearer token) v))
        × ((resolve_user K E secret (bearer token) later).0 ≡ some w)
        × (user_view w ≡ v)
  unfolding sign_in
  register_user-sign_in p v s h unique small q t u token email password kept found signed later w
        kept' early found' =
      let x = register_user K E (request p) s in
      let d =
        register_user-IsRegistered p s.tables x v
          (register_user-IsDone K keys E laws none "" "" p s) h in
      let view : user_view d.user ≡ v = user_of_body (user_view d.user) v (sym d.told ∙ h) in
      let of_email : IsFirst user_model (λ u. u.email == normalize_email K p.email) x.1.tables.users
          u =
        rw (email, kept) at (laws.users.first_some _ _ _ u found) in
      let same : u ≡ d.user =
        registered_by_email K keys E laws secret p s.tables x.1.tables x.0 d u unique of_email in
      let key : v.id ≡ d.user.id = sym (ap (λ y. y.id) view) in
      let of_id : IsFirst user_model (λ u. u.id == d.user.id) x.1.tables.users w =
        rw (key, kept' ∙ kept) at (laws.users.first_some _ _ _ w found') in
      let same' : w ≡ d.user =
        registered_by_id K keys E laws secret p s.tables x.1.tables x.0 d w of_id in
      let right : verify_password K q.password u.encrypted_password ≡ true =
        rw (password, same)
          (registered_password K keys E laws secret p s.tables x.1.tables x.0 d) in
      let started =
        authenticate-eq-session q (first (users E) (λ u. u.email == normalize_email K q.email) t) u
          token found right signed in
      let id : u.id ≡ v.id = ap (λ y. y.id) same ∙ sym key in
      (
        started ∙ ap (λ y. reply 200 (session_body (bearer token) y)) (ap user_view same ∙ view),
        resolve_user-issue_token K keys E secret v.id
            (first (users E) (λ u. u.email == normalize_email K q.email) t).1 later token w small
            (rw id at signed) early found',
        ap user_view same' ∙ view,
      )
