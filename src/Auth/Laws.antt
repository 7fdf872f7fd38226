-- ===== src/Auth/Laws.antt =====
-- internal/auth and httpapi/middleware/auth.go: a token leads to its user.
use trekr_go.Prelude.{
  ℕ, ◌+◌, ◌*◌, ◌<◌, ◌≤◌, String, false, none, some, ◌++◌, ◌≡◌, refl, ◌∙◌, Bytes, codes, arith,
  Bool-cases, inl, inr, ◌==◌, nat_instance, string_instance,
}
use trekr_go.GoText.{itoa, parse_int, trim_codes, max_int64}
use trekr_go.GoText.Numbers.{parse_int-itoa}
use trekr_go.Models.{User, pos}
use trekr_go.Sql.{Result, ok, err}
use trekr_go.Store.{Engine, State, first, users}
use trekr_go.Auth.{
  Secrets, IsSecrets, second, jwt_expiry, claims_for, bearer_token, parse_token, issue_token,
  resolve_user, found_user,
}

-- The header that the sign-in sets.
abbrev pub bearer : Bytes → Bytes
bearer token = codes "Bearer " ++ token

bearer_token-bearer : (token : Bytes) → bearer_token (bearer token) ≡ trim_codes token
unfolding bearer_token
bearer_token-bearer token = refl

itoa_some : (n : ℕ) → n ≤ max_int64 → (itoa (pos n) == "") ≡ false
unfolding parse_int
itoa_some n h = elim (Bool-cases (itoa (pos n) == "")) [
  | inl e ↦
      let empty : itoa (pos n) ≡ "" = (string_instance.tells_same_iff (itoa (pos n)) "").0 e in
      let nothing : none ≡ some (pos n) = rw empty at (parse_int-itoa (pos n) h) in cc
  | inr e ↦ e
]

module _ {W : Type 0} (K : Secrets W) (laws : IsSecrets K) (E : Engine W) (secret : String) where
  found_user-ok :
      (r : Result User × State W) (u : User) → r.0 ≡ ok u → (found_user K E secret r).0 ≡ some u
  found_user-ok (ok v, s) u h = cc
  found_user-ok (err e, s) u h = cc

  parse_token-issue_token :
      (id now : ℕ) (s : State W) (token : Bytes)
      → id ≤ max_int64
      → (issue_token K E secret id s).0 ≡ some token
      → now + second ≤ E.clock s.world + jwt_expiry
      → parse_token K secret now token ≡ some (pos id)
  unfolding parse_token issue_token
  parse_token-issue_token id now s token small made early =
      let c = claims_for id (E.clock s.world) (K.new_uuid s.world).0 in
      let soon : now < c.exp * second = omega arith in
      rw (laws.read_sign secret c now token made soon)
        (rw (itoa_some id small) (parse_int-itoa (pos id) small))

  -- A token that was issued for a user leads the middleware to the user's row for an hour.
  pub resolve_user-issue_token :
      (id : ℕ) (s t : State W) (token : Bytes) (u : User)
      → id ≤ max_int64
      → (issue_token K E secret id s).0 ≡ some token
      → E.clock t.world + second ≤ E.clock s.world + jwt_expiry
      → (first (users E) (λ u. u.id == id) t).0 ≡ ok u
      → (resolve_user K E secret (bearer token) t).0 ≡ some u
  unfolding resolve_user issue_token
  resolve_user-issue_token id s t token u small made early there =
      let c = claims_for id (E.clock s.world) (K.new_uuid s.world).0 in
      let read : bearer_token (bearer token) ≡ token =
        bearer_token-bearer token ∙ laws.token_trimmed secret c token made in
      rw read (
        rw (laws.token_some secret c token made) (
          rw (parse_token-issue_token id (E.clock t.world) s token small made early)
            (found_user-ok (first (users E) (λ u. u.id == id) t) u there)))
