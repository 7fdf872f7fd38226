-- ===== src/Auth.antt =====
-- internal/auth and httpapi/middleware/auth.go: passwords, tokens and the user of a request. The
-- cryptography, the random source and `strings.ToLower` are a parameter.
pub mod Laws
pub mod Memory
use trekr_go.Prelude.{
  Eq, ℕ, ◌+◌, ◌*◌, ◌/◌, ◌<◌, String, Bool, true, false, ◌&&◌, ◌||◌, Option, none, some, List, [],
  ◌∷◌, ◌≡◌, ◌==◌, nat_instance, string_instance, list_instance, leb, Bytes, codes, if◌then◌else◌,
}
use trekr_go.GoText.{itoa, parse_int, trim_codes}
use trekr_go.Models.{User, ℤ, pos}
use trekr_go.Sql.{Result, ok, err}
use trekr_go.Store.{Engine, State, first, users}
use trekr_go.Httpapi.{Reply, reply, fail_body, Handler, has_id}

-- The claims of a token.
pub record Claims : Type 0 where
  pub sub : String
  pub scp : String
  pub iat : ℕ
  pub exp : ℕ
  pub jti : String

-- What the code calls: bcrypt, PBKDF2, HMAC, the encodings, uuid and jwt. `sign_jwt secret claims`
-- is the token with HS256; `read_jwt secret now token` is the claim `sub`, if it is a text, of a
-- token that verifies with HS256 at this time. None is an error.
pub record Secrets (W : Type 0) : Type 0 where
  pub to_lower : String → String
  pub hash : ℕ → String → W → Option String × W
  pub compare : String → String → Bool
  pub random_bytes : ℕ → W → Option Bytes × W
  pub base64_url : Bytes → String
  pub pbkdf2_sha1 : String → String → ℕ → ℕ → Option Bytes
  pub hmac_sha256 : Bytes → String → Bytes
  pub hex : Bytes → String
  pub new_uuid : W → String × W
  pub sign_jwt : String → Claims → Option Bytes
  pub read_jwt : String → ℕ → Bytes → Option (Option String)

-- Nanoseconds in a second and in `JWTExpiry`
abbrev pub second : ℕ
second = 1000000000

abbrev pub jwt_expiry : ℕ
jwt_expiry = 3600 * second

abbrev pub is_empty : Bytes → Bool
is_empty [] = true
is_empty (c ∷ s) = false

-- What is documented of these libraries: a hash matches the password that it was made of, nothing
-- matches an empty hash, and a token that was signed is read with its secret before it expires. It
-- is not empty and starts and ends in no space.
pub record IsSecrets {W : Type 0} (K : Secrets W) : Type 0 where
  pub compare_hash :
      (cost : ℕ) (password hash : String) (w : W)
      → (K.hash cost password w).0 ≡ some hash
      → K.compare hash password ≡ true
  pub compare_empty : (password : String) → K.compare "" password ≡ false
  pub read_sign :
      (secret : String) (claims : Claims) (now : ℕ) (token : Bytes)
      → K.sign_jwt secret claims ≡ some token
      → now < claims.exp * second
      → K.read_jwt secret now token ≡ some (some claims.sub)
  pub token_trimmed :
      (secret : String) (claims : Claims) (token : Bytes)
      → K.sign_jwt secret claims ≡ some token
      → trim_codes token ≡ token
  pub token_some :
      (secret : String) (claims : Claims) (token : Bytes)
      → K.sign_jwt secret claims ≡ some token
      → is_empty token ≡ false

-- Lower case of an ASCII letter; no other character folds to a letter of "bearer".
abbrev lower : ℕ → ℕ
lower c = if leb 65 c && leb c 90 then c + 32 else c

abbrev lowered : Bytes → Bytes
lowered [] = []
lowered (c ∷ s) = lower c ∷ lowered s

-- What is before and after the first space, if there is one: `SplitN(header, " ", 2)`
abbrev pub split_space : Bytes → Option (Bytes × Bytes)
split_space [] = none
split_space (c ∷ s) = let rest = split_space s in if c == 32 then some ([], s) else in_front c rest
  where
    in_front : ℕ → Option (Bytes × Bytes) → Option (Bytes × Bytes)
    in_front c none = none
    in_front c (some (a, b)) = some (c ∷ a, b)

abbrev token_of : Option (Bytes × Bytes) → Bytes
token_of none = []
token_of (some (a, b)) = if lowered a == codes "bearer" then trim_codes b else []

-- `bearerToken`, of the header Authorization
unfoldable pub bearer_token : Bytes → Bytes
bearer_token header = token_of (split_space header)

abbrev unauthenticated : Reply
unauthenticated = reply 401 (fail_body "You need to sign in or sign up before continuing.")

abbrev read_sub : Option (Option String) → Option ℤ
read_sub none = none
read_sub (some none) = none
read_sub (some (some sub)) = if sub == "" then none else parse_int (codes sub)

abbrev pub claims_for : ℕ → ℕ → String → Claims
claims_for user_id now jti = record {
  sub = itoa (pos user_id);
  scp = "user";
  iat = now / second;
  exp = (now + jwt_expiry) / second;
  jti = jti;
}

module _ {W : Type 0} (K : Secrets W) where
  -- `ParseToken` at a time
  unfoldable pub parse_token : String → ℕ → Bytes → Option ℤ
  parse_token secret now token = read_sub (K.read_jwt secret now token)

  -- `HashPassword`
  abbrev pub hash_password : String → W → Option String × W
  hash_password password w = K.hash 12 password w

  -- `VerifyPassword`
  abbrev pub verify_password : String → String → Bool
  verify_password password encrypted = K.compare encrypted password

  abbrev encoded : Option Bytes × W → Option String × W
  encoded (some bytes, w) = (some (K.base64_url bytes), w)
  encoded (none, w) = (none, w)

  -- `GenerateResetToken`
  unfoldable pub generate_reset_token : W → Option String × W
  generate_reset_token w = encoded (K.random_bytes 20 w)

  abbrev keyed : Option Bytes → String → Option String
  keyed none raw = none
  keyed (some key) raw = some (K.hex (K.hmac_sha256 key raw))

  -- `ResetTokenDigest`
  unfoldable pub reset_token_digest : String → String → Option String
  reset_token_digest secret raw =
      keyed (K.pbkdf2_sha1 secret "Devise reset_password_token" 65536 64) raw

  module _ (E : Engine W) (secret : String) where
    -- `IssueToken`
    unfoldable pub issue_token : ℕ → State W → Option Bytes × State W
    issue_token user_id s =
        let (jti, w) = K.new_uuid s.world in
        (K.sign_jwt secret (claims_for user_id (E.clock s.world) jti), record s { world = w })

    abbrev found_user : Result User × State W → Option User × State W
    found_user (ok u, s) = (some u, s)
    found_user (err e, s) = (none, s)

    abbrev user_of : Option ℤ → State W → Option User × State W
    user_of none s = (none, s)
    user_of (some id) s = found_user (first (users E) (λ u. has_id id u.id) s)

    -- `resolveUser`
    unfoldable pub resolve_user : Bytes → State W → Option User × State W
    resolve_user header s =
        let token = bearer_token header in
        if is_empty token then (none, s) else user_of (parse_token secret (E.clock s.world) token) s

    abbrev guarded : Option User × State W → (Option User → Handler W) → Reply × State W
    guarded (none, s) next = (unauthenticated, s)
    guarded (some u, s) next = next (some u) s

    -- `RequireAuth`: `next` is the handler with the user in the context of its request.
    unfoldable pub require_auth : Bytes → (Option User → Handler W) → Handler W
    require_auth header next s = guarded (resolve_user header s) next

    -- `OptionalAuth`
    unfoldable pub optional_auth : Bytes → (Option User → Handler W) → Handler W
    optional_auth header next s = let (user, s') = resolve_user header s in next user s'
