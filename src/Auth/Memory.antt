-- ===== src/Auth/Memory.antt =====
-- Secrets that show that the documented behaviour can be met: passwords are kept as they are after
-- a mark, and one token can be signed, that of user 1 at the time 0.
use Prim.Native.String.{char_at}
use trekr_go.Prelude.{
  ℕ, ◌+◌, String, Bool, true, false, ◌&&◌, Option, none, some, [], ◌∷◌, ◌≡◌, refl, ap, sym, ◌==◌,
  nat_instance, string_instance, Bytes, codes, if◌then◌else◌, Bool-cases, inl, inr,
}
use trekr_go.GoText.{trim_codes}
use trekr_go.Auth.{Claims, Secrets, IsSecrets, claims_for}

abbrev pub one_claim : Claims
one_claim = claims_for 1 0 "j"

abbrev same : Claims → Claims → Bool
same a b =
    a.sub == b.sub && (a.scp == b.scp && (a.iat == b.iat && (a.exp == b.exp && a.jti == b.jti)))

abbrev pub one_token : Bytes
one_token = b't' ∷ []

abbrev marked : String → String
marked password = String.◌∷◌ (char_at "h" 0) password

abbrev unmarked : String → Option String
unmarked String.[] = none
unmarked (String.◌∷◌ c s) = some s

abbrev matches : Option String → String → Bool
matches none password = false
matches (some p) password = p == password

abbrev pub memory_secrets : Secrets ℕ
memory_secrets = record {
  to_lower = λ s. s;
  hash = λ cost password w. (some (marked password), w);
  compare = λ hash password. matches (unmarked hash) password;
  random_bytes = λ n w. (some (w ∷ []), w + 1);
  base64_url = λ bytes. "r";
  pbkdf2_sha1 = λ secret salt iterations length. some [];
  hmac_sha256 = λ key raw. codes raw;
  hex = λ bytes. "d";
  new_uuid = λ w. ("j", w);
  sign_jwt = λ secret claims. if same claims one_claim then some one_token else none;
  read_jwt = λ secret now token. some (some one_claim.sub);
}

left-of_and : (a b : Bool) → (a && b) ≡ true → a ≡ true
left-of_and true b h = refl
left-of_and false b h = cc

same-sub : (claims : Claims) → same claims one_claim ≡ true → claims.sub ≡ one_claim.sub
same-sub claims h =
    (string_instance.tells_same_iff claims.sub one_claim.sub).0
      (left-of_and (claims.sub == one_claim.sub) _ h)

signed-eq :
    (claims : Claims) (token : Bytes)
    → (if same claims one_claim then some one_token else none) ≡ some token
    → (same claims one_claim ≡ true) × (one_token ≡ token)
signed-eq claims token h = elim (Bool-cases (same claims one_claim)) [
  | inl e ↦ (e, cc)
  | inr e ↦ let h' = rw e at h in cc
]

matches-marked :
    (password hash : String)
    → some (marked password) ≡ some hash
    → matches (unmarked hash) password ≡ true
matches-marked password hash h =
    let e : marked password ≡ hash = cc in
    rw (← e) ((string_instance.tells_same_iff password password).1 refl)

one_token_trimmed : trim_codes one_token ≡ one_token
unfolding trim_codes
one_token_trimmed = refl

pub memory_secrets-IsSecrets : IsSecrets memory_secrets
memory_secrets-IsSecrets = record {
  compare_hash = λ cost password hash w h. matches-marked password hash h;
  compare_empty = λ password. refl;
  read_sign = λ secret claims now token h early.
      let (e, _) = signed-eq claims token h in ap (λ s. some (some s)) (sym (same-sub claims e));
  token_trimmed =
      λ secret claims token h. let (_, e) = signed-eq claims token h in rw (← e) one_token_trimmed;
  token_some = λ secret claims token h. let (_, e) = signed-eq claims token h in rw (← e) refl;
}
