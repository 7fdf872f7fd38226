-- ===== src/Storage/Keys.antt =====
-- What a key that the storage accepts looks like, and that the keys it makes are accepted.
use trekr_go.Prelude.{
  passes_up_to, passes-passes_up_to, ℕ, ◌%◌, ◌≤◌, Bool, true, false, ◌&&◌, ◌||◌, some, [], ◌∷◌, ◌≡◌,
  ◌≢◌, leb, ◌==◌, nat_instance, any, Bytes, length, map, All, arith, refl, inl, inr, Option-cases,
}
use trekr_go.Storage.{
  FilePath, Host, IsHost, has_dots, disk_path, base36_digit, generate_key, key_length, nth, base36,
}

-- A component that names a file or a directory inside the one before it.
pub record IsInside (c : Bytes) : Type 0 where
  pub no_separator : All (λ x. (x ≢ b'/') × (x ≢ 92)) c
  pub named : c ≢ []
  pub not_here : c ≢ b'.' ∷ []
  pub not_parent : c ≢ b'.' ∷ b'.' ∷ []

no_separator_of_any :
    (key : Bytes)
    → any key (λ x. x == b'/' || x == 92) ≡ false
    → All (λ x. (x ≢ b'/') × (x ≢ 92)) key
no_separator_of_any [] h = tt
no_separator_of_any (x ∷ key) h =
    ((ground arith, ground arith), no_separator_of_any key (ground arith))

-- An accepted key lies exactly two directories below the root: its first two bytes, its next two,
-- and the key, none of which leaves its directory.
pub disk_path-IsInside :
    (root key : Bytes) (path : FilePath)
    → disk_path root key ≡ some path
    → (first : Bytes) × (second : Bytes) × (path ≡ root ∷ first ∷ second ∷ key ∷ [])
      × IsInside first
      × IsInside second
      × IsInside key
unfolding disk_path has_dots
disk_path-IsInside root (a ∷ b ∷ c ∷ d ∷ rest) path h =
    let key = a ∷ b ∷ c ∷ d ∷ rest in
    let clear : All (λ x. (x ≢ b'/') × (x ≢ 92)) key = no_separator_of_any key (ground arith) in
    (
      a ∷ b ∷ [],
      c ∷ d ∷ [],
      ground arith,
      record {
        no_separator = (clear.0, (clear.1.0, tt));
        named = λ e. cc;
        not_here = λ e. ground arith;
        not_parent = λ e. ground arith;
      },
      record {
        no_separator = (clear.1.1.0, (clear.1.1.1.0, tt));
        named = λ e. cc;
        not_here = λ e. ground arith;
        not_parent = λ e. ground arith;
      },
      record {
        no_separator = clear;
        named = λ e. cc;
        not_here = λ e. ground arith;
        not_parent = λ e. ground arith;
      },
    )
disk_path-IsInside root _ path h = cc

-- A byte of the base-36 alphabet.
abbrev pub is_base36 : ℕ → Bool
is_base36 c = (leb b'0' c && leb c b'9') || (leb b'a' c && leb c b'z')

alphabet : passes_up_to (λ i. is_base36 (nth base36 i)) 36 ≡ true
unfolding passes_up_to nth
alphabet = refl

is_base36-base36_digit : (b : ℕ) → is_base36 (base36_digit b) ≡ true
unfolding base36_digit
is_base36-base36_digit b =
    passes-passes_up_to (λ i. is_base36 (nth base36 i)) 36 (b % 36) (omega arith) alphabet

All-base36_digit : (b : Bytes) → All (λ c. is_base36 c ≡ true) (map base36_digit b)
All-base36_digit [] = tt
All-base36_digit (x ∷ b) = (is_base36-base36_digit x, All-base36_digit b)

base36-no_separator :
    (key : Bytes) → All (λ c. is_base36 c ≡ true) key → any key (λ x. x == b'/' || x == 92) ≡ false
base36-no_separator [] h = refl
base36-no_separator (x ∷ key) h = ground (arith, base36-no_separator key h.1)

base36-no_dots : (key : Bytes) → All (λ c. is_base36 c ≡ true) key → has_dots key ≡ false
unfolding has_dots
base36-no_dots [] h = refl
base36-no_dots (x ∷ []) h = refl
base36-no_dots (x ∷ y ∷ key) h = ground (arith, base36-no_dots (y ∷ key) h.1)

length-map : (f : ℕ → ℕ) (b : Bytes) → length (map f b) ≡ length b
length-map f [] = refl
length-map f (x ∷ b) = omega (arith, length-map f b)

base36-accepted :
    (root key : Bytes)
    → All (λ c. is_base36 c ≡ true) key
    → 4 ≤ length key
    → (path : FilePath) × (disk_path root key ≡ some path)
unfolding disk_path
base36-accepted root [] h l = absurd (omega arith)
base36-accepted root (a ∷ []) h l = absurd (omega arith)
base36-accepted root (a ∷ b ∷ []) h l = absurd (omega arith)
base36-accepted root (a ∷ b ∷ c ∷ []) h l = absurd (omega arith)
base36-accepted root (a ∷ b ∷ c ∷ d ∷ rest) h l =
    let key = a ∷ b ∷ c ∷ d ∷ rest in
    (
      root ∷ (a ∷ b ∷ []) ∷ (c ∷ d ∷ []) ∷ key ∷ [],
      rw (base36-no_separator key h, base36-no_dots key h),
    )

-- A generated key has 28 letters or digits, and every storage root accepts it.
pub generate_key_accepted :
    {W : Type 0} (H : Host W) (laws : IsHost H) (w : W) (key root : Bytes)
    → (generate_key H w).0 ≡ some key
    → (length key ≡ key_length)
      × All (λ c. is_base36 c ≡ true) key
      × ((path : FilePath) × (disk_path root key ≡ some path))
unfolding generate_key
generate_key_accepted H laws w key root h = elim (Option-cases (H.random key_length w).0) [
  | inl none_read ↦ absurd (ground (arith, none_read))
  | inr (b, read) ↦
      let same : map base36_digit b ≡ key = ground (arith, read) in
      let all_in = All-base36_digit b in
      let len : length (map base36_digit b) ≡ 28 =
        omega (arith, length-map base36_digit b, laws.random_length key_length w b read) in
      rw (← same) (len, all_in, base36-accepted root (map base36_digit b) all_in (omega arith))
]
