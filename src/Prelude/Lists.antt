-- ===== src/Prelude/Lists.antt =====
-- Lists measured by native numbers, selections by a Boolean test, and predicates over lists.
use Prim.Native.Nat.{ℕ, suc, ◌+◌}
use mathlib.Core.Path.{◌≡◌, refl, sym, ◌∙◌}
use mathlib.Core.Bool.{Bool, true, false, ◌||◌}
use mathlib.Core.List.{List, [], ◌∷◌, ◌++◌, Memᴰ}
use mathlib.Core.Logic.{◌⊎◌, inl, inr}
use native.Mathlib.Omega.{arith}
use trekr_go.Prelude.Tests.{ltb, if◌then◌else◌, Bool-cases}

module _ {ℓ} {A : Type ℓ} where
  abbrev pub length : List A → ℕ
  length [] = 0
  length (x ∷ xs) = suc (length xs)

  -- The elements that pass the test, in order.
  abbrev pub select : (A → Bool) → List A → List A
  select p [] = []
  select p (x ∷ xs) = if p x then x ∷ select p xs else select p xs

  abbrev pub any : List A → (A → Bool) → Bool
  any [] p = false
  any (x ∷ xs) p = p x || any xs p

  -- The elements that pass the test are replaced.
  abbrev pub replace : (A → Bool) → (A → A) → List A → List A
  replace p f [] = []
  replace p f (x ∷ xs) = (if p x then f x else x) ∷ replace p f xs

  abbrev pub All {κ} : (A → Type κ) → List A → Type κ
  All P [] = Unit
  All P (x ∷ xs) = P x × All P xs

  -- Each element stands in the relation to every later one.
  abbrev pub AllPairs {κ} : (A → A → Type κ) → List A → Type κ
  AllPairs R [] = Unit
  AllPairs R (x ∷ xs) = All (R x) xs × AllPairs R xs

  pub length-append : (xs ys : List A) → length (xs ++ ys) ≡ length xs + length ys
  length-append [] ys = omega arith
  length-append (x ∷ xs) ys = omega (arith, length-append xs ys)

module _ {ℓ} {A : Type ℓ} where
  -- Something is selected exactly when some element passes the test.
  pub length-select-pos : (p : A → Bool) (xs : List A) → ltb 0 (length (select p xs)) ≡ any xs p
  length-select-pos p [] = refl
  length-select-pos p (x ∷ xs) = ground (arith, length-select-pos p xs)

  pub append-eq-nil : (xs ys : List A) → xs ++ ys ≡ [] → (xs ≡ []) × (ys ≡ [])
  append-eq-nil [] ys h = (refl, h)
  append-eq-nil (x ∷ xs) ys h = cc

  pub All-append {κ} :
      (P : A → Type κ) (front back : List A) → All P front → All P back → All P (front ++ back)
  All-append P (x ∷ front) back (px, all) rest = (px, All-append P front back all rest)
  All-append P [] back none_needed rest = rest

  pub All-weaken {κ μ} :
      (P : A → Type κ) (Q : A → Type μ) (xs : List A) → ((x : A) → P x → Q x) → All P xs → All Q xs
  All-weaken P Q [] f h = tt
  All-weaken P Q (x ∷ xs) f h = (f x h.0, All-weaken P Q xs f h.1)

  -- Nothing was selected, so every element fails the test.
  pub All-of_select-empty :
      (p : A → Bool) (xs : List A) → length (select p xs) ≡ 0 → All (λ x. p x ≡ false) xs
  All-of_select-empty p [] h = tt
  All-of_select-empty p (x ∷ xs) h = ground (arith, All-of_select-empty p xs)

  pub AllPairs-append {κ} :
      (R : A → A → Type κ) (xs : List A) (y : A)
      → AllPairs R xs
      → All (λ x. R x y) xs
      → AllPairs R (xs ++ y ∷ [])
  AllPairs-append R [] y h k = (tt, tt)
  AllPairs-append R (x ∷ xs) y h k =
      (All-append (R x) xs (y ∷ []) h.0 (k.0, tt), AllPairs-append R xs y h.1 k.1)

  -- What a replacement makes of the elements that pass the test, and of the others.
  pub All-replace {κ μ} :
      (P : A → Type κ) (Q : A → Type μ) (p : A → Bool) (f : A → A) (xs : List A)
      → ((x : A) → P x → p x ≡ true → Q (f x))
      → ((x : A) → P x → p x ≡ false → Q x)
      → All P xs
      → All Q (replace p f xs)
  All-replace P Q p f [] hit miss h = tt
  All-replace P Q p f (x ∷ xs) hit miss h = elim (Bool-cases (p x)) [
    | inl e ↦ rw e (hit x h.0 e, All-replace P Q p f xs hit miss h.1)
    | inr e ↦ rw e (miss x h.0 e, All-replace P Q p f xs hit miss h.1)
  ]

  pub All-select {κ} :
      (P : A → Type κ) (p : A → Bool) (xs : List A) → All P xs → All P (select p xs)
  All-select P p [] h = tt
  All-select P p (x ∷ xs) h = elim (Bool-cases (p x)) [
    | inl e ↦ rw e (h.0, All-select P p xs h.1)
    | inr e ↦ rw e (All-select P p xs h.1)
  ]

  -- What is selected passes the test.
  pub All-select_test : (p : A → Bool) (xs : List A) → All (λ x. p x ≡ true) (select p xs)
  All-select_test p [] = tt
  All-select_test p (x ∷ xs) = elim (Bool-cases (p x)) [
    | inl e ↦ rw e (e, All-select_test p xs)
    | inr e ↦ rw e (All-select_test p xs)
  ]

  -- A test that fails everywhere replaces nothing.
  pub replace-of_none :
      (p : A → Bool) (f : A → A) (xs : List A) → All (λ x. p x ≡ false) xs → replace p f xs ≡ xs
  replace-of_none p f [] h = refl
  replace-of_none p f (x ∷ xs) h = rw (h.0, replace-of_none p f xs h.1)

  pub All-of_mem {κ} : {x : A} (P : A → Type κ) (xs : List A) → All P xs → Memᴰ x xs → P x
  All-of_mem P [] h m = elim m [ ]
  All-of_mem P (y ∷ ys) h (Memᴰ.head e) = rw e h.0
  All-of_mem P (y ∷ ys) h (Memᴰ.tail m) = All-of_mem P ys h.1 m

  -- A replacement that keeps the relation between any two elements with `P`.
  module _ {κ μ} (P : A → Type κ) (R : A → A → Type μ) (p : A → Bool) (f : A → A) where
    abbrev pub replaced : A → A
    replaced x = if p x then f x else x

    All_replaced :
        (x : A) (ys : List A)
        → ((y : A) → P y → R x y → R (replaced x) (replaced y))
        → All P ys
        → All (R x) ys
        → All (R (replaced x)) (replace p f ys)
    All_replaced x [] keep hp h = tt
    All_replaced x (y ∷ ys) keep hp h = (keep y hp.0 h.0, All_replaced x ys keep hp.1 h.1)

    pub AllPairs-replace :
        (xs : List A)
        → ((x y : A) → P x → P y → R x y → R (replaced x) (replaced y))
        → All P xs
        → AllPairs R xs
        → AllPairs R (replace p f xs)
    AllPairs-replace [] keep hp h = tt
    AllPairs-replace (x ∷ xs) keep hp h =
        (All_replaced x xs (λ y. keep x y hp.0) hp.1 h.0, AllPairs-replace xs keep hp.1 h.1)

  pub mem-replace_hit :
      {x : A} (p : A → Bool) (f : A → A) (xs : List A)
      → p x ≡ true
      → Memᴰ x xs
      → Memᴰ (f x) (replace p f xs)
  mem-replace_hit p f [] h m = elim m [ ]
  mem-replace_hit p f (y ∷ ys) h (Memᴰ.head e) = Memᴰ.head (rw (← e, h) refl)
  mem-replace_hit p f (y ∷ ys) h (Memᴰ.tail m) = Memᴰ.tail (mem-replace_hit p f ys h m)

  pub mem-replace_miss :
      {x : A} (p : A → Bool) (f : A → A) (xs : List A)
      → p x ≡ false
      → Memᴰ x xs
      → Memᴰ x (replace p f xs)
  mem-replace_miss p f [] h m = elim m [ ]
  mem-replace_miss p f (y ∷ ys) h (Memᴰ.head e) = Memᴰ.head (rw (← e, h) refl)
  mem-replace_miss p f (y ∷ ys) h (Memᴰ.tail m) = Memᴰ.tail (mem-replace_miss p f ys h m)

  -- Two elements of such a list are related, one way or the other, unless they are one.
  pub AllPairs-mem {κ} :
      {x y : A} (R : A → A → Type κ) (xs : List A)
      → ((a b : A) → R a b → R b a)
      → AllPairs R xs
      → Memᴰ x xs
      → Memᴰ y xs
      → (x ≡ y) ⊎ R x y
  AllPairs-mem R [] sy h m n = elim m [ ]
  AllPairs-mem R (z ∷ zs) sy h (Memᴰ.head d) (Memᴰ.head e) = inl (d ∙ sym e)
  AllPairs-mem R (z ∷ zs) sy h (Memᴰ.head d) (Memᴰ.tail n) = inr (rw d (All-of_mem (R z) zs h.0 n))
  AllPairs-mem R (z ∷ zs) sy h (Memᴰ.tail m) (Memᴰ.head e) =
      inr (rw e (sy z _ (All-of_mem (R z) zs h.0 m)))
  AllPairs-mem R (z ∷ zs) sy h (Memᴰ.tail m) (Memᴰ.tail n) = AllPairs-mem R zs sy h.1 m n

  pub mem-append_left : {x : A} (xs ys : List A) → Memᴰ x xs → Memᴰ x (xs ++ ys)
  mem-append_left [] ys m = elim m [ ]
  mem-append_left (z ∷ zs) ys (Memᴰ.head e) = Memᴰ.head e
  mem-append_left (z ∷ zs) ys (Memᴰ.tail m) = Memᴰ.tail (mem-append_left zs ys m)

  pub mem-append_right : {x : A} (xs ys : List A) → Memᴰ x ys → Memᴰ x (xs ++ ys)
  mem-append_right [] ys m = m
  mem-append_right (z ∷ zs) ys m = Memᴰ.tail (mem-append_right zs ys m)

  pub All-split {κ} : (P : A → Type κ) (xs ys : List A) → All P (xs ++ ys) → All P xs × All P ys
  All-split P [] ys h = (tt, h)
  All-split P (x ∷ xs) ys h = let (l, r) = All-split P xs ys h.1 in ((h.0, l), r)

  -- Related within each part, and each element of the first to each of the second.
  pub AllPairs-split {κ} :
      (R : A → A → Type κ) (xs ys : List A)
      → AllPairs R (xs ++ ys)
      → AllPairs R xs × AllPairs R ys × ((x y : A) → Memᴰ x xs → Memᴰ y ys → R x y)
  AllPairs-split R [] ys h = (tt, h, λ x y m. elim m [ ])
  AllPairs-split R (z ∷ zs) ys h =
      let (l, r, apart) = AllPairs-split R zs ys h.1 in
      let (near, far) = All-split (R z) zs ys h.0 in
      ((near, l), r, λ x y m n. across z zs ys x y far apart m n)
    where
      across :
          (z : A) (zs ys : List A) (x y : A)
          → All (R z) ys
          → ((x y : A) → Memᴰ x zs → Memᴰ y ys → R x y)
          → Memᴰ x (z ∷ zs)
          → Memᴰ y ys
          → R x y
      across z zs ys x y far apart (Memᴰ.head e) n = rw e (All-of_mem (R z) ys far n)
      across z zs ys x y far apart (Memᴰ.tail m) n = apart x y m n
