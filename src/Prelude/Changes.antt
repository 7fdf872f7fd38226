-- ===== src/Prelude/Changes.antt =====
-- Longer selections, changed lists, and properties from membership.
use Prim.Native.Nat.{◌+◌}
use mathlib.Core.Path.{◌≡◌, refl, sym, ap, ◌∙◌}
use mathlib.Core.Bool.{Bool, true, false, ◌&&◌}
use mathlib.Core.List.{List, [], ◌∷◌, ◌++◌, Memᴰ, map}
use mathlib.Core.Logic.{inl, inr}
use native.Mathlib.Omega.{arith}
use trekr_go.Prelude.Tests.{if◌then◌else◌, Bool-cases}
use trekr_go.Prelude.Lists.{length, select, replace, All, AllPairs, AllPairs-replace}

-- One more element that passes the test is one more that is selected.
pub length-select-snoc :
    {A : Type 0} (p : A → Bool) (xs : List A) (x : A)
    → p x ≡ true
    → length (select p (xs ++ x ∷ [])) ≡ length (select p xs) + 1
length-select-snoc p [] x h = rw h refl
length-select-snoc p (y ∷ xs) x h =
    let rest = length-select-snoc p xs x h in
    elim (Bool-cases (p y)) [ inl e ↦ rw e (omega arith) | inr e ↦ rw e (omega arith) ]

-- The test holds of every element.
abbrev pub every : {A : Type 0} → List A → (A → Bool) → Bool
every [] p = true
every (x ∷ xs) p = p x && every xs p

-- What holds of everything holds of the elements.
pub All-always {κ} : {A : Type 0} (P : A → Type κ) (xs : List A) → ((x : A) → P x) → All P xs
All-always P [] h = tt
All-always P (x ∷ xs) h = (h x, All-always P xs h)

-- A relation that the change of one side keeps holds of the pairs of the changed list.
pub AllPairs-replace_same :
    {A : Type 0} (R : A → A → Bool) (p : A → Bool) (f : A → A) (xs : List A)
    → ((x y : A) → R x y ≡ R y x)
    → ((x y : A) → R (f x) y ≡ R x y)
    → AllPairs (λ x y. R x y ≡ false) xs
    → AllPairs (λ x y. R x y ≡ false) (replace p f xs)
AllPairs-replace_same {A} R p f xs comm same h =
    AllPairs-replace (λ x. x ≡ x) (λ x y. R x y ≡ false) p f xs
      (λ x y _ _ e.
        one x (if p y then f y else y) ∙ comm x (if p y then f y else y) ∙ one y x ∙ comm y x ∙ e)
      (All-always (λ x. x ≡ x) xs (λ _. refl)) h
  where
    one : (x y : A) → R (if p x then f x else x) y ≡ R x y
    one x y = elim (Bool-cases (p x)) [ inl e ↦ rw e (same x y) | inr e ↦ rw e refl ]

-- A replacement that `g` does not see.
pub map-replace_same :
    {A B : Type 0} (g : A → B) (p : A → Bool) (f : A → A) (xs : List A)
    → ((x : A) → g (f x) ≡ g x)
    → map g (replace p f xs) ≡ map g xs
map-replace_same g p f [] h = refl
map-replace_same g p f (x ∷ xs) h = elim (Bool-cases (p x)) [
  | inl e ↦ rw (e, h x, map-replace_same g p f xs h) refl
  | inr e ↦ rw (e, map-replace_same g p f xs h) refl
]

-- What two properties together say of each element.
pub All-zip {κ μ ν} :
    {A : Type 0} (P : A → Type κ) (Q : A → Type μ) (R : A → Type ν) (xs : List A)
    → ((x : A) → P x → Q x → R x)
    → All P xs
    → All Q xs
    → All R xs
All-zip P Q R [] f h k = tt
All-zip P Q R (x ∷ xs) f h k = (f x h.0 k.0, All-zip P Q R xs f h.1 k.1)

pub All-from_mem {κ} :
    {A : Type 0} (P : A → Type κ) (xs : List A) → ((x : A) → Memᴰ x xs → P x) → All P xs
All-from_mem P [] f = tt
All-from_mem P (x ∷ xs) f = (f x (Memᴰ.head refl), All-from_mem P xs (λ y m. f y (Memᴰ.tail m)))

pub mem-select :
    {A : Type 0} {x : A} (p : A → Bool) (xs : List A)
    → p x ≡ true
    → Memᴰ x xs
    → Memᴰ x (select p xs)
mem-select p [] h m = elim m [ ]
mem-select p (y ∷ xs) h (Memᴰ.head e) = rw (ap p (sym e) ∙ h) (Memᴰ.head e)
mem-select p (y ∷ xs) h (Memᴰ.tail m) = elim (Bool-cases (p y)) [
  | inl e ↦ rw e (Memᴰ.tail (mem-select p xs h m))
  | inr e ↦ rw e (mem-select p xs h m)
]

-- What a test selects after elements that it does not select are added, replaced or removed.
module _ {A : Type 0} (q : A → Bool) where
  pub select-snoc_out : (xs : List A) (y : A) → q y ≡ false → select q (xs ++ y ∷ []) ≡ select q xs
  select-snoc_out [] y h = rw h refl
  select-snoc_out (x ∷ xs) y h = let rest = select-snoc_out xs y h in rw rest refl

  pub select-replace_out :
      (p : A → Bool) (f : A → A) (xs : List A)
      → ((x : A) → p x ≡ true → (q x ≡ false) × (q (f x) ≡ false))
      → select q (replace p f xs) ≡ select q xs
  select-replace_out p f [] h = refl
  select-replace_out p f (x ∷ xs) h =
      let rest = select-replace_out p f xs h in
      elim (Bool-cases (p x)) [
        | inl e ↦ let (old, new) = h x e in rw e (rw old (rw new rest))
        | inr e ↦ rw e (rw rest refl)
      ]

  pub select-select_same : (xs : List A) → select q (select q xs) ≡ select q xs
  select-select_same [] = refl
  select-select_same (x ∷ xs) =
      let rest = select-select_same xs in
      elim (Bool-cases (q x)) [ inl e ↦ rw e (rw e (rw rest refl)) | inr e ↦ rw e rest ]
