-- ===== src/Prelude/Members.antt =====
-- Lists by Boolean tests: members, permutations and maps.
use mathlib.Core.List.{Memᴰ, Perm}
use mathlib.Core.List.Perm
use mathlib.Core.Logic.{∥∥₁_elim}
use mathlib.Core.HLevel.{⊥_prop}
use mathlib.Core.Path.{◌≡◌, refl, sym, ap, ◌∙◌}
use mathlib.Core.Logic.{inl, inr}
use mathlib.Core.Bool.{Bool, true, false, not}
use mathlib.Core.List.{List, [], ◌∷◌, map}
use native.Mathlib.Omega.{arith}
use trekr_go.Prelude.Tests.{Bool-cases}
use trekr_go.Prelude.Lists.{any, select, All, All-of_mem}
use trekr_go.Prelude.Changes.{every, All-from_mem}

module _ {A : Type 0} where
  pub any_mem : (q : A → Bool) (xs : List A) (x : A) → Memᴰ x xs → q x ≡ true → any xs q ≡ true
  any_mem q [] x m h = elim m [ ]
  any_mem q (y ∷ xs) x (Memᴰ.head e) h = let here : q y ≡ true = ap q (sym e) ∙ h in rw here refl
  any_mem q (y ∷ xs) x (Memᴰ.tail m) h = let rest = any_mem q xs x m h in ground arith

  cons_mem :
      (y : A) (xs ys : List A) (x : A) → (Memᴰ x xs → Memᴰ x ys) → Memᴰ x (y ∷ xs) → Memᴰ x (y ∷ ys)
  cons_mem y xs ys x f (Memᴰ.head e) = Memᴰ.head e
  cons_mem y xs ys x f (Memᴰ.tail m) = Memᴰ.tail (f m)

  pub any_weaken :
      (f g : A → Bool) (xs : List A)
      → ((x : A) → f x ≡ true → g x ≡ true)
      → any xs f ≡ true
      → any xs g ≡ true
  any_weaken f g [] imp h = cc
  any_weaken f g (x ∷ xs) imp h = elim (Bool-cases (f x)) [
    | inl e ↦ rw (imp x e) refl
    | inr e ↦ let rest = any_weaken f g xs imp (rw e at h) in ground arith
  ]

  pub mem-of_select : (q : A → Bool) (xs : List A) (x : A) → Memᴰ x (select q xs) → Memᴰ x xs
  mem-of_select q [] x m = elim m [ ]
  mem-of_select q (y ∷ xs) x m = elim (Bool-cases (q y)) [
    | inl e ↦ cons_mem y _ xs x (mem-of_select q xs x) (rw e at m)
    | inr e ↦ Memᴰ.tail (mem-of_select q xs x (rw e at m))
  ]

  -- A test that all elements pass is passed by those of a permutation.
  pub All-perm :
      (q : A → Bool) (xs ys : List A)
      → Perm xs ys
      → All (λ x. q x ≡ true) ys
      → All (λ x. q x ≡ true) xs
  All-perm q xs ys p h =
      All-from_mem (λ x. q x ≡ true) xs
        (λ x m. elim (Bool-cases (q x)) [
          | inl e ↦ e
          | inr e ↦
              elim (∥∥₁_elim ((Perm.mem_iff p).0 ∣ m ∣₁) ⊥_prop (λ d.
                let no : true ≡ false = sym (All-of_mem (λ x. q x ≡ true) ys h d) ∙ e in cc)) [ ]
        ])

  pub every_all : (q : A → Bool) (xs : List A) → All (λ x. q x ≡ true) xs → every xs q ≡ true
  every_all q [] h = refl
  every_all q (x ∷ xs) h = let rest = every_all q xs h.1 in let here = h.0 in rw here rest

  pub all_every : (q : A → Bool) (xs : List A) → every xs q ≡ true → All (λ x. q x ≡ true) xs
  all_every q [] h = tt
  all_every q (x ∷ xs) h = ground (arith, all_every q xs)

module _ {A : Type 0} (q : A → Bool) where
  none_all : (xs : List A) → any xs q ≡ false → All (λ x. not (q x) ≡ true) xs
  none_all [] h = tt
  none_all (x ∷ xs) h = ground (arith, none_all xs)

  all_none : (xs : List A) → All (λ x. not (q x) ≡ true) xs → any xs q ≡ false
  all_none [] h = refl
  all_none (x ∷ xs) h = ground (arith, all_none xs)

  -- A permutation of a list with an element that passes a test has one, too.
  pub any-perm : (xs ys : List A) → Perm xs ys → any ys q ≡ true → any xs q ≡ true
  any-perm xs ys p h = elim (Bool-cases (any xs q)) [
    | inl e ↦ e
    | inr e ↦
        let none = all_none ys (All-perm (λ x. not (q x)) ys xs (Perm.symm p) (none_all xs e)) in
        let no : true ≡ false = sym h ∙ none in cc
  ]

  pub any-select :
      (f : A → Bool) (xs : List A)
      → ((x : A) → q x ≡ true → f x ≡ true)
      → any xs q ≡ true
      → any (select f xs) q ≡ true
  any-select f [] imp h = cc
  any-select f (x ∷ xs) imp h = elim (Bool-cases (q x)) [
    | inl e ↦ rw (imp x e) (rw e refl)
    | inr e ↦
        let rest = any-select f xs imp (rw e at h) in
        elim (Bool-cases (f x)) [ inl k ↦ rw k (rw e rest) | inr k ↦ rw k rest ]
  ]

pub All-map :
    {A B : Type 0} (P : B → Type 0) (f : A → B) (xs : List A)
    → All (λ a. P (f a)) xs
    → All P (map f xs)
All-map P f [] h = tt
All-map P f (x ∷ xs) h = (h.0, All-map P f xs h.1)

pub All-of_map :
    {A B : Type 0} (P : B → Type 0) (f : A → B) (xs : List A)
    → All P (map f xs)
    → All (λ a. P (f a)) xs
All-of_map P f [] h = tt
All-of_map P f (x ∷ xs) h = (h.0, All-of_map P f xs h.1)
