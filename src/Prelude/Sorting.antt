-- ===== src/Prelude/Sorting.antt =====
-- Insertion sort by a Boolean order: what ORDER BY does with the rows that a query returns.
use mathlib.Core.Path.{◌≡◌}
use mathlib.Core.Bool.{Bool, true, false}
use mathlib.Core.List.{List, [], ◌∷◌, Perm}
use mathlib.Core.List.Perm
use mathlib.Core.Logic.{inl, inr}
use trekr_go.Prelude.Tests.{if◌then◌else◌, Bool-cases}
use trekr_go.Prelude.Lists.{All, AllPairs, All-weaken}

-- Insertion sort; `before a b` when `a` may stand before `b`.
module _ {A : Type 0} (before : A → A → Bool) where
  abbrev pub insert_by : A → List A → List A
  insert_by a [] = a ∷ []
  insert_by a (b ∷ l) = if before a b then a ∷ b ∷ l else b ∷ insert_by a l

  abbrev pub order_by : List A → List A
  order_by [] = []
  order_by (a ∷ l) = insert_by a (order_by l)

  -- The sorted list has the same elements.
  insert_by-Perm : (a : A) (l : List A) → Perm (insert_by a l) (a ∷ l)
  insert_by-Perm a [] = Perm.refl (a ∷ [])
  insert_by-Perm a (b ∷ l) = elim (Bool-cases (before a b)) [
    | inl e ↦ rw e (Perm.refl (a ∷ b ∷ l))
    | inr e ↦ rw e (Perm.trans (Perm.cons b (insert_by-Perm a l)) (Perm.swap a b l))
  ]

  pub order_by-Perm : (l : List A) → Perm (order_by l) l
  order_by-Perm [] = Perm.refl []
  order_by-Perm (a ∷ l) = Perm.trans (insert_by-Perm a (order_by l)) (Perm.cons a (order_by-Perm l))

  -- Any two elements of the sorted list stand in order, if the order is total and transitive.
  module _ (total : (a b : A) → before a b ≡ false → before b a ≡ true)
      (transitive : (a b c : A) → before a b ≡ true → before b c ≡ true → before a c ≡ true) where
    insert_by-All : (a : A) (P : A → Type 0) (l : List A) → P a → All P l → All P (insert_by a l)
    insert_by-All a P [] pa h = (pa, tt)
    insert_by-All a P (b ∷ l) pa h = elim (Bool-cases (before a b)) [
      | inl e ↦ rw e (pa, h)
      | inr e ↦ rw e (h.0, insert_by-All a P l pa h.1)
    ]

    insert_by-AllPairs :
        (a : A) (l : List A)
        → AllPairs (λ x y. before x y ≡ true) l
        → AllPairs (λ x y. before x y ≡ true) (insert_by a l)
    insert_by-AllPairs a [] h = (tt, tt)
    insert_by-AllPairs a (b ∷ l) h = elim (Bool-cases (before a b)) [
      | inl e ↦ rw e ((e, All-weaken _ _ l (λ c k. transitive a b c e k) h.0), h)
      | inr e ↦
          rw e (
            insert_by-All a (λ c. before b c ≡ true) l (total a b e) h.0,
            insert_by-AllPairs a l h.1,
          )
    ]

    pub order_by-AllPairs : (l : List A) → AllPairs (λ x y. before x y ≡ true) (order_by l)
    order_by-AllPairs [] = tt
    order_by-AllPairs (a ∷ l) = insert_by-AllPairs a (order_by l) (order_by-AllPairs l)
