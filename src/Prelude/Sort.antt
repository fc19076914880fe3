-- ===== src/Prelude/Sort.antt =====
-- Sorting by a Boolean comparison, as ORDER BY does: rows that neither comes before keep their
-- order.
use mathlib.Core.List.Perm
use mathlib.Core.List.{Perm}
use fetch_bilibili.Prelude.Tests.{if◌then◌else◌, Bool-cases}
use fetch_bilibili.Prelude.Lists.{All}
use mathlib.Core.Bool.{Bool, true, false}
use mathlib.Core.List.{List, [], ◌∷◌}
use mathlib.Core.Path.{◌≡◌}
use mathlib.Core.Logic.{inl, inr}

module _ {A : Type 0} (lt : A → A → Bool) where
  unfoldable pub insert_by : A → List A → List A
  insert_by x [] = x ∷ []
  insert_by x (y ∷ ys) = let rest = insert_by x ys in if lt y x then y ∷ rest else x ∷ y ∷ ys

  unfoldable pub sort_by : List A → List A
  unfolding insert_by
  sort_by [] = []
  sort_by (x ∷ xs) = insert_by x (sort_by xs)

  -- No element stands behind one that it comes before.
  abbrev pub Sorted : List A → Type 0
  Sorted [] = Unit
  Sorted (x ∷ xs) = All (λ y. lt y x ≡ false) xs × Sorted xs

  insert_by-perm : (x : A) (xs : List A) → Perm (insert_by x xs) (x ∷ xs)
  unfolding insert_by
  insert_by-perm x [] = Perm.refl (x ∷ [])
  insert_by-perm x (y ∷ ys) = elim (Bool-cases (lt y x)) [
    | inl e ↦ rw e (Perm.trans (Perm.cons y (insert_by-perm x ys)) (Perm.swap x y ys))
    | inr e ↦ rw e (Perm.refl (x ∷ y ∷ ys))
  ]

  pub sort_by-perm : (xs : List A) → Perm (sort_by xs) xs
  unfolding sort_by
  sort_by-perm [] = Perm.refl []
  sort_by-perm (x ∷ xs) = Perm.trans (insert_by-perm x (sort_by xs)) (Perm.cons x (sort_by-perm xs))

  All-insert_by : (P : A → Type 0) (x : A) (xs : List A) → P x → All P xs → All P (insert_by x xs)
  unfolding insert_by
  All-insert_by P x [] p h = (p, tt)
  All-insert_by P x (y ∷ ys) p h = elim (Bool-cases (lt y x)) [
    | inl e ↦ rw e (h.0, All-insert_by P x ys p h.1)
    | inr e ↦ rw e (p, h)
  ]

  pub All-sort_by : (P : A → Type 0) (xs : List A) → All P xs → All P (sort_by xs)
  unfolding sort_by
  All-sort_by P [] h = tt
  All-sort_by P (x ∷ xs) h = All-insert_by P x (sort_by xs) h.0 (All-sort_by P xs h.1)

  -- The comparison is a strict weak order: asymmetric, and "does not come before" is transitive.
  pub record IsWeakOrder : Type 0 where
    pub asym : (a b : A) → lt a b ≡ true → lt b a ≡ false
    pub weak : (a b c : A) → lt b a ≡ false → lt c b ≡ false → lt c a ≡ false

  behind-All :
      IsWeakOrder
      → (x y : A) (xs : List A) → lt y x ≡ false
      → All (λ z. lt z y ≡ false) xs
      → All (λ z. lt z x ≡ false) xs
  behind-All o x y [] e h = tt
  behind-All o x y (z ∷ zs) e h = (o.weak x y z e h.0, behind-All o x y zs e h.1)

  insert_by-Sorted : IsWeakOrder → (x : A) (xs : List A) → Sorted xs → Sorted (insert_by x xs)
  unfolding insert_by
  insert_by-Sorted o x [] h = (tt, tt)
  insert_by-Sorted o x (y ∷ ys) h = elim (Bool-cases (lt y x)) [
    | inl e ↦
        rw e
          (All-insert_by (λ z. lt z y ≡ false) x ys (o.asym y x e) h.0, insert_by-Sorted o x ys h.1)
    | inr e ↦ rw e ((e, behind-All o x y ys e h.0), h)
  ]

  pub sort_by-Sorted : IsWeakOrder → (xs : List A) → Sorted (sort_by xs)
  unfolding sort_by
  sort_by-Sorted o [] = tt
  sort_by-Sorted o (x ∷ xs) = insert_by-Sorted o x (sort_by xs) (sort_by-Sorted o xs)
