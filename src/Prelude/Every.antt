-- ===== src/Prelude/Every.antt =====
-- A test that every element of a list passes, and what keeps it.
use Prim.Native.Nat.{ℕ, zero, suc}
use mathlib.Core.Path.{◌≡◌, refl, ◌∙◌, ap}
use mathlib.Core.Bool.{Bool, true, ◌&&◌}
use mathlib.Core.Logic.{∥∥₁_elim}
use mathlib.Core.List.{List, [], ◌∷◌, ◌++◌, Perm, Permᴰ}
use native.Mathlib.Omega.{arith}
use fetch_bilibili.Prelude.Lists.{take, keep}

Bool-set : IsSet Bool
Bool-set = hlevel

module _ {A : Type 0} where
  abbrev pub every : (A → Bool) → List A → Bool
  every p [] = true
  every p (x ∷ xs) = p x && every p xs

  pub every-append :
      (p : A → Bool) (xs ys : List A) → every p (xs ++ ys) ≡ (every p xs && every p ys)
  every-append p [] ys = refl
  every-append p (x ∷ xs) ys = ground (arith, every-append p xs ys)

  pub every-take :
      (p : A → Bool) (n : ℕ) (xs : List A) → every p xs ≡ true → every p (take n xs) ≡ true
  every-take p zero xs h = refl
  every-take p (suc n) [] h = refl
  every-take p (suc n) (x ∷ xs) h = ground (arith, every-take p n xs)

  every-permᴰ : (p : A → Bool) {xs ys : List A} → Permᴰ xs ys → every p xs ≡ every p ys
  every-permᴰ p Permᴰ.nil = refl
  every-permᴰ p (Permᴰ.cons {a = a} {b = b} e d) = cc (ap p e, every-permᴰ p d)
  every-permᴰ p (Permᴰ.swap e f) = ground (arith, ap p e, ap p f)
  every-permᴰ p (Permᴰ.trans d e) = every-permᴰ p d ∙ every-permᴰ p e

  pub every-perm : (p : A → Bool) {xs ys : List A} → Perm xs ys → every p xs ≡ every p ys
  every-perm p h = ∥∥₁_elim h (Bool-set _ _) (every-permᴰ p)

  -- What holds of all holds of those that pass a test, and they pass it.
  pub every-keep : (p q : A → Bool) (xs : List A) → every p xs ≡ true → every p (keep q xs) ≡ true
  every-keep p q [] e = refl
  every-keep p q (x ∷ xs) e = ground (arith, every-keep p q xs)

  pub every-keep_self : (q : A → Bool) (xs : List A) → every q (keep q xs) ≡ true
  every-keep_self q [] = refl
  every-keep_self q (x ∷ xs) = ground (arith, every-keep_self q xs)
