-- ===== src/Prelude/Pages.antt =====
-- Lists in the strict order of a number, and how pages behind the last number run through them.
use Prim.Native.Nat.{ℕ, zero, suc, ◌≤◌, ◌<◌}
use mathlib.Core.Path.{◌≡◌, refl, ◌∙◌, ap, sym}
use mathlib.Core.Bool.{Bool, true, false, ◌&&◌, not}
use mathlib.Core.List.{List, [], ◌∷◌}
use native.Mathlib.Omega.{arith}
use fetch_bilibili.Prelude.Tests.{ltb, ◌==◌, if◌then◌else◌}
use fetch_bilibili.Prelude.Lists.{
  tally, length, take, drop, keep, any, length-append, take-append-drop,
}
use fetch_bilibili.Prelude.Every.{every, every-perm, every-keep}
use fetch_bilibili.Prelude.Sort.{insert_by, sort_by, sort_by-perm}

module _ {A : Type 0} (key : A → ℕ) where
  abbrev pub less : A → A → Bool
  less a b = ltb (key a) (key b)

  -- The numbers rise, from behind the given one.
  abbrev pub rising : ℕ → List A → Bool
  rising a [] = true
  rising a (x ∷ xs) = ltb a (key x) && rising (key x) xs

  -- The last number of a list, or the given one.
  abbrev pub last_key : ℕ → List A → ℕ
  last_key a [] = a
  last_key a (x ∷ xs) = last_key (key x) xs

  abbrev pub behind : ℕ → List A → List A
  behind a xs = keep (λ x. ltb a (key x)) xs

  -- No number stands twice.
  abbrev pub distinct : List A → Bool
  distinct [] = true
  distinct (x ∷ xs) = not (any (λ y. key y == key x) xs) && distinct xs

  pub rising-every :
      (a b : ℕ) (xs : List A) → b ≤ a → rising a xs ≡ true → every (λ y. ltb b (key y)) xs ≡ true
  rising-every a b [] l h = refl
  rising-every a b (x ∷ xs) l h = ground (arith, rising-every (key x) b xs)

  insert_by-rising :
      (a : ℕ) (x : A) (xs : List A)
      → ltb a (key x) ≡ true
      → any (λ y. key y == key x) xs ≡ false
      → rising a xs ≡ true
      → rising a (insert_by less x xs) ≡ true
  unfolding insert_by
  insert_by-rising a x [] l n h = ground (arith, l)
  insert_by-rising a x (y ∷ ys) l n h = ground (arith, insert_by-rising (key y) x ys)

  insert_by-first :
      (x : A) (zs : List A)
      → every (λ z. ltb (key x) (key z)) zs ≡ true
      → insert_by less x zs ≡ x ∷ zs
  unfolding insert_by
  insert_by-first x [] h = refl
  insert_by-first x (z ∷ zs) h = ground (arith, h)

  keep-insert_by :
      (a : ℕ) (q : A → Bool) (x : A) (xs : List A)
      → rising a xs ≡ true
      → any (λ y. key y == key x) xs ≡ false
      → keep q (insert_by less x xs) ≡ (if q x then insert_by less x (keep q xs) else keep q xs)
  unfolding insert_by
  keep-insert_by a q x [] h n = ground arith
  keep-insert_by a q x (y ∷ ys) h n = ground (
    arith,
    keep-insert_by (key y) q x ys,
    insert_by-first x (keep q ys),
    every-keep (λ z. ltb (key x) (key z)) q ys,
    rising-every (key y) (key x) ys,
  )

  any-every :
      (n : ℕ) (xs : List A) → any (λ y. key y == n) xs ≡ not (every (λ y. not (key y == n)) xs)
  any-every n [] = refl
  any-every n (x ∷ xs) = ground (arith, any-every n xs)

  any-sort_by :
      (n : ℕ) (xs : List A) → any (λ y. key y == n) (sort_by less xs) ≡ any (λ y. key y == n) xs
  any-sort_by n xs =
      any-every n (sort_by less xs)
      ∙ ap not (every-perm (λ y. not (key y == n)) (sort_by-perm less xs))
      ∙ sym (any-every n xs)

  pub sort_by-rising :
      (xs : List A)
      → distinct xs ≡ true
      → every (λ x. ltb 0 (key x)) xs ≡ true
      → rising 0 (sort_by less xs) ≡ true
  unfolding sort_by
  sort_by-rising [] d e = refl
  sort_by-rising (x ∷ xs) d e =
      insert_by-rising 0 x (sort_by less xs) (ground (arith, e))
        (any-sort_by (key x) xs ∙ ground (arith, d))
        (sort_by-rising xs (ground (arith, d)) (ground (arith, e)))

  pub keep-sort_by :
      (q : A → Bool) (xs : List A)
      → distinct xs ≡ true
      → every (λ x. ltb 0 (key x)) xs ≡ true
      → sort_by less (keep q xs) ≡ keep q (sort_by less xs)
  unfolding sort_by
  keep-sort_by q [] d e = refl
  keep-sort_by q (x ∷ xs) d e = ground (
    arith,
    keep-sort_by q xs,
    keep-insert_by 0 q x (sort_by less xs)
        (sort_by-rising xs (ground (arith, d)) (ground (arith, e)))
        (any-sort_by (key x) xs ∙ ground (arith, d)),
  )

  pub last_key-le : (a n : ℕ) (xs : List A) → rising a xs ≡ true → a ≤ last_key a (take n xs)
  last_key-le a zero xs h = ground arith
  last_key-le a (suc n) [] h = ground arith
  last_key-le a (suc n) (x ∷ xs) h = ground (arith, last_key-le (key x) n xs)

  pub behind-all : (a : ℕ) (xs : List A) → every (λ y. ltb a (key y)) xs ≡ true → behind a xs ≡ xs
  behind-all a [] h = refl
  behind-all a (x ∷ xs) h = ground (arith, behind-all a xs)

  -- Behind the last number of a page stands what the page left.
  pub behind-drop :
      (a n : ℕ) (xs : List A) → rising a xs ≡ true → behind (last_key a (take n xs)) xs ≡ drop n xs
  behind-drop a zero xs h = behind-all a xs (rising-every a a xs (omega arith) h)
  behind-drop a (suc n) [] h = refl
  behind-drop a (suc n) (x ∷ xs) h =
      ground (arith, behind-drop (key x) n xs, last_key-le (key x) n xs)

  pub behind-behind : (a b : ℕ) (xs : List A) → a ≤ b → behind b (behind a xs) ≡ behind b xs
  behind-behind a b [] l = refl
  behind-behind a b (x ∷ xs) l = ground (arith, behind-behind a b xs)

  pub behind-rising : (a b : ℕ) (xs : List A) → rising a xs ≡ true → rising b (behind b xs) ≡ true
  behind-rising a b [] h = refl
  behind-rising a b (x ∷ xs) h =
      ground (arith, behind-rising (key x) b xs, behind-all b xs, rising-every (key x) b xs)

  any-keep : (p q : A → Bool) (xs : List A) → any p xs ≡ false → any p (keep q xs) ≡ false
  any-keep p q [] e = refl
  any-keep p q (x ∷ xs) e = ground (arith, any-keep p q xs)

  pub distinct-keep :
      (q : A → Bool) (xs : List A) → distinct xs ≡ true → distinct (keep q xs) ≡ true
  distinct-keep q [] d = refl
  distinct-keep q (x ∷ xs) d =
      ground (arith, distinct-keep q xs, any-keep (λ y. key y == key x) q xs)

module _ {A : Type 0} where
  pub take_none : (n : ℕ) (xs : List A) → 0 < n → take n xs ≡ [] → xs ≡ []
  take_none n [] l e = refl
  take_none zero (x ∷ xs) l e = ground (arith, l)
  take_none (suc n) (x ∷ xs) l e = ground (arith, e)

  pub length-drop_lt :
      (n : ℕ) (c : A) (rest xs : List A)
      → 0 < n
      → take n xs ≡ c ∷ rest
      → length (drop n xs) < length xs
  length-drop_lt zero c rest xs l e = omega (arith, l)
  length-drop_lt (suc n) c rest [] l e = ground (arith, e)
  length-drop_lt (suc n) c rest (x ∷ xs) l e =
      omega (arith, length-append (take n xs) (drop n xs), ap length (take-append-drop n xs))

  length-insert_by :
      (lt : A → A → Bool) (x : A) (xs : List A) → length (insert_by lt x xs) ≡ suc (length xs)
  unfolding insert_by
  length-insert_by lt x [] = refl
  length-insert_by lt x (y ∷ ys) = ground (arith, length-insert_by lt x ys)

  tally-insert_by :
      (p : A → Bool) (lt : A → A → Bool) (x : A) (xs : List A)
      → tally p (insert_by lt x xs) ≡ tally p (x ∷ xs)
  unfolding insert_by
  tally-insert_by p lt x [] = refl
  tally-insert_by p lt x (y ∷ ys) = ground (arith, tally-insert_by p lt x ys)

  pub tally-sort_by :
      (p : A → Bool) (lt : A → A → Bool) (xs : List A) → tally p (sort_by lt xs) ≡ tally p xs
  unfolding sort_by
  tally-sort_by p lt [] = refl
  tally-sort_by p lt (x ∷ xs) =
      ground (arith, tally-insert_by p lt x (sort_by lt xs), tally-sort_by p lt xs)

  pub tally-keep_le : (p q : A → Bool) (xs : List A) → tally p (keep q xs) ≤ tally p xs
  tally-keep_le p q [] = omega arith
  tally-keep_le p q (x ∷ xs) = ground (arith, tally-keep_le p q xs)

  pub tally-take_le : (p : A → Bool) (n : ℕ) (xs : List A) → tally p (take n xs) ≤ tally p xs
  tally-take_le p zero xs = omega arith
  tally-take_le p (suc n) [] = omega arith
  tally-take_le p (suc n) (x ∷ xs) = ground (arith, tally-take_le p n xs)

  pub length-sort_by : (lt : A → A → Bool) (xs : List A) → length (sort_by lt xs) ≡ length xs
  unfolding sort_by
  length-sort_by lt [] = refl
  length-sort_by lt (x ∷ xs) =
      omega (arith, length-insert_by lt x (sort_by lt xs), length-sort_by lt xs)

  pub keep-and : (p q : A → Bool) (xs : List A) → keep (λ x. p x && q x) xs ≡ keep q (keep p xs)
  keep-and p q [] = refl
  keep-and p q (x ∷ xs) = ground (arith, keep-and p q xs)
