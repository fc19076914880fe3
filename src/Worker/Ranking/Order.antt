-- ===== src/Worker/Ranking/Order.antt =====
-- The order in which a cleanup takes its candidates.
use fetch_bilibili.Prelude.{
  ℕ, ltb, ◌==◌, ◌≡◌, refl, arith, Bool, true, false, not, ◌&&◌, ◌||◌, List, [], ◌∷◌, if◌then◌else◌,
}
use fetch_bilibili.Prelude.Int.{eqb_ℤ, ltb_ℤ}
use fetch_bilibili.Prelude.Sort.{IsWeakOrder}
use fetch_bilibili.Repo.Models.{CleanupCandidate}
use fetch_bilibili.Worker.Ranking.{
  is_rare, codes, lt_codes, eq_codes, bool_eq, less_cleanup_candidate,
}
use fetch_bilibili.Worker.Ranking.Lexicographic.{Ranks, Ranks-then}

module _ {A K : Type 0} {same before : K → K → Bool} where
  -- Ranking by a key.
  Ranks-on :
      (f : A → K) → Ranks same before → Ranks (λ a b. same (f a) (f b)) (λ a b. before (f a) (f b))
  Ranks-on f r = record {
    reflexive = λ a. r.reflexive (f a);
    symmetric = λ a b. r.symmetric (f a) (f b);
    transitive = λ a b c. r.transitive (f a) (f b) (f c);
    irreflexive = λ a b. r.irreflexive (f a) (f b);
    chained = λ a b c. r.chained (f a) (f b) (f c);
    left = λ a b c. r.left (f a) (f b) (f c);
    right = λ a b c. r.right (f a) (f b) (f c);
    total = λ a b. r.total (f a) (f b);
  }

-- What is not rare comes first.
Bool-Ranks : Ranks bool_eq (λ a b. not a && b)
Bool-Ranks = record {
  reflexive = λ a. ground arith;
  symmetric = λ a b. ground arith;
  transitive = λ a b c h k. ground arith;
  irreflexive = λ a b h. ground arith;
  chained = λ a b c h k. ground arith;
  left = λ a b c h. ground arith;
  right = λ a b c h. ground arith;
  total = λ a b h. ground arith;
}

ℤ-Ranks : Ranks eqb_ℤ ltb_ℤ
ℤ-Ranks = record {
  reflexive = λ a. ground arith;
  symmetric = λ a b. ground arith;
  transitive = λ a b c h k. ground arith;
  irreflexive = λ a b h. ground arith;
  chained = λ a b c h k. ground arith;
  left = λ a b c h. ground arith;
  right = λ a b c h. ground arith;
  total = λ a b h. ground arith;
}

-- Larger files first.
descending-Ranks : Ranks eqb_ℤ (λ a b. ltb_ℤ b a)
descending-Ranks = record {
  reflexive = λ a. ground arith;
  symmetric = λ a b. ground arith;
  transitive = λ a b c h k. ground arith;
  irreflexive = λ a b h. ground arith;
  chained = λ a b c h k. ground arith;
  left = λ a b c h. ground arith;
  right = λ a b c h. ground arith;
  total = λ a b h. ground arith;
}

ℕ-Ranks : Ranks ◌==◌ ltb
ℕ-Ranks = record {
  reflexive = λ a. ground arith;
  symmetric = λ a b. ground arith;
  transitive = λ a b c h k. ground arith;
  irreflexive = λ a b h. ground arith;
  chained = λ a b c h k. ground arith;
  left = λ a b c h. ground arith;
  right = λ a b c h. ground arith;
  total = λ a b h. ground arith;
}

-- Texts are ranked by their first codes, and then by the rest.
symmetric_codes : (a b : List ℕ) → eq_codes a b ≡ eq_codes b a
symmetric_codes [] [] = refl
symmetric_codes [] (y ∷ b) = refl
symmetric_codes (x ∷ a) [] = refl
symmetric_codes (x ∷ a) (y ∷ b) = ground (arith, symmetric_codes a b)

reflexive_codes : (a : List ℕ) → eq_codes a a ≡ true
reflexive_codes [] = refl
reflexive_codes (x ∷ a) = ground (arith, reflexive_codes a)

eq_of_codes : (a b : List ℕ) → eq_codes a b ≡ true → a ≡ b
eq_of_codes [] [] h = refl
eq_of_codes [] (y ∷ b) h = cc
eq_of_codes (x ∷ a) [] h = cc
eq_of_codes (x ∷ a) (y ∷ b) h = ground (arith, eq_of_codes a b)

irreflexive_codes : (a : List ℕ) → lt_codes a a ≡ false
irreflexive_codes [] = refl
irreflexive_codes (x ∷ a) = ground (arith, irreflexive_codes a)

chained_codes : (a b c : List ℕ) → lt_codes a b ≡ true → lt_codes b c ≡ true → lt_codes a c ≡ true
chained_codes [] [] c h k = cc
chained_codes [] (y ∷ b) [] h k = cc
chained_codes [] (y ∷ b) (z ∷ c) h k = refl
chained_codes (x ∷ a) [] c h k = cc
chained_codes (x ∷ a) (y ∷ b) [] h k = cc
chained_codes (x ∷ a) (y ∷ b) (z ∷ c) h k = ground (arith, chained_codes a b c)

total_codes : (a b : List ℕ) → eq_codes a b ≡ false → lt_codes a b ≡ not (lt_codes b a)
total_codes [] [] h = cc
total_codes [] (y ∷ b) h = refl
total_codes (x ∷ a) [] h = refl
total_codes (x ∷ a) (y ∷ b) h = ground (arith, total_codes a b)

codes-Ranks : Ranks eq_codes lt_codes
codes-Ranks = record {
  reflexive = reflexive_codes;
  symmetric = symmetric_codes;
  transitive = λ a b c h k. rw (eq_of_codes a b h) k;
  irreflexive = λ a b h. rw (eq_of_codes a b h) (irreflexive_codes b);
  chained = chained_codes;
  left = λ a b c h. rw (eq_of_codes a b h);
  right = λ a b c h. rw (eq_of_codes b c h);
  total = total_codes;
}

-- All seven keys.
abbrev alike : CleanupCandidate → CleanupCandidate → Bool
alike a b =
    bool_eq (is_rare a.state) (is_rare b.state)
    && (eqb_ℤ a.creator_follower_count b.creator_follower_count
        && (eqb_ℤ a.view_count b.view_count
            && (eqb_ℤ a.favorite_count b.favorite_count
                && (eqb_ℤ a.file_size_bytes b.file_size_bytes
                    && (eq_codes (codes a.title) (codes b.title) && (a.file_id == b.file_id))))))

less-Ranks : Ranks alike less_cleanup_candidate
unfolding less_cleanup_candidate
less-Ranks = Ranks-then (Ranks-on (λ c. is_rare c.state) Bool-Ranks) (
    Ranks-then (Ranks-on (λ c. c.creator_follower_count) ℤ-Ranks) (
      Ranks-then (Ranks-on (λ c. c.view_count) ℤ-Ranks) (
        Ranks-then (Ranks-on (λ c. c.favorite_count) ℤ-Ranks) (
          Ranks-then (Ranks-on (λ c. c.file_size_bytes) descending-Ranks) (
            Ranks-then (Ranks-on (λ c. codes c.title) codes-Ranks)
              (Ranks-on (λ c. c.file_id) ℕ-Ranks))))))

module _ {A : Type 0} {same before : A → A → Bool} (r : Ranks same before) where
  Ranks-asym : (a b : A) → before a b ≡ true → before b a ≡ false
  Ranks-asym a b h = ground (arith, r.chained a b a, r.irreflexive a a, r.reflexive a)

  Ranks-weak : (a b c : A) → before b a ≡ false → before c b ≡ false → before c a ≡ false
  Ranks-weak a b c h k = ground (
    arith,
    r.total b a,
    r.total c b,
    r.left b a c,
    r.right c a b,
    r.chained a b c,
    Ranks-asym c a,
    r.symmetric b a,
    r.left c b a,
    r.right c b a,
  )

  pub Ranks-IsWeakOrder : IsWeakOrder before
  Ranks-IsWeakOrder = record { asym = Ranks-asym; weak = Ranks-weak }

pub less-IsWeakOrder : IsWeakOrder less_cleanup_candidate
less-IsWeakOrder = Ranks-IsWeakOrder less-Ranks

rare_last :
    (a b : CleanupCandidate)
    → (is_rare a.state && not (is_rare b.state) && less_cleanup_candidate a b) ≡ false
unfolding less_cleanup_candidate
rare_last a b = rare_cases (is_rare a.state) (is_rare b.state) _
  where
    rare_cases :
        (x y : Bool) (rest : Bool)
        → (x && not y && (if not (bool_eq x y) then not x && y else rest)) ≡ false
    rare_cases x y rest = ground arith

-- The comparison of cleanup candidates is irreflexive and transitive, and of two candidates with
-- different file ids one comes before the other; a rare video never comes before one that is not.
pub less_strict_order :
    (a b c : CleanupCandidate)
    → (less_cleanup_candidate a a ≡ false)
      × ((less_cleanup_candidate a b
            && less_cleanup_candidate b c
            && not (less_cleanup_candidate a c))
          ≡ false)
      × ((less_cleanup_candidate a b || less_cleanup_candidate b a || (a.file_id == b.file_id))
          ≡ true)
      × ((is_rare a.state && not (is_rare b.state) && less_cleanup_candidate a b) ≡ false)
less_strict_order a b c = (
  less-Ranks.irreflexive a a (less-Ranks.reflexive a),
  ground (arith, less-Ranks.chained a b c),
  ground (arith, less-Ranks.total a b),
  rare_last a b,
)
