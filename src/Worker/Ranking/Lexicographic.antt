-- ===== src/Worker/Ranking/Lexicographic.antt =====
-- Comparisons key by key: each key comes with a test for being alike and a test for coming before.
use fetch_bilibili.Prelude.{◌≡◌, arith, Bool, true, false, not, ◌&&◌, if◌then◌else◌}

-- `same` is an equivalence, and `before` is a strict order that is total up to it.
pub record Ranks {A : Type 0} (same before : A → A → Bool) : Type 0 where
  pub reflexive : (a : A) → same a a ≡ true
  pub symmetric : (a b : A) → same a b ≡ same b a
  pub transitive : (a b c : A) → same a b ≡ true → same b c ≡ true → same a c ≡ true
  pub irreflexive : (a b : A) → same a b ≡ true → before a b ≡ false
  pub chained : (a b c : A) → before a b ≡ true → before b c ≡ true → before a c ≡ true
  pub left : (a b c : A) → same a b ≡ true → before a c ≡ before b c
  pub right : (a b c : A) → same b c ≡ true → before a b ≡ before a c
  pub total : (a b : A) → same a b ≡ false → before a b ≡ not (before b a)

module _ {A : Type 0} {same before same' before' : A → A → Bool} where
  -- The second key decides where the first is alike.
  pub Ranks-then :
      Ranks same before
      → Ranks same' before'
      → Ranks
          (λ a b. same a b && same' a b)
          (λ a b. if not (same a b) then before a b else before' a b)
  Ranks-then r s = record {
    reflexive = λ a. ground (arith, r.reflexive a, s.reflexive a);
    symmetric = λ a b. ground (arith, r.symmetric a b, s.symmetric a b);
    transitive = λ a b c h k. ground (arith, r.transitive a b c, s.transitive a b c);
    irreflexive = λ a b h. ground (arith, s.irreflexive a b);
    chained = λ a b c h k. ground (
      arith,
      r.chained a b c,
      s.chained a b c,
      r.left a b c,
      r.right a b c,
      r.transitive a b c,
      r.symmetric a b,
      r.symmetric b c,
      r.irreflexive a c,
      r.transitive b a c,
      r.transitive a c b,
      r.symmetric a c,
    );
    left = λ a b c h. ground (
      arith,
      r.left a b c,
      s.left a b c,
      r.transitive a b c,
      r.transitive b a c,
      r.symmetric a b,
    );
    right = λ a b c h. ground (
      arith,
      r.right a b c,
      s.right a b c,
      r.transitive a b c,
      r.transitive a c b,
      r.symmetric b c,
    );
    total = λ a b h. ground (arith, r.total a b, s.total a b, r.symmetric a b);
  }
