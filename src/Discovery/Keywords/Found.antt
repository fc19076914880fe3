-- ===== src/Discovery/Keywords/Found.antt =====
-- How many creators the search of a run keeps.
use Prim.Native.String.{String}
use package.text.Mathlib.Text.{◌==◌ as str_eq}
use fetch_bilibili.Prelude.{
  ℕ, zero, suc, ◌≤◌, ◌≡◌, refl, ap, arith, Bool, true, false, Option, none, some, List, [], ◌∷◌,
  length, Bool-cases, inl, inr,
}
use fetch_bilibili.Prelude.Int.{pos}
use fetch_bilibili.Repo.Models.{CandidateCreator}
use fetch_bilibili.Repo.Videos.{limit_or}
use fetch_bilibili.Discovery.Keywords.{KeywordPageHit, merge_keyword_page}
use fetch_bilibili.Discovery.Keywords.Aggregate.{
  KeywordCandidateAggregate, merge, new_keyword_candidate_aggregate,
}
use fetch_bilibili.Discovery.Keywords.Run.{
  KeywordDiscoverer, SearchProgress, find_key, put_key, is_over, is_blocked, add_new, visited,
  cached, visit_hit, visit_hits, search_creators, search_videos, search_pages, search_keywords,
}
use fetch_bilibili.Discovery.Keywords.Table.{table, look_up-Keeps}
use fetch_bilibili.World.{World, M, ◌>>=◌, return}
use fetch_bilibili.Effects.{Keeps}
use fetch_bilibili.Triples.{Triple, Triple-bind, Triple-return, Triple-weaken, Triple-keeps}

module _ {A : Type 0} (key : String) (a : A) where
  length-put_key_le : (xs : List (String × A)) → length (put_key key a xs) ≤ suc (length xs)
  length-put_key_le [] = ground arith
  length-put_key_le ((k, b) ∷ xs) = elim (Bool-cases (str_eq k key)) [
    | inl e ↦ rw e (omega arith)
    | inr e ↦ rw e (omega (arith, length-put_key_le xs))
  ]

  length-put_key_found :
      (b : A) (xs : List (String × A))
      → find_key key xs ≡ some b
      → length (put_key key a xs) ≡ length xs
  length-put_key_found b [] f = absurd (ground (arith, f))
  length-put_key_found b ((k, c) ∷ xs) f = elim (Bool-cases (str_eq k key)) [
    | inl e ↦ rw e refl
    | inr e ↦ rw e (ap suc (length-put_key_found b xs (ground (arith, f, e))))
  ]

-- The table has at most so many candidates.
abbrev pub HasAtMost : ℕ → World → Type 0
HasAtMost k w = length w.candidates ≤ k

-- The operation adds no candidate, and its result is as said.
abbrev pub Finds : {A : Type 0} → ℕ → (A → Type 0) → M A → Type 0
Finds k P m = Triple (HasAtMost k) m (λ a w. HasAtMost k w × P a) (HasAtMost k)

module _ (k : ℕ) where
  Finds-return : {A : Type 0} {P : A → Type 0} (a : A) → P a → Finds k P (return a)
  Finds-return a p = Triple-return a (λ w h. (h, p))

  Finds-bind :
      {A B : Type 0} (P : A → Type 0) {Q : B → Type 0} {m : M A} {f : A → M B}
      → Finds k P m
      → ((a : A) → P a → Finds k Q (f a))
      → Finds k Q (m >>= f)
  Finds-bind P {m = m} {f = f} t u =
      Triple-bind (λ a w. HasAtMost k w × P a) {m = m} {f = f} t
        (λ a. record { run = λ w h. (u a h.1).run w h.0 })

  Finds-Keeps : {A : Type 0} {m : M A} → Keeps table m → Finds k (λ a. Unit {0}) m
  Finds-Keeps h =
      Triple-weaken (Triple-keeps table (λ t. length t ≤ k) h) (λ w p. p) (λ a w p. (p, tt))
        (λ w p. p)

  Finds-elim :
      {A : Type 0} {P : A → Type 0} (b : Bool) {m n : M A}
      → Finds k P m
      → Finds k P n
      → Finds k P (elim b [ true ↦ m | false ↦ n ])
  Finds-elim true t u = t
  Finds-elim false t u = u

search_creators-Keeps :
    (d : KeywordDiscoverer) (keyword : String) (page : ℕ)
    → Keeps table (search_creators d keyword page)
unfolding search_creators
search_creators-Keeps d keyword page = record { kept = λ w. refl }

search_videos-Keeps :
    (d : KeywordDiscoverer) (keyword : String) (page : ℕ)
    → Keeps table (search_videos d keyword page)
unfolding search_videos
search_videos-Keeps d keyword page = record { kept = λ w. refl }

-- The run has no more candidates than it may have.
abbrev pub Fits : ℕ → SearchProgress → Type 0
Fits n p = length p.aggregates ≤ suc n

abbrev FitsNext : ℕ → Bool × SearchProgress → Type 0
FitsNext n r = Fits n r.1

module _ (k n : ℕ) (d : KeywordDiscoverer) (e : d.max_candidates_per_run ≡ pos (suc n)) where
  added :
      (hit : KeywordPageHit) (p : SearchProgress) (found : Option CandidateCreator)
      → length p.aggregates ≤ n
      → Fits n (add_new d hit found p)
  added hit p found h = omega (
    arith,
    h,
    length-put_key_le hit.key (merge d.texts hit (new_keyword_candidate_aggregate found))
        p.aggregates,
  )

  visited-Finds :
      (hit : KeywordPageHit) (p : SearchProgress) (found : Option CandidateCreator)
      → Fits n p
      → Finds k (FitsNext n) (visited d hit p found)
  visited-Finds hit p found f = elim (Bool-cases (is_blocked found)) [
    | inl b ↦ rw b (Finds-return k _ f)
    | inr b ↦ elim (Bool-cases (is_over d.max_candidates_per_run p)) [
      | inl o ↦ rw b (rw o (Finds-return k _ f))
      | inr o ↦ rw b (rw o (Finds-return k _ (added hit p found (ground (arith, o, e)))))
    ]
  ]

  visit_hit-Finds :
      (hit : KeywordPageHit) (p : SearchProgress) (o : Option KeywordCandidateAggregate)
      → find_key hit.key p.aggregates ≡ o
      → Fits n p
      → Finds k (FitsNext n) (visit_hit d hit p o)
  visit_hit-Finds hit p (some a) q f = Finds-return k _ (
      omega (
        arith,
        f,
        ap (λ x. x) (length-put_key_found hit.key (merge d.texts hit a) a p.aggregates q),
      ))
  visit_hit-Finds hit p none q f =
      Finds-bind k (λ a. Unit {0}) (Finds-Keeps k (look_up-Keeps _ _))
        (λ c u. visited-Finds hit (cached hit.key c p) c f)

  visit_hits-Finds :
      (hits : List KeywordPageHit) (p : SearchProgress)
      → Fits n p
      → Finds k (FitsNext n) (visit_hits d hits p)
  unfolding visit_hits
  visit_hits-Finds [] p f = Finds-return k _ f
  visit_hits-Finds (hit ∷ rest) p f =
      Finds-bind k (FitsNext n) (visit_hit-Finds hit p _ refl f)
        (λ r g. Finds-elim k r.0 (Finds-return k _ g) (visit_hits-Finds rest r.1 g))

  search_pages-Finds :
      (keyword : String) (left page : ℕ) (p : SearchProgress)
      → Fits n p
      → Finds k (FitsNext n) (search_pages d keyword left page p)
  unfolding search_pages
  search_pages-Finds keyword zero page p f = Finds-return k _ f
  search_pages-Finds keyword (suc left) page p f =
      Finds-bind k (λ a. Unit {0}) (Finds-Keeps k (search_creators-Keeps d keyword page))
        (λ cs u.
          Finds-bind k (λ a. Unit {0}) (Finds-Keeps k (search_videos-Keeps d keyword page))
            (λ vs v. Finds-elim k _ (Finds-return k _ f) (
              Finds-bind k (FitsNext n)
                (visit_hits-Finds (merge_keyword_page d.texts keyword cs vs) p f)
                (λ r g.
                  Finds-elim k r.0 (Finds-return k _ g)
                    (search_pages-Finds keyword left (suc page) r.1 g)))))

  pub search_keywords-Finds :
      (keywords : List String) (p : SearchProgress)
      → Fits n p
      → Finds k (Fits n) (search_keywords d keywords p)
  unfolding search_keywords
  search_keywords-Finds [] p f = Finds-return k _ f
  search_keywords-Finds (keyword ∷ rest) p f =
      Finds-bind k (FitsNext n)
        {f = λ r. elim r.0 [ true ↦ return r.1 | false ↦ search_keywords d rest r.1 ]}
        (search_pages-Finds keyword (limit_or 1 d.max_pages_per_keyword) 1 p f)
        (λ r g. Finds-elim k r.0 (Finds-return k r.1 g) (search_keywords-Finds rest r.1 g))
