-- ===== src/Repo/CandidateDetails/Dedupe.antt =====
-- The sources that are written are the last of each key.
use Prim.Native.String.{String}
use package.text.Mathlib.TextEquality.{eq_iff}
use fetch_bilibili.Prelude.{
  ℕ, ◌==◌, ◌≡◌, refl, ◌∙◌, ap, arith, Bool, true, not, ◌&&◌, ◌||◌, Option, none, some, List, [],
  ◌∷◌, map, first, any, every, if◌then◌else◌,
}
use fetch_bilibili.Repo.Models.{CandidateCreatorSource}
use fetch_bilibili.Repo.CandidateDetails.{
  source_key, same_key, put, dedupe_into, dedupe_candidate_sources,
}

-- The last source with a key, or another one if there is none.
abbrev pub last_with :
    String
    → Option CandidateCreatorSource
    → List CandidateCreatorSource
    → Option CandidateCreatorSource
last_with key o [] = o
last_with key o (s ∷ rest) = last_with key (if same_key key s then some s else o) rest

abbrev pub owned : ℕ → CandidateCreatorSource → CandidateCreatorSource
owned id s = record s { candidate_creator_id = id }

-- No key stands twice.
abbrev pub unique : List CandidateCreatorSource → Bool
unique [] = true
unique (s ∷ rest) = not (any (same_key (source_key s)) rest) && unique rest

first-put :
    (key : String) (s : CandidateCreatorSource) (items : List CandidateCreatorSource)
    → first (same_key key) (put s items)
      ≡ (if same_key key s then some s else first (same_key key) items)
first-put key s [] = refl
first-put key s (t ∷ rest) = ground (
  arith,
  first-put key s rest,
  eq_iff (source_key t) (source_key s),
  eq_iff (source_key s) key,
  eq_iff (source_key t) key,
)

any-put :
    (key : String) (s : CandidateCreatorSource) (items : List CandidateCreatorSource)
    → any (same_key key) (put s items) ≡ (same_key key s || any (same_key key) items)
any-put key s [] = refl
any-put key s (t ∷ rest) = ground (
  arith,
  any-put key s rest,
  eq_iff (source_key t) (source_key s),
  eq_iff (source_key s) key,
  eq_iff (source_key t) key,
)

unique-put :
    (s : CandidateCreatorSource) (items : List CandidateCreatorSource)
    → unique items ≡ true
    → unique (put s items) ≡ true
unique-put s [] u = refl
unique-put s (t ∷ rest) u = ground (
  arith,
  unique-put s rest,
  any-put (source_key t) s rest,
  eq_iff (source_key t) (source_key s),
  eq_iff (source_key s) (source_key t),
)

dedupe_into-first :
    (id : ℕ) (key : String) (items sources : List CandidateCreatorSource)
    → first (same_key key) (dedupe_into id items sources)
      ≡ last_with key (first (same_key key) items) (map (owned id) sources)
unfolding dedupe_into
dedupe_into-first id key items [] = refl
dedupe_into-first id key items (s ∷ rest) =
    dedupe_into-first id key (put (owned id s) items) rest
    ∙ ap (λ o. last_with key o (map (owned id) rest)) (first-put key (owned id s) items)

dedupe_into-unique :
    (id : ℕ) (items sources : List CandidateCreatorSource)
    → unique items ≡ true
    → unique (dedupe_into id items sources) ≡ true
unfolding dedupe_into
dedupe_into-unique id items [] u = u
dedupe_into-unique id items (s ∷ rest) u =
    dedupe_into-unique id (put (owned id s) items) rest (unique-put (owned id s) items u)

every-put :
    (p : CandidateCreatorSource → Bool) (s : CandidateCreatorSource)
    (items : List CandidateCreatorSource)
    → p s ≡ true
    → every p items ≡ true
    → every p (put s items) ≡ true
every-put p s [] e f = ground (arith, e)
every-put p s (t ∷ rest) e f = ground (arith, every-put p s rest)

dedupe_into-every :
    (id : ℕ) (items sources : List CandidateCreatorSource)
    → every (λ s. s.candidate_creator_id == id) items ≡ true
    → every (λ s. s.candidate_creator_id == id) (dedupe_into id items sources) ≡ true
unfolding dedupe_into
dedupe_into-every id items [] e = e
dedupe_into-every id items (s ∷ rest) e =
    dedupe_into-every id (put (owned id s) items) rest
      (every-put (λ s. s.candidate_creator_id == id) (owned id s) items (ground arith) e)

pub dedupe-every :
    (id : ℕ) (sources : List CandidateCreatorSource)
    → every (λ s. s.candidate_creator_id == id) (dedupe_candidate_sources id sources) ≡ true
unfolding dedupe_candidate_sources
dedupe-every id sources = dedupe_into-every id [] sources refl

-- The sources without duplicates: no key stands twice, and each key has the last of its sources,
-- which belongs to the candidate.
pub dedupe_keeps_last :
    (id : ℕ) (sources : List CandidateCreatorSource)
    → (unique (dedupe_candidate_sources id sources) ≡ true)
      × ((key : String)
          → first (same_key key) (dedupe_candidate_sources id sources)
            ≡ last_with key none (map (owned id) sources))
unfolding dedupe_candidate_sources
dedupe_keeps_last id sources =
    (dedupe_into-unique id [] sources refl, λ key. dedupe_into-first id key [] sources)
