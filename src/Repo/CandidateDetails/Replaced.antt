-- ===== src/Repo/CandidateDetails/Replaced.antt =====
-- What ReplaceSources leaves in the table.
use mathlib.Core.List.{append_assoc, append-nil}
use fetch_bilibili.Prelude.{
  ℕ, suc, ◌==◌, ◌≡◌, refl, ◌∙◌, sym, ap, arith, Bool, true, not, ◌&&◌, ◌||◌, Option, none, some,
  List, [], ◌∷◌, ◌++◌, map, keep, any, every, Bool-cases, inl, inr,
}
use fetch_bilibili.Repo.Models.{CandidateCreatorSource}
use fetch_bilibili.World.{
  Error, Outside, Result, ok, err, World, M, next, ◌>>=◌, ◌>>◌, return, answer, call, attempt,
}
use fetch_bilibili.Triples.{Ends, Triple, Triple-bind, Triple-return, Triple-call, Triple-weaken}
use fetch_bilibili.Repo.CandidateDetails.{
  dedupe_candidate_sources, Tables, begin, end_transaction, committed, transaction, source_row,
  insert_source, insert_sources, delete_sources, replace_sources,
}
use fetch_bilibili.Repo.CandidateDetails.Dedupe.{dedupe-every}

-- The source without what the database numbers and dates.
abbrev pub content : CandidateCreatorSource → CandidateCreatorSource
content s = record s { id = 0; created_at = 0 }

abbrev pub of_candidate : ℕ → CandidateCreatorSource → Bool
of_candidate id s = s.candidate_creator_id == id

-- The rows of a candidate, and those of the others.
abbrev pub rows : ℕ → World → List CandidateCreatorSource
rows id w = map content (keep (of_candidate id) w.candidate_sources)

abbrev pub other_rows : ℕ → World → List CandidateCreatorSource
other_rows id w = keep (λ s. not (of_candidate id s)) w.candidate_sources

pub any-append :
    {A : Type 0} (p : A → Bool) (xs ys : List A) → any p (xs ++ ys) ≡ (any p xs || any p ys)
any-append p [] ys = refl
any-append p (x ∷ xs) ys = ground (arith, any-append p xs ys)

keep-append :
    {A : Type 0} (p : A → Bool) (xs ys : List A) → keep p (xs ++ ys) ≡ keep p xs ++ keep p ys
keep-append p [] ys = refl
keep-append p (x ∷ xs) ys = ground (arith, keep-append p xs ys)

map-append : {A B : Type 0} (f : A → B) (xs ys : List A) → map f (xs ++ ys) ≡ map f xs ++ map f ys
map-append f [] ys = refl
map-append f (x ∷ xs) ys = ap (λ k. f x ∷ k) (map-append f xs ys)

-- Every source belongs to the candidate.
abbrev owned_by : ℕ → List CandidateCreatorSource → Bool
owned_by id xs = every (of_candidate id) xs

row-content :
    (id n now : ℕ) (s : CandidateCreatorSource)
    → of_candidate id s ≡ true
    → content (source_row n id now s) ≡ content s
row-content id n now s o =
    let e : id ≡ s.candidate_creator_id = ground (arith, o) in
    ap (λ k. content (record s { candidate_creator_id = k })) e

self : (id : ℕ) → (id == id) ≡ true
self id = ground arith

-- The world after a source is inserted.
abbrev with_row : ℕ → CandidateCreatorSource → World → World
with_row id s w = record w {
  candidate_sources =
      w.candidate_sources ++ source_row w.next_source_id id (w.outside.clock w.calls) s ∷ [];
  next_source_id = suc w.next_source_id;
}

rows-with_row :
    (id : ℕ) (s : CandidateCreatorSource) (w : World)
    → of_candidate id s ≡ true
    → rows id (with_row id s w) ≡ rows id w ++ content s ∷ []
rows-with_row id s w o =
    let row = source_row w.next_source_id id (w.outside.clock w.calls) s in
    ap (map content) (keep-append (of_candidate id) w.candidate_sources (row ∷ []))
    ∙ map-append content (keep (of_candidate id) w.candidate_sources)
        (keep (of_candidate id) (row ∷ []))
    ∙ ap (λ k. rows id w ++ k)
        (rw (self id)
          (ap (λ k. k ∷ []) (row-content id w.next_source_id (w.outside.clock w.calls) s o)))

others-with_row :
    (id : ℕ) (s : CandidateCreatorSource) (w : World)
    → other_rows id (with_row id s w) ≡ other_rows id w
others-with_row id s w =
    let row = source_row w.next_source_id id (w.outside.clock w.calls) s in
    keep-append (λ t. not (of_candidate id t)) w.candidate_sources (row ∷ [])
    ∙ ap (λ k. other_rows id w ++ k) (rw (self id) refl)
    ∙ append-nil (other_rows id w)

keep-keep-not : {A : Type 0} (p : A → Bool) (xs : List A) → keep p (keep (λ x. not (p x)) xs) ≡ []
keep-keep-not p [] = refl
keep-keep-not p (x ∷ xs) = ground (arith, keep-keep-not p xs)

keep-twice : {A : Type 0} (p : A → Bool) (xs : List A) → keep p (keep p xs) ≡ keep p xs
keep-twice p [] = refl
keep-twice p (x ∷ xs) = ground (arith, keep-twice p xs)

-- The candidate's rows and those of the others, told for a world in which they are `old` and `rest`.
abbrev IsWritten : ℕ → List CandidateCreatorSource → List CandidateCreatorSource → World → Type 0
IsWritten id old rest w = (rows id w ≡ old) × (other_rows id w ≡ rest)

-- The row has the candidate's key of the source, as the database compares them.
abbrev pub clash : Outside → ℕ → CandidateCreatorSource → CandidateCreatorSource → Bool
clash o id s t =
    t.candidate_creator_id == id
    && o.same_text t.source_type s.source_type
    && o.same_text t.source_value s.source_value

abbrev has_candidate : ℕ → World → Bool
has_candidate id w = any (λ c. c.id == id) w.candidates

module _ (id : ℕ) (rest : List CandidateCreatorSource) where
  insert_source-IsWritten :
      (s : CandidateCreatorSource) (old : List CandidateCreatorSource)
      → of_candidate id s ≡ true
      → Triple
          (IsWritten id old rest)
          (call (insert_source id s))
          (λ u. IsWritten id (old ++ content s ∷ []) rest)
          (λ w. Unit)
  insert_source-IsWritten s old o =
      Triple-call (insert_source id s) (record { run = inserted }) (λ w h. (h, tt))
    where
      inserted :
          (w : World)
          → IsWritten id old rest w
          → Ends (λ u. IsWritten id (old ++ content s ∷ []) rest) (λ w. Unit) (insert_source id s w)
      inserted w h = elim (Bool-cases (any (clash w.outside id s) w.candidate_sources)) [
        | inl c ↦ rw c tt
        | inr c ↦ elim (Bool-cases (has_candidate id w)) [
          | inl k ↦ rw c (
              rw k (
                rows-with_row id s w o ∙ ap (λ k. k ++ content s ∷ []) h.0,
                others-with_row id s w ∙ h.1,
              ))
          | inr k ↦ rw c (rw k tt)
        ]
      ]

  insert_sources-IsWritten :
      (xs old : List CandidateCreatorSource)
      → owned_by id xs ≡ true
      → Triple
          (IsWritten id old rest)
          (insert_sources id xs)
          (λ u. IsWritten id (old ++ map content xs) rest)
          (λ w. Unit)
  unfolding insert_sources
  insert_sources-IsWritten [] old o = Triple-return tt (λ w h. (h.0 ∙ sym (append-nil old), h.1))
  insert_sources-IsWritten (s ∷ xs) old o =
      Triple-bind (λ u. IsWritten id (old ++ content s ∷ []) rest)
        (insert_source-IsWritten s old (ground (arith, o)))
        (λ u.
          Triple-weaken (insert_sources-IsWritten xs (old ++ content s ∷ []) (ground (arith, o)))
            (λ w h. h) (λ v w h. (h.0 ∙ append_assoc old (content s ∷ []) (map content xs), h.1))
            (λ w h. h))

  replaced-IsWritten :
      (xs : List CandidateCreatorSource)
      → owned_by id xs ≡ true
      → Triple
          (λ w. other_rows id w ≡ rest)
          (do call (delete_sources id); insert_sources id xs)
          (λ u. IsWritten id (map content xs) rest)
          (λ w. Unit)
  replaced-IsWritten xs o =
      Triple-bind (λ u. IsWritten id [] rest)
        (Triple-call (delete_sources id)
          (record {
            run = λ w h. (
              ap (map content) (keep-keep-not (of_candidate id) w.candidate_sources),
              keep-twice (λ s. not (of_candidate id s)) w.candidate_sources ∙ h,
            );
          })
          (λ w h. (h, tt)))
        (λ u. insert_sources-IsWritten xs [] o)

-- The rows are the new ones and the call succeeded, or the tables are as they were and it failed.
abbrev pub AllOrNone : ℕ → List CandidateCreatorSource → World → Result (Unit {0}) × World → Type 0
AllOrNone id xs w (ok u, v) = (rows id v ≡ map content xs) × (other_rows id v ≡ other_rows id w)
AllOrNone id xs w (err e, v) =
    (v.candidate_sources ≡ w.candidate_sources) × (v.score_details ≡ w.score_details)

abbrev tables : World → Tables
tables w = (w.candidate_sources, w.score_details)

commit-AllOrNone :
    (id : ℕ) (xs : List CandidateCreatorSource) (w v : World) (o : Option Error)
    → IsWritten id (map content xs) (other_rows id w) v
    → AllOrNone id xs w ((attempt (answer o (return tt)) >>= committed (tables w)) v)
commit-AllOrNone id xs w v none h = h
commit-AllOrNone id xs w v (some e) h = (refl, refl)

end_transaction-AllOrNone :
    (id : ℕ) (xs : List CandidateCreatorSource) (w : World) (r : Result (Unit {0}) × World)
    → Ends (λ u. IsWritten id (map content xs) (other_rows id w)) (λ v. Unit) r
    → AllOrNone id xs w (end_transaction (tables w) r.0 r.1)
unfolding call
end_transaction-AllOrNone id xs w (err e, v) h = (refl, refl)
end_transaction-AllOrNone id xs w (ok u, v) h =
    commit-AllOrNone id xs w (record v { calls = suc v.calls }) (v.outside.fault v.calls) h

-- Whatever fails on the way: either the replacement succeeds, and the candidate's rows are the given
-- sources without duplicates, in their order, with the rows of the others as they were; or it fails,
-- and both tables of the candidates' details are as they were.
pub replace_sources-AllOrNone :
    (id : ℕ) (sources : List CandidateCreatorSource) (w : World)
    → AllOrNone id (dedupe_candidate_sources id sources) w (replace_sources id sources w)
unfolding replace_sources transaction call begin
replace_sources-AllOrNone id sources w = started (w.outside.fault w.calls)
  where
    body : M (Unit {0})
    body = do call (delete_sources id); insert_sources id (dedupe_candidate_sources id sources)

    started :
        (o : Option Error)
        → AllOrNone id (dedupe_candidate_sources id sources) w (
            next
              (answer o (λ w. (ok (tables w), w)) (record w { calls = suc w.calls }))
              (λ before. attempt body >>= end_transaction before))
    started (some e) = (refl, refl)
    started none =
        end_transaction-AllOrNone id (dedupe_candidate_sources id sources) w
          (body (record w { calls = suc w.calls }))
          ((replaced-IsWritten id (other_rows id w) (dedupe_candidate_sources id sources)
              (dedupe-every id sources)).run
            (record w { calls = suc w.calls }) refl)
