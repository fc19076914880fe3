-- ===== src/Discovery/Keywords/Saved.antt =====
-- How many rows the end of a run adds.
use Prim.Native.String.{String}
use fetch_bilibili.Prelude.{
  ℕ, suc, ◌+◌, ◌≤◌, ◌≡◌, refl, ap, arith, Bool, Option, none, some, List, [], ◌∷◌, length,
  length-append, change, Bool-cases, inl, inr, map,
}
use fetch_bilibili.Repo.Models.{CandidateCreator}
use fetch_bilibili.Repo.Candidates.{
  accepts, has_key, merged, inserted, with_defaults, upsert_found, upsert_row, upsert,
}
use fetch_bilibili.Discovery.Scorer.{score}
use fetch_bilibili.Discovery.Keywords.Aggregate.{
  KeywordCandidateAggregate, build_candidate, build_score_input, build_sources,
}
use fetch_bilibili.Discovery.Keywords.Run.{
  KeywordDiscoverer, save_aggregate, save_all, scored, of_candidate,
}
use fetch_bilibili.Discovery.Keywords.Table.{
  table, table-IsStore, find_by_id-Keeps, replace_sources-Keeps, replace_score_details-Keeps,
}
use fetch_bilibili.World.{M, ◌>>=◌}
use fetch_bilibili.Effects.{Keeps, Keeps-call, Keeps-return}
use fetch_bilibili.Triples.{
  Triple, Triple-bind, Triple-return, Triple-weaken, Triple-call, Triple-keeps,
}
use fetch_bilibili.Discovery.Keywords.Found.{HasAtMost}

length-change :
    {A : Type 0} (p : A → Bool) (f : A → A) (xs : List A) → length (change p f xs) ≡ length xs
length-change p f [] = refl
length-change p f (x ∷ xs) = ap suc (length-change p f xs)

-- Saving adds at most one row for each aggregate.
abbrev pub Adds : {A : Type 0} → ℕ → ℕ → M A → Type 0
Adds k j m = Triple (HasAtMost k) m (λ a. HasAtMost j) (HasAtMost j)

pub Adds-Keeps : {A : Type 0} (k : ℕ) {m : M A} → Keeps table m → Adds k k m
Adds-Keeps k h = Triple-keeps table (λ t. length t ≤ k) h

Adds-bind :
    {A B : Type 0} (k i j : ℕ) {m : M A} {f : A → M B}
    → i ≤ j
    → Adds k i m
    → ((a : A) → Adds i j (f a))
    → Adds k j (m >>= f)
Adds-bind k i j {m = m} {f = f} l t u =
    Triple-bind (λ a. HasAtMost i) {m = m} {f = f}
      (Triple-weaken t (λ w p. p) (λ a w p. p) (λ w p. omega (arith, l, p))) u

upsert_found-Adds :
    (k : ℕ) (c : CandidateCreator) (o : Option CandidateCreator) → Adds k (suc k) (upsert_found c o)
upsert_found-Adds k c none = record {
  run = λ w p. omega (
    arith,
    p,
    length-append w.candidates (inserted w.next_candidate_id (w.outside.clock w.calls) c ∷ []),
  );
}
upsert_found-Adds k c (some old) = record {
  run = λ w p. omega (
    arith,
    p,
    length-change (has_key c.platform c.uid) (merged (w.outside.clock w.calls) c) w.candidates,
  );
}

upsert_row-Adds :
    (k : ℕ) (c : CandidateCreator) → Adds k (suc k) (λ w. upsert_row (with_defaults w c) w)
upsert_row-Adds k c = record {
  run = λ w p. elim (Bool-cases (accepts (with_defaults w c))) [
    | inl q ↦ rw q ((upsert_found-Adds k (with_defaults w c) _).run w p)
    | inr q ↦ rw q (omega (arith, p))
  ];
}

upsert-Adds : (k : ℕ) (c : CandidateCreator) → Adds k (suc k) (upsert c)
unfolding upsert
upsert-Adds k c =
    Adds-bind k (suc k) (suc k) (omega arith)
      (Triple-call _ (upsert_row-Adds k c) (λ w p. (p, omega (arith, p))))
      (λ id.
        Adds-bind (suc k) (suc k) (suc k) (omega arith)
          (Adds-Keeps (suc k) (Keeps-call table-IsStore _ (Keeps-return table id)))
          (λ id'. Adds-Keeps (suc k) (find_by_id-Keeps id')))

save_aggregate-Adds :
    (k : ℕ) (d : KeywordDiscoverer) (at : ℕ) (a : KeywordCandidateAggregate)
    → Adds k (suc k) (save_aggregate d at a)
unfolding save_aggregate
save_aggregate-Adds k d at a =
    let r = score d.texts.trim d.weights d.scorer_version (build_score_input d.texts a at) in
    Adds-bind k (suc k) (suc k) (omega arith)
      (upsert-Adds k (scored r at (build_candidate d.texts a at d.score_version)))
      (λ c.
        Adds-bind (suc k) (suc k) (suc k) (omega arith)
          (Adds-Keeps (suc k) (replace_sources-Keeps c.id (build_sources d.encode a c.id)))
          (λ u.
            Adds-Keeps (suc k)
              (replace_score_details-Keeps c.id (map (of_candidate c.id) r.details))))

pub save_all-Adds :
    (k j : ℕ) (d : KeywordDiscoverer) (at : ℕ) (xs : List (String × KeywordCandidateAggregate))
    → k + length xs ≡ j
    → Adds k j (save_all d at xs)
unfolding save_all
save_all-Adds k j d at [] e = Triple-return tt (λ w p. omega (arith, p, e))
save_all-Adds k j d at ((uid, a) ∷ xs) e =
    Adds-bind k (suc k) j (omega (arith, e)) (save_aggregate-Adds k d at a)
      (λ u. save_all-Adds (suc k) j d at xs (omega (arith, e)))
