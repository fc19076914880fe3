-- ===== src/Discovery/Keywords/Bounds.antt =====
-- How many candidates a run finds and adds.
use Prim.Native.String.{String}
use fetch_bilibili.Prelude.{ℕ, suc, ◌+◌, ◌≤◌, ◌≡◌, refl, arith, not, List, [], ◌∷◌, length}
use fetch_bilibili.Prelude.Int.{pos}
use fetch_bilibili.Discovery.Keywords.Run.{
  KeywordDiscoverer, KeywordDiscoverResult, SearchProgress, save_all, search_and_save, discover,
}
use fetch_bilibili.Discovery.Keywords.Table.{table-IsStore}
use fetch_bilibili.World.{Result, World, M, ◌>>=◌, ◌>>◌, return, now, not_initialized}
use fetch_bilibili.Effects.{Keeps-now}
use fetch_bilibili.Triples.{
  Ends, Triple, Triple-bind, Triple-return, Triple-throw, Triple-weaken, Triple-if,
}
use fetch_bilibili.Discovery.Keywords.Found.{HasAtMost, Fits, search_keywords-Finds}
use fetch_bilibili.Discovery.Keywords.Saved.{Adds-Keeps, save_all-Adds}

-- A run that found so many creators added no more rows than these; one that failed, no more than the
-- limit.
abbrev pub WithinLimit : ℕ → ℕ → Result KeywordDiscoverResult × World → Type 0
WithinLimit k limit =
    Ends (λ r w. (r.discovered ≤ limit) × HasAtMost (k + r.discovered) w) (HasAtMost (k + limit))

module _ (k n : ℕ) (d : KeywordDiscoverer) (e : d.max_candidates_per_run ≡ pos (suc n)) where
  abbrev IsLimited : M KeywordDiscoverResult → Type 0
  IsLimited m =
      Triple (HasAtMost k) m (λ r w. (r.discovered ≤ suc n) × HasAtMost (k + r.discovered) w)
        (HasAtMost (k + suc n))

  save_found :
      (p : SearchProgress) (r : KeywordDiscoverResult)
      → r.discovered ≡ length p.aggregates
      → Fits n p
      → IsLimited (do at ← now; save_all d at p.aggregates; return r)
  save_found p r q f =
      Triple-bind (λ at. HasAtMost k)
        (Triple-weaken (Adds-Keeps k (Keeps-now table-IsStore)) (λ w h. h) (λ at w h. h)
          (λ w h. omega (arith, h)))
        (λ at.
          Triple-bind (λ u. HasAtMost (k + length p.aggregates))
            (Triple-weaken (save_all-Adds k (k + length p.aggregates) d at p.aggregates refl)
              (λ w h. h) (λ u w h. h) (λ w h. omega (arith, h, f)))
            (λ u. Triple-return r (λ w h. (omega (arith, q, f), omega (arith, q, h)))))

  search_and_save-IsLimited : (keywords : List String) → IsLimited (search_and_save d keywords)
  search_and_save-IsLimited [] = Triple-return _ (λ w p. (omega arith, omega (arith, p)))
  search_and_save-IsLimited (x ∷ xs) =
      Triple-bind (λ p w. HasAtMost k w × Fits n p)
        (Triple-weaken (search_keywords-Finds k n d e (x ∷ xs) _ (omega arith)) (λ w h. h)
          (λ p w h. h) (λ w h. omega (arith, h)))
        (λ p. record { run = λ w h. (save_found p _ refl h.1).run w h.0 })

-- With a limit of creators for each run, a run finds no more creators than that, and adds no more
-- rows to candidate_creators than it finds; and a run that fails, no more rows than the limit.
pub discover_limited :
    (d : KeywordDiscoverer) (n : ℕ) (w : World)
    → d.max_candidates_per_run ≡ pos (suc n)
    → WithinLimit (length w.candidates) (suc n) (discover d w)
unfolding discover
discover_limited d n w e =
    (Triple-if (not d.has_parts) (Triple-throw not_initialized (λ v h. omega (arith, h)))
        (search_and_save-IsLimited (length w.candidates) n d e _)).run
      w (omega arith)
