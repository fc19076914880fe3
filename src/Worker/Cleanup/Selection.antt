-- ===== src/Worker/Cleanup/Selection.antt =====
-- Which candidates a cleanup deletes, and when it stops.
use mathlib.Core.Path.{subst}
use fetch_bilibili.Prelude.{
  ◌≡◌, refl, ap, true, false, List, [], ◌∷◌, ◌++◌, All, Bool-cases, ◌⊎◌, inl, inr,
}
use fetch_bilibili.Prelude.Int.{ℤ, leb_ℤ}
use fetch_bilibili.Prelude.Sort.{Sorted}
use fetch_bilibili.World.{World}
use fetch_bilibili.Repo.Models.{CleanupCandidate}
use fetch_bilibili.Worker.Handler.{Handler}
use fetch_bilibili.Worker.Ranking.{less_cleanup_candidate}
use fetch_bilibili.Worker.Ranking.Order.{less-IsWeakOrder}
use fetch_bilibili.Worker.Deletion.{delete_cleanup_candidate}
use fetch_bilibili.Worker.Cleanup.{Progress, add_progress, clean, StableSort}

-- Deleting every candidate of a list in turn, with no test of the target.
unfoldable pub delete_all : Handler → List CleanupCandidate → Progress → World → Progress × World
delete_all h [] p w = (p, w)
delete_all h (c ∷ rest) p w =
    delete_all h rest (add_progress (delete_cleanup_candidate h c w).0 p)
      (delete_cleanup_candidate h c w).1

-- Before each candidate of the list the target is not reached.
abbrev pub NeedsAll : Handler → ℤ → List CleanupCandidate → Progress → World → Type 0
NeedsAll h target [] p w = Unit
NeedsAll h target (c ∷ rest) p w =
    (leb_ℤ target p.freed_bytes ≡ false)
    × NeedsAll h target rest (add_progress (delete_cleanup_candidate h c w).0 p)
        (delete_cleanup_candidate h c w).1

-- How the loop splits its candidates.
pub record Split (h : Handler) (target : ℤ) (cs : List CleanupCandidate) (p : Progress) (w : World)
    : Type 0 where
  pub tried : List CleanupCandidate
  pub untried : List CleanupCandidate
  pub together : cs ≡ tried ++ untried
  pub same_result : clean h target cs p w ≡ delete_all h tried p w
  pub needed : NeedsAll h target tried p w
  pub enough : (untried ≡ []) ⊎ (leb_ℤ target (delete_all h tried p w).0.freed_bytes ≡ true)

clean_splits :
    (h : Handler) (target : ℤ) (cs : List CleanupCandidate) (p : Progress) (w : World)
    → Split h target cs p w
unfolding clean delete_all
clean_splits h target [] p w = record {
  tried = [];
  untried = [];
  together = refl;
  same_result = refl;
  needed = tt;
  enough = inl refl;
}
clean_splits h target (c ∷ rest) p w = elim (Bool-cases (leb_ℤ target p.freed_bytes)) [
  | inl done ↦ record {
    tried = [];
    untried = c ∷ rest;
    together = refl;
    same_result = rw (done, clean) refl;
    needed = tt;
    enough = inr done;
  }
  | inr more ↦
      let r =
        clean_splits h target rest (add_progress (delete_cleanup_candidate h c w).0 p)
          (delete_cleanup_candidate h c w).1 in
      record {
        tried = c ∷ r.tried;
        untried = r.untried;
        together = ap (λ l. c ∷ l) r.together;
        same_result = rw (more, clean) r.same_result;
        needed = (more, r.needed);
        enough = r.enough;
      }
]

abbrev pub NotBefore : CleanupCandidate → CleanupCandidate → Type 0
NotBefore d u = less_cleanup_candidate u d ≡ false

All-of_append_right :
    (P : CleanupCandidate → Type 0) (xs ys : List CleanupCandidate) → All P (xs ++ ys) → All P ys
All-of_append_right P [] ys h = h
All-of_append_right P (x ∷ xs) ys h = All-of_append_right P xs ys h.1

Sorted-split :
    (xs ys : List CleanupCandidate)
    → Sorted less_cleanup_candidate (xs ++ ys)
    → All (λ d. All (NotBefore d) ys) xs
Sorted-split [] ys h = tt
Sorted-split (x ∷ xs) ys h = (All-of_append_right (NotBefore x) xs ys h.0, Sorted-split xs ys h.1)

module _ (s : StableSort) where
  -- The loop over the sorted candidates deletes a first part of them, as if without any test: as
  -- long as the target is not reached, and no longer unless none is left. No candidate that it
  -- leaves comes before one that it takes.
  pub clean_takes_first :
      (h : Handler) (target : ℤ) (cs : List CleanupCandidate) (p : Progress) (w : World)
      → (r : Split h target (s.sort less_cleanup_candidate cs) p w) × All
          (λ d. All (NotBefore d) r.untried)
          r.tried
  clean_takes_first h target cs p w =
      let r = clean_splits h target (s.sort less_cleanup_candidate cs) p w in
      (
        r,
        Sorted-split r.tried r.untried (
            subst (Sorted less_cleanup_candidate) r.together
              (s.sort-Sorted less_cleanup_candidate cs less-IsWeakOrder)),
      )
