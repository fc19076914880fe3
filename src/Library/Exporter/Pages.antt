-- ===== src/Library/Exporter/Pages.antt =====
-- The pages of ListCreatorsForRebuild are the whole list.
use mathlib.Core.List.{append_assoc, append-nil}
use fetch_bilibili.Prelude.{
  ℕ, zero, suc, ◌<◌, ltb, ◌≡◌, sym, ◌∙◌, ap, arith, true, Option, none, some, List, [], ◌∷◌, ◌++◌,
  length, take, drop, keep, every, every-keep, take-append-drop, length-keep_le,
}
use fetch_bilibili.Prelude.Int.{ℤ}
use fetch_bilibili.Prelude.Sort.{sort_by}
use fetch_bilibili.Prelude.Pages.{
  rising, last_key, behind, distinct, sort_by-rising, keep-sort_by, behind-drop, behind-behind,
  behind-rising, distinct-keep, keep-and, last_key-le, length-sort_by, behind-all, rising-every,
  take_none, length-drop_lt,
}
use fetch_bilibili.Repo.Models.{Creator}
use fetch_bilibili.Repo.Videos.{limit_or}
use fetch_bilibili.Repo.Creators.{by_id, has_library, page_after, list_for_library_after}
use fetch_bilibili.World.{ok, World, M, return, call}
use fetch_bilibili.Library.Exporter.{list_pages, page_size_or, list_creators_for_rebuild}

abbrev id_of : Creator → ℕ
id_of c = c.id

-- The creators have ids, none of them twice.
abbrev pub HasIds : World → Type 0
HasIds w = (distinct id_of w.creators ≡ true) × (every (λ c. ltb 0 c.id) w.creators ≡ true)

-- The creators with a library in the order of their ids.
abbrev pub library_creators : World → List Creator
library_creators w = sort_by by_id (keep (has_library w) w.creators)

module _ (w : World) (h : HasIds w) where
  rows : List Creator
  rows = keep (has_library w) w.creators

  rows-distinct : distinct id_of rows ≡ true
  unfolding rows
  rows-distinct = distinct-keep id_of (has_library w) w.creators h.0

  rows-positive : every (λ c. ltb 0 c.id) rows ≡ true
  unfolding rows
  rows-positive = every-keep (λ c. ltb 0 c.id) (has_library w) w.creators h.1

  -- A page is the first part of what stands behind the id.
  page_of :
      (last : ℕ) (limit : ℤ)
      → page_after (has_library w) last limit w.creators
        ≡ take (limit_or 50 limit) (behind id_of last (library_creators w))
  unfolding page_after rows
  page_of last limit =
      ap (λ x. take (limit_or 50 limit) x)
        (ap (sort_by by_id) (keep-and (has_library w) (λ c. ltb last c.id) w.creators)
          ∙ keep-sort_by id_of (λ c. ltb last c.id) rows rows-distinct rows-positive)

  library_creators-rising : rising id_of 0 (library_creators w) ≡ true
  unfolding rows
  library_creators-rising = sort_by-rising id_of rows rows-distinct rows-positive

-- What remains after a page.
module _ (all : List Creator) (r : rising id_of 0 all ≡ true) (last n : ℕ) (c : Creator)
    (rest : List Creator) (e : take n (behind id_of last all) ≡ c ∷ rest) where
  abbrev ahead : List Creator
  ahead = behind id_of last all

  ahead-rising : rising id_of last ahead ≡ true
  ahead-rising = behind-rising id_of 0 last all r

  last-page : last_key id_of last (take n ahead) ≡ last_key id_of c.id rest
  last-page = ap (λ x. last_key id_of last x) e

  behind-page : behind id_of (last_key id_of c.id rest) all ≡ drop n ahead
  behind-page =
      sym (
        behind-behind id_of last (last_key id_of c.id rest) all
          (omega (arith, last-page, last_key-le id_of last n ahead ahead-rising)))
      ∙ ap (λ k. behind id_of k ahead) (sym last-page)
      ∙ behind-drop id_of last n ahead ahead-rising

  page-append : (out : List Creator) → (out ++ c ∷ rest) ++ drop n ahead ≡ out ++ ahead
  page-append out =
      append_assoc out (c ∷ rest) (drop n ahead)
      ∙ ap (λ x. out ++ x) (ap (λ x. x ++ drop n ahead) (sym e) ∙ take-append-drop n ahead)

-- No call fails.
abbrev pub Calm : World → Type 0
Calm w = (n : ℕ) → w.outside.fault n ≡ none

size-positive : (default : ℕ) (limit : ℤ) → 0 < default → 0 < limit_or default limit
size-positive default limit l = ground arith

pages-from :
    (fuel : ℕ) (size : ℤ) (last : ℕ) (out : List Creator) (w : World)
    → HasIds w
    → Calm w
    → length (behind id_of last (library_creators w)) < fuel
    → (list_pages fuel size last out w).0
      ≡ ok (some (out ++ behind id_of last (library_creators w)))
unfolding list_pages list_for_library_after call
pages-from zero size last out w h q l = ground (arith, l)
pages-from (suc fuel) size last out w h q l = rw (q w.calls) (
    paged (λ last' out'. pages-from fuel size last' out' (record w { calls = suc w.calls }) h q)
      (page_after (has_library w) last size w.creators) (sym (page_of w h last size)))
  where
    paged :
        ((last' : ℕ) (out' : List Creator)
          → length (behind id_of last' (library_creators w)) < fuel
          → (list_pages fuel size last' out' (record w { calls = suc w.calls })).0
            ≡ ok (some (out' ++ behind id_of last' (library_creators w))))
        → (page : List Creator)
        → take (limit_or 50 size) (behind id_of last (library_creators w)) ≡ page
        → (elim page as (λ k. M (Option (List Creator))) [
          | [] ↦ return (some out)
          | c ∷ rest ↦ list_pages fuel size (last_key (λ d. d.id) c.id rest) (out ++ c ∷ rest)
        ]
            (record w { calls = suc w.calls })).0
          ≡ ok (some (out ++ behind id_of last (library_creators w)))
    paged ih [] e =
        ap (λ x. ok (some x))
          (sym (append-nil out)
            ∙ ap (λ x. out ++ x)
                (sym (take_none (limit_or 50 size) _ (size-positive 50 size (omega arith)) e)))
    paged ih (c ∷ rest) e =
        let remains =
          behind-page (library_creators w) (library_creators-rising w h) last (limit_or 50 size) c
            rest e in
        ih (last_key (λ d. d.id) c.id rest) (out ++ c ∷ rest) (
          omega (
            arith,
            l,
            ap length remains,
            length-drop_lt (limit_or 50 size) c rest (behind id_of last (library_creators w))
                (size-positive 50 size (omega arith)) e,
          ))
        ∙ ap (λ x. ok (some x))
            (ap (λ x. (out ++ c ∷ rest) ++ x) remains
              ∙ page-append (library_creators w) (library_creators-rising w h) last
                  (limit_or 50 size) c rest e out)

-- With no failing call and more fuel than creators, the pages of the rebuild, whatever their size,
-- are all creators with a library in the order of their ids, each of them once.
pub rebuild_lists_all :
    (fuel : ℕ) (page_size : ℤ) (w : World)
    → HasIds w
    → Calm w
    → length w.creators < fuel
    → (list_creators_for_rebuild fuel page_size w).0 ≡ ok (some (library_creators w))
unfolding list_creators_for_rebuild
rebuild_lists_all fuel page_size w h q l =
    let whole : behind id_of 0 (library_creators w) ≡ library_creators w =
      behind-all id_of 0 (library_creators w)
        (rising-every id_of 0 0 (library_creators w) (omega arith) (library_creators-rising w h)) in
    pages-from fuel (page_size_or page_size) 0 [] w h q (
      omega (
        arith,
        l,
        ap length whole,
        length-sort_by by_id (keep (has_library w) w.creators),
        length-keep_le (has_library w) w.creators,
      ))
    ∙ ap (λ x. ok (some x)) whole
