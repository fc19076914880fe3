-- ===== src/Creator/Service/Counting.antt =====
-- The number that the pause of the missing creators gives.
use mathlib.Core.Option
use fetch_bilibili.Prelude.{
  ℕ, zero, suc, ◌+◌, ◌<◌, ◌==◌, ◌≡◌, refl, arith, true, false, not, ◌&&◌, Option, none, some, List,
  [], ◌∷◌, length, tally, any, member, every, Bool-cases, inl, inr,
}
use fetch_bilibili.Repo.Models.{Creator}
use fetch_bilibili.Repo.Creators.{
  accepts, list_active_after, update_row, update_status, with_status,
}
use fetch_bilibili.World.{Result, ok, err, World, M, ◌>>=◌, return}
use fetch_bilibili.Triples.{
  Ends, Triple, Triple-bind, Triple-return, Triple-call, Triple-weaken, Triple-attempt,
}
use fetch_bilibili.Invariants.{IsAboutTables, Triple-preserves}
use fetch_bilibili.Creator.Service.{
  Service, max, after_pause, pause_unless, pause_page, pause_from, pause_missing_active,
}
use fetch_bilibili.Creator.Service.Asking.{publish-Preserves}
use fetch_bilibili.Creator.Service.Missing.{
  is_missing, with_id, OneEach, live, paused, other_ids, distinct_ids, paused_one, lives-paused,
  lives-page, distinct-page,
}
use fetch_bilibili.Creator.Service.Pausing.{HasEnded, pause_missing_active-HasEnded}

tally-paused :
    (m n now : ℕ) (cs : List Creator) → tally (with_id m) (paused n now cs) ≡ tally (with_id m) cs
tally-paused m n now [] = refl
tally-paused m n now (c ∷ cs) = ground (arith, tally-paused m n now cs)

-- How many creators are active and not to stay.
abbrev pub missing : List ℕ → World → ℕ
missing active w = tally (is_missing active) w.creators

module _ (active : List ℕ) (total : ℕ) where
  -- So many were paused, and the creators of the page are still active.
  abbrev Counts : ℕ → List Creator → World → Type 0
  Counts n page w =
      OneEach w.creators × (n + missing active w ≡ total) × (every (live w.creators) page ≡ true)

  about : (n : ℕ) (page : List Creator) → IsAboutTables (Counts n page)
  about n page = record { no_calls = λ w k p. p; no_events = λ w es p. p }

  abbrev won : Result (Unit {0}) → ℕ
  won (ok u) = 1
  won (err e) = 0

  rest-Counts :
      (n : ℕ) (c : Creator) (page : List Creator) (w : World)
      → Counts n (c ∷ page) w
      → Counts (n + 0) page w
  rest-Counts n c page w (o, t, l) = (o, omega (arith, t), ground (arith, l))

  paused-Counts :
      (n now : ℕ) (c : Creator) (page : List Creator) (w : World)
      → other_ids c.id page ≡ true
      → member c.id active ≡ false
      → Counts n (c ∷ page) w
      → Counts (n + 1) page (record w { creators = paused c.id now w.creators })
  paused-Counts n now c page w d m (o, t, l) = (
    λ k. omega (arith, o k, tally-paused k c.id now w.creators),
    omega (arith, t, paused_one active c now w.creators (o c.id) (ground (arith, l)) m),
    lives-paused c.id now w.creators page d (ground (arith, l)),
  )

  update-Counts :
      (n : ℕ) (c : Creator) (page : List Creator)
      → other_ids c.id page ≡ true
      → member c.id active ≡ false
      → Triple
          (Counts n (c ∷ page))
          (update_status c.id "paused")
          (λ u. Counts (n + 1) page)
          (Counts (n + 0) page)
  unfolding update_status
  update-Counts n c page d m =
      Triple-call _ (record { run = updated }) (λ w p. (p, rest-Counts n c page w p))
    where
      updated :
          (w : World)
          → Counts n (c ∷ page) w
          → Ends
              (λ u. Counts (n + 1) page)
              (Counts (n + 0) page)
              (update_row c.id (with_status "paused") w)
      updated w p =
          elim (Bool-cases
            (any (λ k. k.id == c.id && not (accepts (with_status "paused" 0 k))) w.creators)) [
              | inl b ↦ rw b (rest-Counts n c page w p)
              | inr b ↦ rw b (paused-Counts n (w.outside.clock w.calls) c page w d m p)
            ]

  after_pause-Counts :
      (s : Service) (n : ℕ) (c : Creator) (page : List Creator) (r : Result (Unit {0}))
      → Triple
          (λ w. Ends (λ u. Counts (n + 1) page) (Counts (n + 0) page) (r, w))
          (after_pause s c r)
          (λ k. Counts (n + k) page)
          (λ w. Unit)
  after_pause-Counts s n c page (err e) = Triple-return 0 (λ w p. p)
  after_pause-Counts s n c page (ok u) =
      Triple-bind (λ v. Counts (n + 1) page)
        (Triple-weaken
          (Triple-preserves (Counts (n + 1) page)
            (publish-Preserves (about (n + 1) page) s (record c { status = "paused" })))
          (λ w p. p) (λ v w p. p) (λ w p. tt))
        (λ v. Triple-return 1 (λ w p. p))

  pause_unless-Counts :
      (s : Service) (n : ℕ) (c : Creator) (page : List Creator)
      → other_ids c.id page ≡ true
      → Triple
          (Counts n (c ∷ page))
          (pause_unless s active c)
          (λ k. Counts (n + k) page)
          (λ w. Unit)
  pause_unless-Counts s n c page d = elim (Bool-cases (member c.id active)) [
    | inl m ↦ rw m (Triple-return 0 (rest-Counts n c page))
    | inr m ↦ rw m (
        Triple-bind (λ r w. Ends (λ u. Counts (n + 1) page) (Counts (n + 0) page) (r, w))
          (Triple-attempt (update-Counts n c page d m)) (after_pause-Counts s n c page))
  ]

  pause_page-Counts :
      (s : Service) (n last : ℕ) (page : List Creator)
      → distinct_ids page ≡ true
      → Triple
          (Counts n page)
          (pause_page s active last page)
          (λ r. Counts (n + r.1) [])
          (λ w. Unit)
  unfolding pause_page
  pause_page-Counts s n last [] d = Triple-return (last, 0) (λ w p. (p.0, omega (arith, p.1), refl))
  pause_page-Counts s n last (c ∷ page) d =
      Triple-bind (λ k. Counts (n + k) page) (pause_unless-Counts s n c page (ground (arith, d)))
        (λ k.
          Triple-bind (λ r. Counts (n + k + r.1) [])
            (pause_page-Counts s (n + k) (max last c.id) page (ground (arith, d)))
            (λ r. Triple-return (r.0, k + r.1) (λ w p. (p.0, omega (arith, p.1), refl))))

  -- What the pages from an id on add.
  abbrev Sums : ℕ → Option ℕ → World → Type 0
  Sums n none w = Unit
  Sums n (some k) w = n + k + missing active w ≡ total

  Sums-map :
      (n a : ℕ) (o : Option ℕ) (w : World) → Sums (n + a) o w → Sums n (Option.map (λ m. a + m) o) w
  Sums-map n a none w h = tt
  Sums-map n a (some k) w h = omega (arith, h)

  pause_from-Sums :
      (fuel : ℕ) (s : Service) (n last : ℕ)
      → Triple (Counts n []) (pause_from fuel s active last) (Sums n) (λ w. Unit)
  unfolding pause_from list_active_after
  pause_from-Sums zero s n last = Triple-return none (λ w p. tt)
  pause_from-Sums (suc fuel) s n last =
      Triple-bind (λ page w. Counts n page w × (distinct_ids page ≡ true))
        (Triple-call _
          (record {
            run =
                λ w p. ((p.0, p.1, lives-page last w.creators), distinct-page last w.creators p.0);
          })
          (λ w p. (p, tt)))
        (paged (λ k l. pause_from-Sums fuel s k l))
    where
      paged :
          ((k l : ℕ) → Triple (Counts k []) (pause_from fuel s active l) (Sums k) (λ w. Unit))
          → (page : List Creator)
          → Triple
              (λ w. Counts n page w × (distinct_ids page ≡ true))
              (elim page as (λ k. M (Option ℕ)) [
                | [] ↦ return (some 0)
                | c ∷ rest ↦ (do
                  r ← pause_page s active last (c ∷ rest)
                  n ← pause_from fuel s active r.0
                  return (Option.map (λ m. r.1 + m) n))
              ])
              (Sums n)
              (λ w. Unit)
      paged h [] = Triple-return (some 0) (λ w p. let e = p.0.1 in omega (arith, e))
      paged h (c ∷ rest) = record {
        run = λ w p.
            (Triple-bind (λ r. Counts (n + r.1) []) (pause_page-Counts s n last (c ∷ rest) p.1)
                (λ r.
                  Triple-bind (Sums (n + r.1)) (h (n + r.1) r.0)
                    (λ o. Triple-return (Option.map (λ m. r.1 + m) o) (Sums-map n r.1 o)))).run
              w p.0;
      }

-- The result of the pause, told by the creators that were missing before: the number of the paused
-- ones, which are no longer missing; or it stopped at a failure.
abbrev pub HasPaused : List ℕ → ℕ → Result (Option ℕ) × World → Type 0
HasPaused active before (ok none, w) = ⊥
HasPaused active before (ok (some n), w) = n + missing active w ≡ before
HasPaused active before (err e, w) = Unit

-- With more fuel than creators, and no two creators that share their id, the pause of the missing ones
-- ends, whatever fails on the way: at a failure, or with a number. By this number there are then
-- fewer creators that are active and not among those that the file names.
pub pause_missing_active-HasPaused :
    (fuel : ℕ) (s : Service) (active : List ℕ) (w : World)
    → length w.creators < fuel
    → OneEach w.creators
    → HasPaused active (missing active w) (pause_missing_active fuel s active w)
unfolding pause_missing_active
pause_missing_active-HasPaused fuel s active w l o =
    both (pause_from fuel s active 0 w) (pause_missing_active-HasEnded fuel s active w l)
      ((pause_from-Sums active (missing active w) fuel s 0 0).run w (o, omega arith, refl))
  where
    both :
        (r : Result (Option ℕ) × World)
        → HasEnded r.0
        → Ends (Sums active (missing active w) 0) (λ v. Unit) r
        → HasPaused active (missing active w) r
    both (ok none, v) h k = absurd (ground (arith, h))
    both (ok (some n), v) h k =
        let e : 0 + n + missing active v ≡ missing active w = k in omega (arith, e)
    both (err e, v) h k = tt
