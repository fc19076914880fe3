-- ===== src/Creator/Service/Pausing.antt =====
-- The pause of the creators that the file does not name ends.
use Prim.Native.String.{String}
use mathlib.Core.Option
use mathlib.Core.Path.{subst}
use fetch_bilibili.Prelude.{
  ℕ, zero, suc, ◌+◌, ◌≤◌, ◌<◌, ltb, ◌==◌, ◌≡◌, refl, ◌∙◌, arith, Bool, true, not, ◌&&◌, Option,
  none, some, List, [], ◌∷◌, map, length, keep, tally, any, change, member, every, every-take,
  every-perm, Bool-cases, inl, inr,
}
use fetch_bilibili.Prelude.Int.{pos}
use fetch_bilibili.Prelude.Sort.{sort_by, sort_by-perm}
use fetch_bilibili.Repo.Models.{Creator}
use fetch_bilibili.Repo.Videos.{is_some}
use fetch_bilibili.Repo.Creators.{
  accepts, by_id, is_active, page_after, list_active_after, update_row, update_status, with_status,
}
use fetch_bilibili.World.{Result, ok, err, World, M, ◌>>=◌, return}
use fetch_bilibili.Triples.{Ends, Triple, Triple-bind, Triple-return, Triple-call, Triple-weaken}
use fetch_bilibili.Invariants.{
  Preserves, IsAboutTables, Preserves-return, Preserves-bind, Preserves-if, Preserves-attempt,
  Preserves-call, Triple-preserves,
}
use fetch_bilibili.Creator.Service.{
  Service, max, after_pause, pause_unless, pause_page, pause_from, pause_missing_active,
}
use fetch_bilibili.Creator.Service.Asking.{publish-Preserves}

abbrev ids_of : List Creator → List ℕ
ids_of cs = map (λ c. c.id) cs

abbrev behind : ℕ → List ℕ → ℕ
behind last ids = tally (λ n. ltb last n) ids

behind_le : (a b : ℕ) (ids : List ℕ) → a ≤ b → behind b ids ≤ behind a ids
behind_le a b [] l = omega arith
behind_le a b (n ∷ ids) l = ground (arith, behind_le a b ids l)

behind_lt :
    (a b n : ℕ) (ids : List ℕ) → member n ids ≡ true → a < n → n ≤ b → behind b ids < behind a ids
behind_lt a b n [] m l k = absurd (ground (arith, m))
behind_lt a b n (k ∷ ids) m l h = ground (arith, behind_lt a b n ids, behind_le a b ids)

-- A creator of a page: behind the id, and one of the table.
abbrev is_ahead : ℕ → List ℕ → Creator → Bool
is_ahead last ids c = ltb last c.id && member c.id ids

every-member :
    (k : ℕ) (ids : List ℕ) (cs : List Creator)
    → every (λ c. member c.id ids) cs ≡ true
    → every (λ c. member c.id (k ∷ ids)) cs ≡ true
every-member k ids [] e = refl
every-member k ids (c ∷ cs) e = ground (arith, every-member k ids cs)

member-ids_of : (cs : List Creator) → every (λ c. member c.id (ids_of cs)) cs ≡ true
member-ids_of [] = refl
member-ids_of (c ∷ cs) = ground (arith, every-member c.id (ids_of cs) cs (member-ids_of cs))

keep-is_ahead :
    (last : ℕ) (ids : List ℕ) (cs : List Creator)
    → every (λ c. member c.id ids) cs ≡ true
    → every (is_ahead last ids) (keep (λ c. is_active c && ltb last c.id) cs) ≡ true
keep-is_ahead last ids [] e = refl
keep-is_ahead last ids (c ∷ cs) e = ground (arith, keep-is_ahead last ids cs)

page-is_ahead :
    (last : ℕ) (cs : List Creator)
    → every (is_ahead last (ids_of cs)) (page_after is_active last (pos 200) cs) ≡ true
unfolding page_after
page-is_ahead last cs =
    every-take (is_ahead last (ids_of cs)) 200
      (sort_by by_id (keep (λ c. is_active c && ltb last c.id) cs))
      (every-perm (is_ahead last (ids_of cs))
          (sort_by-perm by_id (keep (λ c. is_active c && ltb last c.id) cs))
        ∙ keep-is_ahead last (ids_of cs) cs (member-ids_of cs))

module _ (ids : List ℕ) where
  abbrev Has : World → Type 0
  Has w = ids_of w.creators ≡ ids

  about : IsAboutTables Has
  about = record { no_calls = λ w n e. e; no_events = λ w es e. e }

  ids_of-change :
      (n : ℕ) (now : ℕ) (s : String) (cs : List Creator)
      → ids_of (change (λ c. c.id == n) (with_status s now) cs) ≡ ids_of cs
  ids_of-change n now s [] = refl
  ids_of-change n now s (c ∷ cs) = ground (arith, ids_of-change n now s cs)

  update_status-Has : (n : ℕ) (s : String) → Preserves Has (update_status n s)
  unfolding update_status
  update_status-Has n s = Preserves-call about _ (record { holds = after })
    where
      after : (w : World) → Has w → Has (update_row n (with_status s) w).1
      after w e =
          elim (Bool-cases (any (λ c. c.id == n && not (accepts (with_status s 0 c))) w.creators)) [
            | inl b ↦ rw b e
            | inr b ↦ rw b (ids_of-change n (w.outside.clock w.calls) s w.creators ∙ e)
          ]

  pause_unless-Has :
      (s : Service) (active : List ℕ) (c : Creator) → Preserves Has (pause_unless s active c)
  pause_unless-Has s active c =
      Preserves-if Has (member c.id active) _ _ (Preserves-return Has 0)
        (Preserves-bind Has _ _ (Preserves-attempt Has _ (update_status-Has c.id "paused")) paused)
    where
      paused : (r : Result (Unit {0})) → Preserves Has (after_pause s c r)
      paused (err e) = Preserves-return Has 0
      paused (ok u) =
          Preserves-bind Has _ _ (publish-Preserves about s (record c { status = "paused" }))
            λ v. Preserves-return Has 1

  -- The id that a page ends with is not smaller than the one it starts with.
  abbrev Reached : ℕ → ℕ × ℕ → World → Type 0
  Reached last r w = (last ≤ r.0) × Has w

  pause_page-Reached :
      (s : Service) (active : List ℕ) (last : ℕ) (page : List Creator)
      → Triple Has (pause_page s active last page) (Reached last) Has
  unfolding pause_page
  pause_page-Reached s active last [] = Triple-return (last, 0) (λ w e. (omega arith, e))
  pause_page-Reached s active last (c ∷ rest) =
      Triple-bind (λ n. Has) (Triple-preserves Has (pause_unless-Has s active c))
        λ n.
          Triple-bind (Reached (max last c.id)) (pause_page-Reached s active (max last c.id) rest)
            λ r. Triple-return (r.0, n + r.1) (λ w e. (ground (arith, e.0), e.1))

  pause_page-first :
      (s : Service) (active : List ℕ) (last : ℕ) (c : Creator) (rest : List Creator)
      → Triple Has (pause_page s active last (c ∷ rest)) (Reached c.id) (λ w. Unit)
  unfolding pause_page
  pause_page-first s active last c rest =
      Triple-weaken
        (Triple-bind (λ n. Has) (Triple-preserves Has (pause_unless-Has s active c))
          λ n.
            Triple-bind (Reached (max last c.id)) (pause_page-Reached s active (max last c.id) rest)
              λ r.
                Triple-return {fail = Has} {post = Reached c.id} (r.0, n + r.1)
                  (λ w e. (ground (arith, e.0), e.1)))
        (λ w e. e) (λ r w e. e) (λ w e. tt)

  pause_from-ends :
      (fuel : ℕ) (s : Service) (active : List ℕ) (last : ℕ)
      → behind last ids < fuel
      → Triple Has (pause_from fuel s active last) (λ o w. is_some o ≡ true) (λ w. Unit)
  unfolding pause_from list_active_after
  pause_from-ends zero s active last l = ground (arith, l)
  pause_from-ends (suc fuel) s active last l =
      Triple-bind (λ page w. (every (is_ahead last ids) page ≡ true) × Has w)
        (Triple-call _
          (record {
            run = λ w e. (
              subst
                  (λ k.
                    every (is_ahead last k) (page_after is_active last (pos 200) w.creators) ≡ true)
                  e (page-is_ahead last w.creators),
              e,
            );
          })
          (λ w e. (e, tt)))
        (paged (λ n k. pause_from-ends fuel s active n k))
    where
      paged :
          ((n : ℕ)
            → behind n ids < fuel
            → Triple Has (pause_from fuel s active n) (λ o w. is_some o ≡ true) (λ w. Unit))
          → (page : List Creator)
          → Triple
              (λ w. (every (is_ahead last ids) page ≡ true) × Has w)
              (elim page as (λ k. M (Option ℕ)) [
                | [] ↦ return (some 0)
                | c ∷ rest ↦ (do
                  r ← pause_page s active last (c ∷ rest)
                  n ← pause_from fuel s active r.0
                  return (Option.map (λ m. r.1 + m) n))
              ])
              (λ o w. is_some o ≡ true)
              (λ w. Unit)
      paged h [] = Triple-return (some 0) (λ w e. refl)
      paged h (c ∷ rest) = record {
        run = λ w e.
            (Triple-bind (Reached c.id) (pause_page-first s active last c rest) (λ r. record {
              run = λ v k.
                  (Triple-bind (λ o u. is_some o ≡ true)
                      (h r.0 (
                        omega (
                          arith,
                          l,
                          behind_lt last r.0 c.id ids (ground (arith, e.0)) (ground (arith, e.0))
                              k.0,
                        )))
                      (counted r.1)).run
                    v k.1;
            })).run
              w e.1;
      }
        where
          counted :
              (a : ℕ) (o : Option ℕ)
              → Triple
                  (λ w. is_some o ≡ true)
                  (return (Option.map (λ m. a + m) o))
                  (λ o w. is_some o ≡ true)
                  (λ w. Unit)
          counted a none = Triple-return none (λ w e. e)
          counted a (some n) = Triple-return (some (a + n)) (λ w e. refl)

behind-length : (last : ℕ) (cs : List Creator) → behind last (ids_of cs) ≤ length cs
behind-length last [] = omega arith
behind-length last (c ∷ cs) = ground (arith, behind-length last cs)

-- The run was given enough fuel, or stopped at a failure.
abbrev pub HasEnded : Result (Option ℕ) → Type 0
HasEnded (ok o) = is_some o ≡ true
HasEnded (err e) = Unit

-- With more fuel than creators the pause of the missing ones ends, at a failure or with a number,
-- whatever fails on the way.
pub pause_missing_active-HasEnded :
    (fuel : ℕ) (s : Service) (active : List ℕ) (w : World)
    → length w.creators < fuel
    → HasEnded (pause_missing_active fuel s active w).0
unfolding pause_missing_active
pause_missing_active-HasEnded fuel s active w l = ends (pause_from fuel s active 0 w) (
    (pause_from-ends (ids_of w.creators) fuel s active 0
        (omega (arith, l, behind-length 0 w.creators))).run
      w refl)
  where
    ends :
        (r : Result (Option ℕ) × World)
        → Ends (λ o w. is_some o ≡ true) (λ w. Unit) r
        → HasEnded r.0
    ends (ok o, v) e = e
    ends (err x, v) e = tt
