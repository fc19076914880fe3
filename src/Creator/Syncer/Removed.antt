-- ===== src/Creator/Syncer/Removed.antt =====
-- A synchronisation with the file leaves removed creators removed.
use Prim.Native.String.{String}
use package.text.Mathlib.Text.{◌==◌ as str_eq}
use package.text.Mathlib.TextEquality.{eq_iff}
use fetch_bilibili.Prelude.{
  ℕ, zero, suc, ltb, ◌==◌, ◌+◌, ◌≡◌, refl, ◌∙◌, arith, Bool, true, false, not, ◌&&◌, Option, none,
  some, List, [], ◌∷◌, keep, any, change, member, every, every-take, every-perm, if◌then◌else◌, inl,
  inr, Bool-cases,
}
use mathlib.Core.Option
use fetch_bilibili.Prelude.Int.{ℤ, pos}
use fetch_bilibili.Prelude.Sort.{sort_by, sort_by-perm}
use fetch_bilibili.Repo.Models.{Creator}
use fetch_bilibili.Repo.Videos.{limit_or}
use fetch_bilibili.World.{not_exist, no_rows, Result, ok, err, World, M, ◌>>=◌, ◌>>◌, return}
use fetch_bilibili.Triples.{Triple, Triple-bind, Triple-return, Triple-throw, Triple-call}
use fetch_bilibili.Invariants.{
  Preserves, Preserves-return, Preserves-bind, Preserves-if, Preserves-attempt, Preserves-call,
  Triple-preserves, Preserves-of,
}
use fetch_bilibili.Repo.Creators.{
  update_status, update_row, with_status, or_default, accepts, is_active, by_id, list_active_after,
  page_after,
}
use fetch_bilibili.Repo.Creators.Writes.{change-IsKeyed}
use fetch_bilibili.Creator.Service.{
  Service, Entry, is_removed, unless_removed, upsert_from_file, pause_unless, after_pause,
  pause_page, pause_from, pause_missing_active, max,
}
use fetch_bilibili.Creator.Service.Removed.{
  gone, IsGone, IsGone-tables, Answered, save-IsGone, lookup-Answered,
}
use fetch_bilibili.Creator.Service.Asking.{prepare_creator-Preserves, publish-Preserves}
use fetch_bilibili.Creator.Syncer.{
  FileSyncer, FileInfo, Reading, add_id, sync_entries, sync_loaded, is_unchanged, noted, sync_once,
}

-- A row of another creator.
abbrev other : ℕ → Creator → Bool
other id c = not (c.id == id)

active-unless-removed : (s : String) → str_eq s "active" ≡ true → str_eq s "removed" ≡ false
active-unless-removed s e =
    ground (arith, eq_iff s "active", eq_iff s "removed", eq_iff "active" "removed")

other-keep :
    (id last : ℕ) (cs : List Creator)
    → every (gone id) cs ≡ true
    → every (other id) (keep (λ c. is_active c && ltb last c.id) cs) ≡ true
other-keep id last [] e = refl
other-keep id last (d ∷ rest) e =
    ground (arith, other-keep id last rest, active-unless-removed d.status)

other-page :
    (id : ℕ) (last : ℕ) (limit : ℤ) (cs : List Creator)
    → every (gone id) cs ≡ true
    → every (other id) (page_after is_active last limit cs) ≡ true
unfolding page_after
other-page id last limit cs g =
    every-take (other id) (limit_or 50 limit)
      (sort_by by_id (keep (λ c. is_active c && ltb last c.id) cs))
      (every-perm (other id) (sort_by-perm by_id (keep (λ c. is_active c && ltb last c.id) cs))
        ∙ other-keep id last cs g)

change-others :
    (id n : ℕ) (f : Creator → Creator) (cs : List Creator)
    → ((c : Creator) → (f c).id ≡ c.id)
    → (n == id) ≡ false
    → every (gone id) cs ≡ true
    → every (gone id) (change (λ c. c.id == n) f cs) ≡ true
change-others id n f [] q o e = refl
change-others id n f (c ∷ rest) q o e = ground (arith, change-others id n f rest q, q c)

module _ (id : ℕ) where
  unless_removed-IsGone :
      (s : Service) (c : Creator) (r : Result Creator)
      → Triple
          (λ w. Answered (or_default "bilibili" c.platform) c.uid r w × IsGone id w)
          (unless_removed s c r)
          (λ a. IsGone id)
          (IsGone id)
  unless_removed-IsGone s c (ok current) = elim (Bool-cases (is_removed current)) [
    | inl e ↦ rw e (Triple-return (current, true) (λ w p. p.1))
    | inr e ↦ rw e (
        Triple-bind (λ a. IsGone id)
          (record { run = λ w p. (save-IsGone id s c).run w (inr (current, p.0, e), p.1) })
          λ c'. Triple-return (c', false) (λ w g. g))
  ]
  unless_removed-IsGone s c (err no_rows) =
      Triple-bind (λ a. IsGone id)
        (record { run = λ w p. (save-IsGone id s c).run w (inl p.0, p.1) })
        λ c'. Triple-return (c', false) (λ w g. g)
  unless_removed-IsGone s c (err not_exist) = Triple-throw not_exist (λ w p. p.1)
  unless_removed-IsGone s c (err e) = Triple-throw e (λ w p. p.1)

  upsert_from_file-IsGone : (s : Service) (e : Entry) → Preserves (IsGone id) (upsert_from_file s e)
  unfolding upsert_from_file
  upsert_from_file-IsGone s e =
      Preserves-bind (IsGone id) _ _ (prepare_creator-Preserves (IsGone-tables id) s e) λ c.
        Preserves-of (IsGone id) (
          Triple-bind (λ r w. Answered (or_default "bilibili" c.platform) c.uid r w × IsGone id w)
            (lookup-Answered id c.platform c.uid) (unless_removed-IsGone s c))

  sync_entries-IsGone :
      (s : Service) (ids : List ℕ) (es : List Entry) → Preserves (IsGone id) (sync_entries s ids es)
  unfolding sync_entries
  sync_entries-IsGone s ids [] = Preserves-return (IsGone id) ids
  sync_entries-IsGone s ids (e ∷ rest) =
      Preserves-bind (IsGone id) _ _ (Preserves-attempt (IsGone id) _ (upsert_from_file-IsGone s e))
        λ r. sync_entries-IsGone s (add_id r ids) rest

  update_status-IsGone :
      (n : ℕ) → (n == id) ≡ false → Preserves (IsGone id) (update_status n "paused")
  unfolding update_status
  update_status-IsGone n o =
      Preserves-call (IsGone-tables id) (update_row n (with_status "paused"))
        (record { holds = after })
    where
      after : (w : World) → IsGone id w → IsGone id (update_row n (with_status "paused") w).1
      after w g =
          elim (Bool-cases
            (any (λ c. c.id == n && not (accepts (with_status "paused" 0 c))) w.creators)) [
              | inl e ↦ rw e g
              | inr e ↦ rw e (record {
                is_keyed =
                    change-IsKeyed w (λ c. c.id == n)
                      (with_status "paused" (w.outside.clock w.calls))
                      (record {
                        same_id = λ d. refl;
                        same_platform = λ d. refl;
                        same_uid = λ d. refl;
                      })
                      g.is_keyed;
                rows =
                    change-others id n (with_status "paused" (w.outside.clock w.calls)) w.creators
                      (λ c. refl) o g.rows;
                given_out = g.given_out;
                honest = g.honest;
              })
            ]

  pause_unless-IsGone :
      (s : Service) (ids : List ℕ) (c : Creator)
      → (c.id == id) ≡ false
      → Preserves (IsGone id) (pause_unless s ids c)
  pause_unless-IsGone s ids c o =
      Preserves-if (IsGone id) (member c.id ids) _ _ (Preserves-return (IsGone id) 0) (
        Preserves-bind (IsGone id) _ _
          (Preserves-attempt (IsGone id) _ (update_status-IsGone c.id o)) after)
    where
      after : (r : Result (Unit {0})) → Preserves (IsGone id) (after_pause s c r)
      after (err e) = Preserves-return (IsGone id) 0
      after (ok u) =
          Preserves-bind (IsGone id) _ _
            (publish-Preserves (IsGone-tables id) s (record c { status = "paused" }))
            λ v. Preserves-return (IsGone id) 1

  pause_page-IsGone :
      (s : Service) (ids : List ℕ) (last : ℕ) (page : List Creator)
      → every (other id) page ≡ true
      → Preserves (IsGone id) (pause_page s ids last page)
  unfolding pause_page
  pause_page-IsGone s ids last [] o = Preserves-return (IsGone id) (last, 0)
  pause_page-IsGone s ids last (c ∷ rest) o =
      Preserves-bind (IsGone id) _ _ (pause_unless-IsGone s ids c (ground (arith, o))) λ n.
        Preserves-bind (IsGone id) _ _
          (pause_page-IsGone s ids (max last c.id) rest (ground (arith, o)))
          λ r. Preserves-return (IsGone id) (r.0, n + r.1)

  pause_from-IsGone :
      (fuel : ℕ) (s : Service) (ids : List ℕ) (last : ℕ)
      → Preserves (IsGone id) (pause_from fuel s ids last)
  unfolding pause_from list_active_after
  pause_from-IsGone zero s ids last = Preserves-return (IsGone id) none
  pause_from-IsGone (suc fuel) s ids last = Preserves-of (IsGone id) (
      Triple-bind (λ page w. (every (other id) page ≡ true) × IsGone id w)
        (Triple-call (λ w. (ok (page_after is_active last (pos 200) w.creators), w))
          (record { run = λ w g. (other-page id last (pos 200) w.creators g.rows, g) })
          (λ w g. (
            (IsGone-tables id).no_calls w (suc w.calls) g,
            (IsGone-tables id).no_calls w (suc w.calls) g,
          )))
        (paged (pause_from-IsGone fuel s ids)))
    where
      paged :
          ((n : ℕ) → Preserves (IsGone id) (pause_from fuel s ids n))
          → (page : List Creator)
          → Triple
              (λ w. (every (other id) page ≡ true) × IsGone id w)
              (elim page as (λ k. M (Option ℕ)) [
                | [] ↦ return (some 0)
                | c ∷ rest ↦ (do
                  r ← pause_page s ids last (c ∷ rest)
                  n ← pause_from fuel s ids r.0
                  return (Option.map (λ m. r.1 + m) n))
              ])
              (λ a. IsGone id)
              (IsGone id)
      paged h [] = Triple-return (some 0) (λ w p. p.1)
      paged h (c ∷ rest) = record {
        run = λ w p.
            (Triple-preserves (IsGone id) (
                Preserves-bind (IsGone id) _ _ (pause_page-IsGone s ids last (c ∷ rest) p.0) λ r.
                  Preserves-bind (IsGone id) _ _ (h r.0)
                    λ n. Preserves-return (IsGone id) (Option.map (λ m. r.1 + m) n))).run
              w p.1;
      }

  sync_loaded-IsGone :
      (fuel : ℕ) (s : Service) (r : Result (List Entry))
      → Preserves (IsGone id) (sync_loaded fuel s r)
  unfolding pause_missing_active
  sync_loaded-IsGone fuel s (err e) = Preserves-return (IsGone id) tt
  sync_loaded-IsGone fuel s (ok es) =
      Preserves-bind (IsGone id) _ _ (sync_entries-IsGone s [] es) λ ids.
        Preserves-bind (IsGone id) _ _
          (Preserves-attempt (IsGone id) _ (pause_from-IsGone fuel s ids 0))
          λ r. Preserves-return (IsGone id) tt

  sync_once-IsGone :
      (fuel : ℕ) (s : Service) (y : FileSyncer) (force : Bool) (r : Reading)
      → Preserves (IsGone id) (sync_once fuel s y force r)
  unfolding sync_once
  sync_once-IsGone fuel s y force r = read r.stat
    where
      read :
          (stat : Result FileInfo)
          → Preserves (IsGone id) (elim stat as (λ k. M FileSyncer) [
            | err e ↦ return (elim e [ not_exist ↦ record y { missing_logged = true } | _ ↦ y ])
            | ok info ↦
                if not force && is_unchanged y info
                then return (record y { missing_logged = false })
                else (do sync_loaded fuel s r.entries; return (noted y info r.entries))
          ])
      read (err e) =
          Preserves-return (IsGone id)
            (elim e [ not_exist ↦ record y { missing_logged = true } | _ ↦ y ])
      read (ok info) =
          Preserves-if (IsGone id) (not force && is_unchanged y info) _ _
            (Preserves-return (IsGone id) (record y { missing_logged = false }))
            (Preserves-bind (IsGone id) _ _ (sync_loaded-IsGone fuel s r.entries)
              λ u. Preserves-return (IsGone id) (noted y info r.entries))

-- Whatever the file says, a removed creator stays removed when the file is synchronised, and its key
-- is not given to a second row.
pub sync_once_keeps_removed :
    (id fuel : ℕ) (s : Service) (y : FileSyncer) (force : Bool) (r : Reading) (w : World)
    → IsGone id w
    → IsGone id (sync_once fuel s y force r w).1
sync_once_keeps_removed id fuel s y force r w = (sync_once-IsGone id fuel s y force r).holds w
