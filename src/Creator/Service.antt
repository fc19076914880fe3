-- ===== src/Creator/Service.antt =====
-- internal/creator/service.go. The repository is there; a resolver and a publisher may not be. What
-- is logged only has no effect.
use Prim.Native.String.{String}
use package.text.Mathlib.Text.{◌==◌ as str_eq}
use fetch_bilibili.Prelude.{
  ℕ, zero, suc, ◌+◌, ltb, ◌==◌, Bool, true, false, not, ◌&&◌, ◌||◌, Option, none, some, List, [],
  ◌∷◌, member, if◌then◌else◌,
}
use mathlib.Core.Option
use fetch_bilibili.Prelude.Int.{ℤ, pos}
use fetch_bilibili.Repo.Models.{Creator}
use fetch_bilibili.Repo.Creators.{
  upsert, update, update_status, find_by_id, find_by_platform_uid, list_active, list_active_after,
  or_default,
}
use fetch_bilibili.World.{
  Error, no_rows, not_found, no_uid_or_name, invalid_patch, invalid_delete, no_resolver, Result, ok,
  err, World, M, next, ◌>>=◌, ◌>>◌, return, throw, attempt, now, publish, creator_changed,
}
pub mod Asking
pub mod Removed
pub mod Pausing
pub mod Missing
pub mod Counting

pub record Service : Type 0 where
  pub has_resolver : Bool
  pub has_publisher : Bool

-- A line of the creators' file, or a request.
pub record Entry : Type 0 where
  pub uid : String
  pub name : String
  pub platform : String
  pub status : String

pub record Patch : Type 0 where
  pub name : Option String
  pub status : Option String

-- strings.TrimSpace.
abbrev pub trim : String → M String
trim s w = (ok (w.outside.trim s), w)

abbrev pub normalize_creator_for_event : Creator → Creator
normalize_creator_for_event c = record c {
  platform = or_default "bilibili" c.platform;
  status = or_default "active" c.status;
}

unfoldable pub publish_creator_changed : Service → Creator → M (Unit {0})
publish_creator_changed s c = if not s.has_publisher then return tt else (do
  at ← now
  publish (
      creator_changed (if c.updated_at == 0 then at else c.updated_at)
        (normalize_creator_for_event c)))

-- The resolver's two questions.
unfoldable pub resolve_uid : String → M (String × String)
resolve_uid name w = (w.outside.resolve_uid w.calls name, record w { calls = suc w.calls })

unfoldable pub resolve_name : String → M String
resolve_name uid w = (w.outside.resolve_name w.calls uid, record w { calls = suc w.calls })

abbrev pub name_or_none : Result String → M String
name_or_none (err e) = return ""
name_or_none (ok name) = trim name

unfoldable pub resolve_name_by_uid : Service → String → M String
unfolding resolve_name
resolve_name_by_uid s uid = if not s.has_resolver then return "" else (do
  uid' ← trim uid
  (if str_eq uid' "" then return "" else (do r ← attempt (resolve_name uid'); name_or_none r)))

-- The row as it is now, or what was written if it cannot be read.
abbrev pub or_written : Creator → Result Creator → Creator
or_written c (ok final) = final
or_written c (err e) = c

-- What follows a successful preparation.
unfoldable pub save : Service → Creator → M Creator
unfolding upsert find_by_id publish_creator_changed
save s c = do
  id ← upsert c
  r ← attempt (find_by_id id)
  publish_creator_changed s (or_written (record c { id = id }) r)
  return (or_written (record c { id = id }) r)

abbrev pub named : Service → Creator → M Creator
named s c = do
  name ← trim c.name
  (if str_eq name ""
      then (do n ← resolve_name_by_uid s c.uid; return (record c { name = n }))
      else return c)

unfoldable pub upsert_creator : Service → Creator → M Creator
unfolding save resolve_name_by_uid
upsert_creator s c = do
  uid ← trim c.uid
  (if str_eq uid "" then throw no_uid_or_name else (do
    platform ← trim c.platform
    status ← trim c.status
    c' ← named s (record c {
      platform = if str_eq platform "" then "bilibili" else c.platform;
      status = if str_eq status "" then "active" else c.status;
    })
    save s c'))

-- An empty name that the resolver gives does not replace the entry's.
abbrev pub identify : Service → String → String → M (String × String)
identify s uid name =
    if not (str_eq uid "")
    then return (uid, name)
    else if not s.has_resolver
    then throw no_resolver
    else (do found ← resolve_uid name; return (found.0, or_default name found.1))

abbrev pub of_entry : String → String → String → String → Creator
of_entry platform uid name status = record {
  id = 0;
  platform = platform;
  uid = uid;
  name = name;
  follower_count = pos 0;
  local_video_count = pos 0;
  storage_bytes = pos 0;
  status = status;
  created_at = 0;
  updated_at = 0;
}

unfoldable pub prepare_creator : Service → Entry → M Creator
unfolding resolve_uid resolve_name_by_uid
prepare_creator s e = do
  uid ← trim e.uid
  name ← trim e.name
  platform ← trim e.platform
  status ← trim e.status
  (if str_eq uid "" && str_eq name "" then throw no_uid_or_name else (do
    who ← identify s uid name
    name' ← (if str_eq who.1 "" then resolve_name_by_uid s who.0 else return who.1)
    return (of_entry (or_default "bilibili" platform) who.0 name' (or_default "active" status))))

unfoldable pub upsert_entry : Service → Entry → M Creator
unfolding prepare_creator upsert_creator
upsert_entry s e = do c ← prepare_creator s e; upsert_creator s c

-- A field of a patch: kept if it is not given, and refused if it is blank.
abbrev pub patched : Option String → String → M String
patched none old = return old
patched (some s) old = do s' ← trim s; (if str_eq s' "" then throw invalid_patch else return s')

abbrev given : Option String → Bool
given none = false
given (some s) = true

unfoldable pub patch : Service → ℕ → Patch → M Creator
unfolding find_by_id update publish_creator_changed
patch s zero p = throw invalid_patch
patch s (suc n) p = if not (given p.name) && not (given p.status) then throw invalid_patch else (do
  current ← find_by_id (suc n)
  name ← patched p.name current.name
  status ← patched p.status current.status
  update (record current { name = name; status = status })
  publish_creator_changed s (record current { name = name; status = status })
  return (record current { name = name; status = status }))

-- sql.ErrNoRows of the repository becomes ErrNotFound.
abbrev pub existing : Result Creator → M Creator
existing (ok c) = return c
existing (err no_rows) = throw not_found
existing (err e) = throw e

abbrev pub is_removed : Creator → Bool
is_removed c = str_eq c.status "removed"

unfoldable pub delete : Service → ℕ → M (Unit {0})
unfolding find_by_id update_status publish_creator_changed
delete s zero = throw invalid_delete
delete s (suc n) = do
  r ← attempt (find_by_id (suc n))
  current ← existing r
  (if is_removed current then return tt else (do
    update_status (suc n) "removed"
    publish_creator_changed s (record current { status = "removed" })))

-- A creator of the file: written, unless it was removed. The result says whether it was.
abbrev pub unless_removed : Service → Creator → Result Creator → M (Creator × Bool)
unless_removed s c (ok current) =
    if is_removed current then return (current, true) else (do c' ← save s c; return (c', false))
unless_removed s c (err no_rows) = do c' ← save s c; return (c', false)
unless_removed s c (err e) = throw e

unfoldable pub upsert_from_file : Service → Entry → M (Creator × Bool)
unfolding prepare_creator save find_by_platform_uid
upsert_from_file s e = do
  c ← prepare_creator s e
  r ← attempt (find_by_platform_uid c.platform c.uid)
  unless_removed s c r

-- The creators without a name that the resolver knows are given it, one after the other.
abbrev pub after_backfill : Service → Creator → Result (Unit {0}) → M Creator
after_backfill s c (err e) = return c
after_backfill s c (ok _) = do publish_creator_changed s c; return c

abbrev pub renamed : String → Creator → Creator
renamed name c = record c {
  name = name;
  platform = or_default "bilibili" c.platform;
  status = or_default "active" c.status;
}

abbrev pub backfill : Service → Creator → M Creator
backfill s c = do
  blank ← trim c.name
  (if not (str_eq blank "") then return c else (do
    name ← resolve_name_by_uid s c.uid
    (if str_eq name ""
        then return c
        else if (renamed name c).id == 0
        then return (renamed name c)
        else (do r ← attempt (update (renamed name c)); after_backfill s (renamed name c) r))))

unfoldable pub backfill_creator_names : Service → List Creator → M (List Creator)
unfolding resolve_name_by_uid update publish_creator_changed
backfill_creator_names s [] = return []
backfill_creator_names s (c ∷ rest) = do
  c' ← (if s.has_resolver then backfill s c else return c)
  rest' ← backfill_creator_names s rest
  return (c' ∷ rest')

unfoldable pub list_active_creators : Service → ℤ → M (List Creator)
unfolding list_active backfill_creator_names
list_active_creators s limit = list_active limit >>= backfill_creator_names s

abbrev pub max : ℕ → ℕ → ℕ
max a b = if ltb a b then b else a

-- One creator of a page: paused, unless it is to stay. The number is 1 if it was paused.
abbrev pub after_pause : Service → Creator → Result (Unit {0}) → M ℕ
after_pause s c (err e) = return 0
after_pause s c (ok _) = do publish_creator_changed s (record c { status = "paused" }); return 1

abbrev pub pause_unless : Service → List ℕ → Creator → M ℕ
pause_unless s active_ids c =
    if member c.id active_ids
    then return 0
    else (do r ← attempt (update_status c.id "paused"); after_pause s c r)

-- The creators of a page; the result is the largest id and the number of the paused.
unfoldable pub pause_page : Service → List ℕ → ℕ → List Creator → M (ℕ × ℕ)
unfolding update_status publish_creator_changed
pause_page s active_ids last [] = return (last, 0)
pause_page s active_ids last (c ∷ rest) = do
  n ← pause_unless s active_ids c
  r ← pause_page s active_ids (max last c.id) rest
  return (r.0, n + r.1)

-- The pages from an id on. `none`: the fuel ran out. The number of the paused before a failure is
-- logged only, and left out.
unfoldable pub pause_from : ℕ → Service → List ℕ → ℕ → M (Option ℕ)
pause_from zero s active_ids last = return none
pause_from (suc fuel) s active_ids last = list_active_after last (pos 200) >>= λ page. elim page [
  | [] ↦ return (some 0)
  | c ∷ rest ↦ (do
    r ← pause_page s active_ids last (c ∷ rest)
    n ← pause_from fuel s active_ids r.0
    return (Option.map (λ m. r.1 + m) n))
]

unfoldable pub pause_missing_active : ℕ → Service → List ℕ → M (Option ℕ)
unfolding pause_from
pause_missing_active fuel s active_ids = pause_from fuel s active_ids 0
