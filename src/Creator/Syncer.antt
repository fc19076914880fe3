-- ===== src/Creator/Syncer.antt =====
-- internal/creator/syncer.go: syncOnce. The file is read before: `Reading` says what came of it.
use fetch_bilibili.Prelude.{
  ℕ, zero, suc, ltb, leb, ◌==◌, Bool, true, false, not, ◌&&◌, ◌||◌, Option, none, some, List, [],
  ◌∷◌, if◌then◌else◌,
}
use fetch_bilibili.Repo.Models.{Creator}
use fetch_bilibili.World.{
  Error, not_exist, Result, ok, err, World, M, next, ◌>>=◌, ◌>>◌, return, throw, attempt,
}
use fetch_bilibili.Creator.Service.{Service, Entry, upsert_from_file, pause_missing_active}
pub mod Removed

pub record FileSyncer : Type 0 where
  pub last_mod_time : ℕ
  pub last_size : ℕ
  pub missing_logged : Bool

pub record FileInfo : Type 0 where
  pub mod_time : ℕ
  pub size : ℕ

-- The outcome of os.Stat and of LoadEntries, which is called if the file may have changed.
pub record Reading : Type 0 where
  pub stat : Result FileInfo
  pub entries : Result (List Entry)

-- The ids that stay active.
abbrev pub add_id : Result (Creator × Bool) → List ℕ → List ℕ
add_id (err e) ids = ids
add_id (ok (c, removed)) ids = if removed || (c.id == 0) then ids else c.id ∷ ids

unfoldable pub sync_entries : Service → List ℕ → List Entry → M (List ℕ)
sync_entries s ids [] = return ids
sync_entries s ids (e ∷ rest) = do
  r ← attempt (upsert_from_file s e)
  sync_entries s (add_id r ids) rest

-- A failure to pause is logged only.
abbrev pub pause_missing : ℕ → Service → List ℕ → M (Unit {0})
pause_missing fuel s ids = attempt (pause_missing_active fuel s ids) >>= λ _. return tt

abbrev pub sync_loaded : ℕ → Service → Result (List Entry) → M (Unit {0})
sync_loaded fuel s (err e) = return tt
sync_loaded fuel s (ok entries) = do ids ← sync_entries s [] entries; pause_missing fuel s ids

abbrev pub is_unchanged : FileSyncer → FileInfo → Bool
is_unchanged y info = leb info.mod_time y.last_mod_time && (info.size == y.last_size)

-- The file syncer after the run; the fuel is that of pause_missing_active.
abbrev pub noted : FileSyncer → FileInfo → Result (List Entry) → FileSyncer
noted y info (err e) = record y { missing_logged = false }
noted y info (ok entries) = record {
  last_mod_time = info.mod_time;
  last_size = info.size;
  missing_logged = false;
}

unfoldable pub sync_once : ℕ → Service → FileSyncer → Bool → Reading → M FileSyncer
unfolding sync_entries
sync_once fuel s y force r = elim r.stat [
  | err e ↦ return (elim e [ not_exist ↦ record y { missing_logged = true } | _ ↦ y ])
  | ok info ↦
      if not force && is_unchanged y info
      then return (record y { missing_logged = false })
      else (do sync_loaded fuel s r.entries; return (noted y info r.entries))
]
