-- ===== src/Jobs/Enqueue/Single.antt =====
-- Enqueue keeps the active jobs apart.
use Prim.Native.String.{String}
use fetch_bilibili.Prelude.{
  ℕ, zero, suc, ◌≤◌, ◌<◌, ◌≡◌, refl, arith, Bool, true, false, ◌&&◌, Option, none, some, List, [],
  ◌∷◌, tally, tally-append, any, if◌then◌else◌, Bool-cases, inl, inr,
}
use fetch_bilibili.Prelude.Int.{ℤ, pos, negsuc}
use fetch_bilibili.Repo.Models.{Job, JobType, download}
use fetch_bilibili.Repo.Payload.{
  Value, int64, int, float64, json_number, string, null, Payload, lookup, as_int64, payload_int64,
}
use fetch_bilibili.World.{job_already_active, ok, Outside, World, ◌>>=◌, return, throw, call}
use fetch_bilibili.Triples.{Triple, Ends, Triple-bind, Triple-return, Triple-throw, Triple-call}
use fetch_bilibili.Invariants.{
  IsAboutTables, Preserves-return, Preserves-call, Triple-preserves, Preserves-of,
}
use fetch_bilibili.Jobs.Table.{new_row, insert_job}
use fetch_bilibili.Jobs.Enqueue.{
  accepts_type, same_type, is_active, cast_value, equals, of_video, same_target, has_active_job,
  insert_row, enqueue,
}

abbrev pub active_of : JobType → Job → Bool
active_of t j = same_type j.type t && is_active j.status

abbrev pub active_download : Outside → ℕ → Job → Bool
active_download o n j =
    active_of download j && equals n (cast_value o (lookup "video_id" j.payload))

abbrev is_download : JobType → Bool
is_download download = true
is_download _ = false

-- MySQL and Go read the same number from a text.
abbrev pub IsReadAlike : Outside → Type 0
IsReadAlike o = (s : String) (n : ℕ) → o.parse_int s ≡ some (pos n) → o.cast_unsigned s ≡ n

-- One active job of each type but download, and one active download of each video.
pub record IsSingle (w : World) : Type 0 where
  pub one_of : (t : JobType) → is_download t ≡ false → tally (active_of t) w.jobs ≤ 1
  pub one_download : (n : ℕ) → 0 < n → tally (active_download w.outside n) w.jobs ≤ 1
  pub alike : IsReadAlike w.outside

pub IsSingle-tables : IsAboutTables IsSingle
IsSingle-tables = record {
  no_calls = λ w n g. record { one_of = g.one_of; one_download = g.one_download; alike = g.alike };
  no_events =
      λ w es g. record { one_of = g.one_of; one_download = g.one_download; alike = g.alike };
}

tally_none :
    {A : Type 0} (p q : A → Bool) (xs : List A)
    → ((x : A) → p x ≡ true → q x ≡ true)
    → any q xs ≡ false
    → tally p xs ≡ 0
tally_none p q [] i e = refl
tally_none p q (x ∷ xs) i e = ground (arith, tally_none p q xs i, i x)

same_type_unique :
    (a b c : JobType) → same_type a b ≡ true → same_type a c ≡ true → same_type c b ≡ true
same_type_unique a b c e f = ground arith

same_type-swap :
    (a b c : JobType) → same_type b c ≡ true → same_type a c ≡ true → same_type a b ≡ true
same_type-swap a b c e f = ground arith

-- A valid id that is read from a payload is what the column casts to.
cast_agrees :
    (o : Outside) (v : Option Value) (n : ℕ)
    → IsReadAlike o
    → as_int64 o.parse_int v ≡ some (pos n)
    → cast_value o v ≡ some n
cast_agrees o none n a e = ground arith
cast_agrees o (some (int64 z)) n a e = ground arith
cast_agrees o (some (int z)) n a e = ground arith
cast_agrees o (some (float64 z)) n a e = ground arith
cast_agrees o (some (json_number s)) n a e = ground (arith, a s n)
cast_agrees o (some (string s)) n a e = ground (arith, a s n)
cast_agrees o (some null) n a e = ground arith

abbrev blocking : Outside → Job → Job → Bool
blocking o job j =
    same_type j.type job.type && is_active j.status && same_target o job.type job.payload j

-- The answer of hasActiveJob.
abbrev Free : Job → World → Type 0
Free job w = any (blocking w.outside job) w.jobs ≡ false

blocks-of :
    (o : Outside) (job : Job) (t : JobType) (j : Job)
    → is_download t ≡ false
    → same_type job.type t ≡ true
    → active_of t j ≡ true
    → blocking o job j ≡ true
blocks-of o job t j d e h = ground (arith, same_type-swap j.type job.type t)

of_video-agrees :
    (o : Outside) (z : Option ℤ) (v : Option Value) (n : ℕ) (j : Job)
    → ((m : ℕ) → z ≡ some (pos m) → cast_value o v ≡ some m)
    → equals n (cast_value o v) ≡ true
    → equals n (cast_value o (lookup "video_id" j.payload)) ≡ true
    → of_video o z j ≡ true
of_video-agrees o none v n j a e h = refl
of_video-agrees o (some (negsuc m)) v n j a e h = refl
of_video-agrees o (some (pos zero)) v n j a e h = refl
of_video-agrees o (some (pos (suc m))) v n j a e h = ground (arith, a (suc m) refl)

target-agrees :
    (o : Outside) (t : JobType) (p : Payload) (j : Job)
    → of_video o (payload_int64 o.parse_int p "video_id") j ≡ true
    → same_target o t p j ≡ true
target-agrees o t p j e = ground (arith, e)

blocks-download :
    (o : Outside) (job : Job) (n : ℕ) (j : Job)
    → IsReadAlike o
    → 0 < n
    → active_download o n job ≡ true
    → active_download o n j ≡ true
    → blocking o job j ≡ true
unfolding payload_int64
blocks-download o job n j a p e h = ground (
  arith,
  same_type-swap j.type job.type download,
  target-agrees o job.type job.payload j (
      of_video-agrees o (payload_int64 o.parse_int job.payload "video_id")
        (lookup "video_id" job.payload) n j (λ m. cast_agrees o (lookup "video_id" job.payload) m a)
        (ground (arith, e)) (ground (arith, h))),
)

module _ (id now : ℕ) (job : Job) where
  tally-insert_job :
      (p : Job → Bool) (table : List Job)
      → tally p table ≤ 1
      → (p (new_row id now job) ≡ true → tally p table ≡ 0)
      → tally p (insert_job id now job table) ≤ 1
  unfolding insert_job
  tally-insert_job p table l z = ground (arith, tally-append p table (new_row id now job ∷ []), z)

insert_row-IsSingle :
    (job : Job)
    → Triple
        (λ w. IsSingle w × (is_active job.status ≡ true → Free job w))
        (insert_row job)
        (λ id. IsSingle)
        IsSingle
insert_row-IsSingle job = record { run = λ w h. after w h.0 h.1 }
  where
    inserted :
        (w : World)
        → IsSingle w
        → (is_active job.status ≡ true → Free job w)
        → ℕ
        → IsSingle (record w {
          jobs = insert_job w.next_job_id (w.outside.clock w.calls) job w.jobs;
          next_job_id = suc w.next_job_id;
        })
    inserted w g f n = record {
      one_of = λ t d.
          tally-insert_job w.next_job_id (w.outside.clock w.calls) job (active_of t) w.jobs
            (g.one_of t d)
            (λ e.
              tally_none (active_of t) (blocking w.outside job) w.jobs
                (λ j. blocks-of w.outside job t j d (ground (arith, e))) (f (ground (arith, e))));
      one_download = λ n p.
          tally-insert_job w.next_job_id (w.outside.clock w.calls) job (active_download w.outside n)
            w.jobs (g.one_download n p)
            (λ e.
              tally_none (active_download w.outside n) (blocking w.outside job) w.jobs
                (λ j. blocks-download w.outside job n j g.alike p (ground (arith, e)))
                (f (ground (arith, e))));
      alike = g.alike;
    }

    after :
        (w : World)
        → IsSingle w
        → (is_active job.status ≡ true → Free job w)
        → Ends (λ id. IsSingle) IsSingle (insert_row job w)
    after w g f = elim (Bool-cases (accepts_type job.type)) [
      | inl e ↦ rw e (inserted w g f 0)
      | inr e ↦ rw e g
    ]

-- What the check says.
abbrev Answers : Job → Bool → World → Type 0
Answers job r w = r ≡ false → is_active job.status ≡ true → Free job w

has_active_job-Answers :
    (job : Job)
    → Triple IsSingle
        (has_active_job job.type job.payload)
        (λ r w. IsSingle w × Answers job r w)
        IsSingle
unfolding has_active_job
has_active_job-Answers job =
    Triple-call (λ w. (ok (any (blocking w.outside job) w.jobs), w))
      (record { run = λ w g. (g, λ e _. e) })
      (λ w g.
        (IsSingle-tables.no_calls w (suc w.calls) g, IsSingle-tables.no_calls w (suc w.calls) g))

-- Where no other statement comes between its check and its INSERT, Enqueue keeps the active jobs
-- apart: at most one of each type but download, and at most one download of each video with a
-- positive id, if that was so before. The database reads a video's id as the program does.
pub one_active_job : (job : Job) (w : World) → IsSingle w → IsSingle (enqueue job w).1
unfolding enqueue
one_active_job job w g =
    (Preserves-of IsSingle (
        Triple-bind (λ r w. IsSingle w × Answers job r w) (asked (is_active job.status) refl)
          rest)).holds
      w g
  where
    Found : Bool → Type 0
    Found b =
        Triple IsSingle (if b then has_active_job job.type job.payload else return false)
          (λ r w. IsSingle w × Answers job r w) IsSingle

    asked : (b : Bool) → is_active job.status ≡ b → Found b
    asked true e = has_active_job-Answers job
    asked false e = Triple-return false (λ w g. (g, λ _ a. ground (arith, e, a)))

    rest :
        (r : Bool)
        → Triple
            (λ w. IsSingle w × Answers job r w)
            (if r
              then throw job_already_active
              else (do id ← call (insert_row job); call (return id)))
            (λ id. IsSingle)
            IsSingle
    rest true = Triple-throw job_already_active (λ w h. h.0)
    rest false =
        Triple-bind (λ id. IsSingle)
          (Triple-call (insert_row job)
            (record { run = λ w h. (insert_row-IsSingle job).run w (h.0, h.1 refl) })
            (λ w h. (
              (IsSingle-tables.no_calls w (suc w.calls) h.0, h.1),
              IsSingle-tables.no_calls w (suc w.calls) h.0,
            )))
          λ id.
            Triple-preserves IsSingle
              (Preserves-call IsSingle-tables (return id) (Preserves-return IsSingle id))
