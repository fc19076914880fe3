-- ===== src/Lib.antt =====
-- Verification of the fetch-bilibili server: a program that tracks creators of a video platform,
-- downloads their videos into a local store, checks whether they are still available, and removes
-- old files when the store grows too large.
--
-- The parts and their files. Each file's first lines name the code that it models.
-- - Library/Syncer: the queue that rebuilds the creators' directories
--   (internal/library/queue.go). The event loop and the queue worker are two goroutines that share
--   a bounded channel and three sets under a mutex; `step` is what one of them does between two
--   points where the other may run, and `run` follows any schedule of such steps. RebuildAll, the
--   ticker and the end of the context are not steps.
-- - Library/Exporter, Library/Projector, Library/Names: the snapshot of a creator and the list of all
--   creators for a rebuild (internal/library/export.go), the videos and manifests of a projection
--   (internal/library/projector.go), and the name of a creator's directory
--   (internal/library/path.go). The directories and links themselves are not modelled.
-- - Live/Broker: the event broker (internal/live/broker.go). Each method is one step under the
--   broker's mutex; the channels are a heap of their own, since subscribers keep theirs.
-- - Worker: the jobs (internal/worker/handler.go, internal/worker/limiter.go). Cleanup with its
--   Policy, Ranking and Deletion, Download, Check, Fetch, the storage figures (Snapshot), the published
--   events (Publishing), and the rate limiter (Limiter, Waiting). The jobs use the repositories'
--   statements and publish events, which the broker hands on.
-- - Repo: the tables and the statements on them (internal/repo/models.go and, under
--   internal/repo/mysql, video_repo.go in Videos and Listing, video_file_repo.go in VideoFiles,
--   creator_repo.go in Creators, candidate_repo.go in Candidates and CandidateDetails, with the
--   keys and ENUMs of migrations/00001_init.sql to migrations/00003_candidate_discovery.sql).
-- - Creator: the creator service and the synchronisation with the creators' file
--   (internal/creator/service.go, internal/creator/syncer.go). The file's entries are given.
-- - App/Recovery: what the program repairs before it starts (internal/app/app.go).
-- - Jobs: the jobs table and the pool of workers (internal/repo/mysql/job_repo.go,
--   internal/worker/worker.go). `step` is what one worker, or an insert, does to the table in one
--   statement or transaction, and `run` follows any interleaving. The worker hands a job to the
--   handlers of Worker; here only its outcome counts. Enqueue, with its check for an active job, and
--   the job service (internal/jobs/service.go) stand in Jobs/Enqueue and Jobs/Service.
-- - Discovery/Scorer: the score of a candidate creator (internal/discovery/scorer.go).
-- - Discovery/Keywords: the keyword discoverer (internal/discovery/keyword_discoverer.go). The choice
--   of the keywords and the hits of one page stand in the file itself, what they add up to for one
--   creator in Aggregate, the run in Run, and what it finds and adds in Found, Saved and Bounds.
-- - Discovery/Service: the review of candidates (internal/discovery/service.go), over the candidates'
--   tables, the creator service and the job service.
-- - World, Effects, Triples and Invariants: the state that the operations pass on, with their errors,
--   and rules for proofs about them. Prelude: shared names and lemmas. Examples: concrete runs.
--
-- How the code is read.
-- - An operation takes a World and gives a result and a new World. The World's
--   Outside says which calls fail and how, what the clock shows, and what the platform answers, by
--   the number of the call; theorems hold for all of these. A statement that fails leaves the tables
--   as they were. A handler runs by itself, not between the steps of another; so does Enqueue,
--   whose two statements no other request comes between, but in Jobs/Enqueue/Overlapped. A failure that is
--   logged only has no further effect.
-- - The disk is the list of files under the store root; a recorded path outside of it counts as missing.
--   A subscriber's channel is buffered, as at every call of Subscribe. filepath.Join, strconv.ParseInt,
--   strings.TrimSpace, unicode.IsLetter, sort.SliceStable, and MySQL's LIKE and CAST are parameters.
-- - int64 and int are integers that wrap at 2^63 (Prelude/Int). Times are in nanoseconds, and 0 is
--   Go's zero time, or NULL in a table. A float64 in a payload is given by its int64.
-- - A state of a video is one of the texts that the program writes. MySQL runs in strict mode, so a
--   text that the column's ENUM does not list is refused. Rows that are equal under ORDER BY come in
--   the table's order. Texts are compared exactly, but in the unique key of the candidates' sources,
--   where the collation is a parameter. A refused INSERT uses no id. A repository or
--   publisher that may be nil is given by a Boolean.
-- - Loops are recursions over lists. Only the two loops that read page after page run on fuel: the one
--   of ListCreatorsForRebuild ends if the fuel exceeds the number of creators, as its theorem shows,
--   and so does that of pauseMissingActive, which says by `none` that the fuel ran out.
--
-- Not modelled: RebuildAll, the discover job and the dispatch of jobs by type, the related
-- discoverer, the wiring and the shutdown of the application, the configuration file, the platform
-- client, the HTTP interface, the dashboard, the scheduler, the set-up of the database and the front
-- end. They are input and output around the modelled parts, or wait for the related discoverer.
pub mod Prelude
pub mod Library
pub mod Live
pub mod World
pub mod Effects
pub mod Triples
pub mod Invariants
pub mod Repo
pub mod Worker
pub mod Discovery
pub mod Creator
pub mod Jobs
pub mod App
pub mod Examples
