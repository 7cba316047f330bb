-- ===== src/Lib.antt =====
-- Verification library of db-backup, a scheduler of database backups written in Go.
--
-- The program runs jobs on schedules. A job makes a backup, stores it, and then moves old backups to
-- an archive and prunes what its retention policy no longer keeps. Backups may be incremental, so
-- one may need others to be restored. The library models the parts that decide and delete:
--
-- Retention (src/internal/retention, src/supported/retention/backend/tier.go and parse.go,
-- src/internal/scheduler/retention.go). Policy has `BackupEntry` and `RetentionPolicy` with the
-- guards on the tiers. Chain/Walk is `chainDependencies`, and Chain/Closure compares it with the
-- closure of the relation "is the base of". Tiers/Scan is `applyTiers`, Tiers/Budget what a tier
-- keeps. Apply/Defs is `ApplyRetentionAt`; Apply/Kept, Fate, Deleted and Editions say what it keeps
-- and deletes. Listing is `ListBackupsWithSidecars`. Prune/Delete is `DeleteBackupsWithContext` and
-- Prune/Step is `applyPrune`; Prune/Settled and Prune/Safety say what they may do to a storage. Maps
-- to which only `true` is written are lists of keys. The walk along the bases has fuel, one round
-- more than there are backups: each round but the last marks a backup that was not marked, so it
-- never runs out, and that is proved.
--
-- Storage (src/internal/storage/storage.go) is the interface of a backend as a record of operations
-- and laws, which Prune and Archive take as a parameter. Storage/Memory fills it.
--
-- Archive (src/supported/retention/backend/archive.go): Move is `moveFile` and `runArchive` over two
-- storages, which may be two places or one, NoLoss and Choice are about the files in them.
--
-- Cron (src/internal/scheduler/cron.go, src/internal/config/schedule.go): Field has the two field
-- matchers, Validate the validator, Next is `nextCronAt` with its 525600 rounds as in the source.
--
-- Schedule (src/internal/config/schedule.go, src/internal/scheduler/cron.go,
-- src/supported/config/days.go): Data has blackouts, day filters and `slotGate`'s tests, Grid the
-- waits between runs, with `time.Date` in the location of a time as an argument; Rounds, Wait, Times
-- and Blackout are about them.
--
-- Scheduler (src/internal/scheduler/scheduler.go, jobs.go, retention.go): Job has `runOnceJob` and
-- `RunOnce` as sequences of steps, Slots the channel of concurrency slots as a step
-- relation, and Progress is about jobs that wait for one.
--
-- Runner (src/internal/scheduler/runner): Chain finds the backup that a run extends and decides
-- whether to start a new chain, FullAfter is about the age rule. Databases is all.go, and Expand says
-- which databases it arrives at. Names has the name of a backup and `UniqueBackupName` of
-- src/internal/database/common/filename.go. `Run` of runner.go is Strategy (the checks and the plan), Run
-- (name, pipeline, upload, link to the latest backup, sidecar, hooks) and Fan (its calls of itself,
-- three deep at most); Ending, Outcome and Base say what a run does. Databases, licence, clock, dumps and the
-- writers that compress and encrypt are the fields of a record `World`.
--
-- Compress (src/internal/compress/compress.go): the parallel writer. Segments is `Write` and `Close`,
-- Workers the goroutines of `submit` as a step relation, Collector the loop of `collect`. Settle and
-- Arrive are about the collector, Counts and Order about all of them, Close and Progress about the
-- end. Codec has the names of the codecs. The inner loop of `collect` has as much fuel as buffers wait
-- and each round takes one of them, so it ends where the source's does; `write_loop` has a round for
-- each byte and each round takes one at least.
--
-- Config (src/internal/config/config.go, jobs.go): patterns, excluded databases, the strategy of a job.
--
-- Restore (src/cmd/dbb/restore.go): Chain is the part of `cmdRestore` that finds the files of a
-- restore and applies them, with its 64 rounds as in the source; Links is about these files, Kept about
-- prunes, Replay about what has been applied, AfterRun about backups that a run has left. Codec serves
-- the examples.
--
-- Stats (src/internal/stats): Tracker is the tracker of the last 24 hours, Count says what a
-- snapshot of it reports, Version compares versions and Newer is about that order.
--
-- Redis (src/internal/database/engine/redis, src/internal/database/common/helpers.go): Args has
-- `QuoteRedis`, `SplitRedisArgs` and `UnquoteRedisArg`, Dump the writers of lines, Keys `Dump`,
-- `dumpKey` and `xRangeAll` over a client that answers each command, Restore `restoreLine` and Session
-- the loop of `Restore` over a server that answers each call. Rebuild says which commands rebuild a
-- key; Tokens, Lines, Reads, Pairs, Expiry, Writers, Collections, Replies and Text lead to RoundTrip. `xRangeAll`
-- runs on fuel, for which one page more than the stream fills is enough (Stream).
--
-- Mysql (src/internal/database/engine/mysql): Rows has `streamRows` with its escapes, Splitter the
-- statement splitter with its five flags as one mode; Literals, Values, Lines, Inserts and Batches
-- lead to Statements.
--
-- Base, Text, Clock and SortSlice hold what the parts share: integers of 64 bits, texts as lists of
-- bytes, the functions of Go's `strings`, `strconv`, `time` and `sort` that the code calls. A time
-- is an instant in nanoseconds since year 1 with the offset that the zone has then. Upper and lower
-- case are those of ASCII, so names of databases are compared as Go does for ASCII letters.
-- `sort.Slice` is any function that permutes and orders; nothing is assumed of equal elements.
--
-- The parsers and printers of JSON, of RFC 3339 times and of durations, the table of backup extensions,
-- and the answers of the licence are arguments, as are base64, the text of a float, `path.Match`, Go's
-- replacer and the encoders of segments. Not modelled are the other database engines, the codecs,
-- encryption, storage backends, the rest of the reading of the configuration, the rest of the command
-- line and all output.
pub mod Base
pub mod Text
pub mod Clock
pub mod SortSlice
pub mod Storage
pub mod Restore
pub mod Retention
pub mod Archive
pub mod Compress
pub mod Config
pub mod Cron
pub mod Mysql
pub mod Redis
pub mod Runner
pub mod Schedule
pub mod Scheduler
pub mod Stats
