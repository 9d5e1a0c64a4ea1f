-- ===== src/Lib.antt =====
-- A model of cmemlan, the self-hosted hub that keeps claude-mem's memories in step between machines of
-- one network, with proofs about it.
--
-- The hub (internal/hub) answers three requests of a client: what the head of the log is, append
-- these operations, and send the operations behind my cursor. internal/proto reads and writes the
-- values on the wire, and internal/store keeps the log, the devices and the epoch in SQLite.
-- internal/pair gives a new device the pre-shared key in exchange for a short code.
-- internal/clientdb queues the rows of a client that were there before the sync, and takes that back.
-- internal/cli has the commands that a user types, and internal/settings the file that `connect` writes.
--
-- Files, and the code that each is about:
--   Prelude and below: shared names; a Go string is the list of its bytes (`Bytes`), a Go error
--     result is a `Result`.
--   Proto.Dec: internal/proto/dec.go. `dec_string` prints at most twenty digits, which is enough for
--     a uint64. Proto.Errors: errors.go. Proto.Op: the types and limits of wrapper.go. Proto.Emit:
--     emit.go. Proto.Digest: digest.go. Proto.Unquote: unquote.go. Proto.Json: what wrapper.go uses of
--     encoding/json, the scanner of a value and the reading of a string. Proto.Fields: `objectFields`
--     of wrapper.go. Proto.Parse: `ParseOp` and `parseBody`.
--   Store.Tables: the tables of internal/store/schema.go, and the SQL statements of ops.go as
--     functions of lists of rows; Store.Env: the clock, the random source, and which calls fail.
--   Store.Push: `Store.Push` of ops.go; Store.Devices: devices.go; Store.Changes: changes.go;
--     Store.Open: `Open`, `migrate`, `BumpEpoch` and `verifyHeadConsistency` of store.go and schema.go;
--     Store.Steps: every interleaving of the operations that write.
--   Pair.Codes: internal/pair/codes.go; Pair.Keys: pair.go; Pair.FileWindow: window_file.go.
--   Hub.Server: internal/hub/server.go and middleware.go; Hub.Limit: `limitInFlight`;
--     Hub.Handlers: the handlers of handlers.go that read, and the pairing. Hub.Push: `handlePush`.
--     Hub.Route: `route` and `Handler`, and sequences of requests.
--     Hub.Bind and Hub.Listener: bind.go. Hub.Record: record.go.
--   Client.Database and Client.Worker: internal/clientdb/clientdb.go. Of backfill.go, Client.Select has
--     `filterFor`, Client.Exclusions the launch baseline, Client.Backfill and Client.Undo the commands.
--   Settings: internal/settings/settings.go, with `Restore` and `LatestBackup` in Settings.Backups.
--   Of internal/cli, Cli.Lorem, Cli.Value, Cli.Secrets, Cli.Scrub and Cli.Scrub.Exchange: fixtures.go.
--     Cli.Connect: connect.go, and `redeem` of hubclient.go. Cli.BackfillCommand: backfill_cmd.go.
--     Cli.Lock: lockfile.go. Cli.Doctor: doctor.go, status.go, and `Status` of hubclient.go.
--     Cli.PairCommand: `runPair` and `runRotateToken` of pair_cmd.go.
--
-- State and errors. A `Store` is the committed content of the database with the fields that the
-- process keeps. An operation is a function from a store to a store and a result. A transaction is a
-- function to a result: what it wrote is kept only if it ends in a commit. Each call of the database
-- that may return an error has a constructor of `Call`, and an `Env` says which of them fail, so that
-- a theorem over every `Env` is one over every pattern of failures. Locks make each operation one step:
-- `Store.mu` is held throughout each of them, and SQLite allows one writer.
--
-- Bounds. Sequence numbers are natural numbers below 2^63, as `Push` refuses to go past MaxInt64; a
-- `Dec` is a natural number below 2^64. Integers that the code tests for their sign are a `ℤ`. Columns
-- that the code only ever fills with numbers from 0 on are natural numbers.
-- `itoa_loop` has fuel for the twenty digits of its buffer. `fields_loop` has a round for each byte,
-- and every round takes a byte at least.
--
-- SQLite itself is not modelled: a statement has its usual meaning on a list of rows, the user_id
-- column is left out since all rows carry that of the one meta row, and durability is assumed of a
-- commit. Logging is modelled where it is a result of the check that it follows (`warned`). Contexts,
-- timeouts and file permissions appear only as calls that may fail.
--
-- The pairing window in the file (`Dir`) is what `json.Unmarshal` makes of it. SHA-256 with base64 is a
-- parameter. A call of `FileWindow.Redeem` holds the lock file throughout, so it is one step; times are
-- in milliseconds. `strings.EqualFold` is that of ASCII texts, `net` and `net/netip`,
-- `strconv.Quote`, `Digest` and the decoding of the JSON bodies of pushes and pairings are parameters.
--
-- The database of a client (`Database`) has the columns that the statements read. A row id is a natural
-- number and its text is `dec_string`; the undo table is none where SQLite has no such table. A
-- statement may fail as a `ClientCall`, and the backup is the database under the name of its file.
--
-- The files of a recorder are those of its directory, by their numbers; a write may fail before the file
-- is opened, or behind that, which leaves a part of an exchange.
--
-- A settings file is its bytes and its time. `SettingsEnv` says what other processes make of it between
-- the calls of `Update` that look at it; encoding and decoding of the map are parameters,
-- about which nothing is assumed but for maps that `Update` has read and merged.
--
-- The commands (internal/cli) are modelled behind the reading of their flags, as records, and up to
-- what they print: a run gives what it leaves, what it has sent and its exit status. `connect` and
-- `backfill` are composed with the models of the settings, the pairing and the client database. The
-- regular expressions of fixtures.go are matchers of bytes; `fill` has a round for each byte of the text,
-- and each round writes a byte at least. In Cli.Lock the calls of several processes are a sequence in any
-- order; a file has an inode, as a process may write to a file that is no longer at the path.
--
-- Not modelled: paths and discovery, `serve` and the installation as a service, the dispatch and the
-- flags of the command line, and logging. They are calls of the system and of libraries for
-- the most part.
pub mod Prelude
pub mod Hub
pub mod Settings
pub mod Client
pub mod Cli
pub mod Pair
pub mod Proto
pub mod Store
