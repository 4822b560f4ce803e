-- ===== src/Lib.antt =====
-- A verification library for Shoka, a document server with projects in namespaces, OAuth scopes
-- and git history. It models the parts on which access and data safety rest.
--
-- Parts, by the paths of the repository:
--   pkg/authz/authz.go, pkg/authz/scope_ops.go. Every request carries a scope string. ParseScope
--     reads it into grants, and Authorize compares the best matching grant with the required level.
--     When a project or namespace is deleted, moved or renamed, the scope strings that stand in the
--     stores are rewritten token by token. Files: Authz (parse_scope is ParseScope, parse_grant is
--     parseGrant, effective_level, matches and authorize are the functions of these names) and
--     ScopeOps (prune_scope is pruneScope, project_grant_suffix is projectGrantSuffix, and so on).
--   internal/utils/validation.go. IsValidName, the test of namespace and project names on which the
--     scope grammar relies. File: Names.
--   internal/storage/partialedit.go. splicePatch and spliceAppend compute the new bytes of a file;
--     the storage reads and writes it round them. File: PartialEdit.
--   internal/storage/wal/wal.go. The log of writes that wait for their git commit: one JSON file for
--     each entry, and in memory the heads, the next number and the sum of the sizes. Files: Wal/Wire
--     (Entry, toWire, readEntryFile, and the fields that Append computes), Wal/Seq (seqName,
--     parseSeqName), Wal/Log (Open and scan, Append, ReadByID, Remove, quarantine), Wal/Log/Runs
--     (Run: any sequence of them, with failing calls and restarts; a file whose read fails is put into
--     quarantine, since otherwise ReadByID drops from memory an entry that stays in the directory).
--   internal/storage/filelock/filelock.go. Goroutines in WithLock and WithLocks take the stripe mutexes
--     of their paths, record leases and run a function. Files: FileLock/Order (lock_order is the
--     sorted set of stripes that WithLocks computes), FileLock/Steps (one constructor of Move or Step
--     for each thing that a goroutine, lockCtx, ReleaseAllForSession or reapOnce does, in any
--     interleaving; contexts end at any time, a wait that is given up because its context has ended
--     leaves a goroutine behind, as lockCtx does, and the mutexes are given back one by one).
--   internal/storage/walworker/walworker.go. The dispatcher hands pending entries to workers, one of a
--     project at a time; a worker reads its entry, commits it with retries, and removes it or puts it
--     into lost+found. Files: WalWorker (applyDefaults, dispatch, process, runQuarantine), Wal/Log/Listing
--     (ListPending), WalWorker/Process, WalWorker/Retries and WalWorker/Dispatch.
--   pkg/oauthstore/oauthstore.go, registrations.go, domain.go. Authorization codes, series of access and
--     refresh tokens with two buckets of pointers into them, registered clients and the entries of an
--     operator. Files: Oauth (the records), Oauth/Series (PutCode, TakeCode, NewSeries, Rotate, Lookup),
--     Oauth/Sweeps (Revoke and what runs over a bucket), Oauth/Registrations,
--     Oauth/Confidential, Oauth/Seeding, Oauth/Domains;
--     Oauth/Linked says how the buckets belong together, Oauth/Histories which stores are reached,
--     and Oauth/Tokens, Oauth/Rotation, Oauth/Revocation and Oauth/Errors what is accepted after what.
--   pkg/userstore/userstore.go, admin.go. Accounts, sessions and invitations. Files: Users,
--     Users/Sessions, Users/Admin, Users/Invites; Users/Lockout, Users/Accounts, Users/Redemption, Users/Scopes.
--   internal/scopeclean/scopeclean.go. When a namespace or project goes or moves, the scopes of both stores
--     are rewritten by the functions of scope_ops.go. Files: ScopeClean,
--     ScopeClean/Places, ScopeClean/Cascade.
--   internal/notify/center.go. The events of writes, in a ring, sent to the subscribers. Files: Notify,
--     Notify/Ring, Notify/Window, Notify/Refines, Notify/Missed.
--   Prelude and Text hold what these share: tests, lists, association lists for Go's maps and for
--     directories, and package strings of Go's library on texts.
--
-- How things are represented. A string that is compared or cut as text is a list of code points, a
-- byte slice a list of bytes. A uint64 or int64 is the number of its bit pattern, with the
-- wrap-around written out. A map is an association list. The log passes its state explicitly, and
-- each call of the file system that can fail is a field of Io. SHA-256, base64, RFC 3339 times and
-- JSON are the record Codec, a parameter with the laws that what was written is read back; Tests has
-- an instance. A bucket of bbolt is an association list from keys to what the JSON under them decodes
-- to, if it does; reading back what was written, the order of the keys and the limit on their length
-- are not modelled, and a transaction that fails gives the store before it. A handle that is drawn at
-- random is an argument, `none` where the random source fails, and theorems that need it say that it
-- is new. Times and durations are numbers at least 0, and the counters of metrics do not wrap.
-- SHA-256 and the functions of strings and net/url that the stores call are the record Calls, without
-- any law. A center's buffer is a function on its slots. What happens to a worker from outside, each
-- commit, wait and deposit, is the record Outside; the loop of process runs on fuel, as many steps as
-- attempts are configured, which is enough. All else is structural recursion without fuel; the proof
-- that the locks make progress counts the stripes above a waiting goroutine, at most num_stripes.
--
-- Not modelled: log messages and error texts, Level.String, the age and the counters of the log, its tmp
-- directory (a file that failed to be renamed is removed again), directories in its directory, the interleaving of two operations of one log; WithDirLock and ActiveLeases of
-- filelock; the channels and the starting and retiring of workers; the re-keying of an old OAuth
-- store, its opening and its metrics; passwords, TOTP secrets and passkeys (cryptography), ListInvites;
-- the other storage components (catalog, index, namespace registry, git), the HTTP and MCP handlers
-- and the browser interface.
pub mod Prelude
pub mod Text
pub mod Names
pub mod Authz
pub mod ScopeOps
pub mod PartialEdit
pub mod Wal
pub mod FileLock
pub mod WalWorker
pub mod Oauth
pub mod Users
pub mod ScopeClean
pub mod Notify
pub mod Tests
