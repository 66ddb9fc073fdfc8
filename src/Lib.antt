-- ===== src/Lib.antt =====
-- Omarchy Vault: a model of the parts of the Go program that decide who may use the Vault, which
-- links work, and which drives are touched.
--
-- The daemon vaultd finds drives (internal/disks, internal/health), watches the ones that were adopted
-- (internal/storage, internal/config), signs users in (internal/auth), keeps their accounts
-- (internal/users) and hands out upload and download links for phones (internal/transfer). Its HTTP
-- handlers call these packages; each package's state is guarded by a lock or by the one connection of
-- the database, so a call is one step here and concurrent requests are sequences of calls. A request
-- to the dashboard or from a phone is one step in Api, Transfer.Receive and Transfer.Downloads too;
-- how the calls of two requests interleave is followed only for the store of links and of accounts.
--
-- Files:
--   Prelude          texts as bytes, lists over native numbers, Go maps and results
--   Api.Server       internal/api/server.go: the state behind the dashboard, and its refusals
--   Api.Gate         internal/api/auth_handlers.go: `identity` and `gate`
--   Api.SignIn       internal/api/auth_handlers.go: `handlePasswordLogin`, `signIn`, `handleLogout`
--   Api.Accounts     internal/api/users_handlers.go: the handlers that change accounts;
--                    Api.Accounts.Requests has sequences of them
--   Transfer.Session, Transfer.Tables, Transfer.Store
--                    internal/transfer/store.go: the rows of the two tables and every operation of
--                    `Store` (Create, Lookup, Get, Active, Revoke, Reserve, Release, Record, Remaining,
--                    Received, Recent, Prune). Transfer.Store.Runs has sequences of calls.
--   Transfer.Names, Transfer.Publish, Transfer.Save
--                    internal/transfer/save.go: `CleanName` and `candidate`, `publish`, `Save`.
--                    Transfer.Publish has the interface of the kernel's calls on a folder, which
--                    Transfer.Publish.Disk meets.
--   Transfer.Receive internal/transfer/server.go: `lookupKind`, `receive`, `saveOne`
--   Transfer.Downloads
--                    internal/transfer/serve_download.go: `usable`, `count`, `send` and what calls it,
--                    `shareUnlock`, `shareUnlockedFor`, `pruneGrants`
--   Disks.Lsblk, Disks.Names, Disks.Display, Disks.Inventory, Disks.Volumes, Disks.Build
--                    internal/disks/lsblk.go and disks.go: `Build` and all it calls, from the decoded
--                    output of lsblk and findmnt to the inventory. Disks.Machine is an example.
--   Health           internal/health/smart.go: `Parse`, on the decoded output of smartctl
--   Storage.Paths    internal/storage/mounts.go: the mount table, with `filepath.Clean` and `Join`
--   Storage.Inspect  internal/storage/storage.go: `inspectSource`
--   Storage.Adopt    internal/storage/adopt.go: `Adopt` and `ensureDir`, over an interface of `Lstat`
--                    and `Mkdir`
--   Files.Sync       internal/files/sync.go: `FolderObjectName`, `Desired` and `Sync`, with
--                    `putUser` of client.go, over an interface of the calls of the file service
--   Config.Folders   internal/config/config.go: `ValidateFolder`
--   Config.Checks    internal/config/config.go: `Validate` and `ValidateListen`
--   Users.Names, Users.Folders, Users.Accounts, Users.Store
--                    internal/users/users.go: the checks and the store of accounts. Users.Store.Calls
--                    has sequences of calls.
--   Auth.Limiter     internal/auth/limiter.go: `LoginLimiter`
--   Auth.Totp        internal/auth/totp.go: `totpAt` and `VerifyTOTP`
--   Auth.Local       internal/auth/local.go: login codes and sessions
-- The children of these modules hold the proofs, named for what they prove.
--
-- Arguments that stand for code outside the repository: SHA-256 (`sha256`, `hash`), HMAC-SHA-1, the
-- base32 decoder, the check of a password against its argon2id hash (`verify`) and its computation
-- (`stretch`), `strings.ToLower` (`lower`), the reading of network addresses, the random draws (an
-- `Option`, `none` for a failure), the clock, what the file system answers, and whether each statement
-- of the database or each save of a file succeeds. `check` is the rule for new passwords and `secret`
-- the local token. No property of these is assumed. The interfaces state what the documents of the
-- systems promise: a rename without replacing, a link, an exclusive creation and a mkdir fail where
-- the name is taken, and a call that fails changes nothing; a mkdir that succeeds makes a folder; the
-- file service lists users as they are, perhaps not all, creates none where the name is taken, and its
-- other calls leave the users that they do not name. Nobody else changes a folder during one upload or one `Adopt`, or the users of the file
-- service during one `Sync`. `strings.TrimSpace` trims the white space of ASCII.
--
-- Numbers: times are counts of milliseconds or nanoseconds from an epoch and never negative. The shift
-- of the lock time and the TOTP counter are kept modulo 2 ^ 64; sizes and counters of bytes are not
-- bounded. `publish` counts its 10000 turns down, as the loop does; the digits of a number have as much
-- fuel as the number, which is enough. Every other recursion is on a list or a tree.
--
-- Not modelled: decoding of JSON, SQL, HTTP and command output, the wording of messages, the steps of
-- an atomic file replacement (it happens or it does not), argon2id itself, the pages, cookies and
-- proxies of the dashboard and the phones' server, the HTTP client of the file service, keyboard
-- shortcuts, the command line, and the web application, which are input and output around the parts
-- above or stand apart from them. Mirroring accounts to Files and signing in there, whose errors the
-- handlers only log, are left out of the handlers.
pub mod Prelude
pub mod Transfer
pub mod Disks
pub mod Auth
pub mod Config
pub mod Users
pub mod Health
pub mod Storage
pub mod Files
pub mod Api
