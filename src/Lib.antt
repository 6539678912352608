-- ===== src/Lib.antt =====
-- A model of the server of my-personal-cloud, a private file store behind an HTTP interface, and
-- what is shown of it. The paths of the Go code are from the repository's root.
--
-- The parts. A request comes in through the routes of cmd/server/main.go, may have to pass a rate
-- limiter (internal/ratelimit), and is answered by the file service (internal/files), the share
-- service (internal/shares), the gallery (internal/photos) or the backup service
-- (internal/backup). They keep their rows in SQLite (internal/db) and the contents of
-- files below one directory (internal/storage). The user of a request is what the authentication
-- (internal/auth) has put into its context.
--
-- The files.
--   Prelude: names of the library, lists, Boolean tests, and texts as lists of code points.
--   GoPath: path.Clean, path.Base, filepath.Join and the functions of strings that the code calls;
--     GoPath/Canonical shows the form that Clean gives a path.
--   Sql: the SQL that the statements use, on lists of rows: LIKE, SUBSTR, COLLATE NOCASE, ORDER BY,
--     LIMIT, UPDATE, DELETE and COUNT.
--   World: the state that the services share, a handler as a function from it, and the calls that
--     may fail; World/Triple, World/Calls and World/Keeps are the rules to reason about handlers.
--   Decimal: strconv.Itoa and strconv.Atoi.
--   Storage: LocalStore of internal/storage/storage.go.
--   Auth: internal/auth/auth.go. User and FromContext stand in Auth, issueToken and parseToken in
--     Tokens, EnsureUser, Login, Middleware and the handlers in Service; the other children show what
--     tokens and users are good for.
--   RateLimit: Limiter of internal/ratelimit/ratelimit.go; Allow is `allow`, purge is `purge`, RealIP
--     is `real_ip`. RateLimit/Window compares it with a log of all requests.
--   Files: internal/files/files.go. Names has the helpers on names, Api the data and statements,
--     Listing, Content, Changes and Folders the handlers, and Service one constructor for each
--     route, with what holds of all of them below it: Isolation is about the tables and Spared about
--     the disk.
--   Shares: internal/shares/shares.go, its public part in Shares/Access, its routes in Shares/Service.
--   Photos: internal/photos/photos.go, its routes in Photos/Service.
--   Backup: internal/backup. The format of the encrypted files stands in Backup, the state with
--     DBHolder in Site, the archive in Archive, what a restore does on the disk in Copying, and
--     CreateBackup, RestoreBackup and the handlers in Service. Format and Genuine are about the
--     encryption, Settled and Restoring about every end of a restore, Journey, Copies and Roundtrip
--     about a backup that is restored; Leads has the rules for steps of this state.
--   Migrations: Open and migrate of internal/db/db.go.
--   Ai: internal/ai, less the handlers. The client and the stored vectors stand in Ai, the search in
--     Ai/Search.
--   Config: internal/config/config.go.
--   Server: the limiters and routes of cmd/server/main.go, on the state of the services and limiters;
--     those of backups stand in Server/Backups.
--   Tests: runs at concrete inputs.
--
-- State and failures. A World has the tables, the disk, the time, the number of identifiers that
-- were drawn, and a list that says of each next call of the database or the file system whether it
-- fails. What is said of a request without a word on failures holds for every such list. A
-- transaction keeps the tables it began with and returns to them when a statement or the commit
-- fails. Numbers and times are natural numbers; the parsing of numbers has the bounds of a 64-bit
-- int. Decimals are written with fuel of 20 digits, enough for every number below 10^20 and so for
-- every int64.
--
-- Taken from outside, as fields of Env: the identifiers of uuid.NewString, the random tokens, and
-- the content type that net/http detects; as fields of Library: signing, parsing and verifying of
-- tokens (jwt) and hashing and comparing of passwords (bcrypt); as fields of Crypto, Packages and
-- Images: the hashes and ciphers of backups, archive/zip and the file of SQLite, and the coding and
-- scaling of pictures. What a property assumes of them stands in its hypotheses, and Tests has
-- functions that meet these.
--
-- Not modelled: the interleaving of two handlers (each runs alone), the text of log lines and of
-- JSON, an error of the driver between two rows of a result, the decoding of a body (a handler
-- gets the decoded body or none), requests for a range of a file or with a condition (a stream is
-- sent whole), symbolic links below the storage root, an entry of an archive that is extracted onto
-- the file of the database itself, and a write that fails half way (it has written nothing or all).
-- What an open connection reads of a file of the database that is written over under it is a
-- function of Packages, of which nothing is assumed. The handlers of internal/ai, which no route
-- leads to, and the start and restart of the process are left out so far.
pub mod Prelude
pub mod GoPath
pub mod Migrations
pub mod Sql
pub mod World
pub mod Decimal
pub mod Storage
pub mod Ai
pub mod Auth
pub mod RateLimit
pub mod Files
pub mod Shares
pub mod Backup
pub mod Photos
pub mod Config
pub mod Server
pub mod Tests
