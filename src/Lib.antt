-- ===== src/Lib.antt =====
-- HomeCloud: the files and folders of the backend (backend/src), resumable uploads into them, the
-- accounting of storage, the rate limits of uploads, links for the public, and log-in sessions.
--
-- A user has files and folders; a folder is a row among the folders and a row among the files, its
-- mirror, which change together. A file costs its user its bytes from creation, copying or upload until
-- it is deleted for good. A link opens a file or a folder to the public. A log-in session is a refresh
-- token that is replaced at every use. Names within a folder are
-- allocated by one function.
--
-- A client creates an upload session, sends its chunks, and completes it. The rate limiter and its
-- interceptor stand before the chunk route; the session reserves bytes of the user's quota; every
-- chunk is a file with a row; completion assembles the chunk files, publishes the object under a
-- free name, charges the user and closes the session.
--
-- The files and the code they model:
--   RateLimit, RateLimit/Service: backend/src/uploads/upload-rate-limit.ts, `UploadRateLimitService`
--     (take, admitIp, admitShare, enter and the closure that it returns). A service with the leases
--     it has given is a value, a call with its clock reading is a step.
--   RateLimit/Interceptor: the same file, `UploadRateLimitInterceptor` and `markUploadProcessing`;
--     what the request and the handler do is a list of events.
--   Uploads: the entities of backend/src/entities and the queries of
--     backend/src/uploads/uploads.service.ts on them.
--   Uploads/Create, Uploads/Limits, Uploads/Chunk, Uploads/Complete: `createUploadSession`,
--     `getUploadLimits`, `uploadChunk` and `completeUpload` of that file. The children of Complete
--     are its assembly, its publication transaction and the whole.
--   Uploads/Sessions: `getUploadSession`, `reconcileUploadSession`, `listUploadSessions` and
--     `abortUpload` of that file.
--   Uploads/Upkeep: `cleanupExpiredSessions`, `parseSizeEnv` and `parseTtlEnv` of that file.
--   Files: backend/src/files/files.service.ts, `createFile`, `createFolder`, `removeFile` and the
--     look-ups. Files/Subtree: its recursive queries. Files/Folders: `updateFolder`, `removeFolder`,
--     `restoreFolder`, with the forest of folders. Files/Placement: `updateFile`, `restoreFile`,
--     `moveFile`, `copyFile`. Files/Deletion: `deleteFilePermanently`, `deleteFolderPermanently`,
--     `emptyTrash`. Files/Accounts: the storage accounting over runs of all of them and of uploads.
--   Sharing: backend/src/sharing/sharing.service.ts, `createShareLink`, `findShareByToken`,
--     `incrementDownloadCount`, `revokeShare`. Sharing/Passwords: `verifySharePassword`. Sharing/Folders:
--     `folderSubtreeSql`, `resolveSharedFolderFile` and the two other statements that admit downloads.
--     Sharing/Archive: `safeArchivePath`.
--   Auth: backend/src/auth/auth.service.ts, `register`, `login`, `refresh`, `changePassword`,
--     `cleanupExpiredTokens`; Auth/Logout: `logout`; Auth/Operations: sequences of all of them.
--   Namespace: backend/src/files/namespace-name.ts, `allocateNamespaceName`.
--   Users: backend/src/users/users.service.ts, `updateStorageUsed`, `decrementStorageUsed`.
--   Http, Text: exceptions as results, `parseDatabaseSize` of backend/src/common/database-size.ts,
--     and JavaScript strings as lists of UTF-16 units.
--   Common: names of the libraries, tests on numbers, association lists and tables of rows.
--
-- How the code is carried over. A method is a function of the database, the disk and a record of
-- what the outside answers (clock, random ids, locks, commits, the file system), and returns the new
-- state with a result. A transaction under its row locks is one step; `completeUpload` reads the
-- database twice, and `meanwhile` is any change by others in between. Numbers are natural, since the
-- code refuses all others; a difference that JavaScript bounds by 0 is the one of the natural
-- numbers. Tokens of the rate limiter are counted in 2000ths, so that the rates, of half a token in
-- a second at the least, are whole numbers in a millisecond. SHA-256 and the paths of objects are
-- parameters, and no theorem assumes anything of them. Parameters too are bcrypt, of which it is only
-- assumed that the hashes of new tokens do not match a token that was used before, the calendar, and
-- whether the query builder brackets a condition with OR that it joins by AND, of which nothing is.
-- The tables are lists, and the links for the public are a list beside the database; a password
-- attempt reads and updates its link in one step.
--
-- Bounds and fuel: `take` and the sweep are structural; decimal digits of a number have 20 places,
-- enough for 2 ^ 53; the digits of a name's index have 5, as the index is at most 10000, which is
-- also the number of rounds of that loop; a recursive query has as many rounds as there are folders,
-- since a round that is not the last finds one; the ancestors of a folder are followed 128 deep, as the
-- query does; those of a shared folder as deep as there are folders; the replacements of a token in one
-- round more than there are tokens, as no hash is visited twice.
--
-- Not modelled: the removal of orphaned directories, uploads through public shares and public folder
-- pages, the SSD service and its journal, chunk files handed over by descriptor, sessions of before
-- the chunk table, the detection of MIME types, file-system errors while files are deleted, what a
-- failed copy of bytes may leave behind, quoted values inside error messages, and the other parts of
-- the program (previews, updates, storage mounts, the frontend). Of files.service.ts the listings, the
-- search, the time stamps and a failing look-up behind a COMMIT whose answer was lost are left out; of
-- sharing.service.ts the listings and the archive stream; of auth.service.ts the signing of tokens, the
-- parsing of their lifetime and the checks of secrets. A recursive query takes each row once.
pub mod Auth
pub mod Common
pub mod Files
pub mod Http
pub mod Namespace
pub mod RateLimit
pub mod Sharing
pub mod Text
pub mod Uploads
pub mod Users
