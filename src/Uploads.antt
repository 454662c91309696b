-- ===== src/Uploads.antt =====
-- backend/src/uploads/uploads.service.ts: resumable uploads of an owner, kept in the legacy
-- workspace. The database is its tables, the temporary directory of a session is named by its
-- upload id, and the methods are functions of the database, the disk and what the outside answers.
-- Left out: uploads through a public share (`access`), the SSD service, and workspaces other than
-- the legacy one.
pub mod Create
pub mod Quota
pub mod Shape
pub mod Chunk
pub mod Limits
pub mod Complete
mod Examples
pub mod Sessions
pub mod Upkeep
use https_github_com_sv3t0v.Common.{
  ℕ, suc, ◌+◌, String, Bool, true, false, ◌&&◌, ◌||◌, Option, none, some, List, [], ◌∷◌, ltb, leb,
  ◌==◌, str_eq, if◌then◌else◌, find_row, set_row, keep_rows, sum_rows,
}
use https_github_com_sv3t0v.Text.{Text}

pub data Status : Type 0 where
  pending uploading completed aborted : Status

-- `["pending", "uploading"].includes(status)`
abbrev pub is_active : Status → Bool
is_active pending = true
is_active uploading = true
is_active _ = false

pub record User : Type 0 where
  pub id : ℕ
  pub is_active : Bool
  pub storage_quota : ℕ
  pub storage_used : ℕ

pub record Session : Type 0 where
  pub id : ℕ
  pub upload_id : String
  pub filename : Text
  pub expected_sha256 : Option String
  pub total_size : ℕ
  pub uploaded_size : ℕ
  pub chunk_size : ℕ
  pub total_chunks : ℕ
  pub uploaded_count : ℕ
  pub parent_id : Option ℕ
  pub status : Status
  pub expires_at : Option ℕ
  pub user_id : ℕ

pub record ChunkRecord : Type 0 where
  pub session_id : ℕ
  pub chunk_index : ℕ
  pub byte_size : ℕ
  pub sha256 : String

pub record Folder : Type 0 where
  pub id : ℕ
  pub name : Text
  pub parent_id : Option ℕ
  pub is_deleted : Bool
  pub user_id : ℕ

pub record FileRow : Type 0 where
  pub id : ℕ
  pub name : Text
  pub storage_path : Option String
  pub size : ℕ
  pub mime_type : Option String
  pub checksum : Option String
  pub is_folder : Bool
  pub is_deleted : Bool
  pub parent_id : Option ℕ
  pub folder_id : Option ℕ
  pub upload_id : Option String
  pub user_id : ℕ

-- `next_id` stands for the sequences of the primary keys.
pub record Db : Type 0 where
  pub users : List User
  pub sessions : List Session
  pub chunks : List ChunkRecord
  pub folders : List Folder
  pub files : List FileRow
  pub next_id : ℕ

abbrev pub Bytes : Type 0
Bytes = List ℕ

-- The chunk files and the assemblies of each session's directory, an assembly by the id of its
-- attempt, and the objects of the storage by their path.
pub record Disk : Type 0 where
  pub has_dir : String → Bool
  pub part : String → ℕ → Option Bytes
  pub attempts : String → List String
  pub object : String → Option Bytes

pub record World : Type 0 where
  pub db : Db
  pub disk : Disk

abbrev pub has_id : ℕ → User → Bool
has_id id u = u.id == id

unfoldable pub find_user : ℕ → Db → Option User
find_user id db = find_row (has_id id) db.users

-- `sessionWhere(userId, uploadId)`
abbrev pub session_where : ℕ → String → Session → Bool
session_where user_id upload_id s = s.user_id == user_id && str_eq s.upload_id upload_id

unfoldable pub find_session : ℕ → String → Db → Option Session
find_session user_id upload_id db = find_row (session_where user_id upload_id) db.sessions

-- `manager.save(session)`. Upload ids are unique, so a row is written where it was found.
unfoldable pub save_session : Session → Db → Db
save_session s db = record db {
  sessions = set_row (session_where s.user_id s.upload_id) s db.sessions;
}

-- `SUM(totalSize)` over the sessions of a user that are pending or uploading.
abbrev pub reserved_by : ℕ → Session → ℕ
reserved_by user_id s = if s.user_id == user_id && is_active s.status then s.total_size else 0

unfoldable pub active_total : ℕ → Db → ℕ
active_total user_id db = sum_rows (reserved_by user_id) db.sessions

pub record Config : Type 0 where
  pub max_file_size : ℕ
  pub max_total_size : ℕ
  pub max_chunk_size : ℕ
  pub max_upload_chunks : ℕ
  pub session_ttl_ms : ℕ

-- `expiresAt && new Date() > expiresAt`
abbrev pub is_expired : ℕ → Session → Bool
is_expired now s = elim s.expires_at [ none ↦ false | some at ↦ ltb at now ]

-- `expiresAt && expiresAt <= new Date()`
abbrev pub has_expired : ℕ → Session → Bool
has_expired now s = elim s.expires_at [ none ↦ false | some at ↦ leb at now ]
