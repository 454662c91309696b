-- ===== src/Sharing.antt =====
-- backend/src/sharing/sharing.service.ts: links to a file or a folder for the public, with a password,
-- an expiry and a number of downloads. A single SQL statement is one step, and NOW() is the clock
-- reading of the call.
pub mod Passwords
pub mod Folders
pub mod Downloads
pub mod Budget
pub mod Guesses
pub mod Archive
pub mod Scope
mod Examples
use https_github_com_sv3t0v.Common.{
  ℕ, zero, suc, ◌+◌, ◌*◌, String, Bool, true, false, not, ◌&&◌, ◌||◌, Option, none, some, List, [],
  ◌∷◌, map, ltb, leb, ◌==◌, str_eq, if◌then◌else◌, find_row, set_row, length,
}
use https_github_com_sv3t0v.Http.{
  HttpError, Result, ok, err, ◌>>=◌, ◌>>◌, throw_if, bad_request, forbidden, not_found,
}
use https_github_com_sv3t0v.Text.{Text}
use https_github_com_sv3t0v.Uploads.{User, Folder, FileRow, Db, find_user}
use https_github_com_sv3t0v.Uploads.Create.{or_throw}
use https_github_com_sv3t0v.Files.{has_file_id, owned_file, is_mirror_of, file_not_found}

pub record ShareLink : Type 0 where
  pub id : ℕ
  pub token : String
  pub password : Option String
  pub expires_at : Option ℕ
  pub locked_until : Option ℕ
  pub is_active : Bool
  pub failed_attempts : ℕ
  pub download_count : ℕ
  pub max_downloads : Option ℕ
  pub is_folder : Bool
  pub allow_upload : Bool
  pub user_id : ℕ
  pub file_id : ℕ

abbrev pub has_token : String → ShareLink → Bool
has_token token s = str_eq s.token token

abbrev pub has_share_id : ℕ → ShareLink → Bool
has_share_id id s = s.id == id

abbrev pub link_not_found : HttpError
link_not_found = not_found "Share link not found or expired"

-- `expiresAt <= now`, never where it is null.
abbrev pub is_past : ℕ → Option ℕ → Bool
is_past now none = false
is_past now (some t) = leb t now

-- The configuration of the service, and the request.
pub record Policy : Type 0 where
  pub max_share_size : ℕ
  pub allowed_mime_types : List String

pub record Options : Type 0 where
  pub password : Option Text
  pub expires_in_days : Option ℕ
  pub max_downloads : Option ℕ
  pub is_folder : Option Bool
  pub allow_upload : Option Bool

abbrev pub includes : List String → Option String → Bool
includes types none = false
includes types (some mime) = elim (find_row (str_eq mime) types) [ none ↦ false | some t ↦ true ]

abbrev pub or_else {ℓ} : {A : Type ℓ} → Option A → A → A
or_else none other = other
or_else (some x) other = x

-- `if (options.password)`: no hash of an empty password.
abbrev pub hashed : (Text → String) → Option Text → Option String
hashed hash none = none
hashed hash (some []) = none
hashed hash (some (c ∷ cs)) = some (hash (c ∷ cs))

abbrev pub new_link :
    (Text → String) → (ℕ → ℕ → ℕ) → ℕ → ℕ → String → Options → FileRow → ℕ → ShareLink
new_link hash add_days now id token o f user_id = record {
  id = id;
  token = token;
  password = hashed hash o.password;
  expires_at = some (add_days now (or_else o.expires_in_days 7));
  locked_until = none;
  is_active = true;
  failed_attempts = 0;
  download_count = 0;
  max_downloads = o.max_downloads;
  is_folder = or_else o.is_folder f.is_folder;
  allow_upload = or_else o.allow_upload false;
  user_id = user_id;
  file_id = f.id;
}

abbrev pub check_shared : Policy → Options → FileRow → Result (Unit {0})
check_shared p o f = do
  throw_if f.is_deleted file_not_found
  throw_if (f.is_folder && not (or_else o.is_folder true))
      (bad_request "Cannot share folder as file")
  throw_if (not f.is_folder && or_else o.is_folder false)
      (bad_request "Cannot share file as folder")
  throw_if (or_else o.allow_upload false && not f.is_folder)
      (bad_request "Only folders can allow public uploads")
  throw_if (not f.is_folder && ltb p.max_share_size f.size)
      (bad_request "File exceeds maximum shareable size")
  throw_if (not f.is_folder && not (includes p.allowed_mime_types f.mime_type))
      (bad_request "File type is not allowed for sharing")

-- `hash` is the one of bcrypt, `add_days` the calendar's, `id` and `token` are fresh.
unfoldable pub create_share_link :
    (Text → String)
    → (ℕ → ℕ → ℕ)
    → Policy
    → ℕ
    → ℕ
    → String
    → ℕ
    → ℕ
    → Options
    → Db
    → List ShareLink
    → Result (List ShareLink × ShareLink)
unfolding owned_file find_user
create_share_link hash add_days p now id token user_id file_id o db shares = do
  f ← or_throw (owned_file user_id file_id db) file_not_found
  check_shared p o f
  u ← or_throw (find_user user_id db) (not_found "User not found")
  throw_if (not u.is_active) (not_found "User not found")
  let link = new_link hash add_days now id token o f user_id
  ok (link ∷ shares, link)

-- The file and the user that a link names.
abbrev pub is_sound : Option FileRow → Option User → ShareLink → Bool
is_sound none u s = false
is_sound (some f) none s = false
is_sound (some f) (some u) s = not f.is_deleted && f.user_id == s.user_id && u.is_active

abbrev pub share_if_sound : ℕ → Db → Option ShareLink → Result ShareLink
share_if_sound now db none = err link_not_found
share_if_sound now db (some s) =
    if s.is_active
      && not (is_past now s.expires_at)
      && is_sound (find_row (has_file_id s.file_id) db.files) (find_user s.user_id db) s
    then ok s
    else err link_not_found

-- The token is a unique key.
unfoldable pub find_share_by_token : ℕ → String → Db → List ShareLink → Result ShareLink
unfolding find_user
find_share_by_token now token db shares = share_if_sound now db (find_row (has_token token) shares)

-- The statement that admits a download. The token is a unique key.
abbrev pub below_max : ShareLink → Bool
below_max s = elim s.max_downloads [ none ↦ true | some m ↦ ltb s.download_count m ]

abbrev pub is_open : ℕ → ShareLink → Bool
is_open now s = s.is_active && not (is_past now s.expires_at) && below_max s

abbrev pub admit :
    (ShareLink → Bool) → ℕ → String → Option ShareLink → List ShareLink → List ShareLink × Result ℕ
admit is_allowed now token none shares = (shares, err link_not_found)
admit is_allowed now token (some s) shares =
    if is_open now s && is_allowed s
    then (
      set_row (has_token token) (record s { download_count = s.download_count + 1 }) shares,
      ok (s.download_count + 1),
    )
    else (shares, err link_not_found)

unfoldable pub increment_download_count : ℕ → String → List ShareLink → List ShareLink × Result ℕ
increment_download_count now token shares =
    admit (λ s. true) now token (find_row (has_token token) shares) shares

unfoldable pub revoke_share : ℕ → ℕ → List ShareLink → Result (List ShareLink)
revoke_share user_id id shares = elim (find_row (has_share_id id) shares) [
  | none ↦ err (not_found "Share link not found")
  | some s ↦
      if s.user_id == user_id
      then ok (set_row (has_share_id id) (record s { is_active = false }) shares)
      else err (not_found "Share link not found")
]
