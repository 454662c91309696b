-- ===== src/Files/Placement/Copies.antt =====
-- A copy and its object: both are there, or neither is.
use https_github_com_sv3t0v.Common.{ℕ, ◌≡◌, ◌⊎◌, String, false, none, some, ◌∷◌, str_eq}
use https_github_com_sv3t0v.Http.{HttpError, Result, ok, err}
use https_github_com_sv3t0v.Text.{Text}
use https_github_com_sv3t0v.Uploads.{FileRow, Disk, World, Bytes}
use https_github_com_sv3t0v.Uploads.Chunk.{internal_error}
use https_github_com_sv3t0v.Uploads.Complete.{link_object}
use https_github_com_sv3t0v.Namespace
use https_github_com_sv3t0v.Files.{owned_file}
use https_github_com_sv3t0v.Files.Placement.{Outside, object_of}

-- The objects at all other paths are what they were.
pub Others : String → World → World → Type 0
Others path w w' = (p : String) → str_eq p path ≡ false → w'.disk.object p ≡ w.disk.object p

-- How a copy ends.
pub data Copying (o : Outside) (user_id id : ℕ) (w w' : World) (r : Result FileRow) : Type 0 where
  refused : (e : HttpError) → w' ≡ w → r ≡ err e → Copying o user_id id w w' r
  withdrawn :
      (e : HttpError)
      → w'.db ≡ w.db
      → w'.disk.object o.path ≡ none
      → Others o.path w w'
      → r ≡ err e
      → Copying o user_id id w w' r
  committed :
      (source f : FileRow) (bytes : Bytes)
      → owned_file user_id id w.db ≡ some source
      → object_of source.storage_path w.disk ≡ some bytes
      → w'.db.files ≡ f ∷ w.db.files
      → f.storage_path ≡ some o.path
      → f.size ≡ source.size
      → w'.disk.object o.path ≡ some bytes
      → Others o.path w w'
      → (r ≡ ok f) ⊎ (r ≡ err internal_error)
      → Copying o user_id id w w' r

abbrev Ended : Outside → ℕ → ℕ → World → World × Result FileRow → Type 0
Ended o user_id id w x = Copying o user_id id w x.0 x.1

module _ (o : Outside) (user_id id : ℕ) (source : FileRow) (bytes : Bytes) (size : ℕ) (w : World)
    (found : owned_file user_id id w.db ≡ some source) (sized : size ≡ source.size)
    (there : object_of source.storage_path w.disk ≡ some bytes) where
  abbrev linked : Disk
  linked = link_object o.path bytes w.disk
