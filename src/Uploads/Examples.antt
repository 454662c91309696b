-- ===== src/Uploads/Examples.antt =====
-- Runs of the upload methods on small data, and instances of the theorems on them.
use https_github_com_sv3t0v.Common.{
  ℕ, zero, suc, ◌≤◌, ◌≡◌, refl, String, true, false, Option, none, some, [], ◌∷◌, arith, find_row,
  keep_rows, set_row, sum_rows,
}
use https_github_com_sv3t0v.Http.{ok, nat, parse_database_size}
use https_github_com_sv3t0v.Text.{Text, units, text_eq, some_unit, is_space, is_blank}
use https_github_com_sv3t0v.Uploads.{
  uploading, User, Session, ChunkRecord, FileRow, Db, Disk, World, Bytes, Config, find_user,
  find_session, save_session, active_total,
}
use https_github_com_sv3t0v.Uploads.Create
use https_github_com_sv3t0v.Uploads.Create.{
  Request, create_upload_session, check_request, check_numbers, check_sizes, check_parent,
  validate_filename, validate_safe_positive_integer, reserve, make_dir, new_session, Sizes,
}
use https_github_com_sv3t0v.Uploads.Quota.{IsWithinQuota, create-IsWithinQuota}
use https_github_com_sv3t0v.Uploads.Shape.{IsCreated, create-IsCreated}
use https_github_com_sv3t0v.Uploads.Limits.{
  UploadLimits, get_upload_limits, reserve-advertised, create-le-effective,
}
use https_github_com_sv3t0v.Uploads.Chunk
use https_github_com_sv3t0v.Uploads.Chunk.{
  upload_chunk, check_chunk, put_chunk, store_part, account, written,
}
use https_github_com_sv3t0v.Uploads.Chunk.Accounting.{IsAccounted, IsDurable}
use https_github_com_sv3t0v.Uploads.Chunk.Calls.{
  Answer, Repeated, upload_chunk-Answer, upload_chunk-Repeated,
}
use https_github_com_sv3t0v.Uploads.Complete
use https_github_com_sv3t0v.Uploads.Complete.{
  acknowledged, cleanup_unpublished, drop_attempts, lock_publication_destination,
}
use https_github_com_sv3t0v.Uploads.Complete.Assembly.{
  assemble, gather, read_chunk, IsAssembled, assemble-IsAssembled,
}
use https_github_com_sv3t0v.Uploads.Complete.Publication.{
  publish, check_publication, write_publication, new_file, finished,
}
use https_github_com_sv3t0v.Uploads.Complete.Charge.{publish-IsWithinQuota}
use https_github_com_sv3t0v.Uploads.Complete.Steps.{
  Completion, complete_upload, complete_upload-Finish,
}
use https_github_com_sv3t0v.Namespace.{
  allocate_namespace_name, choose_name, names_in, is_occupied, lock_parent,
}
use https_github_com_sv3t0v.Users.{update_storage_used}
use https_github_com_sv3t0v.Uploads.Sessions
use https_github_com_sv3t0v.Uploads.Sessions.{
  Reconciled, to_session_metadata, reconcile_upload_session, chunks_of, sort_chunks, insert_chunk,
  add_sizes, abort_upload,
}
use https_github_com_sv3t0v.Uploads.Sessions.Resuming.{reconcile-uploaded_size}
use https_github_com_sv3t0v.Uploads.Sessions.Aborting.{Abortion, abort_upload-Abortion}
use https_github_com_sv3t0v.Uploads.Upkeep
use https_github_com_sv3t0v.Uploads.Upkeep.{
  cleanup_expired_sessions, cleanup_all, cleanup_one, cleanup-keeps_live,
}

-- A stand-in for the digest.
abbrev digest : Bytes → String
digest [] = ""
digest (x ∷ []) = "1"
digest (x ∷ y ∷ []) = "2"
digest _ = "3"

abbrev path : ℕ → String → Text → String
path user_id key name = key

abbrev user : User
user = record { id = 1; is_active = true; storage_quota = 100; storage_used = 10 }

abbrev config : Config
config = record {
  max_file_size = 50;
  max_total_size = 60;
  max_chunk_size = 4;
  max_upload_chunks = 10;
  session_ttl_ms = 1000;
}

abbrev name : Text
name = 97 ∷ []

abbrev empty_disk : Disk
empty_disk = record {
  has_dir = λ u. false;
  part = λ u i. none;
  attempts = λ u. [];
  object = λ p. none;
}

abbrev start : Db
start = record {
  users = user ∷ [];
  sessions = [];
  chunks = [];
  folders = [];
  files = [];
  next_id = 7;
}

abbrev empty_world : World
empty_world = record { db = start; disk = empty_disk }

abbrev request : Request
request = record {
  user_id = 1;
  filename = name;
  total_size = nat 6;
  chunk_size = nat 4;
  parent_id = none;
  expected_sha256 = none;
}

abbrev outside : Create.Outside
outside = record { now = 5; uuid = "u"; workspace_ok = true; mkdir_ok = true }

abbrev sizes : Sizes
sizes = record { total_size = 6; chunk_size = 4; total_chunks = 2; parent_id = none }

abbrev session : Session
session = new_session request sizes config outside 7

test_create : (create_upload_session config outside request empty_world).1 ≡ ok session
unfolding create_upload_session check_request check_numbers check_sizes check_parent
    validate_filename validate_safe_positive_integer reserve make_dir find_user find_row
    active_total sum_rows parse_database_size is_blank some_unit is_space text_eq units
test_create = refl

create-IsCreated_example :
    IsCreated config request empty_world
      (create_upload_session config outside request empty_world).0
      session
create-IsCreated_example = create-IsCreated config outside request empty_world session test_create

start-IsWithinQuota : IsWithinQuota start
unfolding find_user find_row active_total sum_rows
start-IsWithinQuota id u e = ground (arith, e)

create-IsWithinQuota_example :
    IsWithinQuota (create_upload_session config outside request empty_world).0.db
create-IsWithinQuota_example =
    create-IsWithinQuota config outside request empty_world start-IsWithinQuota

abbrev limits : UploadLimits
limits = record {
  max_file_bytes = some 50;
  max_active_bytes = some 60;
  max_chunk_bytes = 4;
  max_chunks = 10;
  remaining_active_bytes = some 60;
  quota_remaining_bytes = 90;
  effective_max_file_bytes = 40;
}

test_limits : get_upload_limits config 1 start ≡ ok limits
unfolding get_upload_limits find_user find_row active_total sum_rows parse_database_size
test_limits = refl

reserve-advertised_example :
    reserve config outside request sizes start
    ≡ ok (record start { sessions = session ∷ []; next_id = 8 }, session)
reserve-advertised_example =
    reserve-advertised config outside request sizes start limits test_limits (omega arith)
      (omega arith) refl

create-le-effective_example : 6 ≤ 40
create-le-effective_example =
    create-le-effective config outside request empty_world session limits test_limits test_create

-- A chunk is uploaded, and sent again.
abbrev created : World
created = record {
  db = record start { sessions = session ∷ []; next_id = 8 };
  disk = record empty_disk { has_dir = λ u. true };
}

abbrev calm : Chunk.Outside
calm = record {
  now = 6;
  fence_free = true;
  unreserved = true;
  workspace_ok = true;
  sync_ok = true;
  write = written;
  commit_ok = true;
}

abbrev first_chunk : Bytes
first_chunk = 1 ∷ 2 ∷ 3 ∷ 4 ∷ []

test_found : find_session 1 "u" created.db ≡ some session
unfolding find_session find_row
test_found = refl

created-IsAccounted : IsAccounted created.db session
unfolding sum_rows
created-IsAccounted = record { count = refl; size = refl }

created-IsDurable : IsDurable digest created session
unfolding find_row
created-IsDurable i r e = cc

upload_chunk-Answer_example :
    Answer digest calm session
      (nat 0)
      first_chunk
      created
      (upload_chunk digest calm 1 "u" (nat 0) first_chunk created)
upload_chunk-Answer_example =
    upload_chunk-Answer digest calm 1 "u" (nat 0) first_chunk created session test_found
      created-IsAccounted created-IsDurable

abbrev row : ℕ → ℕ → String → ChunkRecord
row i size hash = record { session_id = 7; chunk_index = i; byte_size = size; sha256 = hash }

abbrev part_way : Session
part_way = record session { uploaded_size = 4; uploaded_count = 1; status = uploading }

abbrev one_chunk : World
one_chunk = record {
  db = record start { sessions = part_way ∷ []; chunks = row 0 4 "3" ∷ []; next_id = 8 };
  disk = record empty_disk { part = λ u i. some first_chunk };
}

test_part_way : find_session 1 "u" one_chunk.db ≡ some part_way
unfolding find_session find_row
test_part_way = refl

test_row : find_row (Chunk.is_record_of part_way.id 0) one_chunk.db.chunks ≡ some (row 0 4 "3")
unfolding find_row
test_row = refl

upload_chunk-Repeated_example :
    Repeated digest part_way
      (row 0 4 "3")
      first_chunk
      one_chunk
      (upload_chunk digest calm 1 "u" (nat 0) first_chunk one_chunk)
upload_chunk-Repeated_example =
    upload_chunk-Repeated digest calm 1 "u" 0 first_chunk one_chunk part_way (row 0 4 "3")
      test_part_way test_row

-- Both chunks are there, and the upload is completed.
abbrev full : Session
full = record session { uploaded_size = 6; uploaded_count = 2; status = uploading }

abbrev parts : ℕ → Option Bytes
parts zero = some first_chunk
parts (suc i) = some (5 ∷ 6 ∷ [])

abbrev both_chunks : World
both_chunks = record {
  db = record start { sessions = full ∷ []; chunks = row 0 4 "3" ∷ row 1 2 "2" ∷ []; next_id = 8 };
  disk = record empty_disk { has_dir = λ u. true; part = λ u. parts };
}

abbrev whole : Bytes
whole = 1 ∷ 2 ∷ 3 ∷ 4 ∷ 5 ∷ 6 ∷ []

test_assemble : assemble digest full both_chunks.db both_chunks.disk ≡ ok whole
unfolding assemble gather read_chunk find_row
test_assemble = refl

assemble-IsAssembled_example : IsAssembled digest full both_chunks.db both_chunks.disk whole
assemble-IsAssembled_example =
    assemble-IsAssembled digest full both_chunks.db both_chunks.disk whole test_assemble

abbrev undisturbed : Complete.Outside
undisturbed = record {
  has_slot = true;
  fence_free = true;
  unreserved = true;
  workspace_ok = true;
  now = 7;
  attempt = "a";
  write_ok = true;
  mime = "text/plain";
  meanwhile = λ db. db;
  now_publish = 8;
  still_unreserved = true;
  still_workspace = true;
  link_ok = true;
  commit = acknowledged;
}

abbrev published_file : FileRow
published_file = new_file full "u.a" 6 name "3" "text/plain" 8

abbrev published : Db
published = record start {
  users = record user { storage_used = 16 } ∷ [];
  sessions = finished full 6 ∷ [];
  chunks = [];
  files = published_file ∷ [];
  next_id = 9;
}

test_publish :
    publish undisturbed full "u.a" full.total_size "3" both_chunks.db
    ≡ ok (published, published_file)
unfolding publish check_publication write_publication lock_publication_destination find_user
    find_session save_session find_row set_row keep_rows active_total sum_rows parse_database_size
    allocate_namespace_name choose_name names_in is_occupied lock_parent update_storage_used text_eq
test_publish = refl

both_chunks-IsWithinQuota : IsWithinQuota both_chunks.db
unfolding find_user find_row active_total sum_rows
both_chunks-IsWithinQuota id u e = ground (arith, e)

publish-IsWithinQuota_example : IsWithinQuota published
publish-IsWithinQuota_example =
    publish-IsWithinQuota undisturbed full "u.a" "3" both_chunks.db published published_file
      test_publish both_chunks-IsWithinQuota

test_full : find_session 1 "u" both_chunks.db ≡ some full
unfolding find_session find_row
test_full = refl

test_no_file :
    find_row (Complete.is_upload_of full.user_id full.upload_id) both_chunks.db.files ≡ none
unfolding find_row
test_no_file = refl

complete_upload-Finish_example :
    Completion digest path undisturbed full both_chunks
      (complete_upload digest path undisturbed 1 "u" both_chunks)
complete_upload-Finish_example =
    complete_upload-Finish digest path undisturbed 1 "u" both_chunks full test_full refl
      test_no_file

-- A client resumes, and an upload is aborted.
abbrev ready : Sessions.Outside
ready = record {
  now = 7;
  fence_free = true;
  unreserved = true;
  workspace_ok = true;
  commit = acknowledged;
}

abbrev reconciled : Reconciled
reconciled = record {
  session = to_session_metadata part_way;
  chunks = record { chunk_index = 0; byte_size = 4; sha256 = "3" } ∷ [];
  file = none;
}

test_reconcile : reconcile_upload_session 10 ready 1 "u" one_chunk.db ≡ ok reconciled
unfolding reconcile_upload_session find_session find_row keep_rows chunks_of sort_chunks
    insert_chunk Sessions.take add_sizes parse_database_size
test_reconcile = refl

part_way-IsAccounted : IsAccounted one_chunk.db part_way
unfolding sum_rows
part_way-IsAccounted = record { count = refl; size = refl }

reconcile-uploaded_size_example : reconciled.session.uploaded_size ≡ part_way.uploaded_size
reconcile-uploaded_size_example =
    reconcile-uploaded_size 10 ready 1 "u" one_chunk.db part_way reconciled test_part_way refl
      part_way-IsAccounted (omega arith) test_reconcile

abort_upload-Abortion_example :
    Abortion ready part_way one_chunk (abort_upload path ready 1 "u" one_chunk)
abort_upload-Abortion_example =
    abort_upload-Abortion path ready 1 "u" one_chunk part_way test_part_way

-- Upkeep beside an upload that goes on.
abbrev sweeper : Upkeep.Outside
sweeper = record {
  now = 500;
  fence_free = λ u. true;
  unreserved = λ i. true;
  workspace_ok = λ i. true;
  commit = λ i. acknowledged;
}

abbrev stale : Session
stale = record session { id = 6; upload_id = "v"; expires_at = some 400 }

abbrev two_sessions : World
two_sessions = record one_chunk { db = record (one_chunk.db) { sessions = stale ∷ part_way ∷ [] } }

test_cleanup : (cleanup_expired_sessions path sweeper two_sessions).1 ≡ ok 1
unfolding cleanup_expired_sessions cleanup_all cleanup_one cleanup_unpublished drop_attempts
    find_row keep_rows
test_cleanup = refl

test_there : find_row (Upkeep.has_session_id part_way.id) two_sessions.db.sessions ≡ some part_way
unfolding find_row
test_there = refl

cleanup-keeps_live_example :
    find_row
      (Upkeep.has_session_id part_way.id)
      (cleanup_expired_sessions path sweeper two_sessions).0.db.sessions
    ≡ some part_way
cleanup-keeps_live_example = cleanup-keeps_live path sweeper part_way two_sessions refl test_there
