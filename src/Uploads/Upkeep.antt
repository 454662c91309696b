-- ===== src/Uploads/Upkeep.antt =====
-- backend/src/uploads/uploads.service.ts: `cleanupExpiredSessions`, `parseSizeEnv`, `parseTtlEnv`.
-- A setting of the environment is given by what `Number` makes of its text.
use https_github_com_sv3t0v.Common.{
  ℕ, ◌+◌, ◌*◌, ◌≡◌, refl, String, Bool, true, false, not, ◌&&◌, ◌||◌, Option, none, some, List, [],
  ◌∷◌, arith, ltb, ◌==◌, if◌then◌else◌, find_row, keep_rows, Bool-cases, inl, inr, ◌⊎◌, subst, sym,
  find_row-holds,
}
use https_github_com_sv3t0v.Http.{Result, ok, err, bad_request, HttpError, JsNumber, nat, max_safe}
use https_github_com_sv3t0v.Text.{Text}
use https_github_com_sv3t0v.Uploads.{is_active, Session, Db, World, is_expired}
use https_github_com_sv3t0v.Uploads.Complete.{
  Commit, acknowledged, unacknowledged, undone, cleanup_unpublished, delete_temp_files,
  without_chunks, unreserved_error, workspace_error,
}
use https_github_com_sv3t0v.Uploads.Chunk.{is_closed, internal_error}
use Prim.Native.String

pub data Setting : Type 0 where
  unset blank : Setting
  given : JsNumber → Setting

abbrev about : String → String → HttpError
about name rest = bad_request (String.◌++◌ name rest)

-- The messages leave out the value that they quote.
unfoldable pub parse_size_env : Setting → String → Bool → ℕ → Result ℕ
parse_size_env unset name allow_zero default = ok default
parse_size_env blank name allow_zero default = err (about name " is set but empty")
parse_size_env (given (nat n)) name allow_zero default =
    if ltb max_safe n
    then err (about name " must be a non-negative safe integer")
    else if not allow_zero && n == 0
    then err (about name " must be > 0")
    else ok n
parse_size_env (given _) name allow_zero default =
    err (about name " must be a non-negative safe integer")

-- Hours, as milliseconds.
unfoldable pub parse_ttl_env : Setting → String → ℕ → Result ℕ
parse_ttl_env unset name default = ok (default * 60 * 60 * 1000)
parse_ttl_env blank name default = err (about name " is set but empty")
parse_ttl_env (given (nat n)) name default =
    if ltb max_safe n || n == 0
    then err (about name " must be a positive safe integer (hours)")
    else ok (n * 60 * 60 * 1000)
parse_ttl_env (given _) name default = err (about name " must be a positive safe integer (hours)")

-- The clock, and for each session the advisory lock, the journal, the workspace, and the writes of
-- its transaction: done with the COMMIT, done with the answer to it lost, or not done, by an error.
pub record Outside : Type 0 where
  pub now : ℕ
  pub fence_free : String → Bool
  pub unreserved : ℕ → Bool
  pub workspace_ok : ℕ → Bool
  pub commit : ℕ → Commit

abbrev pub has_session_id : ℕ → Session → Bool
has_session_id id s = s.id == id

abbrev pub without_session : ℕ → Db → Db
without_session id db = record db { sessions = keep_rows (λ s. not (s.id == id)) db.sessions }

-- The end of the transaction. The files are gone before its writes, and stay gone without them.
abbrev pub settle_removal : Commit → Db → World × Result ℕ → World × Result ℕ
settle_removal acknowledged db x = x
settle_removal unacknowledged db (w', r) = (w', err internal_error)
settle_removal undone db (w', r) = (record w' { db = db }, err internal_error)

module _ (final_path : ℕ → String → Text → String) where
  -- The files and the rows of a session; a session that is not closed goes too, and counts.
  abbrev pub remove_session : Session → World → World × Result ℕ
  remove_session s w =
      let db = without_chunks s.id w.db in
      let disk = delete_temp_files s.upload_id (cleanup_unpublished final_path s w.db w.disk).0 in
      if is_closed s.status
      then (record { db = db; disk = disk }, ok 0)
      else (record { db = without_session s.id db; disk = disk }, ok 1)

  abbrev pub cleanup_found : Outside → World → Option Session → World × Result ℕ
  cleanup_found o w none = (w, ok 0)
  cleanup_found o w (some s) =
      if not (o.workspace_ok s.id)
      then (w, err workspace_error)
      else if not (is_closed s.status) && not (is_expired o.now s)
      then (w, ok 0)
      else if not (o.unreserved s.id)
      then (w, err unreserved_error)
      else settle_removal (o.commit s.id) w.db (remove_session s w)

  -- The transaction of one candidate.
  unfoldable pub cleanup_one : Outside → Session → World → World × Result ℕ
  unfolding cleanup_unpublished
  cleanup_one o candidate w =
      if o.fence_free candidate.upload_id
      then cleanup_found o w (find_row (has_session_id candidate.id) w.db.sessions)
      else (w, ok 0)

  -- The loop; an error ends it.
  unfoldable pub cleanup_all : Outside → ℕ → List Session → World → World × Result ℕ
  unfolding cleanup_one
  cleanup_all o cleaned [] w = (w, ok cleaned)
  cleanup_all o cleaned (c ∷ cs) w =
      let (w', r) = cleanup_one o c w in
      elim r [ ok n ↦ cleanup_all o (cleaned + n) cs w' | err e ↦ (w', err e) ]

  unfoldable pub cleanup_expired_sessions : Outside → World → World × Result ℕ
  unfolding cleanup_all
  cleanup_expired_sessions o w =
      cleanup_all o 0 (keep_rows (λ s. is_active s.status) w.db.sessions) w

find_row-keep_rows :
    (id other : ℕ) (s : Session) (xs : List Session)
    → find_row (has_session_id id) xs ≡ some s
    → (id == other) ≡ false
    → find_row (has_session_id id) (keep_rows (λ s. not (s.id == other)) xs) ≡ some s
unfolding find_row keep_rows
find_row-keep_rows id other s [] e h = cc
find_row-keep_rows id other s (x ∷ xs) e h = ground (arith, e, h, find_row-keep_rows id other s xs)

-- A session that is there.
abbrev pub IsThere : Session → World → Type 0
IsThere s w = find_row (has_session_id s.id) w.db.sessions ≡ some s

module _ (final_path : ℕ → String → Text → String) (o : Outside) (s : Session)
    (live : is_expired o.now s ≡ false) where
  remove-IsThere :
      (t : Session) (w : World)
      → IsThere s w
      → find_row (has_session_id t.id) w.db.sessions ≡ some t
      → (is_closed t.status ≡ true) ⊎ (is_expired o.now t ≡ true)
      → IsThere s (remove_session final_path t w).0
  remove-IsThere t w there found h = elim (Bool-cases (is_closed t.status)) [
    | inl closed ↦ rw closed there
    | inr open_one ↦ elim (Bool-cases (s.id == t.id)) [
      | inl same ↦
          let at : find_row (has_session_id t.id) w.db.sessions ≡ some s =
            subst (λ i. find_row (has_session_id i) w.db.sessions ≡ some s) (ground (arith, same))
              there in
          let one : t ≡ s = ground (arith, at, found) in
          let gone : is_expired o.now t ≡ false =
            subst (λ x. is_expired o.now x ≡ false) (sym one) live in
          elim h [ inl closed ↦ cc | inr expired ↦ cc ]
      | inr apart ↦ rw open_one (find_row-keep_rows s.id t.id s w.db.sessions there apart)
    ]
  ]

  settle-IsThere :
      (k : Commit) (w : World) (x : World × Result ℕ)
      → IsThere s w
      → IsThere s x.0
      → IsThere s (settle_removal k w.db x).0
  settle-IsThere acknowledged w x before after = after
  settle-IsThere unacknowledged w (w', r) before after = after
  settle-IsThere undone w (w', r) before after = before

  cleanup_found-IsThere :
      (t : Option Session) (id : ℕ) (w : World)
      → IsThere s w
      → find_row (has_session_id id) w.db.sessions ≡ t
      → IsThere s (cleanup_found final_path o w t).0
  cleanup_found-IsThere none id w there found = there
  cleanup_found-IsThere (some t) id w there found =
      go (o.workspace_ok t.id) (o.unreserved t.id) (is_closed t.status) (is_expired o.now t) refl
        refl
    where
      held : find_row (has_session_id t.id) w.db.sessions ≡ some t
      held =
          let mine = find_row-holds (has_session_id id) t w.db.sessions found in
          subst (λ i. find_row (has_session_id i) w.db.sessions ≡ some t) (ground (arith, mine))
            found

      go :
          (a b closed expired : Bool)
          → is_closed t.status ≡ closed
          → is_expired o.now t ≡ expired
          → IsThere s
              (if not a
                then (w, err workspace_error)
                else if not closed && not expired
                then (w, ok 0)
                else if not b
                then (w, err unreserved_error)
                else settle_removal (o.commit t.id) w.db (remove_session final_path t w)).0
      go false b closed expired p q = there
      go true b false false p q = there
      go true false true expired p q = there
      go true false false true p q = there
      go true true true expired p q =
          settle-IsThere (o.commit t.id) w _ there (remove-IsThere t w there held (inl p))
      go true true false true p q =
          settle-IsThere (o.commit t.id) w _ there (remove-IsThere t w there held (inr q))

  cleanup_one-IsThere :
      (c : Session) (w : World) → IsThere s w → IsThere s (cleanup_one final_path o c w).0
  unfolding cleanup_one
  cleanup_one-IsThere c w there = elim (Bool-cases (o.fence_free c.upload_id)) [
    | inl free ↦ rw (cleanup_one, free) (cleanup_found-IsThere _ c.id w there refl)
    | inr fenced ↦ rw (cleanup_one, fenced) there
  ]

  cleanup_all-IsThere :
      (cleaned : ℕ) (cs : List Session) (w : World)
      → IsThere s w
      → IsThere s (cleanup_all final_path o cleaned cs w).0
  unfolding cleanup_all
  cleanup_all-IsThere cleaned [] w there = there
  cleanup_all-IsThere cleaned (c ∷ cs) w there = next (cleanup_one final_path o c w).1 (λ n.
      cleanup_all-IsThere (cleaned + n) cs (cleanup_one final_path o c w).0
        (cleanup_one-IsThere c w there))
    where
      next :
          (r : Result ℕ)
          → ((n : ℕ)
              → IsThere s
                  (cleanup_all final_path o (cleaned + n) cs (cleanup_one final_path o c w).0).0)
          → IsThere s
              (elim r as (λ x. World × Result ℕ) [
                | ok n ↦ cleanup_all final_path o (cleaned + n) cs (cleanup_one final_path o c w).0
                | err e ↦ ((cleanup_one final_path o c w).0, err e)
              ]).0
      next (ok n) ih = ih n
      next (err e) ih = cleanup_one-IsThere c w there

-- The upkeep never removes or changes the row of a session that is not expired, whichever other
-- sessions it removes and whether or not it ends in an error, be it of a transaction's writes or COMMIT.
pub cleanup-keeps_live :
    (final_path : ℕ → String → Text → String) (o : Outside) (s : Session) (w : World)
    → is_expired o.now s ≡ false
    → find_row (has_session_id s.id) w.db.sessions ≡ some s
    → find_row (has_session_id s.id) (cleanup_expired_sessions final_path o w).0.db.sessions
      ≡ some s
unfolding cleanup_expired_sessions
cleanup-keeps_live final_path o s w live there = cleanup_all-IsThere final_path o s live 0 _ w there
