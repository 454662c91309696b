-- ===== src/Sharing/Downloads.antt =====
-- The downloads of a link over any run of requests.
use https_github_com_sv3t0v.Common.{
  ℕ, ◌+◌, ◌≤◌, ◌≡◌, ◌∙◌, ◌⊎◌, refl, subst, ap, inl, inr, String, Bool, true, false, ◌&&◌, Option,
  none, some, List, [], ◌∷◌, arith, str_eq, eq_iff, if◌then◌else◌, find_row, set_row, Bool-cases,
  find_row-set_row, find_row-set_row_both, find_row-set_row_other, find_row-holds,
}
use https_github_com_sv3t0v.Http.{Result, ok, err}
use https_github_com_sv3t0v.Uploads.{Db}
use https_github_com_sv3t0v.Sharing.{
  ShareLink, has_token, has_share_id, is_open, below_max, admit, increment_download_count,
  revoke_share,
}
use https_github_com_sv3t0v.Sharing.Folders.{
  file_allowed, archive_allowed, increment_folder_download_count,
  increment_folder_archive_download_count,
}

-- A request of a client, by the clock and the database that it meets.
pub data Call : Type 0 where
  download : ℕ → String → Call
  folder_download : ℕ → String → ℕ → Db → Call
  archive_download : ℕ → String → Db → Call

abbrev pub step : Call → List ShareLink → List ShareLink × Result ℕ
step (download now token) shares = increment_download_count now token shares
step (folder_download now token id db) shares =
    increment_folder_download_count now token id db shares
step (archive_download now token db) shares =
    increment_folder_archive_download_count now token db shares

abbrev pub token_of : Call → String
token_of (download now token) = token
token_of (folder_download now token id db) = token
token_of (archive_download now token db) = token

abbrev pub admitted : Result ℕ → ℕ
admitted (err e) = 0
admitted (ok n) = 1

-- The downloads of the link with a token that a run admits.
unfoldable pub downloads : String → List Call → List ShareLink → ℕ
downloads token [] shares = 0
downloads token (c ∷ cs) shares =
    (if str_eq (token_of c) token then admitted (step c shares).1 else 0)
    + downloads token cs (step c shares).0

-- A link after a request: it has the same limit and is as active, and its count has gone up by what
-- was admitted.
record Counted (t : String) (s : ShareLink) (shares : List ShareLink) (more : ℕ) : Type 0 where
  link : ShareLink
  found : find_row (has_token t) shares ≡ some link
  limit : link.max_downloads ≡ s.max_downloads
  activity : link.is_active ≡ s.is_active
  count : link.download_count ≡ s.download_count + more
  within : more ≡ 0 ⊎ ((more ≡ 1) × (s.is_active ≡ true) × (below_max s ≡ true))

admit-Counted :
    (is_allowed : ShareLink → Bool) (now : ℕ) (token t : String) (s : ShareLink)
    (shares : List ShareLink)
    → find_row (has_token t) shares ≡ some s
    → Counted t s (admit is_allowed now token (find_row (has_token token) shares) shares).0 (
        if str_eq token t
        then admitted (admit is_allowed now token (find_row (has_token token) shares) shares).1
        else 0)
admit-Counted is_allowed now token t s shares found = go _ refl
  where
    same : Counted t s shares 0
    same = record {
      link = s;
      found = found;
      limit = refl;
      activity = refl;
      count = omega arith;
      within = inl refl;
    }

    unchanged : (b : Bool) → Counted t s shares (if b then 0 else 0)
    unchanged true = same
    unchanged false = same

    go :
        (o : Option ShareLink)
        → find_row (has_token token) shares ≡ o
        → Counted t s
            (admit is_allowed now token o shares).0
            (if str_eq token t then admitted (admit is_allowed now token o shares).1 else 0)
    go none h = unchanged (str_eq token t)
    go (some r) h = elim (Bool-cases (is_open now r && is_allowed r)) [
      | inr closed ↦ rw closed (unchanged (str_eq token t))
      | inl opened ↦ rw opened (counted opened (Bool-cases (str_eq token t)))
    ]
      where
        r' : ShareLink
        r' = record r { download_count = r.download_count + 1 }

        holds : str_eq r.token token ≡ true
        holds = find_row-holds (has_token token) r shares h

        counted :
            (is_open now r && is_allowed r) ≡ true
            → (str_eq token t ≡ true) ⊎ (str_eq token t ≡ false)
            → Counted t s (set_row (has_token token) r' shares) (if str_eq token t then 1 else 0)
        counted opened (inl mine) =
            let is_t : token ≡ t = ground (arith, eq_iff token t, mine) in
            let is_s : r ≡ s = ground (arith, is_t, found, h) in
            rw mine (record {
              link = r';
              found =
                  subst
                    (λ k. find_row (has_token k) (set_row (has_token token) r' shares) ≡ some r')
                    is_t (find_row-set_row (has_token token) r r' shares h holds);
              limit = ap (λ (x : ShareLink). x.max_downloads) is_s;
              activity = ap (λ (x : ShareLink). x.is_active) is_s;
              count = ap (λ (x : ShareLink). x.download_count + 1) is_s;
              within = inr (refl, ground (arith, is_s, opened), ground (arith, is_s, opened));
            })
        counted opened (inr other) = rw other (record {
          link = s;
          found =
              find_row-set_row_other (has_token token) (has_token t) r' shares
                (λ x e.
                  ground (arith, eq_iff x.token token, eq_iff x.token t, eq_iff token t, e, other))
                (ground
                  (arith, eq_iff r.token token, eq_iff r.token t, eq_iff token t, holds, other))
              ∙ found;
          limit = refl;
          activity = refl;
          count = omega arith;
          within = inl refl;
        })

step-Counted :
    (c : Call) (t : String) (s : ShareLink) (shares : List ShareLink)
    → find_row (has_token t) shares ≡ some s
    → Counted t s
        (step c shares).0
        (if str_eq (token_of c) t then admitted (step c shares).1 else 0)
unfolding increment_download_count increment_folder_download_count
    increment_folder_archive_download_count
step-Counted (download now token) t s shares found =
    admit-Counted (λ s. true) now token t s shares found
step-Counted (folder_download now token id db) t s shares found =
    admit-Counted (file_allowed id db) now token t s shares found
step-Counted (archive_download now token db) t s shares found =
    admit-Counted (archive_allowed db) now token t s shares found

-- A link that admits at most `m` downloads and has counted no more than that admits, over any run of
-- requests for files, for files of shared folders and for archives, by any clients and for any links,
-- only as many as are left.
pub downloads-le :
    (t : String) (cs : List Call) (s : ShareLink) (shares : List ShareLink) (m : ℕ)
    → find_row (has_token t) shares ≡ some s
    → s.max_downloads ≡ some m
    → s.download_count ≤ m
    → s.download_count + downloads t cs shares ≤ m
unfolding downloads
downloads-le t [] s shares m found limit le = omega (arith, le)
downloads-le t (c ∷ cs) s shares m found limit le =
    let after = step-Counted c t s shares found in
    let more = if str_eq (token_of c) t then admitted (step c shares).1 else 0 in
    let room : s.download_count + more ≤ m = elim after.within [
      | inl none_more ↦ omega (arith, none_more, le)
      | inr (one, active, below) ↦ ground (arith, one, limit, below)
    ] in
    let ih =
      downloads-le t cs after.link (step c shares).0 m after.found (after.limit ∙ limit)
        (ground (arith, after.count, room)) in
    omega (arith, ih, after.count)

downloads-closed :
    (t : String) (cs : List Call) (s : ShareLink) (shares : List ShareLink)
    → find_row (has_token t) shares ≡ some s
    → s.is_active ≡ false
    → downloads t cs shares ≡ 0
unfolding downloads
downloads-closed t [] s shares found closed = refl
downloads-closed t (c ∷ cs) s shares found closed =
    let after = step-Counted c t s shares found in
    let more = if str_eq (token_of c) t then admitted (step c shares).1 else 0 in
    let still : more ≡ 0 = elim after.within [
      | inl none_more ↦ none_more
      | inr (one, active, below) ↦ ground (arith, active, closed)
    ] in
    omega (
      arith,
      still,
      downloads-closed t cs after.link (step c shares).0 after.found (after.activity ∙ closed),
    )

-- After a link is revoked no request for it is admitted.
pub revoke-downloads :
    (user_id : ℕ) (t : String) (cs : List Call) (s : ShareLink) (shares shares' : List ShareLink)
    → find_row (has_token t) shares ≡ some s
    → find_row (has_share_id s.id) shares ≡ some s
    → revoke_share user_id s.id shares ≡ ok shares'
    → downloads t cs shares' ≡ 0
unfolding revoke_share
revoke-downloads user_id t cs s shares shares' found key e =
    let closed : ShareLink = record s { is_active = false } in
    let holds = find_row-holds (has_token t) s shares found in
    let written : shares' ≡ set_row (has_share_id s.id) closed shares = ground (arith, key, e) in
    downloads-closed t cs closed shares'
      (rw written
        (find_row-set_row_both (has_token t) (has_share_id s.id) s closed shares found key holds))
      refl
