-- ===== src/Sharing/Archive.antt =====
-- backend/src/sharing/sharing.service.ts, `safeArchivePath`: the names of the entries of an archive.
use https_github_com_sv3t0v.Common.{
  ℕ, ◌≡◌, refl, sym, ap, subst, inl, inr, Bool, true, false, not, ◌&&◌, List, [], ◌∷◌, ◌++◌, map,
  All, arith, ◌==◌, if◌then◌else◌, Bool-cases,
}
use https_github_com_sv3t0v.Http.{Result, ok, err, ◌>>=◌, ◌>>◌, throw_if, bad_request, HttpError}
use https_github_com_sv3t0v.Text.{Text, some_unit}

abbrev pub invalid_archive_path : HttpError
invalid_archive_path = bad_request "Invalid archive path"

-- `replace(/\\/g, "/")`
abbrev pub to_slash : ℕ → ℕ
to_slash c = if c == 92 then 47 else c

abbrev pub is_slash : ℕ → Bool
is_slash c = c == 47

abbrev pub prepend : ℕ → List Text → List Text
prepend c [] = (c ∷ []) ∷ []
prepend c (part ∷ parts) = (c ∷ part) ∷ parts

-- `split("/")`
unfoldable pub split_slash : Text → List Text
split_slash [] = [] ∷ []
split_slash (c ∷ s) = let rest = split_slash s in if is_slash c then [] ∷ rest else prepend c rest

-- `join("/")`
unfoldable pub join_slash : List Text → Text
join_slash [] = []
join_slash (part ∷ []) = part
join_slash (part ∷ next ∷ parts) = part ++ (47 ∷ join_slash (next ∷ parts))

abbrev pub is_skipped : Text → Bool
is_skipped [] = true
is_skipped (c ∷ []) = c == 46
is_skipped (c ∷ d ∷ s) = false

abbrev pub is_up : Text → Bool
is_up [] = false
is_up (c ∷ []) = false
is_up (c ∷ d ∷ []) = c == 46 && d == 46
is_up (c ∷ d ∷ e ∷ s) = false

-- The loop over the parts.
unfoldable pub keep_parts : List Text → Result (List Text)
keep_parts [] = ok []
keep_parts (part ∷ parts) =
    let rest = keep_parts parts in
    if is_skipped part
    then rest
    else if is_up part
    then err invalid_archive_path
    else rest >>= λ kept. ok (part ∷ kept)

abbrev pub join_some : List Text → Result Text
join_some [] = err invalid_archive_path
join_some (part ∷ parts) = ok (join_slash (part ∷ parts))

-- An absolute path, by the rules of POSIX.
abbrev pub is_absolute : Text → Bool
is_absolute [] = false
is_absolute (c ∷ s) = is_slash c

unfoldable pub safe_archive_path : Text → Result Text
unfolding split_slash join_slash keep_parts
safe_archive_path [] = ok []
safe_archive_path (c ∷ s) =
    throw_if (is_absolute (c ∷ s)) invalid_archive_path
    >> (keep_parts (split_slash (map to_slash (c ∷ s))) >>= λ parts. join_some parts)

-- A part that names a file or a folder, and nothing above it.
abbrev pub is_plain : Text → Bool
is_plain part = not (is_skipped part) && not (is_up part)

abbrev pub free_of : ℕ → Text → Bool
free_of d part = not (some_unit (λ c. c == d) part)

-- Plain, and within one folder.
pub IsEntry : Text → Type 0
IsEntry part = (is_plain part ≡ true) × (free_of 47 part ≡ true) × (free_of 92 part ≡ true)

IsWithin : Text → Type 0
IsWithin part = (free_of 47 part ≡ true) × (free_of 92 part ≡ true)

prepend-IsWithin :
    (c : ℕ) (parts : List Text)
    → is_slash c ≡ false
    → (c == 92) ≡ false
    → All IsWithin parts
    → All IsWithin (prepend c parts)
unfolding some_unit IsWithin
prepend-IsWithin c [] h k all = ((ground (arith, h), ground (arith, k)), tt)
prepend-IsWithin c (part ∷ parts) h k ((a, b), all) =
    ((ground (arith, h, a), ground (arith, k, b)), all)

split-IsWithin : (s : Text) → All IsWithin (split_slash (map to_slash s))
unfolding split_slash some_unit IsWithin
split-IsWithin [] = ((refl, refl), tt)
split-IsWithin (c ∷ s) = elim (Bool-cases (is_slash (to_slash c))) [
  | inl slash ↦ rw slash ((refl, refl), split-IsWithin s)
  | inr other ↦
      rw other (prepend-IsWithin (to_slash c) _ other (ground (arith, other)) (split-IsWithin s))
]

keep_parts-IsEntry :
    (parts kept : List Text) → All IsWithin parts → keep_parts parts ≡ ok kept → All IsEntry kept
unfolding keep_parts IsEntry IsWithin
keep_parts-IsEntry [] kept all e =
    let same : [] ≡ kept = ground (arith, e) in subst (All IsEntry) same tt
keep_parts-IsEntry (part ∷ parts) kept (within, all) e = elim (Bool-cases (is_skipped part)) [
  | inl skip ↦ keep_parts-IsEntry parts kept all (rw (keep_parts, skip) at e)
  | inr keep ↦ elim (Bool-cases (is_up part)) [
    | inl up ↦ let clash : err invalid_archive_path ≡ ok kept = rw (keep_parts, keep, up) at e in cc
    | inr down ↦
        go (keep_parts parts) (λ more h. keep_parts-IsEntry parts more all h)
          (ground (arith, keep, down)) (rw (keep_parts, keep, down) at e)
  ]
]
  where
    go :
        (x : Result (List Text))
        → ((more : List Text) → x ≡ ok more → All IsEntry more)
        → is_plain part ≡ true
        → ◌>>=◌ {T = List Text} x (λ more. ok (part ∷ more)) ≡ ok kept
        → All IsEntry kept
    go (err x) ih plain h = cc
    go (ok more) ih plain h =
        let same : part ∷ more ≡ kept = ground (arith, h) in
        subst (All IsEntry) same ((plain, within.0, within.1), ih more refl)

split-cons :
    (c : ℕ) (s : Text) → is_slash c ≡ false → split_slash (c ∷ s) ≡ prepend c (split_slash s)
unfolding split_slash
split-cons c s h = rw h refl

split-within : (part : Text) → free_of 47 part ≡ true → split_slash part ≡ part ∷ []
unfolding split_slash some_unit
split-within [] h = refl
split-within (c ∷ s) h =
    let other : is_slash c ≡ false = ground (arith, h) in
    rw other (rw (split-within s (ground (arith, h))) refl)

split-append :
    (part rest : Text)
    → free_of 47 part ≡ true
    → split_slash (part ++ (47 ∷ rest)) ≡ part ∷ split_slash rest
unfolding split_slash some_unit
split-append [] rest h = refl
split-append (c ∷ s) rest h =
    let other : is_slash c ≡ false = ground (arith, h) in
    rw other (rw (split-append s rest (ground (arith, h))) refl)

split-join :
    (part : Text) (parts : List Text)
    → All IsEntry (part ∷ parts)
    → split_slash (join_slash (part ∷ parts)) ≡ part ∷ parts
unfolding join_slash IsEntry
split-join part [] ((plain, a, b), all) = split-within part a
split-join part (next ∷ parts) ((plain, a, b), all) =
    rw (split-append part (join_slash (next ∷ parts)) a)
      (ap (λ ps. part ∷ ps) (split-join next parts all))

to_slash-same : (part : Text) → free_of 92 part ≡ true → map to_slash part ≡ part
unfolding some_unit
to_slash-same [] h = refl
to_slash-same (c ∷ s) h =
    let other : (c == 92) ≡ false = ground (arith, h) in
    rw other (ap (λ t. c ∷ t) (to_slash-same s (ground (arith, h))))

to_slash-append :
    (part rest : Text)
    → free_of 92 part ≡ true
    → map to_slash rest ≡ rest
    → map to_slash (part ++ (47 ∷ rest)) ≡ part ++ (47 ∷ rest)
unfolding some_unit
to_slash-append [] rest h same = ap (λ t. 47 ∷ t) same
to_slash-append (c ∷ s) rest h same =
    let other : (c == 92) ≡ false = ground (arith, h) in
    rw other (ap (λ t. c ∷ t) (to_slash-append s rest (ground (arith, h)) same))

to_slash-join :
    (part : Text) (parts : List Text)
    → All IsEntry (part ∷ parts)
    → map to_slash (join_slash (part ∷ parts)) ≡ join_slash (part ∷ parts)
unfolding join_slash IsEntry
to_slash-join part [] ((plain, a, b), all) = to_slash-same part b
to_slash-join part (next ∷ parts) ((plain, a, b), all) =
    to_slash-append part (join_slash (next ∷ parts)) b (to_slash-join next parts all)

keep_parts-same : (parts : List Text) → All IsEntry parts → keep_parts parts ≡ ok parts
unfolding keep_parts IsEntry
keep_parts-same [] all = refl
keep_parts-same (part ∷ parts) ((plain, a, b), all) =
    let kept : is_skipped part ≡ false = ground (arith, plain) in
    let down : is_up part ≡ false = ground (arith, plain) in
    rw (kept, down) (rw (keep_parts-same parts all) refl)

-- The text of a joined path starts with a unit that is no slash.
starts :
    (part : Text) (parts : List Text)
    → IsEntry part
    → (c : ℕ) × (s : Text) × (join_slash (part ∷ parts) ≡ c ∷ s) × (is_slash c ≡ false)
unfolding join_slash some_unit IsEntry
starts [] parts (plain, a, b) = cc
starts (c ∷ s) [] (plain, a, b) = (c, s, refl, ground (arith, a))
starts (c ∷ s) (next ∷ parts) (plain, a, b) =
    (c, s ++ (47 ∷ join_slash (next ∷ parts)), refl, ground (arith, a))

accepted :
    (part : Text) (parts : List Text)
    → All IsEntry (part ∷ parts)
    → safe_archive_path (join_slash (part ∷ parts)) ≡ ok (join_slash (part ∷ parts))
unfolding safe_archive_path
accepted part parts all =
    let (d, t, shape, other) = starts part parts all.0 in
    let whole : (keep_parts (split_slash (map to_slash (join_slash (part ∷ parts)))) >>= λ kept.
    join_some kept)
        ≡ ok (join_slash (part ∷ parts)) =
      rw (to_slash-join part parts all)
        (rw (split-join part parts all) (rw (keep_parts-same (part ∷ parts) all) refl)) in
    let whole' =
      subst (λ x. (keep_parts (split_slash (map to_slash x)) >>= λ kept. join_some kept) ≡ ok x)
        shape whole in
    subst (λ x. safe_archive_path x ≡ ok x) (sym shape) (rw other whole')

-- A path that is accepted and not empty becomes one whose parts each name an entry: none is empty,
-- `.` or `..`, or has a slash or a backslash. Such a path is accepted again, as it is.
pub safe_archive_path-Parts :
    (c : ℕ) (s r : Text)
    → safe_archive_path (c ∷ s) ≡ ok r
    → All IsEntry (split_slash r) × (safe_archive_path r ≡ ok r)
unfolding safe_archive_path
safe_archive_path-Parts c s r e = elim (Bool-cases (is_slash c)) [
  | inl absolute ↦
      let clash : err invalid_archive_path ≡ ok r = rw (safe_archive_path, absolute) at e in cc
  | inr relative ↦ go _ refl (rw (safe_archive_path, relative) at e)
]
  where
    go :
        (x : Result (List Text))
        → keep_parts (split_slash (map to_slash (c ∷ s))) ≡ x
        → (x >>= λ kept. join_some kept) ≡ ok r
        → All IsEntry (split_slash r) × (safe_archive_path r ≡ ok r)
    go (err x) h k = cc
    go (ok []) h k = cc
    go (ok (part ∷ parts)) h k =
        let all =
          keep_parts-IsEntry (split_slash (map to_slash (c ∷ s))) (part ∷ parts)
            (split-IsWithin (c ∷ s)) h in
        let same : join_slash (part ∷ parts) ≡ r = ground (arith, k) in
        subst (λ y. All IsEntry (split_slash y) × (safe_archive_path y ≡ ok y)) same
          (subst (All IsEntry) (sym (split-join part parts all)) all, accepted part parts all)
