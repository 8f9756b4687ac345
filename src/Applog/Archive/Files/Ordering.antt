-- ===== src/Applog/Archive/Files/Ordering.antt =====
-- What `listLogFiles` of internal/applog/store.go lists, and in which order.
use fbs_interlock_gateway.Prelude.{
  Bool-cases, All, All-map, ◌≤◌, ◌≡◌, refl, sym, subst, ◌∙◌, ◌≢◌, ◌⊎◌, inl, inr, true, false, some,
  none, List, [], ◌∷◌, arith,
}
use fbs_interlock_gateway.Text.{Text, text_eq}
use fbs_interlock_gateway.Text.Laws.{text_eq_refl, text_eq→eq}
use fbs_interlock_gateway.Dict.{int_key, text_key, lookup}
use fbs_interlock_gateway.Applog.Archive.Files.{
  Entry, Directory, LogFile, is_log_file, log_files, comes_before, place_file, sorted_files,
  list_log_files,
}
use fbs_interlock_gateway.Applog.Archive.Files.Sizes.{
  log_files-Listed, HasNo, Unique, Listed, list_log_files-Listed, All-place_file, All-sorted_files,
  lookup-HasNo,
}

abbrev pub IsOldestFirst : List LogFile → Type 0
IsOldestFirst [] = Unit
IsOldestFirst (f ∷ fs) = All (λ g. f.mod_time ≤ g.mod_time) fs × IsOldestFirst fs

abbrev pub HasFile : Text → List LogFile → Type 0
HasFile name [] = ⊥
HasFile name (f ∷ fs) = (f.name ≡ name) ⊎ HasFile name fs

abbrev pub DistinctNames : List LogFile → Type 0
DistinctNames [] = Unit
DistinctNames (f ∷ fs) = All (λ g. f.name ≢ g.name) fs × DistinctNames fs

-- With the time of its entry.
abbrev pub Timed : Directory → LogFile → Type 0
Timed d f = (e : Entry) × (lookup f.name d ≡ some e) × (f.mod_time ≡ e.mod_time)

-- All log files of a directory, each once, from the oldest on.
pub record IsListing (d : Directory) (fs : List LogFile) : Type 0 where
  pub oldest_first : IsOldestFirst fs
  pub listed : All (Listed d) fs
  pub times : All (Timed d) fs
  pub distinct : DistinctNames fs
  pub complete :
      (name : Text) (e : Entry)
      → lookup name d ≡ some e
      → is_log_file name e ≡ true
      → HasFile name fs

older : (g f : LogFile) → comes_before g f ≡ true → g.mod_time ≤ f.mod_time
unfolding comes_before
older g f h = ground arith

not_older : (g f : LogFile) → comes_before g f ≡ false → f.mod_time ≤ g.mod_time
unfolding comes_before
not_older g f h = ground arith

place_file-IsOldestFirst :
    (f : LogFile) (fs : List LogFile) → IsOldestFirst fs → IsOldestFirst (place_file f fs)
unfolding place_file
place_file-IsOldestFirst f [] h = (tt, tt)
place_file-IsOldestFirst f (g ∷ gs) h = elim (Bool-cases (comes_before g f)) [
  | inl first ↦ rw first (
    All-place_file (λ k. g.mod_time ≤ k.mod_time) f gs (older g f first) h.0,
    place_file-IsOldestFirst f gs h.1,
  )
  | inr later ↦
      let le = not_older g f later in
      rw later ((le, All-map (λ k m. omega (arith, le, m)) gs h.0), h)
]

sorted_files-IsOldestFirst : (fs : List LogFile) → IsOldestFirst (sorted_files fs)
unfolding sorted_files
sorted_files-IsOldestFirst [] = tt
sorted_files-IsOldestFirst (f ∷ fs) =
    place_file-IsOldestFirst f (sorted_files fs) (sorted_files-IsOldestFirst fs)

place_file-HasFile :
    (name : Text) (f : LogFile) (fs : List LogFile)
    → HasFile name (f ∷ fs)
    → HasFile name (place_file f fs)
unfolding place_file
place_file-HasFile name f [] h = h
place_file-HasFile name f (g ∷ gs) h = elim (Bool-cases (comes_before g f)) [
  | inr later ↦ rw later h
  | inl first ↦ rw first (elim h [
    | inl own ↦ inr (place_file-HasFile name f gs (inl own))
    | inr rest ↦ elim rest [
      | inl it ↦ inl it
      | inr more ↦ inr (place_file-HasFile name f gs (inr more))
    ]
  ])
]

sorted_files-HasFile :
    (name : Text) (fs : List LogFile) → HasFile name fs → HasFile name (sorted_files fs)
unfolding sorted_files
sorted_files-HasFile name [] h = h
sorted_files-HasFile name (f ∷ fs) (inl own) = place_file-HasFile name f (sorted_files fs) (inl own)
sorted_files-HasFile name (f ∷ fs) (inr rest) =
    place_file-HasFile name f (sorted_files fs) (inr (sorted_files-HasFile name fs rest))

entry_of : {a b : Entry} → some a ≡ some b → a ≡ b
entry_of h = cc

log_files-HasFile :
    (name : Text) (e : Entry) (d : Directory)
    → lookup name d ≡ some e
    → is_log_file name e ≡ true
    → HasFile name (log_files d)
unfolding log_files lookup
log_files-HasFile name e [] found log = cc
log_files-HasFile name e ((b, x) ∷ d) found log = elim (Bool-cases (text_eq b name)) [
  | inl same ↦
      let it = text_eq→eq b name same in
      let xe : x ≡ e = entry_of (rw same at found) in
      let here : is_log_file b x ≡ true = rw (it, xe) log in rw here (inl it)
  | inr other ↦
      let rest = log_files-HasFile name e d (rw other at found) log in
      elim (Bool-cases (is_log_file b x)) [
        | inl log' ↦ rw log' (inr rest)
        | inr other' ↦ rw other' rest
      ]
]

HasNo→other : (b : Text) (d : Directory) (f : LogFile) → HasNo b d → Listed d f → b ≢ f.name
HasNo→other b d f h l =
    λ same. none_some (sym (lookup-HasNo f.name d (subst (λ t. HasNo t d) same h)) ∙ l.found)
  where
    none_some : {a : Entry} → none ≡ some a → ⊥
    none_some k = cc

log_files-DistinctNames : (d : Directory) → Unique d → DistinctNames (log_files d)
unfolding log_files
log_files-DistinctNames [] u = tt
log_files-DistinctNames ((b, x) ∷ d) u =
    let rest = log_files-DistinctNames d u.1 in
    elim (Bool-cases (is_log_file b x)) [
      | inl log ↦
          rw log
            (All-map (λ f l. HasNo→other b d f u.0 l) (log_files d) (log_files-Listed d u.1), rest)
      | inr other' ↦ rw other' rest
    ]

place_file-DistinctNames :
    (f : LogFile) (fs : List LogFile) → DistinctNames (f ∷ fs) → DistinctNames (place_file f fs)
unfolding place_file
place_file-DistinctNames f [] h = h
place_file-DistinctNames f (g ∷ gs) h = elim (Bool-cases (comes_before g f)) [
  | inr later ↦ rw later h
  | inl first ↦ rw first (
    All-place_file (λ k. g.name ≢ k.name) f gs (λ e. h.0.0 (sym e)) h.1.0,
    place_file-DistinctNames f gs (h.0.1, h.1.1),
  )
]

sorted_files-DistinctNames :
    (fs : List LogFile) → DistinctNames fs → DistinctNames (sorted_files fs)
unfolding sorted_files
sorted_files-DistinctNames [] h = tt
sorted_files-DistinctNames (f ∷ fs) h =
    place_file-DistinctNames f (sorted_files fs)
      (All-sorted_files (λ g. f.name ≢ g.name) fs h.0, sorted_files-DistinctNames fs h.1)

Timed-cons :
    (b : Text) (x : Entry) (d : Directory) (f : LogFile)
    → HasNo b d
    → Timed d f
    → Timed ((b, x) ∷ d) f
unfolding lookup
Timed-cons b x d f h (e, found, same) = elim (Bool-cases (text_eq b f.name)) [
  | inl it ↦ absurd (
      none_some
        (sym (lookup-HasNo f.name d (subst (λ t. HasNo t d) (text_eq→eq b f.name it) h)) ∙ found))
  | inr other ↦ (e, rw other found, same)
]
  where
    none_some : {a : Entry} → none ≡ some a → ⊥
    none_some k = cc

log_files-Timed : (d : Directory) → Unique d → All (Timed d) (log_files d)
unfolding log_files lookup
log_files-Timed [] u = tt
log_files-Timed ((b, x) ∷ d) u =
    let rest : All (Timed ((b, x) ∷ d)) (log_files d) =
      All-map (λ f t. Timed-cons b x d f u.0 t) (log_files d) (log_files-Timed d u.1) in
    elim (Bool-cases (is_log_file b x)) [
      | inl log ↦ rw log ((x, rw (text_eq_refl b) refl, refl), rest)
      | inr other' ↦ rw other' rest
    ]

pub list_log_files-IsListing : (d : Directory) → Unique d → IsListing d (list_log_files d)
unfolding list_log_files
list_log_files-IsListing d u = record {
  oldest_first = sorted_files-IsOldestFirst (log_files d);
  listed = list_log_files-Listed d u;
  times = All-sorted_files (Timed d) (log_files d) (log_files-Timed d u);
  distinct = sorted_files-DistinctNames (log_files d) (log_files-DistinctNames d u);
  complete = λ name e found log.
      sorted_files-HasFile name (log_files d) (log_files-HasFile name e d found log);
}
