-- ===== src/Applog/Archive/Files/Sizes.antt =====
-- The files of a directory and their sizes, for internal/applog/store.go.
use fbs_interlock_gateway.Prelude.{
  if◌then◌else◌, Bool-cases, length, All, ℕ, ◌+◌, ◌≡◌, refl, ◌∙◌, inl, inr, true, false, some, List,
  [], ◌∷◌, arith, All-map, sym, subst, ◌≢◌, none,
}
use fbs_interlock_gateway.Text.{Text, text_eq}
use fbs_interlock_gateway.Text.Laws.{text_eq_refl, text_eq→eq}
use fbs_interlock_gateway.Dict.{int_key, text_key, lookup, erase, lookup-erase}
use fbs_interlock_gateway.Applog.Archive.Files.{
  Entry, Directory, LogFile, is_log_file, log_files, comes_before, place_file, sorted_files,
  list_log_files, total_size,
}

-- What the log files of a directory take.
abbrev pub log_size : Directory → ℕ
log_size d = total_size (log_files d)

abbrev pub HasNo : Text → Directory → Type 0
HasNo name = All (λ (item : Text × Entry). text_eq item.0 name ≡ false)

-- No name stands twice.
abbrev pub Unique : Directory → Type 0
Unique [] = Unit
Unique ((name, e) ∷ d) = HasNo name d × Unique d

HasNo-erase : (a name : Text) (d : Directory) → HasNo a d → HasNo a (erase name d)
unfolding erase
HasNo-erase a name [] h = tt
HasNo-erase a name ((b, e) ∷ d) h = elim (Bool-cases (text_eq b name)) [
  | inl same ↦ rw same (HasNo-erase a name d h.1)
  | inr other ↦ rw other (h.0, HasNo-erase a name d h.1)
]

pub Unique-erase : (name : Text) (d : Directory) → Unique d → Unique (erase name d)
unfolding erase
Unique-erase name [] u = tt
Unique-erase name ((b, e) ∷ d) u = elim (Bool-cases (text_eq b name)) [
  | inl same ↦ rw same (Unique-erase name d u.1)
  | inr other ↦ rw other (HasNo-erase b name d u.0, Unique-erase name d u.1)
]

erase-HasNo : (name : Text) (d : Directory) → HasNo name d → erase name d ≡ d
unfolding erase
erase-HasNo name [] h = refl
erase-HasNo name ((b, e) ∷ d) h = rw (h.0, erase-HasNo name d h.1) refl

-- A file is the listing's, with its present size.
pub record Listed (d : Directory) (f : LogFile) : Type 0 where
  pub entry : Entry
  pub found : lookup f.name d ≡ some entry
  pub is_log : is_log_file f.name entry ≡ true
  pub sized : f.size ≡ length entry.content

pub log_size-cons :
    (name : Text) (e : Entry) (d : Directory)
    → log_size ((name, e) ∷ d) ≡ (if is_log_file name e then length e.content else 0) + log_size d
unfolding total_size log_files
log_size-cons name e d = elim (Bool-cases (is_log_file name e)) [
  | inl h ↦ rw h refl
  | inr h ↦ rw h (omega arith)
]

entry_injective : {a b : Entry} → some a ≡ some b → a ≡ b
entry_injective h = cc

pub log_size-erase :
    (name : Text) (e : Entry) (d : Directory)
    → Unique d
    → lookup name d ≡ some e
    → is_log_file name e ≡ true
    → log_size (erase name d) + length e.content ≡ log_size d
unfolding lookup erase
log_size-erase name e [] u found log = cc
log_size-erase name e ((b, x) ∷ d) u found log = elim (Bool-cases (text_eq b name)) [
  | inl same ↦
      let it = text_eq→eq b name same in
      let xe : x ≡ e = entry_injective (rw same at found) in
      let here : is_log_file b x ≡ true = rw (it, xe) log in
      rw (same, erase-HasNo name d (subst (λ t. HasNo t d) it u.0), log_size-cons b x d, here, xe)
        (omega arith)
  | inr other ↦
      rw (other, log_size-cons b x (erase name d), log_size-cons b x d)
        (omega (arith, log_size-erase name e d u.1 (rw other at found) log))
]

pub Listed-erase :
    (name : Text) (d : Directory) (f : LogFile)
    → text_eq name f.name ≡ false
    → Listed d f
    → Listed (erase name d) f
Listed-erase name d f other l = record {
  entry = l.entry;
  found = lookup-erase name f.name d ∙ rw other l.found;
  is_log = l.is_log;
  sized = l.sized;
}

total_size-place_file :
    (f : LogFile) (fs : List LogFile) → total_size (place_file f fs) ≡ f.size + total_size fs
unfolding total_size place_file
total_size-place_file f [] = refl
total_size-place_file f (g ∷ gs) = elim (Bool-cases (comes_before g f)) [
  | inl h ↦ rw h (omega (arith, total_size-place_file f gs))
  | inr h ↦ rw h refl
]

pub total_size-sorted_files : (fs : List LogFile) → total_size (sorted_files fs) ≡ total_size fs
unfolding total_size sorted_files
total_size-sorted_files [] = refl
total_size-sorted_files (f ∷ fs) =
    total_size-place_file f (sorted_files fs) ∙ omega (arith, total_size-sorted_files fs)

module _ {κ} (P : LogFile → Type κ) where
  pub All-place_file : (f : LogFile) (fs : List LogFile) → P f → All P fs → All P (place_file f fs)
  unfolding place_file
  All-place_file f [] p h = (p, tt)
  All-place_file f (g ∷ gs) p h = elim (Bool-cases (comes_before g f)) [
    | inl e ↦ rw e (h.0, All-place_file f gs p h.1)
    | inr e ↦ rw e (p, h)
  ]

  pub All-sorted_files : (fs : List LogFile) → All P fs → All P (sorted_files fs)
  unfolding sorted_files
  All-sorted_files [] h = tt
  All-sorted_files (f ∷ fs) h = All-place_file f (sorted_files fs) h.0 (All-sorted_files fs h.1)

none_not_some : {a : Entry} → none ≢ some a
none_not_some = λ h. cc

pub lookup-HasNo : (name : Text) (d : Directory) → HasNo name d → lookup name d ≡ none
unfolding lookup
lookup-HasNo name [] h = refl
lookup-HasNo name ((b, x) ∷ d) h = rw (h.0, lookup-HasNo name d h.1) refl

Listed-cons :
    (b : Text) (x : Entry) (d : Directory) (f : LogFile)
    → HasNo b d
    → Listed d f
    → Listed ((b, x) ∷ d) f
unfolding lookup
Listed-cons b x d f h l = elim (Bool-cases (text_eq b f.name)) [
  | inl same ↦ absurd (
      none_not_some (
        sym (lookup-HasNo f.name d (subst (λ t. HasNo t d) (text_eq→eq b f.name same) h))
        ∙ l.found))
  | inr other ↦ record {
    entry = l.entry;
    found = rw other l.found;
    is_log = l.is_log;
    sized = l.sized;
  }
]

pub log_files-Listed : (d : Directory) → Unique d → All (Listed d) (log_files d)
unfolding log_files lookup
log_files-Listed [] u = tt
log_files-Listed ((b, x) ∷ d) u =
    let rest : All (Listed ((b, x) ∷ d)) (log_files d) =
      All-map (λ f l. Listed-cons b x d f u.0 l) (log_files d) (log_files-Listed d u.1) in
    elim (Bool-cases (is_log_file b x)) [
      | inl log ↦
          rw log (
            record { entry = x; found = rw (text_eq_refl b) refl; is_log = log; sized = refl },
            rest,
          )
      | inr other ↦ rw other rest
    ]

pub list_log_files-Listed : (d : Directory) → Unique d → All (Listed d) (list_log_files d)
unfolding list_log_files
list_log_files-Listed d u = All-sorted_files (Listed d) (log_files d) (log_files-Listed d u)

pub total_size-list_log_files : (d : Directory) → total_size (list_log_files d) ≡ log_size d
unfolding list_log_files
total_size-list_log_files d = total_size-sorted_files (log_files d)
