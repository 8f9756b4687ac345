-- ===== src/Applog/Archive/Files/Growing.antt =====
-- Files that are added to a directory or grow, for internal/applog/store.go.
use fbs_interlock_gateway.Prelude.{
  Bool-cases, length, ℕ, ◌+◌, ◌≤◌, ◌≡◌, refl, subst, inl, inr, false, Option, none, some, [], ◌∷◌,
  arith, sym, ◌∙◌, ◌≢◌, true,
}
use fbs_interlock_gateway.Text.{Text, text_eq}
use fbs_interlock_gateway.Text.Laws.{ne→text_eq, text_eq_refl, text_eq→eq}
use fbs_interlock_gateway.Dict.{int_key, text_key, lookup, insert}
use fbs_interlock_gateway.Applog.Archive.Files.{Entry, Directory, is_log_file}
use fbs_interlock_gateway.Applog.Archive.Files.Sizes.{log_size, HasNo, Unique, log_size-cons}

HasNo-insert :
    (b name : Text) (e : Entry) (d : Directory)
    → text_eq name b ≡ false
    → HasNo b d
    → HasNo b (insert name e d)
unfolding insert
HasNo-insert b name e [] other h = (other, tt)
HasNo-insert b name e ((c, x) ∷ d) other h = elim (Bool-cases (text_eq c name)) [
  | inl same ↦ rw same (other, h.1)
  | inr differs ↦ rw differs (h.0, HasNo-insert b name e d other h.1)
]

true_not_false : true ≢ false
true_not_false = λ h. cc

differ : (a b : Text) → text_eq a b ≡ false → a ≢ b
differ a b h = λ e. true_not_false (sym (text_eq_refl b) ∙ rw e at h)

not_same : (a b : Text) → text_eq a b ≡ false → text_eq b a ≡ false
not_same a b h = ne→text_eq b a (λ e. differ a b h (sym e))

pub Unique-insert : (name : Text) (e : Entry) (d : Directory) → Unique d → Unique (insert name e d)
unfolding insert
Unique-insert name e [] u = (tt, tt)
Unique-insert name e ((b, x) ∷ d) u = elim (Bool-cases (text_eq b name)) [
  | inl same ↦ rw same (subst (λ t. HasNo t d) (text_eq→eq b name same) u.0, u.1)
  | inr differs ↦
      rw differs (HasNo-insert b name e d (not_same b name differs) u.0, Unique-insert name e d u.1)
]

-- A file that is new, or grows, by `k` bytes.
abbrev pub Grows : Option Entry → Entry → ℕ → Type 0
Grows none e k = length e.content ≡ k
Grows (some old) e k = (e.is_folder ≡ old.is_folder) × (length e.content ≡ length old.content + k)

is_log-same :
    (name : Text) (a b : Entry)
    → a.is_folder ≡ b.is_folder
    → is_log_file name a ≡ is_log_file name b
unfolding is_log_file
is_log-same name a b h = rw h refl

log_size-cons_grown :
    (b : Text) (x e : Entry) (k : ℕ) (d : Directory)
    → Grows (some x) e k
    → log_size ((b, e) ∷ d) ≤ log_size ((b, x) ∷ d) + k
log_size-cons_grown b x e k d g =
    let same = is_log-same b e x g.0 in
    elim (Bool-cases (is_log_file b x)) [
      | inl h ↦ rw (log_size-cons b e d, log_size-cons b x d, same, h) (omega (arith, g.1))
      | inr h ↦ rw (log_size-cons b e d, log_size-cons b x d, same, h) (omega arith)
    ]

pub log_size-insert :
    (name : Text) (e : Entry) (k : ℕ) (d : Directory)
    → Grows (lookup name d) e k
    → log_size (insert name e d) ≤ log_size d + k
unfolding lookup insert
log_size-insert name e k [] g = elim (Bool-cases (is_log_file name e)) [
  | inl h ↦ rw (log_size-cons name e [], h) (omega (arith, g))
  | inr h ↦ rw (log_size-cons name e [], h) (omega arith)
]
log_size-insert name e k ((b, x) ∷ d) g = elim (Bool-cases (text_eq b name)) [
  | inl same ↦ rw (same, text_eq→eq b name same) (log_size-cons_grown name x e k d (rw same at g))
  | inr differs ↦ rw differs (
      omega (
        arith,
        log_size-cons b x d,
        log_size-cons b x (insert name e d),
        log_size-insert name e k d (rw differs at g),
      ))
]
