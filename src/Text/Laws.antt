-- ===== src/Text/Laws.antt =====
-- Laws of the text operations.
use fbs_interlock_gateway.Prelude.{
  ◌≢◌, ℕ, ◌≡◌, refl, ◌↔◌, inl, inr, true, false, [], ◌∷◌, arith, Bool-cases,
}
use fbs_interlock_gateway.Text.{
  Text, is_space, trim_left, trim_right, trim_space, keep_unless_blank, lower_code, to_lower,
  text_eq, has_prefix, contains,
}

pub text_eq_refl : (s : Text) → text_eq s s ≡ true
unfolding text_eq
text_eq_refl [] = refl
text_eq_refl (c ∷ s) = ground (arith, text_eq_refl s)

pub text_eq→eq : (s t : Text) → text_eq s t ≡ true → s ≡ t
unfolding text_eq
text_eq→eq [] [] h = refl
text_eq→eq (c ∷ s) (d ∷ t) h = ground (arith, text_eq→eq s t)
text_eq→eq [] (d ∷ t) h = cc
text_eq→eq (c ∷ s) [] h = cc

pub text_eq_iff : (s t : Text) → (text_eq s t ≡ true) ↔ (s ≡ t)
text_eq_iff s t = (text_eq→eq s t, λ e. rw e (text_eq_refl t))

lower_code_idem : (c : ℕ) → lower_code (lower_code c) ≡ lower_code c
unfolding lower_code
lower_code_idem c = ground arith

pub to_lower_idem : (s : Text) → to_lower (to_lower s) ≡ to_lower s
unfolding to_lower
to_lower_idem [] = refl
to_lower_idem (c ∷ s) = cc (lower_code_idem c, to_lower_idem s)

trim_right-keep :
    (c : ℕ) (s : Text)
    → trim_right s ≡ s
    → trim_right (keep_unless_blank c s) ≡ keep_unless_blank c s
unfolding trim_right
trim_right-keep c [] h = elim (Bool-cases (is_space c)) [ inl e ↦ rw e | inr e ↦ rw e (rw e) ]
trim_right-keep c (d ∷ s) h = rw h

pub trim_right_idem : (s : Text) → trim_right (trim_right s) ≡ trim_right s
unfolding trim_right
trim_right_idem [] = refl
trim_right_idem (c ∷ s) = trim_right-keep c (trim_right s) (trim_right_idem s)

trim_left-keep :
    (c : ℕ) (s : Text)
    → is_space c ≡ false
    → trim_left (keep_unless_blank c s) ≡ keep_unless_blank c s
unfolding trim_left
trim_left-keep c [] e = rw e (rw e)
trim_left-keep c (d ∷ s) e = rw e

-- A text with its left blanks removed keeps that when the right ones go.
trim_left-trim_right-trim_left :
    (s : Text) → trim_left (trim_right (trim_left s)) ≡ trim_right (trim_left s)
unfolding trim_left trim_right
trim_left-trim_right-trim_left [] = refl
trim_left-trim_right-trim_left (c ∷ s) = elim (Bool-cases (is_space c)) [
  | inl e ↦ rw e (trim_left-trim_right-trim_left s)
  | inr e ↦ rw e (trim_left-keep c (trim_right s) e)
]

pub trim_space_idem : (s : Text) → trim_space (trim_space s) ≡ trim_space s
unfolding trim_space
trim_space_idem s = rw (trim_left-trim_right-trim_left s) (trim_right_idem (trim_left s))

-- A text holds what its trimmed part holds.
has_prefix-keep :
    (c : ℕ) (s r p : Text)
    → ((q : Text) → has_prefix r q ≡ true → has_prefix s q ≡ true)
    → has_prefix (keep_unless_blank c r) p ≡ true
    → has_prefix (c ∷ s) p ≡ true
unfolding has_prefix
has_prefix-keep c s [] [] ih h = refl
has_prefix-keep c s [] (d ∷ p) ih h = elim (Bool-cases (is_space c)) [
  | inl e ↦ absurd (ground arith)
  | inr e ↦ ground (arith, ih p)
]
has_prefix-keep c s (b ∷ r) [] ih h = refl
has_prefix-keep c s (b ∷ r) (d ∷ p) ih h = ground (arith, ih p)

has_prefix-trim_right : (s p : Text) → has_prefix (trim_right s) p ≡ true → has_prefix s p ≡ true
unfolding trim_right
has_prefix-trim_right [] p h = h
has_prefix-trim_right (c ∷ s) p h = has_prefix-keep c s (trim_right s) p (has_prefix-trim_right s) h

contains-keep :
    (c : ℕ) (s r p : Text)
    → ((q : Text) → has_prefix r q ≡ true → has_prefix s q ≡ true)
    → (contains r p ≡ true → contains s p ≡ true)
    → contains (keep_unless_blank c r) p ≡ true
    → contains (c ∷ s) p ≡ true
unfolding contains
contains-keep c s [] p pre ih h = elim (Bool-cases (is_space c)) [
  | inl e ↦ ground arith
  | inr e ↦ ground (arith, has_prefix-keep c s [] p pre)
]
contains-keep c s (b ∷ r) p pre ih h = ground (arith, has_prefix-keep c s (b ∷ r) p pre)

contains-trim_right : (s p : Text) → contains (trim_right s) p ≡ true → contains s p ≡ true
unfolding trim_right
contains-trim_right [] p h = h
contains-trim_right (c ∷ s) p h =
    contains-keep c s (trim_right s) p (has_prefix-trim_right s) (contains-trim_right s p) h

contains-trim_left : (s p : Text) → contains (trim_left s) p ≡ true → contains s p ≡ true
unfolding contains trim_left
contains-trim_left [] p h = h
contains-trim_left (c ∷ s) p h = ground (arith, contains-trim_left s p)

pub contains-trim_space : (s p : Text) → contains (trim_space s) p ≡ true → contains s p ≡ true
unfolding trim_space
contains-trim_space s p h = contains-trim_left s p (contains-trim_right (trim_left s) p h)

pub ne→text_eq : (s t : Text) → s ≢ t → text_eq s t ≡ false
ne→text_eq s t h = elim (Bool-cases (text_eq s t)) [
  | inl e ↦ absurd (h (text_eq→eq s t e))
  | inr e ↦ e
]
