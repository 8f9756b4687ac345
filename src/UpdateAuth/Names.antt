-- ===== src/UpdateAuth/Names.antt =====
-- What `parseSignedChecksum` of internal/updateauth/verify.go takes from a checksum file.
use fbs_interlock_gateway.Prelude.{
  Bool-cases, ==_iff, inl, inr, ◌==◌, All, any, ok, fail_if-eq-ok, ok-injective, ℕ, ◌≡◌, refl, ap,
  subst, ◌∙◌, ◌≢◌, ◌⊎◌, false, List, [], ◌∷◌, arith,
}
use fbs_interlock_gateway.Text.{Text, is_empty, trim_space, to_lower}
use fbs_interlock_gateway.UpdateAuth.Digests.{
  IsDigestOf, hex_decode-to_lower, bad_digest-false, in_no_folder_of_any, good_digest,
  any_of_in_no_folder,
}
use fbs_interlock_gateway.UpdateAuth.{
  in_first_line, split_lines, fields, hex_decode, bad_digest, trim_star, is_separator, check_fields,
  check_lines, parse_signed_checksum,
}

not_empty : (s : Text) → s ≢ [] → is_empty s ≡ false
not_empty [] h = absurd (h refl)
not_empty (c ∷ s) h = refl

is_empty-false : (s : Text) → is_empty s ≡ false → s ≢ []
is_empty-false [] h = cc
is_empty-false (c ∷ s) h = λ e. cc

abbrev pub IsUnstarred : Text → Type 0
IsUnstarred [] = Unit
IsUnstarred (c ∷ s) = c ≢ b'*'

-- Two words: the digest, in any case, and the file's name, which a star may precede.
pub record WordsName (words : List Text) (checksum asset : Text) : Type 0 where
  pub first : Text
  pub second : Text
  pub two_words : words ≡ first ∷ second ∷ []
  pub in_lower_case : checksum ≡ to_lower first
  pub name : (second ≡ b'*' ∷ asset) ⊎ ((second ≡ asset) × IsUnstarred asset)
  pub digest : IsDigestOf checksum asset

-- A file of one line, apart from white space at its ends.
pub record FileNames (content checksum asset : Text) : Type 0 where
  pub one_line : All (λ c. c ≢ 10) (trim_space content)
  pub words : WordsName (fields (trim_space content)) checksum asset

trim_star-cases :
    (s : Text) → (s ≡ b'*' ∷ trim_star s) ⊎ ((s ≡ trim_star s) × IsUnstarred (trim_star s))
unfolding trim_star
trim_star-cases [] = inr (refl, tt)
trim_star-cases (c ∷ s) = elim (Bool-cases (c == b'*')) [
  | inl e ↦ rw e (inl (ap (λ d. d ∷ s) ((==_iff c b'*').0 e)))
  | inr e ↦ rw e (inr (refl, λ h. ground (arith, e, h)))
]

trim_star-name :
    (second asset : Text)
    → (second ≡ b'*' ∷ asset) ⊎ ((second ≡ asset) × IsUnstarred asset)
    → trim_star second ≡ asset
unfolding trim_star
trim_star-name second asset (inl h) = rw h refl
trim_star-name second [] (inr (h, k)) = rw h refl
trim_star-name second (c ∷ s) (inr (h, k)) =
    rw h (elim (Bool-cases (c == b'*')) [
      | inl e ↦ absurd (k ((==_iff c b'*').0 e))
      | inr e ↦ rw e refl
    ])

check_fields_sound :
    (fs : List Text) {checksum asset : Text}
    → check_fields fs ≡ ok (checksum, asset)
    → WordsName fs checksum asset
unfolding check_fields
check_fields_sound [] h = cc
check_fields_sound (a ∷ []) h = cc
check_fields_sound (a ∷ b ∷ c ∷ fs) h = cc
check_fields_sound (a ∷ b ∷ []) h =
    let (h₁, k₁) = fail_if-eq-ok (bad_digest (hex_decode (to_lower a))) _ _ h in
    let (h₂, k₂) = fail_if-eq-ok (is_empty (trim_star b)) _ _ k₁ in
    let (h₃, k₃) = fail_if-eq-ok (any is_separator (trim_star b)) _ _ k₂ in
    let (bytes, decoded, size) = bad_digest-false (hex_decode (to_lower a)) h₁ in
    let (digits, twice) = hex_decode-to_lower a decoded in
    subst (λ p. WordsName (a ∷ b ∷ []) p.0 p.1) (ok-injective k₃)
      (record {
        first = a;
        second = b;
        two_words = refl;
        in_lower_case = refl;
        name = trim_star-cases b;
        digest = record {
          digits = digits;
          length_64 = omega (arith, size, twice);
          named = is_empty-false (trim_star b) h₂;
          in_no_folder = in_no_folder_of_any (trim_star b) h₃;
        };
      })

check_fields_complete :
    (fs : List Text) (checksum asset : Text)
    → WordsName fs checksum asset
    → check_fields fs ≡ ok (checksum, asset)
unfolding check_fields
check_fields_complete fs checksum asset w =
    let lower = w.in_lower_case in
    rw
      (
        w.two_words,
        ← lower,
        trim_star-name w.second asset w.name,
        good_digest checksum w.digest.digits w.digest.length_64,
        not_empty asset w.digest.named,
        any_of_in_no_folder asset w.digest.in_no_folder,
      )
      refl

in_first_line-some : (c : ℕ) (lines : List Text) → in_first_line c lines ≢ []
unfolding in_first_line
in_first_line-some c [] h = cc
in_first_line-some c (l ∷ ls) h = cc

split_lines-some : (s : Text) → split_lines s ≢ []
unfolding split_lines
split_lines-some [] h = cc
split_lines-some (c ∷ s) h = elim (Bool-cases (c == 10)) [
  | inl e ↦ absurd (cons_not_nil (rw e at h))
  | inr e ↦ absurd (in_first_line-some c (split_lines s) (rw e at h))
]
  where
    cons_not_nil : {ls : List Text} → [] ∷ ls ≡ [] → ⊥
    cons_not_nil k = cc

tail_of : {x y : Text} {xs : List Text} → x ∷ xs ≡ y ∷ [] → xs ≡ []
tail_of h = cc

in_first_line-one :
    (c : ℕ) (lines : List Text) {line : Text}
    → in_first_line c lines ≡ line ∷ []
    → (lines ≢ [])
    → (l : Text) × (lines ≡ l ∷ []) × (line ≡ c ∷ l)
unfolding in_first_line
in_first_line-one c [] h k = absurd (k refl)
in_first_line-one c (l ∷ ls) h k = (l, ap (λ t. l ∷ t) (tail_of h), cc)

one_line_of : (s line : Text) → split_lines s ≡ line ∷ [] → (line ≡ s) × All (λ c. c ≢ 10) s
unfolding split_lines
one_line_of [] line h = (cc, tt)
one_line_of (c ∷ s) line h = elim (Bool-cases (c == 10)) [
  | inl e ↦ absurd (split_lines-some s (tail_of (rw e at h)))
  | inr e ↦
      let (l, rest, whole) = in_first_line-one c (split_lines s) (rw e at h) (split_lines-some s) in
      let (same, others) = one_line_of s l rest in
      (whole ∙ ap (λ t. c ∷ t) same, (λ k. ground (arith, e, k), others))
]

split_lines-one : (s : Text) → All (λ c. c ≢ 10) s → split_lines s ≡ s ∷ []
unfolding split_lines in_first_line
split_lines-one [] h = refl
split_lines-one (c ∷ s) h =
    let other : (c == 10) ≡ false = ground (arith, h.0) in rw (split_lines-one s h.1, other) refl

check_lines-one :
    (lines : List Text) {p : Text × Text}
    → check_lines lines ≡ ok p
    → (line : Text) × (lines ≡ line ∷ []) × (check_fields (fields line) ≡ ok p)
unfolding check_lines
check_lines-one [] h = cc
check_lines-one (a ∷ b ∷ c) h = cc
check_lines-one (a ∷ []) h = (a, refl, h)

pub parse_signed_checksum_sound :
    (content : Text) {checksum asset : Text}
    → parse_signed_checksum content ≡ ok (checksum, asset)
    → FileNames content checksum asset
unfolding parse_signed_checksum
parse_signed_checksum_sound content h =
    let (_, k) = fail_if-eq-ok (is_empty (trim_space content)) _ _ h in
    let (line, one, named) = check_lines-one (split_lines (trim_space content)) k in
    let (same, lines) = one_line_of (trim_space content) line one in
    record {
      one_line = lines;
      words = check_fields_sound (fields (trim_space content)) (rw (← same) named);
    }

words_not_empty : (s first second : Text) → fields s ≡ first ∷ second ∷ [] → s ≢ []
unfolding fields
words_not_empty [] first second h k = cc
words_not_empty (c ∷ s) first second h k = cc

pub parse_signed_checksum_complete :
    (content checksum asset : Text)
    → FileNames content checksum asset
    → parse_signed_checksum content ≡ ok (checksum, asset)
unfolding parse_signed_checksum check_lines
parse_signed_checksum_complete content checksum asset n =
    let w = n.words in
    rw
      (
        not_empty (trim_space content) (words_not_empty _ w.first w.second w.two_words),
        split_lines-one (trim_space content) n.one_line,
      )
      (check_fields_complete (fields (trim_space content)) checksum asset w)
