-- ===== src/UpdateAuth/Digests.antt =====
-- The digest and the file's name in a checksum file, for internal/updateauth/verify.go.
use fbs_interlock_gateway.Prelude.{
  inl, inr, zero, ◌-◌, ◌+◌, length, All, any, ℕ, suc, ◌*◌, ◌≤◌, ◌≡◌, refl, ◌≢◌, ◌⊎◌, false, Option,
  none, some, List, [], ◌∷◌, arith,
}
use fbs_interlock_gateway.Text.{Text, lower_code, to_lower}
use fbs_interlock_gateway.UpdateAuth.{hex_value, join_digits, hex_decode, bad_digest, is_separator}

abbrev pub IsHexDigit : ℕ → Type 0
IsHexDigit c = ((48 ≤ c) × (c ≤ 57)) ⊎ ((97 ≤ c) × (c ≤ 102))

-- A SHA-256 digest in lower case and the name of a file, without a folder.
pub record IsDigestOf (checksum asset : Text) : Type 0 where
  pub digits : All IsHexDigit checksum
  pub length_64 : length checksum ≡ 64
  pub named : asset ≢ []
  pub in_no_folder : All (λ c. (c ≢ b'/') × (c ≢ b'\\')) asset

IsHexDigit-lower : (c v : ℕ) → hex_value (lower_code c) ≡ some v → IsHexDigit (lower_code c)
unfolding hex_value lower_code
IsHexDigit-lower c v h = ground arith

join_digits-some :
    (h l : Option ℕ) (rest : Option (List ℕ)) {bytes : List ℕ}
    → join_digits h l rest ≡ some bytes
    → (a : ℕ) × (b : ℕ) × (bs : List ℕ) × (h ≡ some a)
      × (l ≡ some b)
      × (rest ≡ some bs)
      × (length bytes ≡ suc (length bs))
unfolding join_digits
join_digits-some (some a) (some b) (some bs) e = (a, b, bs, refl, refl, refl, ground arith)
join_digits-some none l rest e = cc
join_digits-some (some a) none rest e = cc
join_digits-some (some a) (some b) none e = cc

pub hex_decode-to_lower :
    (s : Text) {bytes : List ℕ}
    → hex_decode (to_lower s) ≡ some bytes
    → All IsHexDigit (to_lower s) × (length (to_lower s) ≡ 2 * length bytes)
unfolding hex_decode to_lower
hex_decode-to_lower [] h = (tt, ground arith)
hex_decode-to_lower (c ∷ []) h = cc
hex_decode-to_lower (c ∷ d ∷ s) h =
    let (a, b, bs, ea, eb, er, n) = join_digits-some _ _ _ h in
    let (digits, size) = hex_decode-to_lower s er in
    ((IsHexDigit-lower c a ea, (IsHexDigit-lower d b eb, digits)), omega (arith, n, size))

pub bad_digest-false :
    (o : Option (List ℕ))
    → bad_digest o ≡ false
    → (bytes : List ℕ) × (o ≡ some bytes) × (length bytes ≡ 32)
unfolding bad_digest
bad_digest-false none h = cc
bad_digest-false (some bytes) h = (bytes, refl, ground arith)

pub in_no_folder_of_any :
    (s : Text) → any is_separator s ≡ false → All (λ c. (c ≢ b'/') × (c ≢ b'\\')) s
unfolding is_separator
in_no_folder_of_any [] h = tt
in_no_folder_of_any (c ∷ s) h =
    ((λ e. ground arith, λ e. ground arith), in_no_folder_of_any s (ground arith))

hex_value-digit : (c : ℕ) → IsHexDigit c → (v : ℕ) × (hex_value c ≡ some v)
unfolding hex_value
hex_value-digit c (inl h) = (c - 48, ground (arith, h))
hex_value-digit c (inr h) = (c - 97 + 10, ground (arith, h))

hex_decode-digits :
    (n : ℕ) (s : Text)
    → All IsHexDigit s
    → length s ≡ 2 * n
    → (bytes : List ℕ) × (hex_decode s ≡ some bytes) × (length bytes ≡ n)
unfolding hex_decode join_digits
hex_decode-digits zero [] h k = ([], refl, refl)
hex_decode-digits (suc n) [] h k = absurd (omega (arith, k))
hex_decode-digits n (c ∷ []) h k = absurd (omega (arith, k))
hex_decode-digits zero (c ∷ d ∷ s) h k = absurd (omega (arith, k))
hex_decode-digits (suc n) (c ∷ d ∷ s) h k =
    let (v, hc) = hex_value-digit c h.0 in
    let (w, hd) = hex_value-digit d h.1.0 in
    let (bytes, hs, size) = hex_decode-digits n s h.1.1 (omega (arith, k)) in
    ((v * 16 + w) ∷ bytes, rw (hc, hd, hs) refl, omega (arith, size))

pub good_digest : (s : Text) → All IsHexDigit s → length s ≡ 64 → bad_digest (hex_decode s) ≡ false
unfolding bad_digest
good_digest s h k =
    let (bytes, decoded, size) = hex_decode-digits 32 s h k in rw (decoded, size) refl

pub any_of_in_no_folder :
    (s : Text) → All (λ c. (c ≢ b'/') × (c ≢ b'\\')) s → any is_separator s ≡ false
unfolding is_separator
any_of_in_no_folder [] h = refl
any_of_in_no_folder (c ∷ s) h = ground (arith, h.0.0, h.0.1, any_of_in_no_folder s h.1)
