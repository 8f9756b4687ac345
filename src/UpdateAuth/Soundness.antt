-- ===== src/UpdateAuth/Soundness.antt =====
-- The checks of internal/updateauth/verify.go, against what an accepted file must be.
use fbs_interlock_gateway.Prelude.{
  ◌==◌, length, ok, >>=-eq-ok, fail_if-eq-ok, ok-injective, ◌≡◌, refl, ap, subst, ◌∙◌, ◌↔◌, true,
  false, not, Option, none, some, [], ◌∷◌, arith,
}
use fbs_interlock_gateway.Text.{codes, Text, is_empty, trim_space, text_eq}
use fbs_interlock_gateway.Text.Laws.{text_eq_refl, text_eq→eq}
use fbs_interlock_gateway.UpdateAuth.Names.{
  FileNames, parse_signed_checksum_sound, parse_signed_checksum_complete,
}
use fbs_interlock_gateway.UpdateAuth.{
  ParsedKey, ed25519, other_key, PemBlock, check_key, check_pem, UpdateError, checksum_unreadable,
  signature_unreadable, parse_signed_checksum, readable, Crypto, parse_update_signing_public_key,
  verify_update_checksum,
}

-- What the embedded text must hold for the key to be used.
pub record IsEmbeddedKey (crypto : Crypto) (key : Text) : Type 0 where
  pub block : PemBlock
  pub rest : Text
  pub decoded : crypto.pem_decode crypto.public_key_pem ≡ some (block, rest)
  pub nothing_more : trim_space rest ≡ []
  pub pem_type : block.block_type ≡ codes "PUBLIC KEY"
  pub is_ed25519 : crypto.parse_pkix_public_key block.bytes ≡ some (ed25519 key)
  pub size : length key ≡ 32

check_key-ok :
    (o : Option ParsedKey) {key : Text}
    → check_key o ≡ ok key
    → (o ≡ some (ed25519 key)) × (length key ≡ 32)
unfolding check_key
check_key-ok none h = cc
check_key-ok (some other_key) h = cc
check_key-ok (some (ed25519 k)) h =
    let (size, same) = fail_if-eq-ok (not (length k == 32)) _ _ h in
    let it = ok-injective same in
    (ap (λ t. some (ed25519 t)) it, subst (λ t. length t ≡ 32) it (ground arith))

empty_of : (s : Text) → is_empty s ≡ true → s ≡ []
empty_of [] h = refl
empty_of (c ∷ s) h = cc

check_pem-ok :
    (crypto : Crypto) (o : Option (PemBlock × Text)) {key : Text}
    → crypto.pem_decode crypto.public_key_pem ≡ o
    → check_pem crypto.parse_pkix_public_key o ≡ ok key
    → IsEmbeddedKey crypto key
unfolding check_pem
check_pem-ok crypto none e h = cc
check_pem-ok crypto (some (block, rest)) e h =
    let (h₁, k₁) = fail_if-eq-ok (not (is_empty (trim_space rest))) _ _ h in
    let (h₂, k₂) = fail_if-eq-ok (not (text_eq block.block_type (codes "PUBLIC KEY"))) _ _ k₁ in
    let (key, size) = check_key-ok (crypto.parse_pkix_public_key block.bytes) k₂ in
    record {
      block = block;
      rest = rest;
      decoded = e;
      nothing_more = empty_of _ (ground arith);
      pem_type = text_eq→eq _ _ (ground arith);
      is_ed25519 = key;
      size = size;
    }

key_sound :
    (crypto : Crypto) {key : Text}
    → parse_update_signing_public_key crypto ≡ ok key
    → IsEmbeddedKey crypto key
unfolding parse_update_signing_public_key
key_sound crypto h = check_pem-ok crypto (crypto.pem_decode crypto.public_key_pem) refl h

key_complete :
    (crypto : Crypto) {key : Text}
    → IsEmbeddedKey crypto key
    → parse_update_signing_public_key crypto ≡ ok key
unfolding parse_update_signing_public_key check_pem check_key
key_complete crypto {key} i =
    simp (
      i.decoded,
      i.nothing_more,
      i.pem_type,
      text_eq_refl (codes "PUBLIC KEY"),
      i.is_ed25519,
      i.size,
    )

readable-ok :
    (e : UpdateError) (o : Option Text) {content : Text}
    → readable e o ≡ ok content
    → o ≡ some content
unfolding readable
readable-ok e none h = cc
readable-ok e (some content) h = ap some (ok-injective h)

pair_of : (p : Text × Text) {a b : Text} → p.0 ≡ a → p.1 ≡ b → p ≡ (a, b)
pair_of p e f = cc

module _ (crypto : Crypto) (read : Text → Option Text)
    (checksum_path signature_path expected_asset checksum : Text) where
  -- The files, the key and the signature on which the command's answer rests.
  pub record IsSigned : Type 0 where
    pub key : Text
    pub content : Text
    pub signature : Text
    pub flags_given :
        (is_empty (trim_space checksum_path) ≡ false)
        × (is_empty (trim_space signature_path) ≡ false)
        × (is_empty (trim_space expected_asset) ≡ false)
    pub embedded : IsEmbeddedKey crypto key
    pub content_read : read checksum_path ≡ some content
    pub signature_read : read signature_path ≡ some signature
    pub signature_size : length signature ≡ 64
    pub signed : crypto.verify key content signature ≡ true
    pub named : FileNames content checksum expected_asset

  verify_update_checksum_sound :
      verify_update_checksum crypto read checksum_path signature_path expected_asset ≡ ok checksum
      → IsSigned
  unfolding verify_update_checksum readable
  verify_update_checksum_sound h =
      let (h₁, k₁) = fail_if-eq-ok (is_empty (trim_space checksum_path)) _ _ h in
      let (h₂, k₂) = fail_if-eq-ok (is_empty (trim_space signature_path)) _ _ k₁ in
      let (h₃, k₃) = fail_if-eq-ok (is_empty (trim_space expected_asset)) _ _ k₂ in
      let (key, e₄, k₄) = >>=-eq-ok (parse_update_signing_public_key crypto) _ k₃ in
      let (content, e₅, k₅) = >>=-eq-ok (readable checksum_unreadable (read checksum_path)) _ k₄ in
      let (signature, e₆, k₆) =
        >>=-eq-ok (readable signature_unreadable (read signature_path)) _ k₅ in
      let (h₇, k₇) = fail_if-eq-ok (not (length signature == 64)) _ _ k₆ in
      let (h₈, k₈) = fail_if-eq-ok (not (crypto.verify key content signature)) _ _ k₇ in
      let (parsed, e₉, k₉) = >>=-eq-ok (parse_signed_checksum content) _ k₈ in
      let (h₁₀, k₁₀) = fail_if-eq-ok (not (text_eq parsed.1 expected_asset)) _ _ k₉ in
      record {
        key = key;
        content = content;
        signature = signature;
        flags_given = (h₁, h₂, h₃);
        embedded = key_sound crypto e₄;
        content_read = readable-ok _ (read checksum_path) e₅;
        signature_read = readable-ok _ (read signature_path) e₆;
        signature_size = ground arith;
        signed = ground arith;
        named = parse_signed_checksum_sound content (
            e₉
            ∙ ap ok (
                pair_of parsed (ok-injective k₁₀)
                  (text_eq→eq parsed.1 expected_asset (ground arith))));
      }

  verify_update_checksum_complete :
      IsSigned
      → verify_update_checksum crypto read checksum_path signature_path expected_asset ≡ ok checksum
  unfolding verify_update_checksum readable
  verify_update_checksum_complete i = simp (
    i.flags_given.0,
    i.flags_given.1,
    i.flags_given.2,
    key_complete crypto i.embedded,
    i.content_read,
    i.signature_read,
    i.signature_size,
    i.signed,
    parse_signed_checksum_complete i.content checksum expected_asset i.named,
    text_eq_refl expected_asset,
  )

  -- The command prints a checksum exactly if the flags are given; the embedded text is one PEM block
  -- of a public key, which is parsed as an Ed25519 key of 32 bytes; both files can be read; the
  -- signature has 64 bytes and is the key's signature of the whole checksum file; and that file is one
  -- line of two words, the checksum, 64 hexadecimal digits in any case, and the expected asset, which
  -- a star may precede and which has no slash. The checksum is printed in lower case.
  pub verify_update_checksum_iff :
      (verify_update_checksum crypto read checksum_path signature_path expected_asset ≡ ok checksum)
      ↔ IsSigned
  verify_update_checksum_iff = (verify_update_checksum_sound, verify_update_checksum_complete)
