-- ===== src/UpdateAuth.antt =====
-- internal/updateauth/verify.go: the check of a release's signed checksum. Flag parsing is left out:
-- the command takes the values of its three flags. Files are lists of code points, of which the
-- bytes of an ASCII file are an example.
pub mod Digests
pub mod Names
pub mod Soundness
use fbs_interlock_gateway.Prelude.{
  ◌==◌, if◌then◌else◌, length, any, Result, ok, err, ◌>>=◌, ◌>>◌, fail_if, ℕ, ◌+◌, ◌-◌, ◌*◌, Bool,
  true, false, not, ◌||◌, Option, none, some, List, [], ◌∷◌, ◌++◌,
}
use fbs_interlock_gateway.Text.{
  Text, codes, in_range, is_space, is_empty, trim_space, to_lower, text_eq,
}

pub data UpdateError : Type 0 where
  checksum_required signature_required asset_required : UpdateError
  key_undecodable key_trailing_data key_unparsable key_not_ed25519 : UpdateError
  key_pem_type : Text → UpdateError
  key_length signature_length : ℕ → UpdateError
  checksum_unreadable signature_unreadable signature_invalid : UpdateError
  checksum_empty not_one_line not_two_fields invalid_digest empty_asset not_base_name : UpdateError
  wrong_asset : Text → Text → UpdateError

-- strings.Split(content, "\n")
unfoldable pub in_first_line : ℕ → List Text → List Text
in_first_line c [] = (c ∷ []) ∷ []
in_first_line c (line ∷ lines) = (c ∷ line) ∷ lines

unfoldable pub split_lines : Text → List Text
unfolding in_first_line
split_lines [] = [] ∷ []
split_lines (c ∷ s) =
    let rest = split_lines s in if c == 10 then [] ∷ rest else in_first_line c rest

-- strings.Fields, with the word that is being read.
unfoldable pub close_word : Text → List Text → List Text
close_word [] words = words
close_word (c ∷ w) words = (c ∷ w) ∷ words

unfoldable pub fields_from : Text → Text → List Text
unfolding close_word
fields_from word [] = close_word word []
fields_from word (c ∷ s) = elim (is_space c) [
  | true ↦ close_word word (fields_from [] s)
  | false ↦ fields_from (word ++ c ∷ []) s
]

unfoldable pub fields : Text → List Text
unfolding fields_from
fields s = fields_from [] s

-- hex.DecodeString
unfoldable pub hex_value : ℕ → Option ℕ
hex_value c =
    if in_range b'0' b'9' c
    then some (c - b'0')
    else if in_range b'a' b'f' c
    then some (c - b'a' + 10)
    else if in_range b'A' b'F' c
    then some (c - b'A' + 10)
    else none

unfoldable pub join_digits : Option ℕ → Option ℕ → Option (List ℕ) → Option (List ℕ)
join_digits (some h) (some l) (some bytes) = some ((h * 16 + l) ∷ bytes)
join_digits _ _ _ = none

unfoldable pub hex_decode : Text → Option (List ℕ)
unfolding hex_value join_digits
hex_decode [] = some []
hex_decode (c ∷ []) = none
hex_decode (c ∷ d ∷ s) = join_digits (hex_value c) (hex_value d) (hex_decode s)

-- `err != nil || len(decoded) != 32`
unfoldable pub bad_digest : Option (List ℕ) → Bool
bad_digest none = true
bad_digest (some decoded) = not (length decoded == 32)

-- strings.TrimPrefix(s, "*")
unfoldable pub trim_star : Text → Text
trim_star [] = []
trim_star (c ∷ s) = if c == b'*' then s else c ∷ s

unfoldable pub is_separator : ℕ → Bool
is_separator c = (c == b'/') || (c == b'\\')

unfoldable pub check_fields : List Text → Result UpdateError (Text × Text)
unfolding hex_decode bad_digest trim_star is_separator
check_fields (first ∷ second ∷ []) = do
  let checksum = to_lower first
  fail_if (bad_digest (hex_decode checksum)) invalid_digest
  let asset = trim_star second
  fail_if (is_empty asset) empty_asset
  fail_if (any is_separator asset) not_base_name
  ok (checksum, asset)
check_fields _ = err not_two_fields

unfoldable pub check_lines : List Text → Result UpdateError (Text × Text)
unfolding check_fields fields
check_lines (line ∷ []) = check_fields (fields line)
check_lines _ = err not_one_line

unfoldable pub parse_signed_checksum : Text → Result UpdateError (Text × Text)
unfolding check_lines split_lines
parse_signed_checksum dat = do
  let content = trim_space dat
  fail_if (is_empty content) checksum_empty
  check_lines (split_lines content)

pub record PemBlock : Type 0 where
  pub block_type : Text
  pub bytes : Text

-- What x509.ParsePKIXPublicKey makes of a key.
pub data ParsedKey : Type 0 where
  ed25519 : Text → ParsedKey
  other_key : ParsedKey

check_key : Option ParsedKey → Result UpdateError Text
check_key none = err key_unparsable
check_key (some other_key) = err key_not_ed25519
check_key (some (ed25519 key)) = do
  fail_if (not (length key == 32)) (key_length (length key))
  ok key

check_pem : (Text → Option ParsedKey) → Option (PemBlock × Text) → Result UpdateError Text
unfolding check_key
check_pem parse none = err key_undecodable
check_pem parse (some (block, rest)) = do
  fail_if (not (is_empty (trim_space rest))) key_trailing_data
  fail_if (not (text_eq block.block_type (codes "PUBLIC KEY"))) (key_pem_type block.block_type)
  check_key (parse block.bytes)

readable : UpdateError → Option Text → Result UpdateError Text
readable e none = err e
readable e (some content) = ok content

-- The libraries: PEM, PKIX and Ed25519, and the embedded key.
pub record Crypto : Type 0 where
  pub pem_decode : Text → Option (PemBlock × Text)
  pub parse_pkix_public_key : Text → Option ParsedKey
  pub verify : Text → Text → Text → Bool  -- key, message, signature
  pub public_key_pem : Text

module _ (crypto : Crypto) where
  unfoldable pub parse_update_signing_public_key : Result UpdateError Text
  unfolding check_pem
  parse_update_signing_public_key =
      check_pem crypto.parse_pkix_public_key (crypto.pem_decode crypto.public_key_pem)

  -- `read` is os.ReadFile.
  pub verify_update_checksum : (Text → Option Text) → Text → Text → Text → Result UpdateError Text
  unfolding readable
  verify_update_checksum read checksum_path signature_path expected_asset = do
    fail_if (is_empty (trim_space checksum_path)) checksum_required
    fail_if (is_empty (trim_space signature_path)) signature_required
    fail_if (is_empty (trim_space expected_asset)) asset_required
    public_key ← parse_update_signing_public_key
    checksum_bytes ← readable checksum_unreadable (read checksum_path)
    signature ← readable signature_unreadable (read signature_path)
    fail_if (not (length signature == 64)) (signature_length (length signature))
    fail_if (not (crypto.verify public_key checksum_bytes signature)) signature_invalid
    (checksum, asset) ← parse_signed_checksum checksum_bytes
    fail_if (not (text_eq asset expected_asset)) (wrong_asset asset expected_asset)
    ok checksum
