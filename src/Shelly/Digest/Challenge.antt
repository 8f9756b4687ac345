-- ===== src/Shelly/Digest/Challenge.antt =====
-- The parser of a `WWW-Authenticate` challenge (internal/shelly/digest.go).
use fbs_interlock_gateway.Prelude.{
  ◌==◌, if◌then◌else◌, any, ℕ, zero, suc, Bool, true, false, not, ◌&&◌, Option, none, some, List,
  [], ◌∷◌, ◌++◌,
}
use fbs_interlock_gateway.Text.{Text, codes, is_empty, trim_space, to_lower, equal_fold, has_prefix}
use fbs_interlock_gateway.Dict.{int_key, text_key, Dict, insert}

-- `parts` is not empty when the last part holds more than blanks.
unfoldable pub last_part : Text → List Text
last_part b = if is_empty (trim_space b) then [] else trim_space b ∷ []

-- The loop of `splitDigestHeader`: the builder, the two modes, and the rest of the text.
unfoldable pub split_loop : Text → Bool → Bool → Text → List Text
unfolding last_part
split_loop b in_quote escaped [] = last_part b
split_loop b in_quote true (r ∷ s) = split_loop (b ++ r ∷ []) in_quote false s
split_loop b in_quote false (r ∷ s) = elim (r == b'\\') [
  | true ↦ split_loop (b ++ r ∷ []) in_quote true s
  | false ↦ elim (r == b'"') [
    | true ↦ split_loop (b ++ r ∷ []) (not in_quote) false s
    | false ↦ elim ((r == b',') && not in_quote) [
      | true ↦ trim_space b ∷ split_loop [] in_quote false s
      | false ↦ split_loop (b ++ r ∷ []) in_quote false s
    ]
  ]
]

unfoldable pub split_digest_header : Text → List Text
unfolding split_loop
split_digest_header s = split_loop [] false false s

-- strings.Cut at "="
unfoldable pub cut_at_equals : Text → Option (Text × Text)
cut_at_equals [] = none
cut_at_equals (c ∷ s) =
    if c == b'='
    then some ([], s)
    else elim (cut_at_equals s) [ none ↦ none | some (key, value) ↦ some (c ∷ key, value) ]

unfoldable pub drop_quotes : Text → Text
drop_quotes [] = []
drop_quotes (c ∷ s) = if c == b'"' then drop_quotes s else c ∷ s

abbrev keep_unless_quote : ℕ → Text → Text
keep_unless_quote c [] = if c == b'"' then [] else c ∷ []
keep_unless_quote c (d ∷ s) = c ∷ d ∷ s

unfoldable pub drop_last_quotes : Text → Text
drop_last_quotes [] = []
drop_last_quotes (c ∷ s) = keep_unless_quote c (drop_last_quotes s)

-- strings.Trim(value, `"`)
unfoldable pub trim_quotes : Text → Text
unfolding drop_quotes drop_last_quotes
trim_quotes s = drop_last_quotes (drop_quotes s)

unfoldable pub skip : ℕ → Text → Text
skip zero s = s
skip (suc n) [] = []
skip (suc n) (c ∷ s) = skip n s

unfoldable pub put_param : Option (Text × Text) → Dict Text Text → Dict Text Text
unfolding trim_quotes
put_param none params = params
put_param (some (key, value)) params =
    insert (to_lower (trim_space key)) (trim_quotes (trim_space value)) params

unfoldable pub put_params : List Text → Dict Text Text → Dict Text Text
unfolding put_param cut_at_equals
put_params [] params = params
put_params (part ∷ parts) params = put_params parts (put_param (cut_at_equals part) params)

unfoldable pub parse_digest_challenge : Text → Dict Text Text
unfolding split_digest_header put_params skip
parse_digest_challenge raw =
    let header = trim_space raw in
    let body =
      if has_prefix (to_lower header) (codes "digest ")
      then trim_space (skip 7 header)
      else header in
    put_params (split_digest_header body) []

unfoldable pub split_commas : Text → Text → List Text
split_commas b [] = b ∷ []
split_commas b (c ∷ s) = elim (c == b',') [
  | true ↦ b ∷ split_commas [] s
  | false ↦ split_commas (b ++ c ∷ []) s
]

unfoldable pub offers_auth : List Text → Bool
offers_auth parts = any (λ part. equal_fold (trim_space part) (codes "auth")) parts

unfoldable pub choose_digest_qop : Text → Text
unfolding split_commas offers_auth
choose_digest_qop raw = if offers_auth (split_commas [] raw) then codes "auth" else []
