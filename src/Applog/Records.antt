-- ===== src/Applog/Records.antt =====
-- `truncateRecord` and `validateOptions` of internal/applog/store.go. A record is its bytes.
use fbs_interlock_gateway.Prelude.{
  leb, if◌then◌else◌, leb→le, leb→gt, Bool-cases, length, take, length-append, length-take, ℤ, pos,
  ltb_ℤ, Result, ok, ◌>>◌, fail_if, ℕ, ◌-◌, ◌≤◌, ◌<◌, ◌≡◌, ◌⊎◌, inl, inr, not, ◌++◌, arith,
}
use fbs_interlock_gateway.Text.{Text, codes}

abbrev pub truncation_marker : Text
truncation_marker = codes "\n[application log record truncated]\n"

unfoldable pub truncate_record : Text → ℕ → Text
truncate_record p max_bytes =
    if leb (length p) max_bytes
    then p
    else if leb max_bytes (length truncation_marker)
    then take max_bytes truncation_marker
    else take (max_bytes - length truncation_marker) p ++ truncation_marker

-- A record is kept whole when it fits, and otherwise cut to exactly the limit.
pub length-truncate_record :
    (p : Text) (max_bytes : ℕ)
    → ((length p ≤ max_bytes) × (truncate_record p max_bytes ≡ p))
      ⊎ ((max_bytes < length p) × (length (truncate_record p max_bytes) ≡ max_bytes))
unfolding truncate_record
length-truncate_record p max_bytes = elim (Bool-cases (leb (length p) max_bytes)) [
  | inl fits ↦ inl (leb→le _ _ fits, rw fits)
  | inr long ↦ elim (Bool-cases (leb max_bytes (length truncation_marker))) [
    | inl small ↦ inr (
      leb→gt _ _ long,
      rw (long, small) (omega (arith, length-take max_bytes truncation_marker, leb→le _ _ small)),
    )
    | inr room ↦ inr (
      leb→gt _ _ long,
      rw (long, room)
          (omega (
            arith,
            length-append (take (max_bytes - length truncation_marker) p) truncation_marker,
            length-take (max_bytes - length truncation_marker) p,
            leb→gt _ _ long,
            leb→gt _ _ room,
          )),
    )
  ]
]

-- Durations in nanoseconds and sizes in bytes; Go's signed fields may be negative.
pub record Options : Type 0 where
  pub max_age : ℤ
  pub preferred_min_age : ℤ
  pub max_file_bytes : ℤ
  pub max_total_bytes : ℤ
  pub max_record_bytes : ℤ
  pub cleanup_every_bytes : ℤ

pub data OptionsError : Type 0 where
  max_age_not_positive preferred_negative preferred_exceeds_max : OptionsError
  file_not_positive total_not_positive file_exceeds_total : OptionsError
  record_not_positive record_exceeds_file cleanup_not_positive : OptionsError

unfoldable pub validate_options : Options → Result OptionsError (Unit {0})
validate_options o = do
  fail_if (not (ltb_ℤ (pos 0) o.max_age)) max_age_not_positive
  fail_if (ltb_ℤ o.preferred_min_age (pos 0)) preferred_negative
  fail_if (ltb_ℤ o.max_age o.preferred_min_age) preferred_exceeds_max
  fail_if (not (ltb_ℤ (pos 0) o.max_file_bytes)) file_not_positive
  fail_if (not (ltb_ℤ (pos 0) o.max_total_bytes)) total_not_positive
  fail_if (ltb_ℤ o.max_total_bytes o.max_file_bytes) file_exceeds_total
  fail_if (not (ltb_ℤ (pos 0) o.max_record_bytes)) record_not_positive
  fail_if (ltb_ℤ o.max_file_bytes o.max_record_bytes) record_exceeds_file
  fail_if (not (ltb_ℤ (pos 0) o.cleanup_every_bytes)) cleanup_not_positive
  ok tt
