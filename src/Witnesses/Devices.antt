-- ===== src/Witnesses/Devices.antt =====
-- The client of the devices, the log archive and the signed checksum.
use fbs_interlock_gateway.Prelude.{
  ◌↔◌, Option, if◌then◌else◌, take, ok, ◌≡◌, refl, true, false, none, some, List, [], ◌∷◌, ◌++◌,
  arith,
}
use fbs_interlock_gateway.Text.{
  Text, codes, is_space, trim_left, trim_right, trim_space, lower_code, to_lower, text_eq,
  equal_fold, has_prefix,
}
use fbs_interlock_gateway.Dict.{int_key, text_key, lookup, insert}
use fbs_interlock_gateway.Shelly.Gate.{
  idle, admin_active, fbs_waiting, Slot, acquire_admin, arrive_fbs, probe_starts, arrives, cancels,
  fbs_arriving, active_cancel, cancel_admin, step, Reach, here, next, new_slot,
}
use fbs_interlock_gateway.Shelly.Gate.Exclusion.{IsSound, Reach-new_slot-IsSound}
use fbs_interlock_gateway.Shelly.HttpError.{ClientError, http_error}
use fbs_interlock_gateway.Shelly.Digest.{
  DigestSession, param, or_sha256, fresh_cnonce, session_of, new_digest_session, escape_digest,
}
use fbs_interlock_gateway.Shelly.Digest.Challenge.{
  split_digest_header, split_loop, last_part, cut_at_equals, drop_quotes, drop_last_quotes,
  trim_quotes, skip, put_param, put_params, parse_digest_challenge, choose_digest_qop, split_commas,
  offers_auth,
}
use fbs_interlock_gateway.Shelly.Digest.Session.{read_quoted-escape_digest, read_quoted}
use fbs_interlock_gateway.Shelly.Recovery.Cooldown.{
  reboots-Spaced, reboots, Spaced, failed, finished,
}
use fbs_interlock_gateway.Shelly.Auth.{Env, Credentials, do_authenticated_get}
use fbs_interlock_gateway.Shelly.Auth.Termination.{Finished, do_authenticated_get-Finished}
use fbs_interlock_gateway.Applog.Async.{
  takes, new_async_store, Event, writes, flushes, finishes, closes, run,
}
use fbs_interlock_gateway.Applog.Async.Bounds.{IsBounded, run-IsBounded}
use fbs_interlock_gateway.Applog.Async.Order.{held, accepted, held-run}
use fbs_interlock_gateway.UpdateAuth.{
  in_first_line, split_lines, close_word, fields_from, fields, hex_value, join_digits, hex_decode,
  bad_digest, trim_star, is_separator, check_fields, check_lines, parse_signed_checksum, ed25519,
  Crypto, verify_update_checksum,
}
use fbs_interlock_gateway.UpdateAuth.Soundness.{IsSigned, verify_update_checksum_iff}

-- A probe holds the device and an FBS request arrives.
abbrev contended : Slot
contended = record {
  token = false;
  fbs_waiters = 1;
  active_admin = true;
  probe = 1;
  admin_canceled = true;
  threads = admin_active ∷ fbs_waiting ∷ [];
}

Reach-contended : Reach (new_slot (idle ∷ idle ∷ [])) contended
unfolding new_slot acquire_admin arrive_fbs active_cancel cancel_admin
Reach-contended =
    next
      (next (next here (step [] (idle ∷ []) idle admin_active _ refl (probe_starts refl) refl))
        (step (admin_active ∷ []) [] idle (fbs_arriving (some 1)) _ refl arrives refl))
      (step (admin_active ∷ []) [] (fbs_arriving (some 1)) fbs_waiting _ refl (cancels (some 1))
        refl)

Reach-new_slot-IsSound_example : IsSound contended
Reach-new_slot-IsSound_example =
    Reach-new_slot-IsSound (idle ∷ idle ∷ []) (refl, (refl, tt)) Reach-contended

abbrev locked : ClientError
locked =
    http_error (record { operation = codes "status"; status_code = 423; status = []; body = [] })

reboots-Spaced_example : Spaced 300 none (
    reboots 300
      (codes "d")
      (failed (codes "d") locked 10 ∷ finished (codes "d") ∷ failed (codes "d") locked 400 ∷ [])
      [])
unfolding lookup
reboots-Spaced_example =
    reboots-Spaced 300 (codes "d")
      (failed (codes "d") locked 10 ∷ finished (codes "d") ∷ failed (codes "d") locked 400 ∷ []) []

-- A device that always challenges.
abbrev challenger : Env (Unit {0})
challenger = record {
  send = λ header w. (
    ok (record {
      status_code = 401;
      challenge = codes "Digest realm=\"r\", nonce=\"n\", qop=\"auth\"";
      body = [];
    }),
    w,
  );
  wait = λ w. (true, w);
  now = λ w. 1000;
  random = λ w. (some (codes "0a0b"), w);
  hash = λ s. s;
}

abbrev nobody : Credentials
nobody = record { uri = some (codes "/rpc"); username = codes "admin"; password = codes "x" }

do_authenticated_get-Finished_example : Finished (do_authenticated_get challenger nobody none tt).0
do_authenticated_get-Finished_example =
    do_authenticated_get-Finished challenger 1000 (λ w. (omega arith, omega arith)) nobody none tt

abbrev sample_session : DigestSession
sample_session = record {
  realm = codes "r";
  nonce = codes "n";
  algorithm = codes "SHA-256";
  qop = [];
  opaque = [];
  cnonce = [];
  nonce_count = 0;
  created_at = 7;
}

read_quoted-escape_digest_example :
    read_quoted (escape_digest (codes "a\"b\\") ++ b'"' ∷ codes ", x")
    ≡ some (codes "a\"b\\", codes ", x")
read_quoted-escape_digest_example = read_quoted-escape_digest (codes "a\"b\\") (codes ", x")

abbrev log_events : List Event
log_events =
    writes (codes "one")
    ∷ takes
    ∷ flushes 1
    ∷ writes (codes "two")
    ∷ finishes
    ∷ closes
    ∷ writes (codes "late")
    ∷ []

run-IsBounded_example : IsBounded (run 64 log_events new_async_store)
run-IsBounded_example =
    run-IsBounded 64 log_events new_async_store
      (record { exact = refl; bytes_fit = omega arith; records_fit = omega arith })

held-run_example : held (run 64 log_events new_async_store) ≡ accepted 64 log_events new_async_store
held-run_example = held-run 64 log_events new_async_store

abbrev digest_text : Text
digest_text = codes "00112233445566778899AABBCCDDEEFF00112233445566778899aabbccddeeff"

abbrev checksum_line : Text
checksum_line = digest_text ++ codes "  *gateway.tar.gz\n"

parsed_line :
    parse_signed_checksum checksum_line ≡ ok (to_lower digest_text, codes "gateway.tar.gz")
unfolding parse_signed_checksum check_lines split_lines in_first_line fields fields_from close_word
    check_fields hex_decode hex_value join_digits bad_digest trim_star is_separator trim_space
    trim_left trim_right is_space to_lower lower_code
parsed_line = refl

abbrev toy_crypto : Crypto
toy_crypto = record {
  pem_decode = λ s. some (record { block_type = codes "PUBLIC KEY"; bytes = s }, []);
  parse_pkix_public_key = λ s. some (ed25519 s);
  verify = λ key message signature. text_eq signature digest_text;
  public_key_pem = take 32 digest_text;
}

abbrev read_file : Text → Option Text
read_file p = if text_eq p (codes "s") then some digest_text else some checksum_line

verify_update_checksum_iff_example :
    (verify_update_checksum toy_crypto read_file (codes "c") (codes "s") (codes "gateway.tar.gz")
      ≡ ok (to_lower digest_text))
    ↔ IsSigned toy_crypto read_file
        (codes "c")
        (codes "s")
        (codes "gateway.tar.gz")
        (to_lower digest_text)
verify_update_checksum_iff_example =
    verify_update_checksum_iff toy_crypto read_file (codes "c") (codes "s") (codes "gateway.tar.gz")
      (to_lower digest_text)

challenged : new_digest_session (codes "Digest realm=\"r\", nonce=\"n\"") none 7 ≡ ok sample_session
unfolding new_digest_session session_of param or_sha256 fresh_cnonce parse_digest_challenge
    split_digest_header split_loop last_part cut_at_equals drop_quotes drop_last_quotes trim_quotes
    skip put_param put_params choose_digest_qop split_commas offers_auth lookup insert has_prefix
    text_eq equal_fold trim_space trim_left trim_right is_space to_lower lower_code
challenged = refl
