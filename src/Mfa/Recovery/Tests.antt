-- ===== src/Mfa/Recovery/Tests.antt =====
-- Runs of the recovery codes of internal/store/store.go.
use kysignon_server.Base.{none, [], ◌∷◌, true, false, ok, ◌≡◌, refl}
use kysignon_server.Schema.{Db, RecoveryCode, minute, second, record_audit_tx}
use kysignon_server.Schema.Samples.{with_alice}
use kysignon_server.Mfa.{
  consume_recovery_code, put_recovery_code, put_recovery_codes, replace_codes_tx,
  replace_recovery_codes,
}
use kysignon_server.Mfa.Recovery.{consumes, run, consume_recovery_code-once}

abbrev old_code : RecoveryCode
old_code = record {
  id = "r1";
  user_id = "alice";
  code_hash = "old";
  used_at = none;
  created_at = 0;
}

abbrev new_code : RecoveryCode
new_code = record {
  id = "r2";
  user_id = "alice";
  code_hash = "new";
  used_at = none;
  created_at = 0;
}

abbrev with_codes : Db
with_codes = record with_alice { recovery_codes = old_code ∷ [] }

used_now : (consume_recovery_code second "alice" "old" with_codes).1 ≡ true
unfolding consume_recovery_code
used_now = refl

replaced_now : (replace_recovery_codes second "alice" (new_code ∷ []) none with_codes).1 ≡ ok tt
unfolding replace_recovery_codes replace_codes_tx put_recovery_codes put_recovery_code
    record_audit_tx
replaced_now = refl

consume_recovery_code-once_example :
    (consume_recovery_code minute "alice" "old" (
      run
        (consumes second "alice" "new" ∷ [])
        (consume_recovery_code second "alice" "old" with_codes).0)).1
    ≡ false
consume_recovery_code-once_example =
    consume_recovery_code-once second minute "alice" "old" with_codes
      (consumes second "alice" "new" ∷ []) refl
