-- ===== src/Mfa/Recovery.antt =====
-- Recovery codes of internal/store/store.go and internal/mfa/mfa.go are used once.
mod Tests
use kysignon_server.Base.{
  ℕ, ◌+◌, Option, some, none, List, [], ◌∷◌, ◌++◌, Bool, true, false, ◌&&◌, ◌||◌, not, String, ◌==◌,
  is_none, count_where, update_where, delete_where, exists_where, eqb, ltb, all, any, if◌then◌else◌,
  Result, ok, err, ◌>>=◌, >>=-ok, ◌≡◌, refl, arith, Bool-cases, inl, inr, eq_iff, count-update-le,
  count-update_self, count-delete-le, count-append, count-delete_inside, ◌∙◌,
}
use kysignon_server.Schema.{
  Db, RecoveryCode, AuditEvent, commit_rule, commit_cases, record_audit_tx, record_audit_tx-eq,
  insert_row, user_exists,
}
use kysignon_server.Mfa.{
  is_unspent_code, consume_recovery_code, fresh_recovery_code, without_recovery_codes,
  replace_codes_tx, put_recovery_code, put_recovery_codes, replace_recovery_codes,
}

pub data Op : Type 0 where
  consumes : ℕ → String → String → Op
  replaces : ℕ → String → List RecoveryCode → Option AuditEvent → Op

unfoldable pub step : Op → Db → Db
step (consumes now u h) db = (consume_recovery_code now u h db).0
step (replaces now u codes a) db = (replace_recovery_codes now u codes a db).0

unfoldable pub run : List Op → Db → Db
unfolding step
run [] db = db
run (op ∷ ops) db = run ops (step op db)

-- The operation offers the store a new code of this user with this hash.
abbrev pub mints : String → String → Op → Bool
mints u h (consumes now v g) = false
mints u h (replaces now v codes a) =
    any (λ (c : RecoveryCode). c.user_id == u && c.code_hash == h) codes

abbrev pub IsGone : String → String → Db → Type 0
IsGone u h db = count_where (is_unspent_code u h) db.recovery_codes ≡ 0

consume-IsGone :
    (u h : String) (now : ℕ) (v g : String) (db : Db)
    → IsGone u h db
    → IsGone u h (consume_recovery_code now v g db).0
unfolding consume_recovery_code
consume-IsGone u h now v g db gone = omega (
  arith,
  gone,
  count-update-le (is_unspent_code u h) (is_unspent_code v g) (λ c. record c { used_at = some now })
      (λ c e. ground arith) db.recovery_codes,
)

put_code-IsGone :
    (u h : String) (now : ℕ) (c : RecoveryCode) (db : Db) (rows : List RecoveryCode)
    → (c.user_id == u && c.code_hash == h) ≡ false
    → IsGone u h db
    → put_recovery_code now c db ≡ ok rows
    → count_where (is_unspent_code u h) rows ≡ 0
unfolding put_recovery_code
put_code-IsGone u h now c db rows other gone put =
    ground
      (arith, count-append (is_unspent_code u h) db.recovery_codes (fresh_recovery_code now c ∷ []))

consume-spends :
    (u h : String) (now : ℕ) (db : Db) → IsGone u h (consume_recovery_code now u h db).0
unfolding consume_recovery_code
consume-spends u h now db =
    count-update_self (is_unspent_code u h) (λ c. record c { used_at = some now })
      (λ c e. ground arith) db.recovery_codes

put_codes-IsGone :
    (u h : String) (now : ℕ) (codes : List RecoveryCode) (db db' : Db)
    → any (λ (c : RecoveryCode). c.user_id == u && c.code_hash == h) codes ≡ false
    → IsGone u h db
    → put_recovery_codes now codes db ≡ ok db'
    → IsGone u h db'
unfolding put_recovery_codes
put_codes-IsGone u h now [] db db' other gone put = ground arith
put_codes-IsGone u h now (c ∷ codes) db db' other gone put =
    let (rows, inserted, rest) =
      >>=-ok (put_recovery_code now c db)
        (λ rows. put_recovery_codes now codes (record db { recovery_codes = rows })) put in
    put_codes-IsGone u h now codes (record db { recovery_codes = rows }) db' (ground arith)
      (put_code-IsGone u h now c db rows (ground arith) gone inserted) rest

replace_tx-IsGone :
    (u h : String) (now : ℕ) (v : String) (codes : List RecoveryCode) (a : Option AuditEvent)
    (db db' : Db)
    → any (λ (c : RecoveryCode). c.user_id == u && c.code_hash == h) codes ≡ false
    → IsGone u h (without_recovery_codes v db)
    → replace_codes_tx now v codes a db ≡ ok db'
    → IsGone u h db'
unfolding replace_codes_tx
replace_tx-IsGone u h now v codes a db db' other gone made =
    let (db₁, put, recorded) =
      >>=-ok (put_recovery_codes now codes (without_recovery_codes v db)) (record_audit_tx now a)
        made in
    rw (record_audit_tx-eq now a db₁ recorded)
      (put_codes-IsGone u h now codes (without_recovery_codes v db) db₁ other gone put)

step-IsGone :
    (u h : String) (op : Op) (db : Db)
    → mints u h op ≡ false
    → IsGone u h db
    → IsGone u h (step op db)
unfolding step replace_recovery_codes
step-IsGone u h (consumes now v g) db other gone = consume-IsGone u h now v g db gone
step-IsGone u h (replaces now v codes a) db other gone =
    commit_rule (IsGone u h) tt (replace_codes_tx now v codes a db) db gone λ db' made.
      replace_tx-IsGone u h now v codes a db db' other
        (omega (
          arith,
          gone,
          count-delete-le (is_unspent_code u h) (λ (c : RecoveryCode). c.user_id == v)
              db.recovery_codes,
        ))
        made

run-IsGone :
    (u h : String) (ops : List Op) (db : Db)
    → all (λ op. not (mints u h op)) ops ≡ true
    → IsGone u h db
    → IsGone u h (run ops db)
unfolding run
run-IsGone u h [] db other gone = gone
run-IsGone u h (op ∷ ops) db other gone =
    run-IsGone u h ops (step op db) (ground arith) (step-IsGone u h op db (ground arith) gone)

gone_refuses :
    (u h : String) (now : ℕ) (db : Db)
    → IsGone u h db
    → (consume_recovery_code now u h db).1 ≡ false
unfolding consume_recovery_code
gone_refuses u h now db gone = ground arith

-- After ConsumeRecoveryCode ran for a user's code, whatever it answered, it accepts no code of this
-- user with this hash again, after any operations that offer no new code of the user with it.
pub consume_recovery_code-once :
    (now later : ℕ) (u h : String) (db : Db) (ops : List Op)
    → all (λ op. not (mints u h op)) ops ≡ true
    → (consume_recovery_code later u h (run ops (consume_recovery_code now u h db).0)).1 ≡ false
consume_recovery_code-once now later u h db ops other =
    gone_refuses u h later _ (run-IsGone u h ops _ other (spent now))
  where
    spent : (n : ℕ) → IsGone u h (consume_recovery_code n u h db).0
    spent n = consume-spends u h n db

-- A successful replacement leaves a user no old code: an unused code that the new set does not have
-- is refused from then on, while no operation offers it anew.
pub replace_recovery_codes_ends_old :
    (now later : ℕ) (u h : String) (codes : List RecoveryCode) (a : Option AuditEvent) (db : Db)
    (ops : List Op)
    → any (λ (c : RecoveryCode). c.user_id == u && c.code_hash == h) codes ≡ false
    → all (λ op. not (mints u h op)) ops ≡ true
    → (replace_recovery_codes now u codes a db).1 ≡ ok tt
    → (consume_recovery_code later u h (run ops (replace_recovery_codes now u codes a db).0)).1
      ≡ false
unfolding replace_recovery_codes
replace_recovery_codes_ends_old now later u h codes a db ops fresh other done =
    gone_refuses u h later _ (run-IsGone u h ops _ other replaced)
  where
    replaced : IsGone u h (replace_recovery_codes now u codes a db).0
    replaced = elim (commit_cases tt (replace_codes_tx now u codes a db) db) [
      | inr (e, failed, rolled) ↦ absurd (cc (rw rolled at done))
      | inl (db', made, committed) ↦ rw committed (
          replace_tx-IsGone u h now u codes a db db' fresh
            (count-delete_inside (is_unspent_code u h) (λ (c : RecoveryCode). c.user_id == u)
              (λ c e. ground arith) db.recovery_codes)
            made)
    ]
