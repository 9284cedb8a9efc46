-- ===== src/Mfa/Totp/Replay.antt =====
-- A time step of internal/mfa/mfa.go is accepted once.
use kysignon_server.Base.{
  ℕ, ◌<◌, ◌≤◌, Option, List, [], ◌∷◌, Bool, true, false, String, count_where, exists_where, ok, ◌≡◌,
  refl, arith, ltb, inl, inr, Bool-cases, count_mono, >>=-ok, count-update_only, count-update_keep,
  eq_iff, count-update-le, count-update_cover, count-append, exists-count_zero, eqb→eq,
}
use kysignon_server.Schema.{
  Db, MfaMethod, AuditEvent, totp, commit_rule, record_audit_tx, record_audit_tx-eq,
}
use kysignon_server.Mfa.{
  is_method, enrol_again, upserted_methods, upsert_mfa_method, consume_totp_counter, counts_step,
  set_mfa_method,
}

-- The user's TOTP method, while its last step is below `counter`.
abbrev pub below : String → ℕ → MfaMethod → Bool
below user_id counter m = counts_step user_id counter m

-- The user has a TOTP method, and no step up to `counter` is left to it.
abbrev pub IsSpent : String → ℕ → Db → Type 0
IsSpent user_id counter db =
    (1 ≤ count_where (is_method user_id totp) db.mfa_methods)
    × (count_where (below user_id counter) db.mfa_methods ≡ 0)

pub data Op : Type 0 where
  spends : String → ℕ → Op
  enrols : ℕ → MfaMethod → Option AuditEvent → Op

unfoldable pub step : Op → Db → Db
step (spends user_id counter) db = (consume_totp_counter user_id counter db).0
step (enrols now m audit) db = (set_mfa_method now m audit db).0

unfoldable pub run : List Op → Db → Db
unfolding step
run [] db = db
run (op ∷ ops) db = run ops (step op db)

consume-spent :
    (user_id : String) (counter : ℕ) (db : Db)
    → count_where
        (counts_step user_id counter)
        (consume_totp_counter user_id counter db).0.mfa_methods
      ≡ 0
unfolding consume_totp_counter
consume-spent user_id counter db =
    count-update_cover (counts_step user_id counter) (counts_step user_id counter)
      (λ m. record m { last_totp_counter = counter }) (λ m h. h) (λ m. ground arith) db.mfa_methods

pub consume_true-IsSpent :
    (user_id : String) (counter : ℕ) (db : Db)
    → (consume_totp_counter user_id counter db).1 ≡ true
    → IsSpent user_id counter (consume_totp_counter user_id counter db).0
unfolding consume_totp_counter
consume_true-IsSpent user_id counter db h = (
  omega (
    arith,
    eqb→eq (count_where (counts_step user_id counter) db.mfa_methods) 1 h,
    count_mono (counts_step user_id counter) (is_method user_id totp) (λ m e. totp_method m e)
        db.mfa_methods,
    count-update_keep (is_method user_id totp) (counts_step user_id counter)
        (λ m. record m { last_totp_counter = counter }) (λ m. refl) db.mfa_methods,
  ),
  consume-spent user_id counter db,
)
  where
    totp_method :
        (m : MfaMethod) → counts_step user_id counter m ≡ true → is_method user_id totp m ≡ true
    totp_method m e = ground arith

consume-keeps :
    (u : String) (c : ℕ) (user_id : String) (counter : ℕ) (db : Db)
    → IsSpent u c db
    → IsSpent u c (consume_totp_counter user_id counter db).0
unfolding consume_totp_counter
consume-keeps u c user_id counter db (enrolled, spent) = (
  omega (
    arith,
    enrolled,
    count-update_keep (is_method u totp) (counts_step user_id counter)
        (λ m. record m { last_totp_counter = counter }) (λ m. refl) db.mfa_methods,
  ),
  omega (
    arith,
    spent,
    count-update_only (below u c) (counts_step user_id counter)
        (λ m. record m { last_totp_counter = counter }) (λ m p q. ground arith) db.mfa_methods,
  ),
)

upserted-below :
    (u : String) (c now : ℕ) (m : MfaMethod) (rows : List MfaMethod)
    → 1 ≤ count_where (is_method u totp) rows
    → count_where (below u c) rows ≡ 0
    → (1 ≤ count_where (is_method u totp) (upserted_methods now m rows))
      × (count_where (below u c) (upserted_methods now m rows) ≡ 0)
upserted-below u c now m rows enrolled spent =
    elim (Bool-cases (exists_where (is_method m.user_id m.method_type) rows)) [
      | inl there ↦ rw there (
        omega (
          arith,
          count-update_keep (is_method u totp) (is_method m.user_id m.method_type) (enrol_again m)
              (λ r. refl) rows,
        ),
        omega (
          arith,
          count-update-le (below u c) (is_method m.user_id m.method_type) (enrol_again m) (λ r e. e)
              rows,
        ),
      )
      | inr absent ↦ rw absent (
        omega (
          arith,
          count-append (is_method u totp) rows
              (record m { last_totp_counter = 0; created_at = now } ∷ []),
        ),
        ground (
          arith,
          eq_iff m.user_id u,
          exists-count_zero (is_method m.user_id m.method_type) rows absent,
          count-append (below u c) rows (record m { last_totp_counter = 0; created_at = now } ∷ []),
        ),
      )
    ]

upsert-rows :
    (now : ℕ) (m : MfaMethod) (db db' : Db)
    → upsert_mfa_method now m db ≡ ok db'
    → db'.mfa_methods ≡ upserted_methods now m db.mfa_methods
unfolding upsert_mfa_method
upsert-rows now m db db' h = ground arith

set-keeps :
    (u : String) (c now : ℕ) (m : MfaMethod) (a : Option AuditEvent) (db : Db)
    → IsSpent u c db
    → IsSpent u c (set_mfa_method now m a db).0
unfolding set_mfa_method
set-keeps u c now m a db spent = commit_rule (IsSpent u c) tt _ db spent λ db' made.
    let (db₁, put, recorded) = >>=-ok (upsert_mfa_method now m db) (record_audit_tx now a) made in
    rw (record_audit_tx-eq now a db₁ recorded, upsert-rows now m db db₁ put)
      (upserted-below u c now m db.mfa_methods spent.0 spent.1)

pub run-keeps :
    (u : String) (c : ℕ) (ops : List Op) (db : Db) → IsSpent u c db → IsSpent u c (run ops db)
unfolding run
run-keeps u c [] db h = h
run-keeps u c (spends user_id counter ∷ ops) db h =
    run-keeps u c ops _ (consume-keeps u c user_id counter db h)
run-keeps u c (enrols now m a ∷ ops) db h = run-keeps u c ops _ (set-keeps u c now m a db h)

pub spent_refuses :
    (u : String) (c c' : ℕ) (db : Db)
    → IsSpent u c db
    → (consume_totp_counter u c' db).1 ≡ true
    → c < c'
unfolding consume_totp_counter
spent_refuses u c c' db (enrolled, spent) h = elim (Bool-cases (ltb c c')) [
  | inl less ↦ ground arith
  | inr more ↦ absurd (
      omega (
        arith,
        eqb→eq (count_where (counts_step u c') db.mfa_methods) 1 h,
        spent,
        count_mono (counts_step u c') (below u c) (λ m e. narrower m e more) db.mfa_methods,
      ))
]
  where
    narrower : (m : MfaMethod) → counts_step u c' m ≡ true → ltb c c' ≡ false → below u c m ≡ true
    narrower m e more = ground arith
