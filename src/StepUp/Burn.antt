-- ===== src/StepUp/Burn.antt =====
-- Rows of the two step-up tables that a history cannot bring back: no grant, or no challenge,
-- passes a test, and none does after any operations that do not insert one.
use kysignon_server.Base.{
  ℕ, Option, List, [], ◌∷◌, Bool, true, false, count_where, eqb, ltb, update_where, ok, ◌≡◌, arith,
  all, count-update-le, count-delete-le, count-append, not, Bool-cases, inl, inr, >>=-ok,
}
use kysignon_server.Schema.{
  Db, StepUpToken, StepUpChallenge, AuditEvent, record_audit_tx, commit_rule,
}
use kysignon_server.StepUp.{
  create_step_up_token_tx, create_step_up_token, create_step_up_challenge, put_challenge,
  fail_step_up_challenge, complete_step_up_challenge, cancel_step_up, consume_step_up_token,
  delete_expired_step_up_tokens, issued, burn_token, burn_challenge, completes, fresh_challenge,
  fail_challenge,
}
use kysignon_server.StepUp.Trace.{
  Op, creates_token, creates_challenge, fails, completes_challenge, cancels, consumes,
  deletes_expired, step, run, mints, opens, create_step_up_token_tx_tables, record_audit_tx_tables,
  put_challenge_tables,
}

-- A test of grants that no spent grant passes.
module _ (q : StepUpToken → Bool)
    (burnt : (now : ℕ) (t : StepUpToken) → q (burn_token now t) ≡ false) where
  -- No grant passes the test.
  abbrev pub NoGrant : Db → Type 0
  NoGrant db = count_where q db.step_up_tokens ≡ 0

  create_tx-NoGrant :
      (now : ℕ) (t : StepUpToken) (a : Option AuditEvent) (db db' : Db)
      → q (issued now t) ≡ false
      → create_step_up_token_tx now t a db ≡ ok db'
      → NoGrant db
      → NoGrant db'
  create_tx-NoGrant now t a db db' other made none_left = ground (
    arith,
    create_step_up_token_tx_tables now t a db made,
    count-append q db.step_up_tokens (issued now t ∷ []),
  )

  complete-NoGrant :
      (now : ℕ) (c : StepUpChallenge) (t : StepUpToken) (a : Option AuditEvent) (db : Db)
      → q (issued now t) ≡ false
      → NoGrant db
      → NoGrant (complete_step_up_challenge now c t a db).0
  unfolding complete_step_up_challenge
  complete-NoGrant now c t a db other h =
      elim (Bool-cases (eqb (count_where (completes now c.token_hash t) db.step_up_challenges) 1)) [
        | inl one ↦ rw one (
            commit_rule NoGrant true (create_step_up_token_tx now t a _) db h
              (λ db' made. create_tx-NoGrant now t a _ db' other made h))
        | inr not_one ↦ rw not_one h
      ]

  challenge-NoGrant :
      (now : ℕ) (c : StepUpChallenge) (a : Option AuditEvent) (db : Db)
      → NoGrant db
      → NoGrant (create_step_up_challenge now c a db).0
  unfolding create_step_up_challenge put_challenge record_audit_tx
  challenge-NoGrant now c a db h = ground arith

  burn-NoGrant :
      (now : ℕ) (p : StepUpToken → Bool) (rows : List StepUpToken)
      → count_where q rows ≡ 0
      → count_where q (update_where p (burn_token now) rows) ≡ 0
  burn-NoGrant now p rows h =
      omega (arith, count-update-le q p (burn_token now) (λ x e. ground (arith, burnt now x)) rows)

  pub step-NoGrant : (op : Op) (db : Db) → mints q op ≡ false → NoGrant db → NoGrant (step op db)
  unfolding step cancel_step_up consume_step_up_token delete_expired_step_up_tokens
      fail_step_up_challenge create_step_up_token
  step-NoGrant (creates_token now t a) db other h =
      commit_rule NoGrant tt (create_step_up_token_tx now t a db) db h
        (λ db' made. create_tx-NoGrant now t a db db' other made h)
  step-NoGrant (creates_challenge now c a) db other h = challenge-NoGrant now c a db h
  step-NoGrant (fails hash) db other h = h
  step-NoGrant (completes_challenge now c t a) db other h = complete-NoGrant now c t a db other h
  step-NoGrant (cancels now hash u s) db other h = burn-NoGrant now _ db.step_up_tokens h
  step-NoGrant (consumes now hash u s o) db other h = burn-NoGrant now _ db.step_up_tokens h
  step-NoGrant (deletes_expired now) db other h =
      omega (arith, count-delete-le q (λ t. ltb t.expires_at now) db.step_up_tokens)

  pub run-NoGrant :
      (ops : List Op) (db : Db)
      → all (λ op. not (mints q op)) ops ≡ true
      → NoGrant db
      → NoGrant (run ops db)
  unfolding run
  run-NoGrant [] db other h = h
  run-NoGrant (op ∷ ops) db other h =
      run-NoGrant ops (step op db) (ground arith) (step-NoGrant op db (ground arith) h)

-- A test of challenges that no used challenge passes, and that a failed attempt does not help
-- to pass.
module _ (q : StepUpChallenge → Bool)
    (burnt : (now : ℕ) (c : StepUpChallenge) → q (burn_challenge now c) ≡ false)
    (failing : (c : StepUpChallenge) → q (fail_challenge c) ≡ true → q c ≡ true) where
  -- No challenge passes the test.
  abbrev pub NoChallenge : Db → Type 0
  NoChallenge db = count_where q db.step_up_challenges ≡ 0

  burn-NoChallenge :
      (now : ℕ) (p : StepUpChallenge → Bool) (rows : List StepUpChallenge)
      → count_where q rows ≡ 0
      → count_where q (update_where p (burn_challenge now) rows) ≡ 0
  burn-NoChallenge now p rows h =
      omega
        (arith, count-update-le q p (burn_challenge now) (λ x e. ground (arith, burnt now x)) rows)

  create-NoChallenge :
      (now : ℕ) (c : StepUpChallenge) (a : Option AuditEvent) (db : Db)
      → q (fresh_challenge c) ≡ false
      → NoChallenge db
      → NoChallenge (create_step_up_challenge now c a db).0
  unfolding create_step_up_challenge
  create-NoChallenge now c a db other h = commit_rule NoChallenge tt _ db h λ db' made.
      let (db₁, put, audited) =
        >>=-ok (put_challenge (fresh_challenge c) db) (record_audit_tx now a) made in
      ground (
        arith,
        put_challenge_tables (fresh_challenge c) db put,
        record_audit_tx_tables now a db₁ audited,
        count-append q db.step_up_challenges (fresh_challenge c ∷ []),
      )

  complete-NoChallenge :
      (now : ℕ) (c : StepUpChallenge) (t : StepUpToken) (a : Option AuditEvent) (db : Db)
      → NoChallenge db
      → NoChallenge (complete_step_up_challenge now c t a db).0
  unfolding complete_step_up_challenge
  complete-NoChallenge now c t a db h =
      elim (Bool-cases (eqb (count_where (completes now c.token_hash t) db.step_up_challenges) 1)) [
        | inl one ↦ rw one (
            commit_rule NoChallenge true (create_step_up_token_tx now t a _) db h (λ db' made.
              ground (
                arith,
                create_step_up_token_tx_tables now t a _ made,
                burn-NoChallenge now (completes now c.token_hash t) db.step_up_challenges h,
              )))
        | inr not_one ↦ rw not_one h
      ]

  pub step-NoChallenge :
      (op : Op) (db : Db) → opens q op ≡ false → NoChallenge db → NoChallenge (step op db)
  unfolding step cancel_step_up consume_step_up_token delete_expired_step_up_tokens
      fail_step_up_challenge create_step_up_token
  step-NoChallenge (creates_token now t a) db other h =
      commit_rule NoChallenge tt (create_step_up_token_tx now t a db) db h
        (λ db' made. ground (arith, create_step_up_token_tx_tables now t a db made))
  step-NoChallenge (creates_challenge now c a) db other h = create-NoChallenge now c a db other h
  step-NoChallenge (fails hash) db other h =
      omega (arith, count-update-le q _ fail_challenge failing db.step_up_challenges)
  step-NoChallenge (completes_challenge now c t a) db other h = complete-NoChallenge now c t a db h
  step-NoChallenge (cancels now hash u s) db other h =
      burn-NoChallenge now _ db.step_up_challenges h
  step-NoChallenge (consumes now hash u s o) db other h = h
  step-NoChallenge (deletes_expired now) db other h =
      omega (arith, count-delete-le q (λ t. ltb t.expires_at now) db.step_up_challenges)

  pub run-NoChallenge :
      (ops : List Op) (db : Db)
      → all (λ op. not (opens q op)) ops ≡ true
      → NoChallenge db
      → NoChallenge (run ops db)
  unfolding run
  run-NoChallenge [] db other h = h
  run-NoChallenge (op ∷ ops) db other h =
      run-NoChallenge ops (step op db) (ground arith) (step-NoChallenge op db (ground arith) h)
