-- ===== src/StepUp/Keys.antt =====
-- The UNIQUE columns of the two step-up tables hold under every operation.
use kysignon_server.Base.{
  ℕ, Option, List, [], ◌∷◌, Bool, true, ◌==◌, count_where, eqb, ltb, update_where, ok, ◌≡◌, refl,
  arith, count-update_keep, count-delete-le, Bool-cases, inl, inr, IsUnique, >>=-ok,
}
use kysignon_server.Schema.{
  Db, StepUpToken, StepUpChallenge, AuditEvent, record_audit_tx, commit_rule, insert_row-IsUnique,
  insert_row,
}
use kysignon_server.StepUp.{
  create_step_up_token_tx, create_step_up_token, create_step_up_challenge, put_challenge,
  fail_step_up_challenge, complete_step_up_challenge, cancel_step_up, consume_step_up_token,
  token_clashes, delete_expired_step_up_tokens, issued, burn_token, burn_challenge, completes,
  fresh_challenge, fail_challenge,
}
use kysignon_server.StepUp.Trace.{
  Op, creates_token, creates_challenge, fails, completes_challenge, cancels, consumes,
  deletes_expired, step, run, create_step_up_token_tx_tables, record_audit_tx_tables,
  put_challenge_tables,
}

pub record IsKeyed (db : Db) : Type 0 where
  pub grants : IsUnique (λ t. t.token_hash) db.step_up_tokens
  pub challenges : IsUnique (λ c. c.token_hash) db.step_up_challenges

create_tx_inserts :
    (now : ℕ) (t : StepUpToken) (a : Option AuditEvent) (db : Db) {db' : Db}
    → create_step_up_token_tx now t a db ≡ ok db'
    → insert_row (token_clashes (issued now t)) (issued now t) db.step_up_tokens
      ≡ ok db'.step_up_tokens
unfolding create_step_up_token_tx record_audit_tx
create_tx_inserts now t a db h = ground arith

put_challenge_inserts :
    (c : StepUpChallenge) (db : Db) {db' : Db}
    → put_challenge c db ≡ ok db'
    → insert_row (λ r. r.token_hash == c.token_hash) c db.step_up_challenges
      ≡ ok db'.step_up_challenges
unfolding put_challenge
put_challenge_inserts c db h = ground arith

create_tx-IsKeyed :
    (now : ℕ) (t : StepUpToken) (a : Option AuditEvent) (db db' : Db)
    → create_step_up_token_tx now t a db ≡ ok db'
    → IsKeyed db
    → IsKeyed db'
create_tx-IsKeyed now t a db db' made k = record {
  grants =
      insert_row-IsUnique (λ r. r.token_hash) (token_clashes (issued now t)) (issued now t)
        db.step_up_tokens db'.step_up_tokens (λ r e. ground arith) k.grants
        (create_tx_inserts now t a db made);
  challenges = rw (create_step_up_token_tx_tables now t a db made).1 k.challenges;
}

burn_challenges-IsUnique :
    (now : ℕ) (p : StepUpChallenge → Bool) (rows : List StepUpChallenge)
    → IsUnique (λ c. c.token_hash) rows
    → IsUnique (λ c. c.token_hash) (update_where p (burn_challenge now) rows)
burn_challenges-IsUnique now p rows k v =
    rw
      (count-update_keep (λ (c : StepUpChallenge). c.token_hash == v) p (burn_challenge now)
        (λ x. refl) rows)
      (k v)

burn_tokens-IsUnique :
    (now : ℕ) (p : StepUpToken → Bool) (rows : List StepUpToken)
    → IsUnique (λ t. t.token_hash) rows
    → IsUnique (λ t. t.token_hash) (update_where p (burn_token now) rows)
burn_tokens-IsUnique now p rows k v =
    rw
      (count-update_keep (λ (t : StepUpToken). t.token_hash == v) p (burn_token now) (λ x. refl)
        rows)
      (k v)

complete-IsKeyed :
    (now : ℕ) (c : StepUpChallenge) (t : StepUpToken) (a : Option AuditEvent) (db : Db)
    → IsKeyed db
    → IsKeyed (complete_step_up_challenge now c t a db).0
unfolding complete_step_up_challenge
complete-IsKeyed now c t a db k =
    elim (Bool-cases (eqb (count_where (completes now c.token_hash t) db.step_up_challenges) 1)) [
      | inl one ↦ rw one (
          commit_rule IsKeyed true (create_step_up_token_tx now t a _) db k (λ db' made.
            create_tx-IsKeyed now t a _ db' made (record {
              grants = k.grants;
              challenges = burn_challenges-IsUnique now _ db.step_up_challenges k.challenges;
            })))
      | inr not_one ↦ rw not_one k
    ]

create_challenge-IsKeyed :
    (now : ℕ) (c : StepUpChallenge) (a : Option AuditEvent) (db : Db)
    → IsKeyed db
    → IsKeyed (create_step_up_challenge now c a db).0
unfolding create_step_up_challenge
create_challenge-IsKeyed now c a db k = commit_rule IsKeyed tt _ db k λ db' made.
    let (db₁, put, trail) =
      >>=-ok (put_challenge (fresh_challenge c) db) (record_audit_tx now a) made in
    let same = record_audit_tx_tables now a db₁ trail in
    record {
      grants = rw (same.0, (put_challenge_tables (fresh_challenge c) db put).0) k.grants;
      challenges = rw same.1 (
          insert_row-IsUnique (λ r. r.token_hash) (λ r. r.token_hash == c.token_hash)
            (fresh_challenge c) db.step_up_challenges db₁.step_up_challenges (λ r e. e) k.challenges
            (put_challenge_inserts (fresh_challenge c) db put));
    }

-- The token hashes of the grants stay distinct, and those of the challenges, under every operation.
pub step-IsKeyed : (op : Op) (db : Db) → IsKeyed db → IsKeyed (step op db)
unfolding step cancel_step_up consume_step_up_token delete_expired_step_up_tokens
    fail_step_up_challenge create_step_up_token
step-IsKeyed (creates_token now t a) db k =
    commit_rule IsKeyed tt (create_step_up_token_tx now t a db) db k
      (λ db' made. create_tx-IsKeyed now t a db db' made k)
step-IsKeyed (creates_challenge now c a) db k = create_challenge-IsKeyed now c a db k
step-IsKeyed (fails hash) db k = record {
  grants = k.grants;
  challenges = λ v.
      rw
        (count-update_keep (λ (c : StepUpChallenge). c.token_hash == v) _ fail_challenge (λ x. refl)
          db.step_up_challenges)
        (k.challenges v);
}
step-IsKeyed (completes_challenge now c t a) db k = complete-IsKeyed now c t a db k
step-IsKeyed (cancels now hash u s) db k = record {
  grants = burn_tokens-IsUnique now _ db.step_up_tokens k.grants;
  challenges = burn_challenges-IsUnique now _ db.step_up_challenges k.challenges;
}
step-IsKeyed (consumes now hash u s o) db k = record {
  grants = burn_tokens-IsUnique now _ db.step_up_tokens k.grants;
  challenges = k.challenges;
}
step-IsKeyed (deletes_expired now) db k = record {
  grants = λ v. omega (
    arith,
    k.grants v,
    count-delete-le (λ (t : StepUpToken). t.token_hash == v) (λ t. ltb t.expires_at now)
        db.step_up_tokens,
  );
  challenges = λ v. omega (
    arith,
    k.challenges v,
    count-delete-le (λ (c : StepUpChallenge). c.token_hash == v) (λ c. ltb c.expires_at now)
        db.step_up_challenges,
  );
}

run-IsKeyed : (ops : List Op) (db : Db) → IsKeyed db → IsKeyed (run ops db)
unfolding run
run-IsKeyed [] db k = k
run-IsKeyed (op ∷ ops) db k = run-IsKeyed ops (step op db) (step-IsKeyed op db k)
