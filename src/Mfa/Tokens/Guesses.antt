-- ===== src/Mfa/Tokens/Guesses.antt =====
-- The attempt cap of internal/mfa/mfa.go: five wrong second factors end a login token.
use kysignon_server.Base.{
  ℕ, ◌+◌, ◌≤◌, List, [], ◌∷◌, Bool, true, false, ◌&&◌, not, String, ◌==◌, count_where, ok, ◌≡◌, ◌≢◌,
  refl, arith, all, trim_space, count_where-none, if◌then◌else◌, IsUnique, find_where_sound,
  find_where-count, eq_iff, eq_refl, ltb, count-update-le, update_where, Bool-cases, inl, inr,
}
use native.Mathlib.Nat.{add-zero, add_assoc}
use kysignon_server.Schema.{Db, MfaToken}
use kysignon_server.Mfa.{record_mfa_failure, count_attempt}
use kysignon_server.Mfa.Tokens.{
  validate_mfa_token, Op, creates, fails, consumes, deletes_expired, step, run, mints, run-NoToken,
  step-NoToken,
}
use kysignon_server.Mfa.Tokens.Spent.{validate-find}

-- The rows under a hash with another id, and those with this id and fewer than `k` attempts.
abbrev pub other_id : String → String → MfaToken → Bool
other_id hash id t = t.token_hash == hash && not (t.id == id)

abbrev pub fewer : String → String → ℕ → MfaToken → Bool
fewer hash id k t = t.token_hash == hash && t.id == id && ltb t.attempts k

abbrev pub under_hash : String → MfaToken → Bool
under_hash hash t = t.token_hash == hash

abbrev pub failure : String → Op → ℕ
failure id (fails i) = if i == id then 1 else 0
failure id _ = 0

-- How often RecordMFAFailure runs for the token.
abbrev pub failures : String → List Op → ℕ
failures id [] = 0
failures id (op ∷ ops) = failure id op + failures id ops

Failed : String → String → ℕ → Db → Type 0
Failed hash id k db = count_where (fewer hash id k) db.mfa_tokens ≡ 0

fail_rows :
    (hash id : String) (k : ℕ) (rows : List MfaToken)
    → count_where (fewer hash id k) rows ≡ 0
    → count_where
        (fewer hash id (k + 1))
        (update_where (λ (t : MfaToken). t.id == id) count_attempt rows)
      ≡ 0
fail_rows hash id k [] h = refl
fail_rows hash id k (t ∷ rows) h = ground (arith, fail_rows hash id k rows)

step-Failed :
    (hash id : String) (k : ℕ) (op : Op) (db : Db)
    → mints (under_hash hash) op ≡ false
    → Failed hash id k db
    → Failed hash id (k + failure id op) (step op db)
unfolding Failed step record_mfa_failure
step-Failed hash id k (fails i) db fresh h = elim (Bool-cases (i == id)) [
  | inl same ↦ rw (same, (eq_iff i id).0 same) (fail_rows hash id k db.mfa_tokens h)
  | inr other ↦
      rw (other, add-zero)
        (omega (
          arith,
          h,
          count-update-le (fewer hash id k) (λ (t : MfaToken). t.id == i) count_attempt
              (λ t e. ground arith) db.mfa_tokens,
        ))
]
step-Failed hash id k (creates now t) db fresh h = rw add-zero (
    step-NoToken (fewer hash id k) (λ n t e. ground arith) (λ t e. ground arith) (creates now t) db
      (ground arith) h)
step-Failed hash id k (consumes now i) db fresh h = rw add-zero (
    step-NoToken (fewer hash id k) (λ n t e. ground arith) (λ t e. ground arith) (consumes now i) db
      refl h)
step-Failed hash id k (deletes_expired now) db fresh h = rw add-zero (
    step-NoToken (fewer hash id k) (λ n t e. ground arith) (λ t e. ground arith)
      (deletes_expired now) db refl h)

run-Failed :
    (hash id : String) (k : ℕ) (ops : List Op) (db : Db)
    → all (λ op. not (mints (under_hash hash) op)) ops ≡ true
    → Failed hash id k db
    → Failed hash id (k + failures id ops) (run ops db)
unfolding run
run-Failed hash id k [] db fresh h = rw add-zero h
run-Failed hash id k (op ∷ ops) db fresh h = rw (← add_assoc k (failure id op) (failures id ops)) (
    run-Failed hash id (k + failure id op) ops (step op db) (ground arith)
      (step-Failed hash id k op db (ground arith) h))

-- Where hashes are unique, the rows under the hash of a validated token have its id.
validated-one_id :
    (hash : String → String) (now : ℕ) (raw : String) (t : MfaToken) (db : Db)
    → IsUnique (λ (r : MfaToken). r.token_hash) db.mfa_tokens
    → validate_mfa_token hash now raw db ≡ ok t
    → count_where (other_id (hash (trim_space raw)) t.id) db.mfa_tokens ≡ 0
validated-one_id hash now raw t db unique valid =
    let h = hash (trim_space raw) in
    let found = validate-find hash now raw t db valid in
    let sound = find_where_sound _ db.mfa_tokens t found in
    omega (
      arith,
      unique h,
      find_where-count _ (λ (r : MfaToken). r.token_hash == h && r.id == t.id) db.mfa_tokens t found
          (ground (arith, eq_refl t.id)),
      count-split h t.id db.mfa_tokens,
    )
  where
    count-split :
        (h id : String) (rows : List MfaToken)
        → count_where (λ (r : MfaToken). r.token_hash == h && r.id == id) rows
            + count_where (other_id h id) rows
          ≡ count_where (λ (r : MfaToken). r.token_hash == h) rows
    count-split h id [] = refl
    count-split h id (r ∷ rows) = ground (arith, count-split h id rows)

exhausted_refuses :
    (hash : String → String) (later k : ℕ) (raw id : String) (t' : MfaToken) (db : Db)
    → 5 ≤ k
    → count_where (other_id (hash (trim_space raw)) id) db.mfa_tokens ≡ 0
    → Failed (hash (trim_space raw)) id k db
    → validate_mfa_token hash later raw db ≢ ok t'
unfolding Failed
exhausted_refuses hash later k raw id t' db enough one_id failed valid =
    let h = hash (trim_space raw) in
    let found = validate-find hash later raw t' db valid in
    let sound = find_where_sound _ db.mfa_tokens t' found in
    elim (Bool-cases (t'.id == id)) [
      | inr other ↦
          omega (
            arith,
            one_id,
            find_where-count _ (other_id h id) db.mfa_tokens t' found (ground arith),
          )
      | inl same ↦
          omega
            (arith, failed, find_where-count _ (fewer h id k) db.mfa_tokens t' found (ground arith))
    ]

-- Where tokens have distinct hashes: for a raw token that validated, once RecordMFAFailure ran five
-- times for its record, whatever else ran in between, it never validates again, while no operation
-- creates a token under its hash.
pub five_guesses_end :
    (hash : String → String) (now later : ℕ) (raw : String) (t t' : MfaToken) (db : Db)
    (ops : List Op)
    → IsUnique (λ (r : MfaToken). r.token_hash) db.mfa_tokens
    → all (λ op. not (mints (under_hash (hash (trim_space raw))) op)) ops ≡ true
    → 5 ≤ failures t.id ops
    → validate_mfa_token hash now raw db ≡ ok t
    → validate_mfa_token hash later raw (run ops db) ≢ ok t'
unfolding Failed
five_guesses_end hash now later raw t t' db ops unique fresh enough valid =
    let h = hash (trim_space raw) in
    exhausted_refuses hash later (0 + failures t.id ops) raw t.id t' (run ops db) (omega arith)
      (run-NoToken (other_id h t.id) (λ n r e. ground arith) (λ r e. ground arith) ops db
        (all_fresh h ops fresh) (validated-one_id hash now raw t db unique valid))
      (run-Failed h t.id 0 ops db fresh
        (count_where-none (fewer h t.id 0) (λ r. ground arith) db.mfa_tokens))
  where
    all_fresh :
        (h : String) (ops : List Op)
        → all (λ op. not (mints (under_hash h) op)) ops ≡ true
        → all (λ op. not (mints (other_id h t.id) op)) ops ≡ true
    all_fresh h [] e = refl
    all_fresh h (creates n r ∷ ops) e = ground (arith, all_fresh h ops)
    all_fresh h (fails i ∷ ops) e = all_fresh h ops e
    all_fresh h (consumes n i ∷ ops) e = all_fresh h ops e
    all_fresh h (deletes_expired n ∷ ops) e = all_fresh h ops e
