-- ===== src/StepUp/Attempts.antt =====
-- The attempt limit of step-up challenges in internal/store/stepup.go.
use kysignon_server.Base.{
  ℕ, ◌+◌, ◌≤◌, Option, none, List, [], ◌∷◌, Bool, true, false, ◌&&◌, String, ◌==◌, count_where,
  update_where, ok, ◌≡◌, refl, arith, all, not, count_mono, count_zero-find, ltb, if◌then◌else◌,
  eq_iff, Bool-cases, inl, inr,
}
use native.Mathlib.Nat.{add-zero, add_assoc}
use kysignon_server.Schema.{Db, StepUpToken, StepUpChallenge, AuditEvent}
use kysignon_server.StepUp.{
  complete_step_up_challenge, fail_step_up_challenge, get_step_up_challenge, burn_challenge,
  fail_challenge, completes, is_open,
}
use kysignon_server.StepUp.Trace.{Op, fails, creates_challenge, step, run, opens}
use kysignon_server.StepUp.SingleUse.{unused}
use kysignon_server.StepUp.Burn.{NoChallenge, step-NoChallenge}

-- An unused challenge of this hash with fewer than `k` failures.
abbrev fewer : String → ℕ → StepUpChallenge → Bool
fewer hash k c = unused hash c && ltb c.attempts k

fewer-burn :
    (hash : String) (k now : ℕ) (c : StepUpChallenge) → fewer hash k (burn_challenge now c) ≡ false
fewer-burn hash k now c = ground arith

fewer-fail :
    (hash : String) (k : ℕ) (c : StepUpChallenge)
    → fewer hash k (fail_challenge c) ≡ true
    → fewer hash k c ≡ true
fewer-fail hash k c h = ground arith

abbrev Failed : String → ℕ → Db → Type 0
Failed hash k db = NoChallenge (fewer hash k) (fewer-burn hash k) (fewer-fail hash k) db

-- Each FailStepUpChallenge counts against every unused challenge of the hash.
fail_rows :
    (hash : String) (k : ℕ) (rows : List StepUpChallenge)
    → count_where (fewer hash k) rows ≡ 0
    → count_where (fewer hash (k + 1)) (update_where (unused hash) fail_challenge rows) ≡ 0
fail_rows hash k [] h = refl
fail_rows hash k (c ∷ rows) h = ground (arith, fail_rows hash k rows)

abbrev pub failure : String → Op → ℕ
failure hash (fails h) = if h == hash then 1 else 0
failure hash _ = 0

-- How often the history reports a failure under this hash.
abbrev pub failures : String → List Op → ℕ
failures hash [] = 0
failures hash (op ∷ ops) = failure hash op + failures hash ops

keep-Failed :
    (hash : String) (k : ℕ) (op : Op) (db : Db)
    → failure hash op ≡ 0
    → opens (unused hash) op ≡ false
    → Failed hash k db
    → Failed hash (k + failure hash op) (step op db)
keep-Failed hash k op db silent closed h =
    rw (silent, add-zero)
      (step-NoChallenge (fewer hash k) (fewer-burn hash k) (fewer-fail hash k) op db
        (opens_fewer hash k op closed) h)
  where
    opens_fewer :
        (hash : String) (k : ℕ) (op : Op)
        → opens (unused hash) op ≡ false
        → opens (fewer hash k) op ≡ false
    opens_fewer hash k (creates_challenge now c a) e = ground arith
    opens_fewer hash k _ e = refl

step-Failed :
    (hash : String) (k : ℕ) (op : Op) (db : Db)
    → opens (unused hash) op ≡ false
    → Failed hash k db
    → Failed hash (k + failure hash op) (step op db)
unfolding step fail_step_up_challenge
step-Failed hash k (fails h) db closed f = elim (Bool-cases (h == hash)) [
  | inl same ↦
      rw (same, (eq_iff h hash).0 same, step, fail_step_up_challenge)
        (fail_rows hash k db.step_up_challenges f)
  | inr other ↦ keep-Failed hash k (fails h) db (rw other) closed f
]
step-Failed hash k op db closed f = keep-Failed hash k op db refl closed f

run-Failed :
    (hash : String) (k : ℕ) (ops : List Op) (db : Db)
    → all (λ op. not (opens (unused hash) op)) ops ≡ true
    → Failed hash k db
    → Failed hash (k + failures hash ops) (run ops db)
unfolding run
run-Failed hash k [] db closed f = rw add-zero f
run-Failed hash k (op ∷ ops) db closed f =
    rw (← add_assoc k (failure hash op) (failures hash ops)) (
      run-Failed hash (k + failure hash op) ops (step op db) (ground arith)
        (step-Failed hash k op db (ground arith) f))

closed_refuses :
    (now : ℕ) (hash u s : String) (c : StepUpChallenge) (t : StepUpToken) (a : Option AuditEvent)
    (k : ℕ) (db : Db)
    → 5 ≤ k
    → c.token_hash ≡ hash
    → Failed hash k db
    → (get_step_up_challenge now hash u s db ≡ none)
      × ((complete_step_up_challenge now c t a db).1 ≡ ok false)
unfolding get_step_up_challenge complete_step_up_challenge
closed_refuses now hash u s c t a k db enough e f = (
  count_zero-find _ db.step_up_challenges (
      omega (
        arith,
        count_mono
            (λ (r : StepUpChallenge).
              r.token_hash == hash && r.user_id == u && r.session_id == s && is_open now r)
            (fewer hash k) (λ x h. ground arith) db.step_up_challenges,
      )),
  rw e (
      ground (
        arith,
        count_mono (completes now hash t) (fewer hash k) (λ x h. ground arith)
            db.step_up_challenges,
      )),
)

-- However the operations are ordered, once FailStepUpChallenge ran five times for a hash, a
-- challenge of this hash is neither found nor completed, while no operation opens a new challenge
-- under the hash.
pub five_failures_close :
    (now : ℕ) (hash u s : String) (c : StepUpChallenge) (t : StepUpToken) (a : Option AuditEvent)
    (db : Db) (ops : List Op)
    → all (λ op. not (opens (unused hash) op)) ops ≡ true
    → 5 ≤ failures hash ops
    → c.token_hash ≡ hash
    → (get_step_up_challenge now hash u s (run ops db) ≡ none)
      × ((complete_step_up_challenge now c t a (run ops db)).1 ≡ ok false)
five_failures_close now hash u s c t a db ops closed enough e =
    closed_refuses now hash u s c t a (0 + failures hash ops) (run ops db) (omega arith) e (
      run-Failed hash 0 ops db closed (
        omega (
          arith,
          count_mono (fewer hash 0) (λ _. false) (λ x h. ground arith) db.step_up_challenges,
          none_counted db.step_up_challenges,
        )))
  where
    none_counted : (rows : List StepUpChallenge) → count_where (λ _. false) rows ≡ 0
    none_counted [] = refl
    none_counted (r ∷ rows) = omega (arith, none_counted rows)
