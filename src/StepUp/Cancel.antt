-- ===== src/StepUp/Cancel.antt =====
-- CancelStepUp of internal/store/stepup.go.
use kysignon_server.Base.{
  ℕ, Option, none, List, Bool, true, false, ◌&&◌, String, ◌==◌, is_none, ok, ◌≡◌, arith, all, not,
  count_mono, count-update_cover, count_zero-find,
}
use kysignon_server.Schema.{Db, StepUpToken, StepUpChallenge, AuditEvent}
use kysignon_server.StepUp.{
  complete_step_up_challenge, consume_step_up_token, cancel_step_up, get_step_up_challenge,
  is_valid_grant, grant_session_live, burn_token, burn_challenge, is_open,
}
use kysignon_server.StepUp.Trace.{Op, run, mints, opens}
use kysignon_server.StepUp.Burn.{NoGrant, NoChallenge, run-NoGrant, run-NoChallenge}

-- The rows of one attempt at re-authentication that can still be used.
abbrev pub unspent_of : String → String → String → StepUpToken → Bool
unspent_of hash u s t =
    t.token_hash == hash && t.user_id == u && t.session_id == s && is_none t.used_at

abbrev pub unused_of : String → String → String → StepUpChallenge → Bool
unused_of hash u s c =
    c.token_hash == hash && c.user_id == u && c.session_id == s && is_none c.used_at

module _ (hash u s : String) where
  grant_burnt : (now : ℕ) (t : StepUpToken) → unspent_of hash u s (burn_token now t) ≡ false
  grant_burnt now t = ground arith

  challenge_burnt :
      (now : ℕ) (c : StepUpChallenge) → unused_of hash u s (burn_challenge now c) ≡ false
  challenge_burnt now c = ground arith

  abbrev NoneLeft : Db → Type 0
  NoneLeft db =
      NoGrant (unspent_of hash u s) grant_burnt db
      × NoChallenge (unused_of hash u s) challenge_burnt (λ c h. h) db

  cancel-NoneLeft : (now : ℕ) (db : Db) → NoneLeft (cancel_step_up now hash u s db)
  unfolding cancel_step_up
  cancel-NoneLeft now db = (
    count-update_cover (unspent_of hash u s) _ (burn_token now) (λ x h. ground arith)
        (grant_burnt now) db.step_up_tokens,
    count-update_cover (unused_of hash u s) _ (burn_challenge now) (λ x h. ground arith)
        (challenge_burnt now) db.step_up_challenges,
  )

  NoneLeft-refuses :
      (later : ℕ) (o : String) (c : StepUpChallenge) (t : StepUpToken) (a : Option AuditEvent)
      (db : Db)
      → c.token_hash ≡ hash
      → t.user_id ≡ u
      → t.session_id ≡ s
      → NoneLeft db
      → ((consume_step_up_token later hash u s o db).1 ≡ false)
        × (get_step_up_challenge later hash u s db ≡ none)
        × ((complete_step_up_challenge later c t a db).1 ≡ ok false)
  unfolding consume_step_up_token get_step_up_challenge complete_step_up_challenge
  NoneLeft-refuses later o c t a db eh eu es (grants, challenges) = (
    ground (
      arith,
      count_mono (λ t. is_valid_grant later hash u s o t && grant_session_live later db t)
          (unspent_of hash u s) (λ x h. ground arith) db.step_up_tokens,
    ),
    count_zero-find _ db.step_up_challenges (
        omega (
          arith,
          count_mono
              (λ (r : StepUpChallenge).
                r.token_hash == hash && r.user_id == u && r.session_id == s && is_open later r)
              (unused_of hash u s) (λ x h. ground arith) db.step_up_challenges,
        )),
    rw (eh, eu, es)
        (ground (
          arith,
          count_mono
              (λ (r : StepUpChallenge).
                r.token_hash == hash
                && r.user_id == u
                && r.session_id == s
                && r.operation == t.operation
                && is_open later r)
              (unused_of hash u s) (λ x h. ground arith) db.step_up_challenges,
        )),
  )

-- After CancelStepUp, and after any operations that insert no new grant and no new challenge of
-- this hash, user and session: the grant cannot be spent for any operation, the challenge is not
-- found, and no completion of it succeeds. So a completion that raced the cancel gains nothing.
pub cancel_refuses :
    (now later : ℕ) (hash u s o : String) (c : StepUpChallenge) (t : StepUpToken)
    (a : Option AuditEvent) (db : Db) (ops : List Op)
    → all (λ op. not (mints (unspent_of hash u s) op)) ops ≡ true
    → all (λ op. not (opens (unused_of hash u s) op)) ops ≡ true
    → c.token_hash ≡ hash
    → t.user_id ≡ u
    → t.session_id ≡ s
    → let db' = run ops (cancel_step_up now hash u s db) in
      ((consume_step_up_token later hash u s o db').1 ≡ false)
      × (get_step_up_challenge later hash u s db' ≡ none)
      × ((complete_step_up_challenge later c t a db').1 ≡ ok false)
cancel_refuses now later hash u s o c t a db ops no_grant no_challenge eh eu es =
    let (grants, challenges) = cancel-NoneLeft hash u s now db in
    NoneLeft-refuses hash u s later o c t a _ eh eu es (
      run-NoGrant (unspent_of hash u s) (grant_burnt hash u s) ops _ no_grant grants,
      run-NoChallenge (unused_of hash u s) (challenge_burnt hash u s) (λ r h. h) ops _ no_challenge
          challenges,
    )
