-- ===== src/Mfa/Push/Settled.antt =====
-- A push challenge of internal/mfa/mfa.go is decided once, also when answers race.
use kysignon_server.Base.{
  ℕ, List, [], ◌∷◌, Bool, false, String, ◌==◌, ◌≡◌, refl, arith, count_where, count-update-le,
  count-update_cover, challenge_not_pending, Result-cases, Option-cases, Bool-cases, inl, inr, not,
  ◌||◌, ◌&&◌, ltb,
}
use kysignon_server.Schema.{
  Db, MfaChallenge, ChallengeStatus, pending, approved, denied, expired, status_eq,
}
use kysignon_server.Mfa.{get_mfa_challenge, transition_mfa_challenge_status, moves, verified_at_of}
use kysignon_server.Mfa.Push.{
  refused, verify_device_signature, push_response_message, settle, answer, respond_to,
  respond_push_challenge, check_push_challenge,
}

-- The requests that decide challenges. `settles` is the last step of an answer whose challenge was
-- read as pending earlier: other requests may run between the read and this step.
pub data Op : Type 0 where
  responds : ℕ → String → String → Bool → String → Op
  checks : ℕ → String → Op
  settles_approved settles_denied : ℕ → String → String → Op

module _ (verify : (public_key message signature : String) → Bool) where
  unfoldable pub step : Op → Db → Db
  step (responds now id digits approve signature) db =
      (respond_push_challenge verify now id digits approve signature db).0
  step (checks now id) db = (check_push_challenge now id db).0
  step (settles_approved now id device) db = (settle now id device approved db).0
  step (settles_denied now id device) db = (settle now id device denied db).0

  pub run : List Op → Db → Db
  run [] db = db
  run (op ∷ ops) db = run ops (step op db)

-- No challenge of this id is pending.
abbrev pub IsSettled : String → Db → Type 0
IsSettled id db = count_where (moves id pending) db.mfa_challenges ≡ 0

transition-IsSettled :
    (id : String) (now : ℕ) (id' : String) (to : ChallengeStatus) (db : Db)
    → status_eq to pending ≡ false
    → IsSettled id db
    → IsSettled id (transition_mfa_challenge_status now id' pending to db).0
unfolding transition_mfa_challenge_status
transition-IsSettled id now id' to db decided h = omega (
  arith,
  count-update-le (moves id pending) (moves id' pending)
      (λ (c : MfaChallenge). record c { status = to; verified_at = verified_at_of now to })
      (λ x e. ground arith) db.mfa_challenges,
)

settle-IsSettled :
    (id : String) (now : ℕ) (id' device : String) (to : ChallengeStatus) (db : Db)
    → status_eq to pending ≡ false
    → IsSettled id db
    → IsSettled id (settle now id' device to db).0
unfolding settle
settle-IsSettled id now id' device to db decided h = transition-IsSettled id now id' to db decided h

-- Whatever way a request takes, it leaves the database or moves one challenge out of `pending`.
module _ (P : Db → Type 0) (now : ℕ) (db : Db) (unchanged : P db)
    (moved : (id : String) (to : ChallengeStatus)
      → status_eq to pending ≡ false
      → P (transition_mfa_challenge_status now id pending to db).0) where
  answer_rule :
      (verify : (public_key message signature : String) → Bool) (ch : MfaChallenge)
      (id digits : String) (approve : Bool) (signature : String)
      → P (answer verify now ch id digits approve signature db).0
  unfolding answer settle
  answer_rule verify ch id digits approve signature =
      elim (Result-cases (
        verify_device_signature verify ch.user_id (push_response_message id approve digits)
          signature db)) [
            | inr (e, none_signed) ↦ rw (none_signed, answer) unchanged
            | inl (device, signed) ↦
                rw (signed, answer)
                  (elim (Bool-cases (not approve || not (digits == ch.match_digits))) [
                    | inl deny ↦ rw deny (moved ch.id denied refl)
                    | inr agree ↦ rw agree (moved ch.id approved refl)
                  ])
          ]

  respond_rule :
      (verify : (public_key message signature : String) → Bool) (id digits : String)
      (approve : Bool) (signature : String)
      → P (respond_push_challenge verify now id digits approve signature db).0
  unfolding respond_push_challenge respond_to
  respond_rule verify id digits approve signature = elim (Option-cases (get_mfa_challenge id db)) [
    | inl missing ↦ rw (missing, respond_push_challenge) unchanged
    | inr (ch, found) ↦
        rw (found, respond_push_challenge)
          (elim (Bool-cases (not (status_eq ch.status pending))) [
            | inl over ↦ rw over unchanged
            | inr open_ ↦ rw open_ (elim (Bool-cases (ltb ch.expires_at now)) [
              | inl late ↦ rw late (moved ch.id expired refl)
              | inr timely ↦ rw timely (answer_rule verify ch id digits approve signature)
            ])
          ])
  ]

  check_rule : (id : String) → P (check_push_challenge now id db).0
  unfolding check_push_challenge
  check_rule id = elim (Option-cases (get_mfa_challenge id db)) [
    | inl missing ↦ rw (missing, check_push_challenge) unchanged
    | inr (ch, found) ↦
        rw (found, check_push_challenge)
          (elim (Bool-cases (status_eq ch.status pending && ltb ch.expires_at now)) [
            | inl late ↦ rw late (moved ch.id expired refl)
            | inr timely ↦ rw timely unchanged
          ])
  ]

module _ (verify : (public_key message signature : String) → Bool) where
  step-IsSettled :
      (id : String) (op : Op) (db : Db) → IsSettled id db → IsSettled id (step verify op db)
  unfolding step
  step-IsSettled id (responds now id' digits approve signature) db h =
      respond_rule (IsSettled id) now db h (λ i to e. transition-IsSettled id now i to db e h)
        verify id' digits approve signature
  step-IsSettled id (checks now id') db h =
      check_rule (IsSettled id) now db h (λ i to e. transition-IsSettled id now i to db e h) id'
  step-IsSettled id (settles_approved now id' device) db h =
      settle-IsSettled id now id' device approved db refl h
  step-IsSettled id (settles_denied now id' device) db h =
      settle-IsSettled id now id' device denied db refl h

  run-IsSettled :
      (id : String) (ops : List Op) (db : Db) → IsSettled id db → IsSettled id (run verify ops db)
  unfolding run
  run-IsSettled id [] db h = h
  run-IsSettled id (op ∷ ops) db h =
      run-IsSettled id ops (step verify op db) (step-IsSettled id op db h)

  settle_settles :
      (now : ℕ) (id device : String) (to : ChallengeStatus) (db : Db)
      → status_eq to pending ≡ false
      → IsSettled id (settle now id device to db).0
  unfolding settle transition_mfa_challenge_status
  settle_settles now id device to db decided =
      count-update_cover (moves id pending) (moves id pending) _ (λ x h. h) (λ x. ground arith)
        db.mfa_challenges

  settle_settled :
      (now : ℕ) (id device : String) (to : ChallengeStatus) (db : Db)
      → IsSettled id db
      → (settle now id device to db).1 ≡ refused device challenge_not_pending
  unfolding settle transition_mfa_challenge_status
  settle_settled now id device to db h = ground arith

  -- Once one answer has moved a challenge out of `pending`, every other answer that had read it as
  -- pending is refused, after any number of answers and status checks, and the challenge stays
  -- settled: of racing approvals and denials at most one takes effect.
  pub settle-once :
      (now later : ℕ) (id device device' : String) (to to' : ChallengeStatus) (ops : List Op)
      (db : Db)
      → status_eq to pending ≡ false
      → let db' = run verify ops (settle now id device to db).0 in
        ((settle later id device' to' db').1 ≡ refused device' challenge_not_pending)
        × IsSettled id db'
  settle-once now later id device device' to to' ops db decided =
      let settled = run-IsSettled id ops _ (settle_settles now id device to db decided) in
      (settle_settled later id device' to' _ settled, settled)
