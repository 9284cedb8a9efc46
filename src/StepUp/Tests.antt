-- ===== src/StepUp/Tests.antt =====
-- Runs of internal/store/stepup.go on small tables.
use kysignon_server.Base.{
  some, none, List, ◌⊎◌, ◌≢◌, count_where, [], ◌∷◌, true, false, ok, err, ◌≡◌, refl,
  step_up_invalid, ◌*◌, IsUnique, arith,
}
use kysignon_server.Schema.{Db, minute, second, record_audit_tx, with_created_at}
use kysignon_server.Schema.Samples.{with_alice, grant, challenge, event}
use kysignon_server.StepUp.{
  live_session, completes, issued, burn_challenge, create_step_up_token_tx, get_step_up_challenge,
  complete_step_up_challenge, consume_step_up_token,
}
use kysignon_server.StepUp.Trace.{run, Op, fails, cancels, deletes_expired}
use kysignon_server.StepUp.SingleUse.{consume-once, complete_all_or_nothing}
use kysignon_server.StepUp.Attempts.{five_failures_close}

abbrev with_grant : Db
with_grant = record with_alice { step_up_tokens = grant ∷ [] }

abbrev with_challenge : Db
with_challenge = record with_alice { step_up_challenges = challenge ∷ [] }

grants-IsUnique : IsUnique (λ t. t.token_hash) with_grant.step_up_tokens
grants-IsUnique v = ground arith

challenges-IsUnique : IsUnique (λ c. c.token_hash) with_challenge.step_up_challenges
challenges-IsUnique v = ground arith

consume_now :
    (consume_step_up_token minute "th" "alice" "s1" "delete_device:d1" with_grant).1 ≡ true
unfolding consume_step_up_token
consume_now = refl

consume_other_operation :
    (consume_step_up_token minute "th" "alice" "s1" "delete_user:bob" with_grant).1 ≡ false
unfolding consume_step_up_token
consume_other_operation = refl

consume_expired :
    (consume_step_up_token (5 * minute) "th" "alice" "s1" "delete_device:d1" with_grant).1 ≡ false
unfolding consume_step_up_token
consume_expired = refl

consume-once_example :
    (consume_step_up_token (2 * minute) "th" "alice" "s1" "delete_device:d1" (
      run
        (deletes_expired second ∷ [])
        (consume_step_up_token minute "th" "alice" "s1" "delete_device:d1" with_grant).0)).1
    ≡ false
consume-once_example =
    consume-once minute (2 * minute) "th" "alice" "s1" "delete_device:d1" "alice" "s1"
      "delete_device:d1" with_grant (deletes_expired second ∷ []) grants-IsUnique refl consume_now

complete_now :
    (complete_step_up_challenge minute challenge grant (some event) with_challenge).1 ≡ ok true
unfolding complete_step_up_challenge create_step_up_token_tx live_session record_audit_tx
complete_now = refl

complete_closed_session :
    (complete_step_up_challenge minute challenge grant
      (some event)
      (record with_challenge { sessions = [] })).1
    ≡ err step_up_invalid
unfolding complete_step_up_challenge create_step_up_token_tx live_session record_audit_tx
complete_closed_session = refl

complete_all_or_nothing_example :
    let r = complete_step_up_challenge minute challenge grant (some event) with_challenge in
    ((r.1 ≡ ok true)
      × (count_where (completes minute "ch" grant) with_challenge.step_up_challenges ≡ 1)
      × (live_session minute "s1" "alice" with_challenge ≡ true)
      × (r.0.step_up_tokens ≡ issued minute grant ∷ [])
      × (r.0.step_up_challenges ≡ burn_challenge minute challenge ∷ [])
      × (r.0.audit_events ≡ with_created_at minute event ∷ []))
    ⊎ ((r.1 ≢ ok true) × (r.0 ≡ with_challenge))
complete_all_or_nothing_example =
    complete_all_or_nothing minute challenge grant (some event) with_challenge

abbrev guesses : List Op
guesses =
    fails "ch" ∷ fails "ch" ∷ cancels second "x" "y" "z" ∷ fails "ch" ∷ fails "ch" ∷ fails "ch" ∷ []

five_failures_close_example :
    (get_step_up_challenge minute "ch" "alice" "s1" (run guesses with_challenge) ≡ none)
    × ((complete_step_up_challenge minute challenge grant none (run guesses with_challenge)).1
        ≡ ok false)
five_failures_close_example =
    five_failures_close minute "ch" "alice" "s1" challenge grant none with_challenge guesses refl
      (omega arith) refl
