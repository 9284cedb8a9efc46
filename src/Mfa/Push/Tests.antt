-- ===== src/Mfa/Push/Tests.antt =====
-- Runs of the push answers of internal/mfa/mfa.go.

use kysignon_server.Base.{
  none, [], ◌∷◌, String, true, false, Bool, ◌≡◌, refl, ap, challenge_not_pending, ◌==◌,
}
use kysignon_server.Schema.{Db, minute, second, approved, denied}
use kysignon_server.Schema.Samples.{with_alice, push_challenge, device}
use kysignon_server.Mfa.{get_mfa_challenge, transition_mfa_challenge_status}
use kysignon_server.Mfa.Push.{
  push_response_message, list_user_native_devices, place_newest_first, settle, refused, verify_loop,
  verify_device_signature, answer, respond_to, respond_push_challenge,
}
use kysignon_server.Mfa.Push.Approval.{IsApproval, respond_approved}
use kysignon_server.Mfa.Push.Settled.{settle-once, IsSettled, checks, run as run_answers}

abbrev with_push : Db
with_push = record with_alice { mfa_challenges = push_challenge ∷ []; native_devices = device ∷ [] }

-- A signature that is the signed message itself.
abbrev echoes : String → String → String → Bool
echoes key message signature = message == signature

approved_now :
    (respond_push_challenge echoes minute "c1" "42" true "kysignon-push-v1|c1|approve|42"
      with_push).1
    ≡ record { approved = true; device_id = "d1"; error = none }
unfolding respond_push_challenge get_mfa_challenge respond_to answer verify_device_signature
    verify_loop list_user_native_devices place_newest_first push_response_message settle
    transition_mfa_challenge_status
approved_now = refl

wrong_digits :
    (respond_push_challenge echoes minute "c1" "17" true "kysignon-push-v1|c1|approve|17"
      with_push).1.approved
    ≡ false
unfolding respond_push_challenge get_mfa_challenge respond_to answer verify_device_signature
    verify_loop list_user_native_devices place_newest_first push_response_message settle
    transition_mfa_challenge_status
wrong_digits = refl

respond_approved_example :
    IsApproval echoes minute "c1" "42" true "kysignon-push-v1|c1|approve|42"
      (respond_push_challenge echoes minute "c1" "42" true "kysignon-push-v1|c1|approve|42"
        with_push).1.device_id
      with_push
respond_approved_example =
    respond_approved echoes minute "c1" "42" true "kysignon-push-v1|c1|approve|42" with_push
      (ap (λ r. r.approved) approved_now)

settle-once_example :
    let db' =
      run_answers echoes (checks minute "c1" ∷ []) (settle second "c1" "d1" denied with_push).0 in
    ((settle minute "c1" "d1" approved db').1 ≡ refused "d1" challenge_not_pending)
    × IsSettled "c1" db'
settle-once_example =
    settle-once echoes second minute "c1" "d1" "d1" denied approved (checks minute "c1" ∷ [])
      with_push refl
