-- ===== src/Mfa/Push.antt =====
-- Push challenges of internal/mfa/mfa.go: how a device's signed answer is judged.
pub mod Approval
pub mod Messages
pub mod Settled
mod Tests
use Prim.Native.String.{◌++◌}
use kysignon_server.Base.{
  ℕ, Option, some, none, List, [], ◌∷◌, Bool, true, false, ◌&&◌, ◌||◌, not, String, ◌==◌, ltb, leb,
  if◌then◌else◌, Result, ok, err, Error, challenge_missing, challenge_not_pending,
  challenge_expired, unsigned_device, signature_mismatch,
}
use kysignon_server.Schema.{
  Db, MfaChallenge, NativeDevice, ChallengeStatus, pending, approved, denied, expired, status_eq,
}
use kysignon_server.Mfa.{get_mfa_challenge, transition_mfa_challenge_status}

-- strings.Join(parts, "|").
abbrev pub join_bars : List String → String
join_bars [] = ""
join_bars (s ∷ []) = s
join_bars (s ∷ t ∷ ts) = s ++ ("|" ++ join_bars (t ∷ ts))

abbrev pub verb : Bool → String
verb true = "approve"
verb false = "deny"

pub push_response_message : String → Bool → String → String
push_response_message challenge_id approve selected_digits =
    join_bars ("kysignon-push-v1" ∷ challenge_id ∷ verb approve ∷ selected_digits ∷ [])

-- ListUserNativeDevices: ORDER BY created_at DESC; ties stay in rowid order.
place_newest_first : NativeDevice → List NativeDevice → List NativeDevice
place_newest_first d [] = d ∷ []
place_newest_first d (e ∷ es) =
    let later = e ∷ place_newest_first d es in
    if leb e.created_at d.created_at then d ∷ e ∷ es else later

pub list_user_native_devices : String → List NativeDevice → List NativeDevice
list_user_native_devices user_id [] = []
list_user_native_devices user_id (d ∷ ds) =
    let rest = list_user_native_devices user_id ds in
    if d.user_id == user_id then place_newest_first d rest else rest

-- The results of RespondPushChallenge.
pub record PushAnswer : Type 0 where
  pub approved : Bool
  pub device_id : String
  pub error : Option Error

abbrev pub refused : String → Error → PushAnswer
refused device_id e = record { approved = false; device_id = device_id; error = some e }

-- The last step of an answer: the move out of `pending`, or the news that another was first.
pub settle : ℕ → String → String → ChallengeStatus → Db → Db × PushAnswer
settle now challenge_id device_id to db =
    let (db', moved) = transition_mfa_challenge_status now challenge_id pending to db in
    (
      db',
      if moved
          then record { approved = status_eq to approved; device_id = device_id; error = none }
          else refused device_id challenge_not_pending,
    )

-- crypto.VerifyECDSAP256: whether the signature is the key's over the message.
module _ (verify_ecdsa_p256 : (public_key message signature : String) → Bool) where
  abbrev pub is_signer : NativeDevice → Bool
  is_signer d = d.is_mfa_approver && not (d.public_key == "")

  -- The loop of verifyDeviceSignature; `enrolled` is its flag.
  verify_loop : Bool → String → String → List NativeDevice → Result NativeDevice
  verify_loop enrolled message signature [] =
      err (if enrolled then signature_mismatch else unsigned_device)
  verify_loop enrolled message signature (d ∷ ds) =
      let skip = verify_loop enrolled message signature ds in
      let refuse = verify_loop true message signature ds in
      if not (is_signer d)
      then skip
      else if verify_ecdsa_p256 d.public_key message signature
      then ok d
      else refuse

  pub verify_device_signature : String → String → String → Db → Result NativeDevice
  verify_device_signature user_id message signature db =
      verify_loop false message signature (list_user_native_devices user_id db.native_devices)

  -- The answer of a device to a challenge that was read as pending and in time.
  pub answer : ℕ → MfaChallenge → String → String → Bool → String → Db → Db × PushAnswer
  answer now ch challenge_id selected_digits approve signature db =
      elim (verify_device_signature ch.user_id
        (push_response_message challenge_id approve selected_digits) signature db) [
          | err e ↦ (db, refused "" e)
          | ok device ↦
              settle now ch.id device.id
                (if not approve || not (selected_digits == ch.match_digits)
                  then denied
                  else approved)
                db
        ]

  -- RespondPushChallenge once the challenge is read.
  pub respond_to : ℕ → MfaChallenge → String → String → Bool → String → Db → Db × PushAnswer
  respond_to now ch challenge_id selected_digits approve signature db =
      if not (status_eq ch.status pending)
      then (db, refused "" challenge_not_pending)
      else if ltb ch.expires_at now
      then (
        (transition_mfa_challenge_status now ch.id pending expired db).0,
        refused "" challenge_expired,
      )
      else answer now ch challenge_id selected_digits approve signature db

  pub respond_push_challenge : ℕ → String → String → Bool → String → Db → Db × PushAnswer
  respond_push_challenge now challenge_id selected_digits approve signature db =
      elim (get_mfa_challenge challenge_id db) [
        | none ↦ (db, refused "" challenge_missing)
        | some ch ↦ respond_to now ch challenge_id selected_digits approve signature db
      ]

-- The status and the owner of a challenge, after it was expired where its time is over.
pub check_push_challenge : ℕ → String → Db → Db × Result (ChallengeStatus × String)
check_push_challenge now challenge_id db = elim (get_mfa_challenge challenge_id db) [
  | none ↦ (db, err challenge_missing)
  | some ch ↦
      if status_eq ch.status pending && ltb ch.expires_at now
      then (let (db', moved) = transition_mfa_challenge_status now ch.id pending expired db in
          (db', ok (if moved then expired else ch.status, ch.user_id)))
      else (db, ok (ch.status, ch.user_id))
]
