-- ===== src/Mfa/Push/Approval.antt =====
-- What an approval of internal/mfa/mfa.go rests on.
use kysignon_server.Base.{
  ℕ, some, List, [], ◌∷◌, Bool, true, false, String, ◌==◌, ◌≡◌, refl, arith, exists_where,
  if◌then◌else◌, ◌&&◌, ◌||◌, not, ltb, ok, Result-cases, Option-cases, Bool-cases, inl, inr, eq_iff,
}
use kysignon_server.Schema.{Db, MfaChallenge, NativeDevice, pending, approved, denied, status_eq}
use kysignon_server.Mfa.{get_mfa_challenge}
use kysignon_server.Mfa.Push.{
  settle, answer, respond_to, respond_push_challenge, verify_device_signature, verify_loop,
  is_signer, list_user_native_devices, place_newest_first, push_response_message,
}

exists-place :
    (p : NativeDevice → Bool) (d : NativeDevice) (ds : List NativeDevice)
    → exists_where p (place_newest_first d ds) ≡ (if p d then true else exists_where p ds)
unfolding place_newest_first
exists-place p d [] = refl
exists-place p d (e ∷ es) = ground (arith, exists-place p d es)

-- The device list of a user shows devices of this user only.
exists-list :
    (p : NativeDevice → Bool) (user_id : String) (ds : List NativeDevice)
    → exists_where p (list_user_native_devices user_id ds)
      ≡ exists_where (λ d. d.user_id == user_id && p d) ds
unfolding list_user_native_devices
exists-list p user_id [] = refl
exists-list p user_id (d ∷ ds) =
    ground (arith, exists-list p user_id ds, exists-place p d (list_user_native_devices user_id ds))

module _ (verify : (public_key message signature : String) → Bool) where
  abbrev signs : String → String → NativeDevice → Bool
  signs message signature d = is_signer verify d && verify d.public_key message signature

  verify_loop_sound :
      (enrolled : Bool) (message signature : String) (ds : List NativeDevice) (d : NativeDevice)
      → verify_loop verify enrolled message signature ds ≡ ok d
      → exists_where (λ r. r.id == d.id && signs message signature r) ds ≡ true
  unfolding verify_loop
  verify_loop_sound enrolled message signature [] d e = cc
  verify_loop_sound enrolled message signature (r ∷ ds) d e = ground (
    arith,
    eq_iff r.id d.id,
    verify_loop_sound enrolled message signature ds d,
    verify_loop_sound true message signature ds d,
  )

  -- A device row of this user, enrolled as an approver, that signed the message.
  abbrev pub signed_by : String → String → String → String → NativeDevice → Bool
  signed_by user_id device_id message signature d =
      d.user_id == user_id && (d.id == device_id && signs message signature d)

  pub record IsApproval (now : ℕ) (challenge_id digits : String) (approve : Bool)
      (signature device_id : String) (db : Db) : Type 0 where
    pub challenge : MfaChallenge
    pub found : get_mfa_challenge challenge_id db ≡ some challenge
    pub was_pending : status_eq challenge.status pending ≡ true
    pub in_time : ltb challenge.expires_at now ≡ false
    pub approves : approve ≡ true
    pub matches : (digits == challenge.match_digits) ≡ true
    pub signed :
        exists_where
          (signed_by challenge.user_id device_id
            (push_response_message challenge_id true digits)
            signature)
          db.native_devices
        ≡ true

  verify_device_sound :
      (user_id message signature : String) (db : Db) (d : NativeDevice)
      → verify_device_signature verify user_id message signature db ≡ ok d
      → exists_where (signed_by user_id d.id message signature) db.native_devices ≡ true
  unfolding verify_device_signature
  verify_device_sound user_id message signature db d e =
      rw (← exists-list (λ r. r.id == d.id && signs message signature r) user_id db.native_devices)
        (verify_loop_sound false message signature _ d e)

  abbrev Signed : MfaChallenge → String → String → Bool → String → Db → String → Type 0
  Signed ch id digits approve signature db device_id =
      (approve ≡ true)
      × ((digits == ch.match_digits) ≡ true)
      × (exists_where
            (signed_by ch.user_id device_id (push_response_message id true digits) signature)
            db.native_devices
          ≡ true)

  settle_approved :
      (now : ℕ) (ch : MfaChallenge) (id digits : String) (approve : Bool) (signature : String)
      (db : Db) (d : NativeDevice)
      → verify_device_signature verify ch.user_id
          (push_response_message id approve digits)
          signature
          db
        ≡ ok d
      → (settle now ch.id d.id
          (if not approve || not (digits == ch.match_digits) then denied else approved)
          db).1.approved
        ≡ true
      → Signed ch id digits approve signature db
          (settle now ch.id d.id
            (if not approve || not (digits == ch.match_digits) then denied else approved)
            db).1.device_id
  unfolding settle
  settle_approved now ch id digits true signature db d signed e =
      let by_device =
        verify_device_sound ch.user_id (push_response_message id true digits) signature db d
          signed in
      ground arith
  settle_approved now ch id digits false signature db d signed e = absurd (ground arith)

  answer_approved :
      (now : ℕ) (ch : MfaChallenge) (id digits : String) (approve : Bool) (signature : String)
      (db : Db)
      → (answer verify now ch id digits approve signature db).1.approved ≡ true
      → Signed ch id digits approve signature db
          (answer verify now ch id digits approve signature db).1.device_id
  unfolding answer
  answer_approved now ch id digits approve signature db e =
      elim (Result-cases (
        verify_device_signature verify ch.user_id (push_response_message id approve digits)
          signature db)) [
            | inr (x, none_signed) ↦ absurd (cc (rw (none_signed, answer) at e))
            | inl (d, signed) ↦
                rw (signed, answer)
                  (settle_approved now ch id digits approve signature db d signed
                    (rw (signed, answer) at e))
          ]

  respond_to_approved :
      (now : ℕ) (ch : MfaChallenge) (id digits : String) (approve : Bool) (signature : String)
      (db : Db)
      → get_mfa_challenge id db ≡ some ch
      → (respond_to verify now ch id digits approve signature db).1.approved ≡ true
      → IsApproval now id digits approve signature
          (respond_to verify now ch id digits approve signature db).1.device_id
          db
  unfolding respond_to
  respond_to_approved now ch id digits approve signature db found e =
      elim (Bool-cases (not (status_eq ch.status pending))) [
        | inl over ↦ absurd (cc (rw over at e))
        | inr still ↦ elim (Bool-cases (ltb ch.expires_at now)) [
          | inl late ↦ absurd (cc (rw (still, late) at e))
          | inr timely ↦
              rw (still, timely)
                (let (agrees, matches, signed) =
                    answer_approved now ch id digits approve signature db
                      (rw (still, timely) at e) in
                  record {
                    challenge = ch;
                    found = found;
                    was_pending = ground arith;
                    in_time = timely;
                    approves = agrees;
                    matches = matches;
                    signed = signed;
                  })
        ]
      ]

  -- RespondPushChallenge reports an approval only for a challenge that is pending and in time, when
  -- the answer approves, names the challenge's digits, and an enrolled approver device of the
  -- challenge's user, the one reported, signed exactly this approval with these digits.
  pub respond_approved :
      (now : ℕ) (id digits : String) (approve : Bool) (signature : String) (db : Db)
      → (respond_push_challenge verify now id digits approve signature db).1.approved ≡ true
      → IsApproval now id digits approve signature
          (respond_push_challenge verify now id digits approve signature db).1.device_id
          db
  unfolding respond_push_challenge
  respond_approved now id digits approve signature db e =
      elim (Option-cases (get_mfa_challenge id db)) [
        | inl missing ↦ absurd (cc (rw (missing, respond_push_challenge) at e))
        | inr (ch, found) ↦
            rw (found, respond_push_challenge)
              (respond_to_approved now ch id digits approve signature db found
                (rw (found, respond_push_challenge) at e))
      ]
