-- ===== src/Mfa/Totp/Accepted.antt =====
-- What an accepted one-time code of internal/mfa/mfa.go proves.
use kysignon_server.Base.{
  ℕ, any, ◌/◌, ◌+◌, ◌<◌, ◌≤◌, Option, none, some, List, [], ◌∷◌, true, false, String, ◌==◌, Error,
  ok, err, ◌≡◌, ap, ◌∙◌, arith, eqb, ◌⊎◌, inl, inr, Bool-cases, eq_iff, trim_space, Option-cases,
  Result-cases,
}
use kysignon_server.Schema.{Db, MfaMethod, totp, unix}
use kysignon_server.Mfa.{consume_totp_counter, get_mfa_method}
use kysignon_server.Mfa.Totp.{
  verify_user_totp, verify_step, match_totp, match_steps, calculate_totp_code, window,
}
use kysignon_server.Mfa.Totp.Replay.{Op, run, run-keeps, spent_refuses, consume_true-IsSpent}

-- A time step that a verification at `now` may accept for this code: one of the window's, for which
-- the user's own decrypted secret has this code.
pub record IsStep (hmac_sha1 : (secret message : List ℕ) → List ℕ)
    (decode_secret : String → Option (List ℕ)) (decrypt : String → Option String) (now : ℕ)
    (user_id code : String) (db : Db) (counter : ℕ) : Type 0 where
  pub method : MfaMethod
  pub enrolled : get_mfa_method user_id totp db ≡ some method
  pub plain : String
  pub decrypted : decrypt method.encrypted_secret ≡ some plain
  pub secret : List ℕ
  pub decoded : decode_secret plain ≡ some secret
  pub in_window : (unix now / 30 ≤ counter + 1) × (counter ≤ unix now / 30 + 1)
  pub same_code : calculate_totp_code hmac_sha1 secret counter ≡ ok (trim_space code)

match_steps_sound :
    (hmac_sha1 : (secret message : List ℕ) → List ℕ) (secret : List ℕ) (trimmed : String)
    (counters : List ℕ) (c : ℕ)
    → match_steps hmac_sha1 secret trimmed counters ≡ ok (some c)
    → (any (eqb c) counters ≡ true) × (calculate_totp_code hmac_sha1 secret c ≡ ok trimmed)
unfolding match_steps
match_steps_sound hmac_sha1 secret trimmed [] c h = cc
match_steps_sound hmac_sha1 secret trimmed (d ∷ ds) c h =
    elim (Result-cases (calculate_totp_code hmac_sha1 secret d)) [
      | inr (e, failed) ↦ absurd (cc (rw failed at h))
      | inl (code, made) ↦
          let h' = rw made at h in
          elim (Bool-cases (code == trimmed)) [
            | inl same ↦ (let h'' = rw same at h' in ground (arith, eq_iff code trimmed))
            | inr other ↦
                (let r = match_steps_sound hmac_sha1 secret trimmed ds c (rw other at h') in
                  (ground (arith, r.0), r.1))
          ]
    ]

verify_step_sound :
    (user_id : String) (c : ℕ) (db : Db)
    → (verify_step user_id (some c) db).1 ≡ ok true
    → ((consume_totp_counter user_id c db).1 ≡ true)
      × ((verify_step user_id (some c) db).0 ≡ (consume_totp_counter user_id c db).0)
unfolding verify_step
verify_step_sound user_id c db h = ground arith

module _ (hmac_sha1 : (secret message : List ℕ) → List ℕ) (decode_secret : String → Option (List ℕ))
    (decrypt : String → Option String) where
  match-IsStep :
      (now : ℕ) (user_id code : String) (db : Db) (method : MfaMethod) (plain : String) (c : ℕ)
      → get_mfa_method user_id totp db ≡ some method
      → decrypt method.encrypted_secret ≡ some plain
      → match_totp hmac_sha1 decode_secret now plain code ≡ ok (some c)
      → IsStep hmac_sha1 decode_secret decrypt now user_id code db c
  unfolding match_totp
  match-IsStep now user_id code db method plain c found opened h =
      elim (Option-cases (decode_secret plain)) [
        | inl failed ↦ absurd (cc (rw (match_totp, failed) at h))
        | inr (secret, decoded) ↦
            let (among, same) =
              match_steps_sound hmac_sha1 secret (trim_space code) (window now) c
                (rw (match_totp, decoded) at h) in
            record {
              method = method;
              enrolled = found;
              plain = plain;
              decrypted = opened;
              secret = secret;
              decoded = decoded;
              in_window = ground (arith, among);
              same_code = same;
            }
      ]

  verify-eq :
      (now : ℕ) (user_id code : String) (db : Db) (method : MfaMethod) (plain : String) (c : ℕ)
      → get_mfa_method user_id totp db ≡ some method
      → (method.encrypted_secret == "") ≡ false
      → decrypt method.encrypted_secret ≡ some plain
      → match_totp hmac_sha1 decode_secret now plain code ≡ ok (some c)
      → verify_user_totp hmac_sha1 decode_secret decrypt now user_id code db
        ≡ verify_step user_id (some c) db
  unfolding verify_user_totp
  verify-eq now user_id code db method plain c found kept opened matched = ground arith

  match-cases :
      (now : ℕ) (plain code : String)
      → ((c : ℕ) × (match_totp hmac_sha1 decode_secret now plain code ≡ ok (some c)))
        ⊎ ((match_totp hmac_sha1 decode_secret now plain code ≡ ok none)
            ⊎ ((e : Error) × (match_totp hmac_sha1 decode_secret now plain code ≡ err e)))
  match-cases now plain code =
      elim (Result-cases (match_totp hmac_sha1 decode_secret now plain code)) [
        | inr (e, failed) ↦ inr (inr (e, failed))
        | inl (none, matched) ↦ inr (inl matched)
        | inl (some c, matched) ↦ inl (c, matched)
      ]

  -- Where VerifyUserTOTP answers true, the code is the one of a step of the window, under the
  -- user's secret, and exactly this step was spent in the database.
  pub verify_user_totp_sound :
      (now : ℕ) (user_id code : String) (db : Db)
      → (verify_user_totp hmac_sha1 decode_secret decrypt now user_id code db).1 ≡ ok true
      → (c : ℕ) × IsStep hmac_sha1 decode_secret decrypt now user_id code db c
        × ((consume_totp_counter user_id c db).1 ≡ true)
        × ((verify_user_totp hmac_sha1 decode_secret decrypt now user_id code db).0
            ≡ (consume_totp_counter user_id c db).0)
  unfolding verify_user_totp verify_step
  verify_user_totp_sound now user_id code db h =
      elim (Option-cases (get_mfa_method user_id totp db)) [
        | inl absent ↦ absurd (cc (rw (verify_user_totp, absent) at h))
        | inr (method, found) ↦
            let h₁ = rw (verify_user_totp, found) at h in
            elim (Bool-cases (method.encrypted_secret == "")) [
              | inl blank ↦ absurd (cc (rw blank at h₁))
              | inr kept ↦
                  let h₂ = rw kept at h₁ in
                  elim (Option-cases (decrypt method.encrypted_secret)) [
                    | inl failed ↦ absurd (cc (rw failed at h₂))
                    | inr (plain, opened) ↦
                        (let h₃ = rw opened at h₂ in
                          elim (match-cases now plain code) [
                            | inr (inl missed) ↦ absurd (cc (rw missed at h₃))
                            | inr (inr (e, failed)) ↦ absurd (cc (rw failed at h₃))
                            | inl (c, matched) ↦
                                let (spent, kept_db) =
                                  verify_step_sound user_id c db (rw matched at h₃) in
                                (
                                  c,
                                  match-IsStep now user_id code db method plain c found opened
                                      matched,
                                  spent,
                                  ap (λ r. r.0)
                                        (verify-eq now user_id code db method plain c found kept
                                          opened matched)
                                      ∙ kept_db,
                                )
                          ])
                  ]
            ]
      ]

  -- Each later acceptance needs a later step: where VerifyUserTOTP answered true for a user and,
  -- after any spent steps and enrolments of any users, answers true again, the second code is that
  -- of a strictly later step than the first. No code is accepted twice for one step.
  pub verify_user_totp-increases :
      (now later : ℕ) (user_id code code' : String) (db : Db) (ops : List Op)
      → (verify_user_totp hmac_sha1 decode_secret decrypt now user_id code db).1 ≡ ok true
      → let db' =
          run ops (verify_user_totp hmac_sha1 decode_secret decrypt now user_id code db).0 in
        (verify_user_totp hmac_sha1 decode_secret decrypt later user_id code' db').1 ≡ ok true
        → (c c' : ℕ) × IsStep hmac_sha1 decode_secret decrypt now user_id code db c
          × IsStep hmac_sha1 decode_secret decrypt later user_id code' db' c'
          × (c < c')
  verify_user_totp-increases now later user_id code code' db ops h h' =
      let (c, is_step, spent, eq) = verify_user_totp_sound now user_id code db h in
      let (c', is_step', spent', _) = verify_user_totp_sound later user_id code' _ h' in
      (
        c,
        c',
        is_step,
        is_step',
        spent_refuses user_id c c' _
            (run-keeps user_id c ops _ (rw eq (consume_true-IsSpent user_id c db spent))) spent',
      )
