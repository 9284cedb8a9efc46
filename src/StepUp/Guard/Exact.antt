-- ===== src/StepUp/Guard/Exact.antt =====
-- A grant opens the one operation that it was made for, once: internal/api/stepup.go.
use kysignon_server.Base.{
  ℕ, some, List, Bool, true, ◌&&◌, not, String, ◌==◌, count_where, exists_where, all, ok, err,
  Error, step_up_required, ◌≡◌, ◌≢◌, refl, arith, Bool-cases, Option-cases, inl, inr, IsUnique,
  count_mono, eqb→eq, exists-count_zero, ◌∙◌, sym,
}
use kysignon_server.Schema.{Db, StepUpToken}
use kysignon_server.StepUp.{
  consume_step_up_token, has_valid_step_up_token, is_valid_grant, grant_session_live,
}
use kysignon_server.StepUp.Trace.{Op, run, mints}
use kysignon_server.StepUp.SingleUse.{unspent, consume-once}
use kysignon_server.StepUp.Guard.{
  Request, operation_of, credentials, require_step_up, consume_step_up,
}

module _ (hash : String → String) where
  consume_ok :
      (now : ℕ) (r : Request) (db : Db)
      → (consume_step_up hash now r db).1 ≡ ok tt
      → (u s raw : String) × (credentials r ≡ some (u, (s, raw)))
        × ((consume_step_up_token now (hash raw) u s (operation_of r) db).1 ≡ true)
        × ((consume_step_up hash now r db).0
            ≡ (consume_step_up_token now (hash raw) u s (operation_of r) db).0)
  unfolding consume_step_up
  consume_ok now r db h = elim (Option-cases (credentials r)) [
    | inl missing ↦ absurd (cc (rw (consume_step_up, missing) at h))
    | inr ((u, (s, raw)), given) ↦
        elim (Bool-cases (consume_step_up_token now (hash raw) u s (operation_of r) db).1) [
          | inr refused ↦ absurd (cc (rw (consume_step_up, given, refused) at h))
          | inl spent ↦ (u, s, raw, given, spent, rw (consume_step_up, given) refl)
        ]
  ]

  -- The guard has one error.
  pub consume_step_up_err :
      (now : ℕ) (r : Request) (db : Db) (e : Error)
      → (consume_step_up hash now r db).1 ≡ err e
      → e ≡ step_up_required
  unfolding consume_step_up
  consume_step_up_err now r db e h = elim (Option-cases (credentials r)) [
    | inl missing ↦ cc (rw (consume_step_up, missing) at h)
    | inr ((u, (s, raw)), given) ↦
        elim (Bool-cases (consume_step_up_token now (hash raw) u s (operation_of r) db).1) [
          | inr refused ↦ cc (rw (consume_step_up, given, refused) at h)
          | inl spent ↦ absurd (cc (rw (consume_step_up, given, spent) at h))
        ]
  ]

credentials-header :
    (r : Request) (u s raw : String) → credentials r ≡ some (u, (s, raw)) → raw ≡ r.step_up_header
unfolding credentials
credentials-header r u s raw h = elim (Option-cases r.user) [
  | inl nobody ↦ absurd (cc (rw (credentials, nobody) at h))
  | inr (user, known) ↦ elim (Option-cases r.session) [
    | inl nowhere ↦ absurd (cc (rw (credentials, known, nowhere) at h))
    | inr (session, live) ↦
        let h' = rw (credentials, known, live) at h in
        elim (Bool-cases (r.step_up_header == "")) [
          | inl blank ↦ absurd (cc (rw blank at h'))
          | inr given ↦ cc (rw given at h')
        ]
  ]
]

spent-valid :
    (now : ℕ) (h u s o : String) (db : Db)
    → (consume_step_up_token now h u s o db).1 ≡ true
    → (exists_where (is_valid_grant now h u s o) db.step_up_tokens ≡ true)
      × (has_valid_step_up_token now h u s o db ≡ true)
unfolding consume_step_up_token has_valid_step_up_token
spent-valid now h u s o db spent =
    let spends : StepUpToken → Bool =
      λ t. is_valid_grant now h u s o t && grant_session_live now db t in
    let one = eqb→eq (count_where spends db.step_up_tokens) 1 spent in
    let valid =
      count_mono spends (is_valid_grant now h u s o) (λ t e. ground arith) db.step_up_tokens in
    (
      elim (Bool-cases (exists_where (is_valid_grant now h u s o) db.step_up_tokens)) [
        | inl some_grant ↦ some_grant
        | inr no_grant ↦ absurd (
            omega (
              arith,
              one,
              valid,
              exists-count_zero (is_valid_grant now h u s o) db.step_up_tokens no_grant,
            ))
      ],
      ground (arith, one, valid),
    )

module _ (hash : String → String) where
  -- What an accepted request held.
  pub consume_step_up_held :
      (now : ℕ) (r : Request) (db : Db)
      → (consume_step_up hash now r db).1 ≡ ok tt
      → (u s raw : String) × (credentials r ≡ some (u, (s, raw)))
        × (exists_where (is_valid_grant now (hash raw) u s (operation_of r)) db.step_up_tokens
            ≡ true)
        × (require_step_up hash now r db ≡ ok tt)
  unfolding require_step_up
  consume_step_up_held now r db h =
      let (u, s, raw, given, spent, _) = consume_ok hash now r db h in
      let (held, valid) = spent-valid now (hash raw) u s (operation_of r) db spent in
      (u, s, raw, given, held, require_accepts u s raw given valid)
    where
      require_accepts :
          (u s raw : String)
          → credentials r ≡ some (u, (s, raw))
          → has_valid_step_up_token now (hash raw) u s (operation_of r) db ≡ true
          → require_step_up hash now r db ≡ ok tt
      require_accepts u s raw given valid = rw (require_step_up, given, valid) refl

  -- Where grants have distinct hashes: after consumeStepUp accepted a request, no request with the
  -- same grant header is accepted, whatever its user, session and operation, after any step-up
  -- operations that make no new grant under the header's hash.
  pub consume_step_up-once :
      (now later : ℕ) (r r' : Request) (db : Db) (ops : List Op)
      → IsUnique (λ (t : StepUpToken). t.token_hash) db.step_up_tokens
      → all (λ op. not (mints (unspent (hash r.step_up_header)) op)) ops ≡ true
      → r'.step_up_header ≡ r.step_up_header
      → (consume_step_up hash now r db).1 ≡ ok tt
      → (consume_step_up hash later r' (run ops (consume_step_up hash now r db).0)).1 ≢ ok tt
  consume_step_up-once now later r r' db ops unique other same accepted again =
      let (u, s, raw, given, spent, after) = consume_ok hash now r db accepted in
      let (u', s', raw', given', spent', _) = consume_ok hash later r' _ again in
      let header = credentials-header r u s raw given in
      let header' = credentials-header r' u' s' raw' given' ∙ same ∙ sym header in
      cc (
        consume-once now later (hash raw) u s (operation_of r) u' s' (operation_of r') db ops unique
            (rw header other) spent,
        rw (header', after) at spent',
      )
