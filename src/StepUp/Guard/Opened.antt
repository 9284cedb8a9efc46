-- ===== src/StepUp/Guard/Opened.antt =====
-- Which requests a grant opens, and what becomes of it: internal/api/stepup.go.
use kysignon_server.Base.{
  ℕ, ◌≤◌, Option, some, none, Bool, true, false, ◌&&◌, not, String, ◌==◌, ltb, eqb, is_none,
  count_where, exists_where, if◌then◌else◌, ok, err, step_up_required, ◌≡◌, refl, arith, Bool-cases,
  inl, inr, IsUnique, count_mono, count_where-none, count_zero-exists, exists_none_mono,
  exists-count_zero, count-update_meet, eq_iff, eqb→eq, ap,
}
use kysignon_server.Schema.{Db, User, Session, StepUpToken, is_active}
use kysignon_server.StepUp.{
  consume_step_up_token, has_valid_step_up_token, is_valid_grant, grant_session_live, burn_token,
}
use kysignon_server.StepUp.Guard.{
  Request, operation_of, credentials, require_step_up, consume_step_up,
}

-- A grant of this hash, user, session and operation that is neither used nor expired.
abbrev pub is_grant_for : ℕ → String → String → String → String → StepUpToken → Bool
is_grant_for now h user_id session_id operation t =
    t.token_hash == h
    && t.user_id == user_id
    && t.session_id == session_id
    && t.operation == operation
    && is_none t.used_at
    && ltb now t.expires_at

-- The session is stored, has not expired, and its user is stored and active.
abbrev pub is_live : ℕ → Db → String → Bool
is_live now db session_id =
    exists_where
      (λ (s : Session).
        s.id == session_id
        && ltb now s.expires_at
        && exists_where (λ (u : User). u.id == s.user_id && is_active u.status) db.users)
      db.sessions

abbrev pub is_unused : String → StepUpToken → Bool
is_unused h t = t.token_hash == h && is_none t.used_at

module _ (now : ℕ) (h u s o : String) (db : Db)
    (unique : IsUnique (λ (t : StepUpToken). t.token_hash) db.step_up_tokens) where
  abbrev spends : StepUpToken → Bool
  spends t = is_valid_grant now h u s o t && grant_session_live now db t

  abbrev opened : Bool
  opened = exists_where (is_grant_for now h u s o) db.step_up_tokens && is_live now db s

  live_same :
      (t : StepUpToken)
      → (t.session_id == s) ≡ true
      → grant_session_live now db t ≡ is_live now db s
  live_same t same = ap (is_live now db) ((eq_iff t.session_id s).0 same)

  at_most_one : count_where spends db.step_up_tokens ≤ 1
  at_most_one = omega (
    arith,
    unique h,
    count_mono spends (λ (t : StepUpToken). t.token_hash == h) (λ t e. ground (arith, e))
        db.step_up_tokens,
  )

  opened_some : opened ≡ true → 1 ≤ count_where (λ t. spends t && is_unused h t) db.step_up_tokens
  opened_some e =
      let both : StepUpToken → Bool = λ t. spends t && is_unused h t in
      let live : is_live now db s ≡ true = ground (arith, e) in
      let held : exists_where (is_grant_for now h u s o) db.step_up_tokens ≡ true =
        ground (arith, e) in
      elim (Bool-cases (eqb (count_where both db.step_up_tokens) 0)) [
        | inr more ↦ ground arith
        | inl zero_of ↦
            (let none_held : exists_where (is_grant_for now h u s o) db.step_up_tokens ≡ false =
                exists_none_mono both (is_grant_for now h u s o)
                  (λ t e. ground (arith, e, live, live_same t)) db.step_up_tokens
                  (count_zero-exists both db.step_up_tokens
                    (eqb→eq (count_where both db.step_up_tokens) 0 zero_of)) in
              absurd (cc (held, none_held)))
      ]

  closed_none : opened ≡ false → count_where spends db.step_up_tokens ≡ 0
  closed_none e = elim (Bool-cases (is_live now db s)) [
    | inr dead ↦ count_where-none spends (λ t. ground (arith, dead, live_same t)) db.step_up_tokens
    | inl live ↦
        (let none_held : exists_where (is_grant_for now h u s o) db.step_up_tokens ≡ false =
            ground (arith, e, live) in
          omega (
            arith,
            exists-count_zero (is_grant_for now h u s o) db.step_up_tokens none_held,
            count_mono spends (is_grant_for now h u s o) (λ t e. ground (arith, e))
                db.step_up_tokens,
          ))
  ]

  spent_exact : (consume_step_up_token now h u s o db).1 ≡ opened
  unfolding consume_step_up_token
  spent_exact = elim (Bool-cases opened) [
    | inl yes_opened ↦
        (let one : count_where spends db.step_up_tokens ≡ 1 = omega (
          arith,
          at_most_one,
          opened_some yes_opened,
          count_mono (λ t. spends t && is_unused h t) spends (λ t e. ground (arith, e))
              db.step_up_tokens,
        ) in
          ground (arith, one, yes_opened))
    | inr closed ↦ ground (arith, closed, closed_none closed)
  ]

  unused_after :
      (v : String)
      → count_where (is_unused v) (consume_step_up_token now h u s o db).0.step_up_tokens
        ≡ (if opened && h == v then 0 else count_where (is_unused v) db.step_up_tokens)
  unfolding consume_step_up_token
  unused_after v =
      let rows = db.step_up_tokens in
      let left =
        count-update_meet (is_unused v) spends (burn_token now) (λ t e. ground arith) rows in
      elim (Bool-cases opened) [
        | inr closed ↦ rw closed (
            omega (
              arith,
              left,
              closed_none closed,
              count_mono (λ t. spends t && is_unused v t) spends (λ t e. ground (arith, e)) rows,
            ))
        | inl open_now ↦ elim (Bool-cases (h == v)) [
          | inr other ↦
              rw (open_now, other)
                (omega (
                  arith,
                  left,
                  count_where-none (λ t. spends t && is_unused v t)
                      (λ t.
                        ground
                          (arith, other, eq_iff t.token_hash h, eq_iff t.token_hash v, eq_iff h v))
                      rows,
                ))
          | inl same ↦
              rw (open_now, same)
                (omega (
                  arith,
                  left,
                  opened_some open_now,
                  unique v,
                  count_mono (λ t. spends t && is_unused h t) (λ t. spends t && is_unused v t)
                      (λ t e.
                        ground (
                          arith,
                          e,
                          same,
                          eq_iff t.token_hash h,
                          eq_iff t.token_hash v,
                          eq_iff h v,
                        ))
                      rows,
                  count_mono (is_unused v) (λ (t : StepUpToken). t.token_hash == v)
                      (λ t e. ground (arith, e)) rows,
                ))
        ]
      ]

  held_valid : opened ≡ true → has_valid_step_up_token now h u s o db ≡ true
  unfolding has_valid_step_up_token
  held_valid e =
      let valid =
        count_mono (λ t. spends t && is_unused h t) (is_valid_grant now h u s o)
          (λ t e. ground (arith, e)) db.step_up_tokens in
      ground (arith, opened_some e, valid)

-- The request has a user, a session and a header, the header's grant is stored for exactly these and for
-- the request's operation, neither used nor expired, and the session lives.
abbrev pub opens : (String → String) → ℕ → Request → Db → Bool
opens hash now r db = elim r.user [
  | none ↦ false
  | some u ↦ elim r.session [
    | none ↦ false
    | some s ↦
        not (r.step_up_header == "")
        && (exists_where (is_grant_for now (hash r.step_up_header) u.id s.id (operation_of r))
              db.step_up_tokens
            && is_live now db s.id)
  ]
]

-- What the guards make of a request.
abbrev pub IsGuarded : (String → String) → ℕ → Request → Db → Type 0
IsGuarded hash now r db =
    ((consume_step_up hash now r db).1
      ≡ (if opens hash now r db then ok tt else err step_up_required))
    × ((v : String)
        → count_where (is_unused v) (consume_step_up hash now r db).0.step_up_tokens ≡ (
            if opens hash now r db && hash r.step_up_header == v
            then 0
            else count_where (is_unused v) db.step_up_tokens))
    × (opens hash now r db ≡ true → require_step_up hash now r db ≡ ok tt)

identified-IsGuarded :
    (hash : String → String) (now : ℕ) (u : User) (s : Session) (header method path : String)
    (db : Db)
    → IsUnique (λ (t : StepUpToken). t.token_hash) db.step_up_tokens
    → IsGuarded hash now
        (record {
          user = some u;
          session = some s;
          step_up_header = header;
          method = method;
          path = path;
        })
        db
unfolding consume_step_up require_step_up credentials
identified-IsGuarded hash now u s header method path db unique =
    let r : Request = record {
      user = some u;
      session = some s;
      step_up_header = header;
      method = method;
      path = path;
    } in
    let o = operation_of r in
    elim (Bool-cases (header == "")) [
      | inl blank ↦
          (let missing : credentials r ≡ none = rw (credentials, blank) refl in
            rw blank (
              rw (consume_step_up, missing) refl,
              λ v. rw (consume_step_up, missing) refl,
              λ e. absurd (cc e),
            ))
      | inr given ↦
          (let whole : credentials r ≡ some (u.id, (s.id, header)) = rw (credentials, given) refl in
            rw given (
              rw (consume_step_up, whole)
                  (ap (λ (b : Bool). if b then ok tt else err step_up_required)
                    (spent_exact now (hash header) u.id s.id o db unique)),
              λ v.
                  rw (consume_step_up, whole)
                    (unused_after now (hash header) u.id s.id o db unique v),
              λ e.
                  rw (require_step_up, whole, held_valid now (hash header) u.id s.id o db unique e)
                    refl,
            ))
    ]

of_parts :
    (hash : String → String) (now : ℕ) (user : Option User) (session : Option Session)
    (header method path : String) (db : Db)
    → IsUnique (λ (t : StepUpToken). t.token_hash) db.step_up_tokens
    → IsGuarded hash now
        (record {
          user = user;
          session = session;
          step_up_header = header;
          method = method;
          path = path;
        })
        db
unfolding consume_step_up require_step_up credentials
of_parts hash now none session header method path db unique = (refl, λ v. refl, λ e. absurd (cc e))
of_parts hash now (some u) none header method path db unique = (refl, λ v. refl, λ e. absurd (cc e))
of_parts hash now (some u) (some s) header method path db unique =
    identified-IsGuarded hash now u s header method path db unique

-- Where grants have distinct hashes: consumeStepUp accepts a request exactly where it has a user, a
-- session and a header, the header's grant is stored for this user, this session and the request's
-- operation and is neither used nor expired, and the session is live and its user active; it then
-- uses up this grant and no other, and requireStepUp would have accepted the request too. A refusal
-- uses up no grant.
pub consume_step_up_exact :
    (hash : String → String) (now : ℕ) (r : Request) (db : Db)
    → IsUnique (λ (t : StepUpToken). t.token_hash) db.step_up_tokens
    → IsGuarded hash now r db
consume_step_up_exact hash now r db unique =
    of_parts hash now r.user r.session r.step_up_header r.method r.path db unique
