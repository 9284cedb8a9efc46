-- ===== src/Permissions/Gate.antt =====
-- Who gets through the gate, and what it costs: internal/api/permissions.go.
use kysignon_server.Base.{
  ℕ, some, Bool, true, false, ◌&&◌, ◌||◌, not, String, exists_where, ok, err, Error,
  step_up_required, ◌≡◌, ◌≢◌, refl, arith, inl, inr, sym, subst, ◌∙◌, Bool-cases, Option-cases,
  Result-cases,
}
use kysignon_server.Schema.{Db, User, Session, is_admin}
use kysignon_server.Sessions.{touch_session}
use kysignon_server.Oauth.Codes.Exchange.{get_user_by_id}
use kysignon_server.StepUp.Guard.Opened.{is_grant_for}
use kysignon_server.StepUp.Guard.{Request, operation_of, credentials, consume_step_up}
use kysignon_server.StepUp.Guard.Exact.{consume_step_up_held, consume_step_up_err}
use kysignon_server.Delegations.{is_row, delegations}
use kysignon_server.Delegations.Rows.{owns, any-owned_apps, any_owned}
use kysignon_server.Permissions.{
  Permission, Access, allows, access_for, Call, is_restricted, is_protected,
  enrollment_route_allowed, identified, check_permission, authenticate, require_auth, guarded,
  require,
}

-- The right that the stored role and delegations give, read off the rows.
abbrev pub is_entitled : Permission → User → String → Db → Bool
is_entitled p u id db =
    is_admin u.role
    || (p.auditor && exists_where (is_row u.id "auditor") db.admin_delegations)
    || (p.helpdesk && exists_where (is_row u.id "helpdesk") db.admin_delegations)
    || (p.app_owner && exists_where (owns u.id id) db.admin_delegations)
    || (p.any_owner && exists_where (is_row u.id "app_owner") db.admin_delegations)

allows-is_entitled :
    (p : Permission) (u : User) (id : String) (db : Db)
    → allows (access_for u db) p id ≡ is_entitled p u id db
unfolding allows access_for delegations
allows-is_entitled p u id db =
    ground (arith, any_owned u.id db.admin_delegations, any-owned_apps u.id id db.admin_delegations)

access_for_admin : (u : User) (db : Db) → (access_for u db).admin ≡ is_admin u.role
unfolding access_for
access_for_admin u db = ground arith

check_permission_ok :
    (p : Permission) (c : Call) (u : User) (db : Db) (a : Access)
    → check_permission p c u db ≡ ok a
    → (is_entitled p u c.path_id db ≡ true)
      × (p.protect_admins ≡ true → is_admin u.role ≡ false → is_protected c.path_id db ≡ false)
      × (a ≡ access_for u db)
unfolding check_permission
check_permission_ok p c u db a h =
    let admin : (access_for u db).admin ≡ is_admin u.role = access_for_admin u db in
    (
      sym (allows-is_entitled p u c.path_id db) ∙ ground (arith, h),
      λ protects ordinary. ground (arith, h, admin),
      ground (arith, h),
    )

ok_injective : {A : Type 0} {a b : A} → ok a ≡ ok b → a ≡ b
ok_injective h = cc h

credentials-identified :
    (c : Call) (u : User) (s : Session) (user_id session_id raw : String)
    → credentials (identified c u s) ≡ some (user_id, (session_id, raw))
    → (user_id ≡ u.id) × (session_id ≡ s.id) × (raw ≡ c.step_up_header)
unfolding credentials
credentials-identified c u s user_id session_id raw h =
    (ground (arith, h), ground (arith, h), ground (arith, h))

-- The session is under an enrollment restriction that the route is not free of.
abbrev pub is_closed : ℕ → Call → User × Session → Db → Bool
is_closed now c who db =
    is_restricted now who.0.id who.1.id (touch_session now who.1.id db)
    && not (enrollment_route_allowed c.method c.path)

module _ (hash : String → String) where
  require_auth_ok :
      (now : ℕ) (c : Call) (db : Db) (who : User × Session)
      → (require_auth hash now c db).1 ≡ ok who
      → (authenticate hash now c db ≡ some who)
        × ((require_auth hash now c db).0 ≡ touch_session now who.1.id db)
        × (is_closed now c who db ≡ false)
  unfolding require_auth
  require_auth_ok now c db who h = elim (Option-cases (authenticate hash now c db)) [
    | inl unknown ↦ absurd (cc (rw (require_auth, unknown) at h))
    | inr (found, known) ↦
        (let h' = rw (require_auth, known) at h in
          elim (Bool-cases (is_closed now c found db)) [
            | inl shut ↦ absurd (cc (rw shut at h'))
            | inr free ↦
                subst
                  (λ (w : User × Session).
                    (authenticate hash now c db ≡ some w)
                    × ((require_auth hash now c db).0 ≡ touch_session now w.1.id db)
                    × (is_closed now c w db ≡ false))
                  (ok_injective (rw free at h')) (known, rw (require_auth, known) refl, free)
          ])
  ]

  guarded_ok :
      (now : ℕ) (r : Request) (a b : Access) (db : Db)
      → (guarded hash now true r a db).1 ≡ ok b
      → (consume_step_up hash now r db).1 ≡ ok tt
  guarded_ok now r a b db h = ground (arith, h)

  -- The request's own user, session and header are what the grant is looked for under.
  identified_grant :
      (now : ℕ) (c : Call) (u : User) (s : Session) (db : Db)
      → (consume_step_up hash now (identified c u s) db).1 ≡ ok tt
      → exists_where
          (is_grant_for now (hash c.step_up_header) u.id s.id (operation_of (identified c u s)))
          db.step_up_tokens
        ≡ true
  identified_grant now c u s db spent =
      let (user_id, session_id, raw, given, held, _) =
        consume_step_up_held hash now (identified c u s) db spent in
      let same = credentials-identified c u s user_id session_id raw given in
      rw (← same.0, ← same.1, ← same.2) held

  require_ok :
      (now : ℕ) (p : Permission) (step_up : Bool) (c : Call) (db : Db) (a : Access)
      → (require hash now p step_up c db).1 ≡ ok a
      → (who : User × Session) × ((require_auth hash now c db).1 ≡ ok who)
        × (b : Access) × (check_permission p c who.0 (require_auth hash now c db).0 ≡ ok b)
        × ((guarded hash now step_up (identified c who.0 who.1) b (require_auth hash now c db).0).1
            ≡ ok a)
  unfolding require
  require_ok now p step_up c db a h = elim (Result-cases (require_auth hash now c db).1) [
    | inr (e, refused) ↦ absurd (cc (rw (require, refused) at h))
    | inl (who, known) ↦
        (let h' = rw (require, known) at h in
          elim (Result-cases (check_permission p c who.0 (require_auth hash now c db).0)) [
            | inr (e, denied) ↦ absurd (cc (rw denied at h'))
            | inl (b, may) ↦ (who, known, b, may, rw may at h')
          ])
  ]

  -- A handler behind the gate runs only for a live session's active user, whose role or delegations, as they
  -- are stored now, give the right to this route; where the route protects administrators, only a
  -- global administrator reaches it for a user who is one or holds a delegation; where it wants a
  -- step-up, an unused grant of the request's header existed for this user, session and operation.
  pub require_sound :
      (now : ℕ) (p : Permission) (step_up : Bool) (c : Call) (db : Db) (a : Access)
      → (require hash now p step_up c db).1 ≡ ok a
      → (who : User × Session) × (authenticate hash now c db ≡ some who)
        × (is_closed now c who db ≡ false)
        × (is_entitled p who.0 c.path_id db ≡ true)
        × (p.protect_admins ≡ true
            → is_admin who.0.role ≡ false
            → is_protected c.path_id db ≡ false)
        × (step_up ≡ true
            → exists_where
                (is_grant_for now
                  (hash c.step_up_header)
                  who.0.id
                  who.1.id
                  (operation_of (identified c who.0 who.1)))
                db.step_up_tokens
              ≡ true)
  unfolding is_protected delegations touch_session get_user_by_id
  require_sound now p step_up c db a h =
      let (who, known, b, may, goes) = require_ok now p step_up c db a h in
      let (found, touched, free) = require_auth_ok now c db who known in
      let (entitled, spares, _) =
        check_permission_ok p c who.0 (require_auth hash now c db).0 b may in
      (
        who,
        found,
        free,
        subst (λ d. is_entitled p who.0 c.path_id d ≡ true) touched entitled,
        λ protects ordinary.
            subst (λ d. is_protected c.path_id d ≡ false) touched (spares protects ordinary),
        λ guards.
            subst
              (λ (d : Db).
                exists_where
                  (is_grant_for now (hash c.step_up_header) who.0.id who.1.id
                    (operation_of (identified c who.0 who.1)))
                  d.step_up_tokens
                ≡ true)
              touched
              (identified_grant now c who.0 who.1 (require_auth hash now c db).0 (
                guarded_ok now (identified c who.0 who.1) b a (require_auth hash now c db).0 (
                  subst
                    (λ v.
                      (guarded hash now v (identified c who.0 who.1) b
                        (require_auth hash now c db).0).1
                      ≡ ok a)
                    guards goes))),
      )

  require_auth-keeps :
      (now : ℕ) (c : Call) (db : Db)
      → (require_auth hash now c db).0.step_up_tokens ≡ db.step_up_tokens
  unfolding require_auth touch_session
  require_auth-keeps now c db = elim (Option-cases (authenticate hash now c db)) [
    | inl unknown ↦ rw (require_auth, unknown) refl
    | inr (who, known) ↦ rw (require_auth, known) refl
  ]

  guarded_err :
      (now : ℕ) (step_up : Bool) (r : Request) (a : Access) (db : Db) (e : Error)
      → e ≢ step_up_required
      → (guarded hash now step_up r a db).1 ≡ err e
      → ⊥
  guarded_err now false r a db e other h = cc h
  guarded_err now true r a db e other h = elim (Result-cases (consume_step_up hash now r db).1) [
    | inl (t, spent) ↦ absurd (cc (rw spent at h))
    | inr (x, refused) ↦ other (cc (rw refused at h, consume_step_up_err hash now r db x refused))
  ]

  -- A call that the gate refuses, for any other reason than the step-up itself, spends no grant.
  pub require_refused_keeps :
      (now : ℕ) (p : Permission) (step_up : Bool) (c : Call) (db : Db) (e : Error)
      → e ≢ step_up_required
      → (require hash now p step_up c db).1 ≡ err e
      → (require hash now p step_up c db).0.step_up_tokens ≡ db.step_up_tokens
  unfolding require
  require_refused_keeps now p step_up c db e other h =
      elim (Result-cases (require_auth hash now c db).1) [
        | inr (x, refused) ↦ rw (require, refused) (require_auth-keeps now c db)
        | inl (who, known) ↦
            (let h' = rw (require, known) at h in
              elim (Result-cases (check_permission p c who.0 (require_auth hash now c db).0)) [
                | inr (x, denied) ↦ rw (require, known, denied) (require_auth-keeps now c db)
                | inl (b, may) ↦ absurd (
                    guarded_err now step_up (identified c who.0 who.1) b
                      (require_auth hash now c db).0 e other (rw may at h'))
              ])
      ]
