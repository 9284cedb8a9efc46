-- ===== src/AccessRequests/Decisions.antt =====
-- What a decision needs: DecideAccessRequest of internal/store/access_requests.go.
use kysignon_server.Base.{
  ℕ, ◌*◌, ◌<◌, some, true, false, ◌&&◌, any, String, ◌==◌, eqb, find_where, count_where,
  exists_where, ok, eqb→eq, ◌≡◌, arith, ◌⊎◌, inl, inr, ◌∙◌, Bool-cases, Option-cases, exists_mono,
}
use kysignon_server.Schema.{Db, User, AccessRequest, AdminDelegation, is_pending, is_admin, second}
use kysignon_server.Access.{account_active}
use kysignon_server.Delegations.{delegations}
use kysignon_server.Delegations.Rows.{owns, any-owned_apps}
use kysignon_server.AccessRequests.{
  is_request, is_active_admin, is_owner_row, may_decide, read_pending, check_decision,
}

-- The actor can act, and is a global administrator or holds the ownership of the application.
abbrev pub HasAuthority : ℕ → String → String → Db → Type 0
HasAuthority now actor_id app_id db =
    (exists_where (λ (u : User). u.id == actor_id && is_admin u.role && account_active now u)
        db.users
      ≡ true)
    ⊎ ((exists_where (λ (u : User). u.id == actor_id && account_active now u) db.users ≡ true)
        × (any (λ a. a == app_id) (delegations actor_id db).app_owner ≡ true))

owner_owns :
    (actor_id app_id : String) (d : AdminDelegation)
    → is_owner_row actor_id app_id d ≡ true
    → owns actor_id app_id d ≡ true
owner_owns actor_id app_id d h = elim (Option-cases d.app_id) [
  | inl no_app ↦ ground (arith, h, no_app)
  | inr (a, has_app) ↦ ground (arith, h, has_app)
]

may_decide-HasAuthority :
    (now : ℕ) (actor_id app_id : String) (db : Db)
    → may_decide now actor_id app_id db ≡ true
    → HasAuthority now actor_id app_id db
unfolding may_decide delegations
may_decide-HasAuthority now actor_id app_id db h =
    let owner = exists_where (is_owner_row actor_id app_id) db.admin_delegations in
    elim (Bool-cases (exists_where (is_active_admin now actor_id) db.users)) [
      | inl admin ↦ inl admin
      | inr other ↦
          (let owned : owner ≡ true = ground (arith, h, other) in
            let active : exists_where (λ (u : User). u.id == actor_id && account_active now u)
                  db.users
                ≡ true =
              ground (arith, h, other) in
            inr (
              active,
              any-owned_apps actor_id app_id db.admin_delegations
                  ∙ exists_mono (is_owner_row actor_id app_id) (owns actor_id app_id)
                      (owner_owns actor_id app_id) db.admin_delegations owned,
            ))
    ]

-- An open request, and an actor other than its user who may decide it.
pub record MayDecide (now : ℕ) (id actor_id : String) (db : Db) (r : AccessRequest) : Type 0 where
  pub found : find_where (is_request id) db.access_requests ≡ some r
  pub waiting :
      count_where (λ (o : AccessRequest). is_request id o && is_pending o.status) db.access_requests
      ≡ 1
  pub in_time : now < r.expires_at * second
  pub foreign : (r.user_id == actor_id) ≡ false
  pub authority : HasAuthority now actor_id r.app_id db

read_pending_ok :
    (id : String) (db : Db) (r : AccessRequest)
    → read_pending id db ≡ ok r
    → (find_where (is_request id) db.access_requests ≡ some r)
      × (count_where
            (λ (o : AccessRequest). is_request id o && is_pending o.status)
            db.access_requests
          ≡ 1)
unfolding read_pending
read_pending_ok id db r h =
    let waiting =
      count_where (λ (o : AccessRequest). is_request id o && is_pending o.status)
        db.access_requests in
    elim (Bool-cases (eqb waiting 1)) [
      | inr missing ↦ ground (arith, missing, h)
      | inl one ↦
          (let counted = eqb→eq waiting 1 one in
            elim (Option-cases (find_where (is_request id) db.access_requests)) [
              | inl absent ↦ ground (arith, one, absent, h)
              | inr (o, found) ↦ (found ∙ ground (arith, one, found, h), counted)
            ])
    ]

pub check_decision-MayDecide :
    (now : ℕ) (id actor_id : String) (r out : AccessRequest) (db : Db)
    → read_pending id db ≡ ok r
    → check_decision now actor_id r db ≡ ok out
    → (out ≡ r) × MayDecide now id actor_id db r
unfolding check_decision
check_decision-MayDecide now id actor_id r out db read checked =
    let (found, waiting) = read_pending_ok id db r read in
    let allowed : may_decide now actor_id r.app_id db ≡ true = ground (arith, checked) in
    (
      ground (arith, checked),
      record {
        found = found;
        waiting = waiting;
        in_time = ground (arith, checked);
        foreign = ground (arith, checked);
        authority = may_decide-HasAuthority now actor_id r.app_id db allowed;
      },
    )
