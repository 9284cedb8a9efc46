-- ===== src/Grants/Steps.antt =====
-- What an edit of internal/store/app_access.go does before it cuts off what was lost.
use kysignon_server.Base.{
  ℕ, Option, Bool, ◌||◌, String, ◌==◌, ok, ◌>>=◌, >>=-ok, ◌≡◌, refl, ap, ◌∙◌, arith, inl, inr,
  Bool-cases, update_where, eqb, count_where,
}
use kysignon_server.Schema.{Db, AccessMode}
use kysignon_server.Grants.{
  revoke_lost_app_access_tx, is_app, lock_app_record, under_policy, set_app_policy_tx, write_user,
  write_group, write_grant, bump, bump_app, apply_app_assignment_tx,
}

-- The tables that only the cut-off changes are as they were.
pub record IsPrepared (db stage : Db) : Type 0 where
  pub tokens : stage.issued_tokens ≡ db.issued_tokens
  pub codes : stage.authorization_codes ≡ db.authorization_codes
  pub logins : stage.client_sessions ≡ db.client_sessions
  pub deliveries : stage.logout_deliveries ≡ db.logout_deliveries
  pub clients : stage.oauth_clients ≡ db.oauth_clients
  pub requests : stage.access_requests ≡ db.access_requests
  pub users : stage.users ≡ db.users

pub set_app_policy_tx_steps :
    (now : ℕ) (ids : String → String) (id : String) (mode : AccessMode) (enabled : Bool)
    (revision : ℕ) (db mid : Db)
    → set_app_policy_tx now ids id mode enabled revision db ≡ ok mid
    → (stage : Db) × IsPrepared db stage × (revoke_lost_app_access_tx now ids stage ≡ ok mid)
unfolding set_app_policy_tx
set_app_policy_tx_steps now ids id mode enabled revision db mid went =
    let stage : Db = record db {
      app_registry = update_where (is_app id) (under_policy mode enabled) db.app_registry;
    } in
    let (before, locked, rest) =
      >>=-ok (lock_app_record id revision db) (λ a. revoke_lost_app_access_tx now ids stage) went in
    (
      stage,
      record {
        tokens = refl;
        codes = refl;
        logins = refl;
        deliveries = refl;
        clients = refl;
        requests = refl;
        users = refl;
      },
      rest,
    )

pub bump_app_ok :
    (id : String) (db db' : Db)
    → bump_app id db ≡ ok db'
    → db' ≡ record db { app_registry = update_where (is_app id) bump db.app_registry }
unfolding bump_app
bump_app_ok id db db' went = elim (Bool-cases (eqb (count_where (is_app id) db.app_registry) 1)) [
  | inl found ↦ ground (arith, found, went)
  | inr missing ↦ ground (arith, missing, went)
]

write_grant-IsPrepared :
    (id kind principal : String) (assigned : Bool) (expires_at : Option ℕ) (db db' : Db)
    → write_grant id kind principal assigned expires_at db ≡ ok db'
    → IsPrepared db db'
unfolding write_grant write_user write_group
write_grant-IsPrepared id kind principal assigned expires_at db db' went = record {
  tokens = ground (arith, went);
  codes = ground (arith, went);
  logins = ground (arith, went);
  deliveries = ground (arith, went);
  clients = ground (arith, went);
  requests = ground (arith, went);
  users = ground (arith, went);
}

-- The three steps of an assignment.
pub apply_app_assignment_tx_steps :
    (now : ℕ) (ids : String → String) (id kind principal : String) (assigned : Bool)
    (expires_at : Option ℕ) (db mid : Db)
    → apply_app_assignment_tx now ids id kind principal assigned expires_at db ≡ ok mid
    → (bumped : Db) × (stage : Db) × (bump_app id db ≡ ok bumped)
      × (write_grant id kind principal assigned expires_at bumped ≡ ok stage)
      × (revoke_lost_app_access_tx now ids stage ≡ ok mid)
unfolding apply_app_assignment_tx
apply_app_assignment_tx_steps now ids id kind principal assigned expires_at db mid went =
    let cut = λ (d : Db). revoke_lost_app_access_tx now ids d in
    let write = λ (d : Db). write_grant id kind principal assigned expires_at d >>= cut in
    elim (Bool-cases (kind == "users" || kind == "groups")) [
      | inr unknown ↦ ground (arith, unknown, went)
      | inl known ↦
          (let chain : (bump_app id db >>= write) ≡ ok mid = ground (arith, known, went) in
            let (bumped, first, more) = >>=-ok (bump_app id db) write chain in
            let (stage, second, last) =
              >>=-ok (write_grant id kind principal assigned expires_at bumped) cut more in
            (bumped, stage, first, second, last))
    ]

pub apply_app_assignment_tx-IsPrepared :
    (now : ℕ) (ids : String → String) (id kind principal : String) (assigned : Bool)
    (expires_at : Option ℕ) (db mid : Db)
    → apply_app_assignment_tx now ids id kind principal assigned expires_at db ≡ ok mid
    → (stage : Db) × IsPrepared db stage × (revoke_lost_app_access_tx now ids stage ≡ ok mid)
apply_app_assignment_tx-IsPrepared now ids id kind principal assigned expires_at db mid went =
    let (bumped, stage, first, second, last) =
      apply_app_assignment_tx_steps now ids id kind principal assigned expires_at db mid went in
    let kept = write_grant-IsPrepared id kind principal assigned expires_at bumped stage second in
    let grown = bump_app_ok id db bumped first in
    (
      stage,
      record {
        tokens = kept.tokens ∙ ap (λ (d : Db). d.issued_tokens) grown;
        codes = kept.codes ∙ ap (λ (d : Db). d.authorization_codes) grown;
        logins = kept.logins ∙ ap (λ (d : Db). d.client_sessions) grown;
        deliveries = kept.deliveries ∙ ap (λ (d : Db). d.logout_deliveries) grown;
        clients = kept.clients ∙ ap (λ (d : Db). d.oauth_clients) grown;
        requests = kept.requests ∙ ap (λ (d : Db). d.access_requests) grown;
        users = kept.users ∙ ap (λ (d : Db). d.users) grown;
      },
      last,
    )

pub write_grant-registry :
    (id kind principal : String) (assigned : Bool) (expires_at : Option ℕ) (db db' : Db)
    → write_grant id kind principal assigned expires_at db ≡ ok db'
    → db'.app_registry ≡ db.app_registry
unfolding write_grant write_user write_group
write_grant-registry id kind principal assigned expires_at db db' went = ground (arith, went)
