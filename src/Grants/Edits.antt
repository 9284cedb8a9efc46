-- ===== src/Grants/Edits.antt =====
-- The edits of an application's access are enforced: internal/store/app_access.go.
use kysignon_server.Base.{
  ℕ, Option, some, none, List, Bool, true, String, Result, ok, err, app_link_conflict, ◌≡◌, arith,
  sym, subst,
}
use kysignon_server.Schema.{Db, AuditEvent, AccessMode, audited, audited_tx, audited_tx_ok}
use kysignon_server.Access.{effective_client_access, allowed, client_enabled}
use kysignon_server.Revocation.{is_told}
use kysignon_server.Grants.{
  revoke_lost_app_access_tx, parse_access_mode, set_app_policy_tx, set_app_policy,
  apply_app_assignment_tx, set_app_assignment_at, set_app_assignment, set_app_assignment_until,
}
use kysignon_server.Grants.Cutoff.{IsEnforced, revoke_lost_app_access_tx_ok, cut_db-IsEnforced}
use kysignon_server.Grants.Steps.{
  IsPrepared, set_app_policy_tx_steps, apply_app_assignment_tx-IsPrepared,
}

IsEnforced_moved :
    (now : ℕ) (ids : String → String) (before stage mid : Db) (events : List AuditEvent)
    → IsPrepared before stage
    → IsEnforced now ids stage mid
    → IsEnforced now ids before (record mid { audit_events = events })
unfolding effective_client_access allowed client_enabled is_told
IsEnforced_moved now ids before stage mid events same e = record {
  tokens = λ u c. rw same.tokens at (e.tokens u c);
  codes = λ u c. rw same.codes at (e.codes u c);
  logins = λ u c. rw same.logins at (e.logins u c);
  told = rw (same.clients, same.deliveries, same.logins) at e.told;
}

IsEnforced_stage :
    (now : ℕ) (ids : String → String) (before mid db' : Db) (events : List AuditEvent)
    → (stage : Db) × IsPrepared before stage × (revoke_lost_app_access_tx now ids stage ≡ ok mid)
    → db' ≡ record mid { audit_events = events }
    → IsEnforced now ids before db'
IsEnforced_stage now ids before mid db' events (stage, same, cut) ends =
    let settled = revoke_lost_app_access_tx_ok now ids stage mid cut in
    subst (IsEnforced now ids before) (sym ends) (
      IsEnforced_moved now ids before stage mid events same
        (subst (IsEnforced now ids stage) (sym settled) (cut_db-IsEnforced now ids stage)))

-- The edits of an application's access, with their arguments.
pub data Edit : Type 0 where
  policy : String → String → Bool → ℕ → Edit
  assign : String → String → String → Bool → Edit
  assign_until : String → String → String → Option ℕ → Edit

unfoldable pub apply_edit :
    ℕ → (String → String) → Edit → Option AuditEvent → Db → Db × Result (Unit {0})
apply_edit now ids (policy id mode enabled revision) audit db =
    set_app_policy now ids id mode enabled revision audit db
apply_edit now ids (assign id kind principal assigned) audit db =
    set_app_assignment now ids id kind principal assigned audit db
apply_edit now ids (assign_until id kind principal expires_at) audit db =
    set_app_assignment_until now ids id kind principal expires_at audit db

assignment-IsEnforced :
    (now : ℕ) (ids : String → String) (id kind principal : String) (assigned : Bool)
    (expires_at : Option ℕ) (audit : Option AuditEvent) (db db' : Db)
    → set_app_assignment_at now ids id kind principal assigned expires_at audit db ≡ (db', ok tt)
    → IsEnforced now ids db db'
unfolding set_app_assignment_at
assignment-IsEnforced now ids id kind principal assigned expires_at audit db db' done =
    let (mid, worked, recorded) =
      audited_tx_ok now audit
        (apply_app_assignment_tx now ids id kind principal assigned expires_at) db db' done in
    IsEnforced_stage now ids db mid db' (audited now audit mid.audit_events)
      (apply_app_assignment_tx-IsPrepared now ids id kind principal assigned expires_at db mid
        worked)
      recorded

policy-IsEnforced :
    (now : ℕ) (ids : String → String) (id : String) (mode : AccessMode) (enabled : Bool)
    (revision : ℕ) (audit : Option AuditEvent) (db db' : Db)
    → audited_tx now audit (set_app_policy_tx now ids id mode enabled revision) db ≡ (db', ok tt)
    → IsEnforced now ids db db'
policy-IsEnforced now ids id mode enabled revision audit db db' done =
    let (mid, worked, recorded) =
      audited_tx_ok now audit (set_app_policy_tx now ids id mode enabled revision) db db' done in
    IsEnforced_stage now ids db mid db' (audited now audit mid.audit_events)
      (set_app_policy_tx_steps now ids id mode enabled revision db mid worked) recorded

parsed :
    (now : ℕ) (ids : String → String) (id : String) (m : Option AccessMode) (enabled : Bool)
    (revision : ℕ) (audit : Option AuditEvent) (db db' : Db)
    → (elim m as (λ _. Db × Result (Unit {0})) [
      | none ↦ (db, err app_link_conflict)
      | some mode ↦ audited_tx now audit (set_app_policy_tx now ids id mode enabled revision) db
    ])
      ≡ (db', ok tt)
    → IsEnforced now ids db db'
parsed now ids id none enabled revision audit db db' done = cc
parsed now ids id (some mode) enabled revision audit db db' done =
    policy-IsEnforced now ids id mode enabled revision audit db db' done

-- Every edit of an application's policy or assignments that succeeds is enforced at once: for each user
-- and client, the live tokens, the codes and the logins that the client knows are as many as before
-- where the user may use the client's application now, and none otherwise; and each client that knew
-- a login which is gone, and has a receiver, is owed one logout for it.
pub apply_edit-IsEnforced :
    (now : ℕ) (ids : String → String) (edit : Edit) (audit : Option AuditEvent) (db db' : Db)
    → apply_edit now ids edit audit db ≡ (db', ok tt)
    → IsEnforced now ids db db'
unfolding apply_edit set_app_policy set_app_assignment set_app_assignment_until
apply_edit-IsEnforced now ids (policy id mode enabled revision) audit db db' done =
    parsed now ids id (parse_access_mode mode) enabled revision audit db db' done
apply_edit-IsEnforced now ids (assign id kind principal assigned) audit db db' done =
    assignment-IsEnforced now ids id kind principal assigned none audit db db' done
apply_edit-IsEnforced now ids (assign_until id kind principal expires_at) audit db db' done =
    let went : set_app_assignment_at now ids id kind principal true expires_at audit db
        ≡ (db', ok tt) =
      ground (arith, done) in
    assignment-IsEnforced now ids id kind principal true expires_at audit db db' went
