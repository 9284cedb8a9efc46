-- ===== src/AccessRequests/Outcomes.antt =====
-- What a decision comes to: DecideAccessRequest of internal/store/access_requests.go.
use kysignon_server.Base.{
  ℕ, List, Option, Bool, true, false, ◌&&◌, ◌||◌, not, String, ltb, option_test, trim_space, len,
  find_where, exists_where, update_where, if◌then◌else◌, Error, Result, ok, err, ◌>>=◌, >>=-ok,
  app_link_conflict, ◌≡◌, refl, arith, ◌⊎◌, inl, inr, ap, ◌∙◌, sym, subst, Bool-cases,
}
use kysignon_server.Schema.{
  Db, AccessRequest, AuditEvent, record_audit_tx, commit, commit_cases, record_audit_tx-eq, audited,
}
use kysignon_server.Access.{not_over}
use kysignon_server.Grants.{bump, is_app, apply_app_assignment_tx, unix_or_nil}
use kysignon_server.Grants.Direct.{
  is_direct_for, is_pair, apply_app_assignment_tx-direct, apply_app_assignment_tx-requests,
  apply_app_assignment_tx-views,
}
use kysignon_server.AccessRequests.{
  max_reason_length, is_requestable, is_request, granted_until, decided, approve_tx, read_pending,
  check_decision, status_of, decide_request_tx, decide_access_request,
}
use kysignon_server.AccessRequests.Decisions.{MayDecide, check_decision-MayDecide}

-- The decision is recorded in the request and nowhere else, and an approval of an application that is open
-- to requests is the direct assignment of the request's user until the requested end; without an
-- approval every user's assignments are as before.
pub record IsDecided (now : ℕ) (id actor_id note : String) (approve : Bool) (r : AccessRequest)
    (before after : Db) : Type 0 where
  pub recorded :
      after.access_requests
      ≡ update_where
          (is_request id)
          (decided now actor_id note (status_of approve))
          before.access_requests
  pub requestable :
      (not approve
        || option_test false is_requestable (find_where (is_app r.app_id) before.app_registry))
      ≡ true
  pub registry : after.app_registry ≡ (
      if approve
      then update_where (is_app r.app_id) bump before.app_registry
      else before.app_registry)
  pub users : after.users ≡ before.users
  pub clients : after.oauth_clients ≡ before.oauth_clients
  pub assigned :
      (t : ℕ) (a u : String)
      → exists_where (is_direct_for t a u) after.user_assignments ≡ (
          if approve && is_pair r.app_id r.user_id a u
          then not_over t (unix_or_nil (granted_until now r))
          else exists_where (is_direct_for t a u) before.user_assignments)

approve_tx_ok :
    (now : ℕ) (ids : String → String) (r : AccessRequest) (db db' : Db)
    → approve_tx now ids r db ≡ ok db'
    → (option_test false is_requestable (find_where (is_app r.app_id) db.app_registry) ≡ true)
      × (apply_app_assignment_tx now ids r.app_id "users" r.user_id true (granted_until now r) db
          ≡ ok db')
unfolding approve_tx
approve_tx_ok now ids r db db' h = (ground (arith, h), ground (arith, h))

-- The end of the transaction, after the assignment of an approval.
settled : ℕ → String → String → String → Bool → Db → Db
settled now id actor_id note approve db = record db {
  access_requests =
      update_where (is_request id) (decided now actor_id note (status_of approve))
        db.access_requests;
}

granted-IsDecided :
    (now : ℕ) (ids : String → String) (id actor_id note : String) (approve : Bool)
    (r : AccessRequest) (db db' : Db) (events : List AuditEvent)
    → (if approve then approve_tx now ids r db else ok db) ≡ ok db'
    → IsDecided now id actor_id note approve r db
        (record (settled now id actor_id note approve db') { audit_events = events })
unfolding settled
granted-IsDecided now ids id actor_id note true r db db' events went =
    let (open_to_requests, assigned) = approve_tx_ok now ids r db db' went in
    let (registry, users, clients) =
      apply_app_assignment_tx-views now ids r.app_id "users" r.user_id true (granted_until now r) db
        db' assigned in
    record {
      recorded = ap (update_where (is_request id) (decided now actor_id note (status_of true))) (
          apply_app_assignment_tx-requests now ids r.app_id "users" r.user_id true
            (granted_until now r) db db' assigned);
      requestable = open_to_requests;
      registry = registry;
      users = users;
      clients = clients;
      assigned =
          apply_app_assignment_tx-direct now ids r.app_id r.user_id true (granted_until now r) db
            db' assigned;
    }
granted-IsDecided now ids id actor_id note false r db db' events went =
    let same : db' ≡ db = ground (arith, went) in
    record {
      recorded =
          ap
            (λ (d : Db).
              update_where (is_request id) (decided now actor_id note (status_of false))
                d.access_requests)
            same;
      requestable = refl;
      registry = ap (λ (d : Db). d.app_registry) same;
      users = ap (λ (d : Db). d.users) same;
      clients = ap (λ (d : Db). d.oauth_clients) same;
      assigned =
          λ t a u. ap (λ (d : Db). exists_where (is_direct_for t a u) d.user_assignments) same;
    }

decide_request_tx_ok :
    (now : ℕ) (ids : String → String) (id actor_id : String) (approve : Bool) (note : String)
    (db mid : Db) (out : AccessRequest)
    → decide_request_tx now ids id actor_id approve note db ≡ ok (mid, out)
    → (r : AccessRequest) × MayDecide now id actor_id db r
      × (out ≡ decided now actor_id note (status_of approve) r)
      × ((events : List AuditEvent)
          → IsDecided now id actor_id note approve r db (record mid { audit_events = events }))
unfolding decide_request_tx settled
decide_request_tx_ok now ids id actor_id approve note db mid out went =
    let settle : AccessRequest → AccessRequest = decided now actor_id note (status_of approve) in
    let finish : AccessRequest → Db → Result (Db × AccessRequest) =
      λ r d. ok (settled now id actor_id note approve d, settle r) in
    let grant : AccessRequest → Result Db =
      λ r. if approve then approve_tx now ids r db else ok db in
    let decide : AccessRequest → Result (Db × AccessRequest) = λ r. grant r >>= finish r in
    let checked : AccessRequest → Result (Db × AccessRequest) =
      λ r. check_decision now actor_id r db >>= decide in
    let (r, read, more) = >>=-ok (read_pending id db) checked went in
    let (o, passed, rest) = >>=-ok (check_decision now actor_id r db) decide more in
    let (same, may) = check_decision-MayDecide now id actor_id r o db read passed in
    let (d, went_on, last) = >>=-ok (grant o) (finish o) rest in
    let ended : settled now id actor_id note approve d ≡ mid = ground (arith, last) in
    (
      r,
      may,
      ground (arith, last, same),
      λ events.
          subst
            (λ (x : AccessRequest).
              IsDecided now id actor_id note approve x db (record mid { audit_events = events }))
            same
            (subst
              (λ (m : Db).
                IsDecided now id actor_id note approve o db (record m { audit_events = events }))
              ended (granted-IsDecided now ids id actor_id note approve o db d events went_on)),
    )

-- What a decision comes to: an error and the database as it was, or an open request that the actor was
-- entitled to decide, and its decision.
unfoldable pub Outcome :
    ℕ → String → String → String → Bool → Db → Db × Result AccessRequest → Type 0
Outcome now id actor_id note approve db result =
    ((e : Error) × (result ≡ (db, err e)))
    ⊎ ((r : AccessRequest) × (db' : Db) × (result
          ≡ (db', ok (decided now actor_id note (status_of approve) r)))
        × MayDecide now id actor_id db r
        × IsDecided now id actor_id note approve r db db')

recorded_outcome :
    (now : ℕ) (ids : String → String) (id actor_id : String) (approve : Bool) (note : String)
    (audit : Option AuditEvent) (db mid : Db) (out : AccessRequest)
    → decide_request_tx now ids id actor_id approve note db ≡ ok (mid, out)
    → Outcome now id actor_id note approve db (commit out (record_audit_tx now audit mid) db)
unfolding Outcome
recorded_outcome now ids id actor_id approve note audit db mid out went =
    let (r, may, same, decides) =
      decide_request_tx_ok now ids id actor_id approve note db mid out went in
    elim (commit_cases out (record_audit_tx now audit mid) db) [
      | inr (e, refused, rolled) ↦ inl (e, rolled)
      | inl (end, recorded, committed) ↦ inr (
        r,
        end,
        committed ∙ ap (λ (o : AccessRequest). (end, ok o)) same,
        may,
        subst (IsDecided now id actor_id note approve r db)
            (sym (record_audit_tx-eq now audit mid recorded))
            (decides (audited now audit mid.audit_events)),
      )
    ]

transacted :
    (now : ℕ) (ids : String → String) (id actor_id : String) (approve : Bool) (note : String)
    (audit : Option AuditEvent) (db : Db) (r : Result (Db × AccessRequest))
    → decide_request_tx now ids id actor_id approve note db ≡ r
    → Outcome now id actor_id note approve db
        (elim r [ err e ↦ (db, err e) | ok (db', o) ↦ commit o (record_audit_tx now audit db') db ])
unfolding Outcome
transacted now ids id actor_id approve note audit db (err e) went = inl (e, refl)
transacted now ids id actor_id approve note audit db (ok (mid, out)) went =
    recorded_outcome now ids id actor_id approve note audit db mid out went

-- DecideAccessRequest does all or nothing. Either it reports an error and the database is as it was; or
-- the request was pending and in time, is not the actor's own, the actor is active and a global
-- administrator or an owner of the application, and the decision is recorded in this request. An
-- approval is then the direct assignment of the request's user to its application, open to requests,
-- until the end that the request asks for, and nobody else's assignments change; a denial changes no
-- assignment.
pub decide_access_request-Outcome :
    (now : ℕ) (ids : String → String) (id actor_id : String) (approve : Bool) (note : String)
    (audit : Option AuditEvent) (db : Db)
    → Outcome now id actor_id
        (trim_space note)
        approve
        db
        (decide_access_request now ids id actor_id approve note audit db)
unfolding decide_access_request Outcome
decide_access_request-Outcome now ids id actor_id approve note audit db =
    elim (Bool-cases (ltb max_reason_length (len (trim_space note)))) [
      | inl long ↦ rw long (inl (app_link_conflict, refl))
      | inr short ↦ rw short (
          transacted now ids id actor_id approve (trim_space note) audit db
            (decide_request_tx now ids id actor_id approve (trim_space note) db) refl)
    ]
