-- ===== src/AccessRequests/Trace.antt =====
-- Histories of access requests: internal/store/access_requests.go.
pub mod Bounds
pub mod Once
use kysignon_server.Base.{
  ℕ, ◌≤◌, Option, some, List, [], ◌∷◌, ◌++◌, Bool, true, false, ◌&&◌, ◌||◌, not, String, ◌==◌, ℤ,
  option_test, leb, eqb, trim_space, find_where, count_where, exists_where, update_where,
  if◌then◌else◌, Error, Result, ok, err, ◌>>=◌, >>=-ok, ◌≡◌, refl, arith, ◌⊎◌, inl, inr, ap, ◌∙◌,
  sym, subst, Bool-cases,
}
use kysignon_server.Schema.{
  Db, AccessRequest, RequestStatus, is_pending, AuditEvent, record_audit_tx, audited_tx,
  audited_tx_ok, audited_tx_cases, commit, commit_cases, record_audit_tx-eq, audited, user_exists,
}
use kysignon_server.AccessRequests.{
  max_pending_requests, is_requestable, has_access, is_pending_of, same_pending, fresh_request,
  insert_request, create_request_tx, is_malformed, nanoseconds, create_access_request, is_request,
  is_own_pending, cancelled_at, cancel_request_tx, cancel_access_request, decided, status_of,
  decide_access_request, is_stale, expired_at, expire_access_requests_tx,
}
use kysignon_server.Grants.{is_app}
use kysignon_server.AccessRequests.Decisions.{MayDecide}
use kysignon_server.AccessRequests.Outcomes.{Outcome, IsDecided, decide_access_request-Outcome}

-- The operations on requests, with their arguments.
pub data Op : Type 0 where
  create : ℕ → String → String → String → String → ℤ → Option AuditEvent → Op
  cancel : ℕ → String → String → Option AuditEvent → Op
  decide : ℕ → (String → String) → String → String → Bool → String → Option AuditEvent → Op
  expire : ℕ → Op

unfoldable pub step : Op → Db → Db
step (create now id user_id app_id reason duration audit) db =
    (create_access_request now id user_id app_id reason duration audit db).0
step (cancel now id user_id audit) db = (cancel_access_request now id user_id audit db).0
step (decide now ids id actor_id approve note audit) db =
    (decide_access_request now ids id actor_id approve note audit db).0
step (expire now) db = expire_access_requests_tx now db

unfoldable pub run : List Op → Db → Db
run [] db = db
run (op ∷ ops) db = run ops (step op db)

-- What a step does to the rows: nothing; one new pending row of a user with fewer than five, under an id
-- and for a pair without a pending row; or some rows are closed, of which those with the id that it
-- names, if it names one.
pub data Change (rows : List AccessRequest) (rows' : List AccessRequest) : Type 0 where
  kept : rows' ≡ rows → Change rows rows'
  added :
      (r : AccessRequest)
      → rows' ≡ rows ++ (r ∷ [])
      → exists_where (λ (o : AccessRequest). o.id == r.id || same_pending r.app_id r.user_id o) rows
        ≡ false
      → leb max_pending_requests (count_where (is_pending_of r.user_id) rows) ≡ false
      → Change rows rows'
  closed :
      (p : AccessRequest → Bool) (f : AccessRequest → AccessRequest)
      → ((o : AccessRequest) → (is_pending (f o).status ≡ false) × ((f o).id ≡ o.id))
      → rows' ≡ update_where p f rows
      → Change rows rows'

insert_request_ok :
    (r : AccessRequest) (db db' : Db)
    → insert_request r db ≡ ok db'
    → (db'.access_requests ≡ db.access_requests ++ (r ∷ []))
      × (exists_where
            (λ (o : AccessRequest). o.id == r.id || same_pending r.app_id r.user_id o)
            db.access_requests
          ≡ false)
unfolding insert_request
insert_request_ok r db db' h = (ground (arith, h), ground (arith, h))

create_request_tx_ok :
    (now : ℕ) (r : AccessRequest) (db db' : Db)
    → create_request_tx now r db ≡ ok db'
    → (insert_request r db ≡ ok db')
      × (leb max_pending_requests (count_where (is_pending_of r.user_id) db.access_requests)
          ≡ false)
unfolding create_request_tx
create_request_tx_ok now r db db' h = (ground (arith, h), ground (arith, h))

create-Change :
    (now : ℕ) (id user_id app_id reason : String) (duration : ℤ) (audit : Option AuditEvent)
    (db : Db)
    → Change db.access_requests
        (create_access_request now id user_id app_id reason duration audit db).0.access_requests
unfolding create_access_request
create-Change now id user_id app_id reason duration audit db =
    let r = fresh_request now id user_id app_id (trim_space reason) (nanoseconds duration) in
    let tx = create_request_tx now r db >>= λ db'. record_audit_tx now audit db' in
    elim (Bool-cases (is_malformed (trim_space reason) duration)) [
      | inl malformed ↦ rw malformed (Change.kept refl)
      | inr sound ↦ rw sound (elim (commit_cases r tx db) [
        | inr (e, refused, rolled) ↦
            Change.kept (ap (λ (x : Db × Result AccessRequest). x.0.access_requests) rolled)
        | inl (end, went, committed) ↦
            (let (mid, made, recorded) =
                >>=-ok (create_request_tx now r db) (λ d. record_audit_tx now audit d) went in
              let (inserted, few) = create_request_tx_ok now r db mid made in
              let (grown, fresh) = insert_request_ok r db mid inserted in
              Change.added r
                (ap (λ (x : Db × Result AccessRequest). x.0.access_requests) committed
                  ∙ ap (λ (d : Db). d.access_requests) (record_audit_tx-eq now audit mid recorded)
                  ∙ grown)
                fresh few)
      ])
    ]

cancel-Change :
    (now : ℕ) (id user_id : String) (audit : Option AuditEvent) (db : Db)
    → Change db.access_requests (cancel_access_request now id user_id audit db).0.access_requests
unfolding cancel_access_request cancel_request_tx
cancel-Change now id user_id audit db =
    elim (audited_tx_cases now audit (cancel_request_tx now id user_id) db) [
      | inr (e, rolled) ↦
          Change.kept (ap (λ (x : Db × Result (Unit {0})). x.0.access_requests) rolled)
      | inl (end, done) ↦
          (let (mid, worked, recorded) =
              audited_tx_ok now audit (cancel_request_tx now id user_id) db end done in
            let closed : mid.access_requests
                ≡ update_where (is_own_pending id user_id) (cancelled_at now) db.access_requests =
              ground (arith, worked) in
            Change.closed (is_own_pending id user_id) (cancelled_at now) (λ o. (refl, refl))
              (ap (λ (x : Db × Result (Unit {0})). x.0.access_requests) done
                ∙ ap (λ (d : Db). d.access_requests) recorded
                ∙ closed))
    ]

decide-Change :
    (now : ℕ) (ids : String → String) (id actor_id : String) (approve : Bool) (note : String)
    (audit : Option AuditEvent) (db : Db)
    → Change db.access_requests
        (decide_access_request now ids id actor_id approve note audit db).0.access_requests
unfolding Outcome
decide-Change now ids id actor_id approve note audit db =
    elim (decide_access_request-Outcome now ids id actor_id approve note audit db) [
      | inl (e, rolled) ↦
          Change.kept (ap (λ (x : Db × Result AccessRequest). x.0.access_requests) rolled)
      | inr (r, end, done, may, decides) ↦
          Change.closed (is_request id) (decided now actor_id (trim_space note) (status_of approve))
            (λ o. (ground arith, refl))
            (ap (λ (x : Db × Result AccessRequest). x.0.access_requests) done ∙ decides.recorded)
    ]

pub step-Change : (op : Op) (db : Db) → Change db.access_requests (step op db).access_requests
unfolding step expire_access_requests_tx
step-Change (create now id user_id app_id reason duration audit) db =
    create-Change now id user_id app_id reason duration audit db
step-Change (cancel now id user_id audit) db = cancel-Change now id user_id audit db
step-Change (decide now ids id actor_id approve note audit) db =
    decide-Change now ids id actor_id approve note audit db
step-Change (expire now) db = Change.closed (is_stale now) (expired_at now) (λ o. (refl, refl)) refl
