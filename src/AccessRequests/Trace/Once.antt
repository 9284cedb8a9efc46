-- ===== src/AccessRequests/Trace/Once.antt =====
-- A request is decided once: internal/store/access_requests.go.
use kysignon_server.Base.{
  ℕ, Option, List, [], ◌∷◌, ◌++◌, Bool, true, false, ◌&&◌, ◌||◌, String, ◌==◌, eqb, eqb→eq,
  trim_space, count_where, exists_where, update_where, Error, Result, ok, err, ◌≡◌, refl, arith,
  inl, inr, subst, sym, ap, ◌∙◌, Bool-cases, eq_iff, exists-append, count-append, count-update-le,
  count_mono, exists_none_mono, find_some-exists, count-update_cover,
}
use kysignon_server.Schema.{
  Db, AccessRequest, is_pending, AuditEvent, audited_tx_cases, audited_tx_ok,
}
use kysignon_server.AccessRequests.{
  is_request, is_own_pending, same_pending, cancel_request_tx, cancel_access_request, decided,
  status_of, decide_access_request,
}
use kysignon_server.AccessRequests.Outcomes.{Outcome, decide_access_request-Outcome}
use kysignon_server.AccessRequests.Trace.{Op, step, run, Change, step-Change}

abbrev is_open_request : String → AccessRequest → Bool
is_open_request id o = is_request id o && is_pending o.status

-- There is a request under the id, and none that waits.
abbrev IsClosed : String → List AccessRequest → Type 0
IsClosed id rows =
    (exists_where (is_request id) rows ≡ true) × (count_where (is_open_request id) rows ≡ 0)

exists-update_id :
    (id : String) (p : AccessRequest → Bool) (f : AccessRequest → AccessRequest)
    → ((o : AccessRequest) → (f o).id ≡ o.id)
    → (rows : List AccessRequest)
    → exists_where (is_request id) (update_where p f rows) ≡ exists_where (is_request id) rows
exists-update_id id p f keeps [] = refl
exists-update_id id p f keeps (o ∷ rows) =
    ground (arith, keeps o, exists-update_id id p f keeps rows)

module _ (id : String) where
  added-IsClosed :
      (r : AccessRequest) (rows : List AccessRequest)
      → exists_where (λ (o : AccessRequest). o.id == r.id || same_pending r.app_id r.user_id o) rows
        ≡ false
      → IsClosed id rows
      → IsClosed id (rows ++ (r ∷ []))
  added-IsClosed r rows fresh (here, none_waits) = elim (Bool-cases (r.id == id)) [
    | inl same ↦ ground (
      arith,
      here,
      exists_none_mono (λ (o : AccessRequest). o.id == r.id || same_pending r.app_id r.user_id o)
          (is_request id)
          (λ o h. ground (arith, h, same, eq_iff o.id id, eq_iff r.id id, eq_iff o.id r.id)) rows
          fresh,
    )
    | inr other ↦ (
      ground (arith, here, exists-append (is_request id) rows (r ∷ [])),
      ground (arith, other, none_waits, count-append (is_open_request id) rows (r ∷ [])),
    )
  ]

  Change-IsClosed :
      (rows rows' : List AccessRequest) → Change rows rows' → IsClosed id rows → IsClosed id rows'
  Change-IsClosed rows rows' (Change.kept same) closed = subst (IsClosed id) (sym same) closed
  Change-IsClosed rows rows' (Change.added r grown fresh room) closed =
      subst (IsClosed id) (sym grown) (added-IsClosed r rows fresh closed)
  Change-IsClosed rows rows' (Change.closed p f closes updated) (here, none_waits) =
      subst (IsClosed id) (sym updated) (
        exists-update_id id p f (λ o. (closes o).1) rows ∙ here,
        omega (
          arith,
          none_waits,
          count-update-le (is_open_request id) p f (λ o h. ground (arith, h, (closes o).0)) rows,
        ),
      )

  run-IsClosed :
      (ops : List Op) (db : Db)
      → IsClosed id db.access_requests
      → IsClosed id (run ops db).access_requests
  unfolding run
  run-IsClosed [] db closed = closed
  run-IsClosed (op ∷ ops) db closed =
      run-IsClosed ops (step op db)
        (Change-IsClosed db.access_requests (step op db).access_requests (step-Change op db) closed)

  -- The database after a decision that succeeded.
  decided-IsClosed :
      (now : ℕ) (ids : String → String) (actor_id : String) (approve : Bool) (note : String)
      (audit : Option AuditEvent) (db db' : Db) (out : AccessRequest)
      → decide_access_request now ids id actor_id approve note audit db ≡ (db', ok out)
      → IsClosed id db'.access_requests
  unfolding Outcome
  decided-IsClosed now ids actor_id approve note audit db db' out done =
      elim (decide_access_request-Outcome now ids id actor_id approve note audit db) [
        | inl (e, rolled) ↦ ground (arith, done, rolled)
        | inr (r, end, went, may, decides) ↦
            (let settle = decided now actor_id (trim_space note) (status_of approve) in
              let found = find_some-exists (is_request id) db.access_requests r may.found in
              let same : end.access_requests ≡ db'.access_requests =
                ap (λ (x : Db × Result AccessRequest). x.0.access_requests) (sym went ∙ done) in
              subst (IsClosed id) (sym decides.recorded ∙ same) (
                exists-update_id id (is_request id) settle (λ o. refl) db.access_requests ∙ found,
                count-update_cover (is_open_request id) (is_request id) settle
                    (λ o h. ground (arith, h)) (λ o. ground arith) db.access_requests,
              ))
      ]

  decide_refused :
      (now : ℕ) (ids : String → String) (actor_id : String) (approve : Bool) (note : String)
      (audit : Option AuditEvent) (db : Db)
      → IsClosed id db.access_requests
      → (e : Error) × (decide_access_request now ids id actor_id approve note audit db
          ≡ (db, err e))
  unfolding Outcome
  decide_refused now ids actor_id approve note audit db closed =
      elim (decide_access_request-Outcome now ids id actor_id approve note audit db) [
        | inl refused ↦ refused
        | inr (r, end, went, may, decides) ↦ absurd (omega (arith, may.waiting, closed.1))
      ]

  cancel_refused :
      (now : ℕ) (user_id : String) (audit : Option AuditEvent) (db : Db)
      → IsClosed id db.access_requests
      → (e : Error) × (cancel_access_request now id user_id audit db ≡ (db, err e))
  unfolding cancel_access_request cancel_request_tx
  cancel_refused now user_id audit db closed =
      elim (audited_tx_cases now audit (cancel_request_tx now id user_id) db) [
        | inr refused ↦ refused
        | inl (end, done) ↦
            (let (mid, worked, recorded) =
                audited_tx_ok now audit (cancel_request_tx now id user_id) db end done in
              let own = count_where (is_own_pending id user_id) db.access_requests in
              let one : eqb own 1 ≡ true = ground (arith, worked) in
              absurd (
                omega (
                  arith,
                  closed.1,
                  eqb→eq own 1 one,
                  count_mono (is_own_pending id user_id) (is_open_request id)
                      (λ o h. ground (arith, h)) db.access_requests,
                )))
      ]

-- A decision is final: once DecideAccessRequest succeeds for a request, then after any further requests,
-- withdrawals, decisions and expiries, no decision and no withdrawal of the same request succeeds,
-- whoever tries, and the attempt changes nothing.
pub decide_access_request-once :
    (now : ℕ) (ids : String → String) (id actor_id : String) (approve : Bool) (note : String)
    (audit : Option AuditEvent) (db db' : Db) (out : AccessRequest)
    → decide_access_request now ids id actor_id approve note audit db ≡ (db', ok out)
    → (ops : List Op) (later : ℕ) (again : Bool) (who other_note : String)
      (other_audit : Option AuditEvent)
    → ((e : Error) × (decide_access_request later ids id who again other_note other_audit
            (run ops db')
          ≡ (run ops db', err e)))
      × ((e : Error) × (cancel_access_request later id who other_audit (run ops db')
            ≡ (run ops db', err e)))
decide_access_request-once now ids id actor_id approve note audit db db' out done ops later again
      who other_note other_audit =
    let closed =
      run-IsClosed id ops db'
        (decided-IsClosed id now ids actor_id approve note audit db db' out done) in
    (
      decide_refused id later ids who again other_note other_audit (run ops db') closed,
      cancel_refused id later who other_audit (run ops db') closed,
    )
