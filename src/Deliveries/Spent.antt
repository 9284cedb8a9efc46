-- ===== src/Deliveries/Spent.antt =====
-- A claim settles a delivery once: internal/store/logout_deliveries.go.
use kysignon_server.Base.{
  ℕ, ◌+◌, Option, some, none, List, [], ◌∷◌, any, Bool, true, false, ◌&&◌, String, ◌==◌, ltb, eqb,
  count_where, update_where, ok, err, not_found, ◌≡◌, refl, arith, inl, inr, count-update_self,
  count-update_only, count-delete-le, count-append, update_where-none, Bool-cases, Option-cases,
  Result-cases, >>=-ok,
}
use kysignon_server.Schema.{
  Db, ClientSession, LogoutDelivery, is_delivered, AuditEvent, record_audit_tx, record_audit_tx-eq,
}
use kysignon_server.Revocation.{is_told, queue_all, enqueue_logout_tx}
use kysignon_server.Revocation.SignedOut.{owed_all, queue_all_ok}
use kysignon_server.Deliveries.{
  is_due, oldest, is_interrupted, give_up, settled, lease_to, delivery_is, claim_logout_delivery,
  is_claim, outcome_of, finish_logout_delivery, is_unsettled, requeued, retry_logout_delivery_now,
  delete_logout_deliveries_older_than,
}
use kysignon_server.Deliveries.Trace.{
  Op, claims, finishes, retries, prunes, queues, step, run, History,
}

-- No row carries the claim.
abbrev pub IsReleased : String → String → Db → Type 0
IsReleased id token db = count_where (is_claim id token) db.logout_deliveries ≡ 0

finish-IsReleased :
    (now : ℕ) (d : LogoutDelivery) (e : Option String) (db : Db)
    → IsReleased d.id d.claim_token (finish_logout_delivery now d e db).0
unfolding finish_logout_delivery outcome_of
finish-IsReleased now d none db =
    count-update_self (is_claim d.id d.claim_token) _ (λ x h. ground arith) db.logout_deliveries
finish-IsReleased now d (some m) db =
    count-update_self (is_claim d.id d.claim_token) _ (λ x h. ground arith) db.logout_deliveries

module _ (id token : String) where
  free_update :
      (p : LogoutDelivery → Bool) (f : LogoutDelivery → LogoutDelivery) (rows : List LogoutDelivery)
      → ((d : LogoutDelivery) → is_claim id token (f d) ≡ true → is_claim id token d ≡ true)
      → count_where (is_claim id token) rows ≡ 0
      → count_where (is_claim id token) (update_where p f rows) ≡ 0
  free_update p f rows calm free =
      omega (arith, free, count-update_only (is_claim id token) p f (λ d hit. calm d) rows)

  -- The operation gives this token out.
  abbrev pub gives : Op → Bool
  gives (claims lease t) = t == token
  gives (finishes d e) = false
  gives (retries user_id i audit) = false
  gives (prunes cutoff) = false
  gives (queues ids selects) = false

  claim-IsReleased :
      (now lease : ℕ) (t : String) (db : Db)
      → (t == token) ≡ false
      → IsReleased id token db
      → IsReleased id token (claim_logout_delivery now lease t db).0
  unfolding claim_logout_delivery
  claim-IsReleased now lease t db other free =
      let rows = settled now db.logout_deliveries in
      let kept =
        free_update (is_interrupted now) (give_up now) db.logout_deliveries
          (λ d h. ground (arith, h)) free in
      elim (Option-cases (oldest (is_due now rows) rows)) [
        | inl nothing ↦ rw (claim_logout_delivery, nothing) free
        | inr (d, found) ↦
            rw (claim_logout_delivery, found)
              (free_update (delivery_is d.id) (lease_to now lease t) rows
                (λ x h. ground (arith, h, other)) kept)
      ]

  retry-IsReleased :
      (now : ℕ) (user_id i : String) (audit : Option AuditEvent) (db : Db)
      → IsReleased id token db
      → IsReleased id token (retry_logout_delivery_now now user_id i audit db).0
  unfolding retry_logout_delivery_now
  retry-IsReleased now user_id i audit db free =
      let again =
        free_update (is_unsettled user_id i) (requeued now) db.logout_deliveries
          (λ x h. ground (arith, h)) free in
      let db' : Db = record db {
        logout_deliveries =
            update_where (is_unsettled user_id i) (requeued now) db.logout_deliveries;
      } in
      elim (Bool-cases (eqb (count_where (is_unsettled user_id i) db.logout_deliveries) 0)) [
        | inl nobody ↦ rw (retry_logout_delivery_now, nobody) free
        | inr found ↦ elim (Result-cases (record_audit_tx now audit db')) [
          | inl (db'', went) ↦
              rw (retry_logout_delivery_now, found, went)
                (rw (record_audit_tx-eq now audit db' went) again)
          | inr (e, refused) ↦ rw (retry_logout_delivery_now, found, refused) free
        ]
      ]

  owed_all-free :
      (now : ℕ) (ids : String → String) (selects : ClientSession → Bool) (css : List ClientSession)
      → count_where (is_claim id token) (owed_all now ids selects css) ≡ 0
  unfolding owed_all
  owed_all-free now ids selects [] = refl
  owed_all-free now ids selects (cs ∷ more) = ground (arith, owed_all-free now ids selects more)

  queued-IsReleased :
      (now : ℕ) (ids : String → String) (selects : ClientSession → Bool) (db db' : Db)
      → IsReleased id token db
      → enqueue_logout_tx now ids selects db ≡ ok db'
      → IsReleased id token db'
  unfolding enqueue_logout_tx
  queued-IsReleased now ids selects db db' free h =
      let told = λ (cs : ClientSession). is_told db cs && selects cs in
      let (rows, all, put) =
        >>=-ok (queue_all now ids told db.client_sessions db.logout_deliveries)
          (λ r. ok (record db { logout_deliveries = r })) h in
      let grown : db' ≡ record db { logout_deliveries = rows } = ground (arith, put) in
      rw (grown, queue_all_ok now ids told db.client_sessions db.logout_deliveries rows all)
        (omega (
          arith,
          free,
          count-append (is_claim id token) db.logout_deliveries
              (owed_all now ids told db.client_sessions),
          owed_all-free now ids told db.client_sessions,
        ))

  step-IsReleased :
      (now : ℕ) (op : Op) (db : Db)
      → gives op ≡ false
      → IsReleased id token db
      → IsReleased id token (step now op db)
  unfolding step finish_logout_delivery outcome_of delete_logout_deliveries_older_than
  step-IsReleased now (claims lease t) db other free = claim-IsReleased now lease t db other free
  step-IsReleased now (finishes d none) db other free =
      free_update (is_claim d.id d.claim_token) _ db.logout_deliveries (λ x h. ground (arith, h))
        free
  step-IsReleased now (finishes d (some m)) db other free =
      free_update (is_claim d.id d.claim_token) _ db.logout_deliveries (λ x h. ground (arith, h))
        free
  step-IsReleased now (retries user_id i audit) db other free =
      retry-IsReleased now user_id i audit db free
  step-IsReleased now (prunes cutoff) db other free = omega (
    arith,
    free,
    count-delete-le (is_claim id token) (λ d. is_delivered d.status && ltb d.updated_at cutoff)
        db.logout_deliveries,
  )
  step-IsReleased now (queues ids selects) db other free =
      elim (Result-cases (enqueue_logout_tx now ids selects db)) [
        | inl (db', went) ↦ rw (step, went) (queued-IsReleased now ids selects db db' free went)
        | inr (e, refused) ↦ rw (step, refused) free
      ]

  run-IsReleased :
      (now : ℕ) (ops : History) (db : Db)
      → any (λ (s : ℕ × Op). gives s.1) ops ≡ false
      → IsReleased id token db
      → IsReleased id token (run now ops db)
  unfolding run
  run-IsReleased now [] db none_gives free = free
  run-IsReleased now ((wait, op) ∷ ops) db none_gives free =
      run-IsReleased (now + wait) ops (step (now + wait) op db) (ground arith)
        (step-IsReleased (now + wait) op db (ground arith) free)

-- After FinishLogoutDelivery under a claim, whatever the outcome, and any operations that do not give
-- the same token out again, a call for this id and token is refused and changes nothing: a worker that
-- comes late cannot overwrite what another recorded.
pub finish_logout_delivery-once :
    (now later : ℕ) (d e : LogoutDelivery) (first second : Option String) (ops : History) (db : Db)
    → any (λ (s : ℕ × Op). gives d.id d.claim_token s.1) ops ≡ false
    → e.id ≡ d.id
    → e.claim_token ≡ d.claim_token
    → let db' = run now ops (finish_logout_delivery now d first db).0 in
      finish_logout_delivery later e second db' ≡ (db', err not_found)
unfolding finish_logout_delivery
finish_logout_delivery-once now later d e first second ops db none_gives same-id same-token =
    let db' = run now ops (finish_logout_delivery now d first db).0 in
    let free =
      run-IsReleased d.id d.claim_token now ops (finish_logout_delivery now d first db).0 none_gives
        (finish-IsReleased now d first db) in
    rw
      (
        finish_logout_delivery,
        same-id,
        same-token,
        free,
        update_where-none (is_claim d.id d.claim_token) (outcome_of later e.attempts second)
            db'.logout_deliveries free,
      )
      refl
