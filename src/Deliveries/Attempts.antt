-- ===== src/Deliveries/Attempts.antt =====
-- The counter of attempts, and when a delivery is tried again: internal/store/logout_deliveries.go.
use kysignon_server.Base.{
  ℕ, zero, suc, ◌+◌, ◌*◌, ◌≤◌, Option, some, none, List, [], ◌∷◌, Bool, true, ◌&&◌, not, String,
  ltb, eqb, count_where, update_where, ok, ◌≡◌, refl, arith, inl, inr, count-update_only,
  count-update_add, count_mono, count_split, eq_refl, count-delete-le, count-append, Bool-cases,
  Option-cases, Result-cases,
}
use kysignon_server.Schema.{
  Db, ClientSession, LogoutDelivery, is_delivered, AuditEvent, record_audit_tx, record_audit_tx-eq,
  minute,
}
use kysignon_server.Revocation.{queue_all}
use kysignon_server.Deliveries.{
  is_due, oldest, is_interrupted, give_up, settled, lease_to, delivery_is, claim_logout_delivery,
  is_claim, outcome_of, finish_logout_delivery, is_unsettled, requeued, retry_logout_delivery_now,
  delete_logout_deliveries_older_than, retry_at,
}
use kysignon_server.Deliveries.Leases.{oldest_sound, Exclusive, settled_unique}
use kysignon_server.Revocation.SignedOut.{owed_all, queue_all_ok}

abbrev pub is_over : LogoutDelivery → Bool
is_over d = ltb 5 d.attempts

-- No counter of attempts is above five.
abbrev pub IsBounded : Db → Type 0
IsBounded db = count_where is_over db.logout_deliveries ≡ 0

-- A failed attempt is repeated after a minute at least and half an hour at most.
pub retry_at_bounds :
    (now attempts : ℕ)
    → 1 ≤ attempts
    → attempts ≤ 5
    → (now + minute ≤ retry_at now attempts) × (retry_at now attempts ≤ now + 30 * minute)
unfolding retry_at
retry_at_bounds now zero low high = elim low [ ]
retry_at_bounds now (suc zero) low high = (omega arith, omega arith)
retry_at_bounds now (suc (suc zero)) low high = (omega arith, omega arith)
retry_at_bounds now (suc (suc (suc zero))) low high = (omega arith, omega arith)
retry_at_bounds now (suc (suc (suc (suc zero)))) low high = (omega arith, omega arith)
retry_at_bounds now (suc (suc (suc (suc (suc zero))))) low high = (omega arith, omega arith)
retry_at_bounds now (suc (suc (suc (suc (suc (suc n)))))) low high = absurd (omega arith)

claimed-IsBounded :
    (now lease : ℕ) (token : String) (rows : List LogoutDelivery) (r : LogoutDelivery)
    → count_where (delivery_is r.id) rows ≤ 1
    → count_where is_over rows ≡ 0
    → oldest (is_due now rows) rows ≡ some r
    → count_where is_over (update_where (delivery_is r.id) (lease_to now lease token) rows) ≡ 0
unfolding is_due
claimed-IsBounded now lease token rows r unique bounded found =
    let hit = delivery_is r.id in
    let young : LogoutDelivery → Bool = λ d. ltb d.attempts 5 in
    let spent : LogoutDelivery → Bool = λ d. hit d && not (young d) in
    let (due, counted) = oldest_sound (is_due now rows) (λ d. hit d && young d) rows r found in
    let mine : 1 ≤ count_where (λ d. hit d && young d) rows =
      counted (ground (arith, eq_refl r.id, due)) in
    omega (
      arith,
      bounded,
      unique,
      mine,
      count_split hit young rows,
      count-update_add is_over hit (lease_to now lease token) rows,
      count_mono (λ d. hit d && is_over (lease_to now lease token d)) spent
          (λ d h. ground (arith, h)) rows,
    )

calm_bound :
    (p : LogoutDelivery → Bool) (f : LogoutDelivery → LogoutDelivery) (rows : List LogoutDelivery)
    → ((d : LogoutDelivery) → is_over (f d) ≡ true → is_over d ≡ true)
    → count_where is_over rows ≡ 0
    → count_where is_over (update_where p f rows) ≡ 0
calm_bound p f rows calm bounded =
    omega (arith, bounded, count-update_only is_over p f (λ d hit. calm d) rows)

pub claim-IsBounded :
    (now lease : ℕ) (token : String) (db : Db)
    → Exclusive now db
    → IsBounded db
    → IsBounded (claim_logout_delivery now lease token db).0
unfolding claim_logout_delivery
claim-IsBounded now lease token db ex bounded =
    let rows = settled now db.logout_deliveries in
    let kept =
      calm_bound (is_interrupted now) (give_up now) db.logout_deliveries (λ d h. h) bounded in
    elim (Option-cases (oldest (is_due now rows) rows)) [
      | inl nothing ↦ rw (claim_logout_delivery, nothing) bounded
      | inr (d, found) ↦
          rw (claim_logout_delivery, found)
            (claimed-IsBounded now lease token rows d (settled_unique now d.id db ex) kept found)
    ]

pub finish-IsBounded :
    (at : ℕ) (d : LogoutDelivery) (e : Option String) (db : Db)
    → IsBounded db
    → IsBounded (finish_logout_delivery at d e db).0
unfolding finish_logout_delivery outcome_of
finish-IsBounded at d none db bounded =
    calm_bound (is_claim d.id d.claim_token) _ db.logout_deliveries (λ x h. h) bounded
finish-IsBounded at d (some m) db bounded =
    calm_bound (is_claim d.id d.claim_token) _ db.logout_deliveries (λ x h. h) bounded

pub retry-IsBounded :
    (at : ℕ) (user_id id : String) (audit : Option AuditEvent) (db : Db)
    → IsBounded db
    → IsBounded (retry_logout_delivery_now at user_id id audit db).0
unfolding retry_logout_delivery_now
retry-IsBounded at user_id id audit db bounded =
    let again =
      calm_bound (is_unsettled user_id id) (requeued at) db.logout_deliveries
        (λ x h. ground (arith, h)) bounded in
    let db' : Db = record db {
      logout_deliveries = update_where (is_unsettled user_id id) (requeued at) db.logout_deliveries;
    } in
    elim (Bool-cases (eqb (count_where (is_unsettled user_id id) db.logout_deliveries) 0)) [
      | inl nobody ↦ rw (retry_logout_delivery_now, nobody) bounded
      | inr found ↦ elim (Result-cases (record_audit_tx at audit db')) [
        | inl (db'', went) ↦
            rw (retry_logout_delivery_now, found, went)
              (rw (record_audit_tx-eq at audit db' went) again)
        | inr (e, refused) ↦ rw (retry_logout_delivery_now, found, refused) bounded
      ]
    ]

pub prune-IsBounded :
    (cutoff : ℕ) (db : Db)
    → IsBounded db
    → IsBounded (delete_logout_deliveries_older_than cutoff db)
unfolding delete_logout_deliveries_older_than
prune-IsBounded cutoff db bounded = omega (
  arith,
  bounded,
  count-delete-le is_over (λ d. is_delivered d.status && ltb d.updated_at cutoff)
      db.logout_deliveries,
)

owed_all-IsBounded :
    (at : ℕ) (ids : String → String) (selects : ClientSession → Bool) (css : List ClientSession)
    → count_where is_over (owed_all at ids selects css) ≡ 0
unfolding owed_all
owed_all-IsBounded at ids selects [] = refl
owed_all-IsBounded at ids selects (cs ∷ more) =
    ground (arith, owed_all-IsBounded at ids selects more)

pub queue_all-IsBounded :
    (at : ℕ) (ids : String → String) (selects : ClientSession → Bool) (css : List ClientSession)
    (rows rows' : List LogoutDelivery)
    → count_where is_over rows ≡ 0
    → queue_all at ids selects css rows ≡ ok rows'
    → count_where is_over rows' ≡ 0
queue_all-IsBounded at ids selects css rows rows' bounded h =
    rw (queue_all_ok at ids selects css rows rows' h) (
      omega (
        arith,
        bounded,
        count-append is_over rows (owed_all at ids selects css),
        owed_all-IsBounded at ids selects css,
      ))
