-- ===== src/Deliveries/Tries.antt =====
-- How often workers get a delivery: internal/store/logout_deliveries.go.
use kysignon_server.Base.{
  ℕ, suc, ◌+◌, ◌-◌, ◌≤◌, Option, some, none, List, [], ◌∷◌, ◌++◌, Bool, true, false, ◌&&◌, ◌||◌,
  String, ◌==◌, ltb, eqb, find_where, count_where, exists_where, update_where, delete_where,
  if◌then◌else◌, ok, >>=-ok, ◌≡◌, refl, arith, inl, inr, ap, ◌∙◌, sym, subst, Bool-cases,
  Result-cases, eq_iff, count-delete-le, count_zero-find, exists-count_zero,
}
use kysignon_server.Schema.{
  Db, ClientSession, LogoutDelivery, is_delivered, AuditEvent, record_audit_tx, record_audit_tx-eq,
}
use kysignon_server.Revocation.{is_told, queue_all, enqueue_logout_tx}
use kysignon_server.Revocation.SignedOut.{owed_all, queue_all_ok}
use kysignon_server.Deliveries.{
  ClaimedDelivery, delivery_is, claim_logout_delivery, is_claim, outcome_of, finish_logout_delivery,
  is_unsettled, requeued, retry_logout_delivery_now, delete_logout_deliveries_older_than,
}
use kysignon_server.Deliveries.Leases.{Exclusive, later-IsExclusive}
use kysignon_server.Deliveries.Claimed.{has_token, claim_logout_delivery_exact, find_delivery}
use kysignon_server.Deliveries.Due.{map_some, without_broken}
use kysignon_server.Deliveries.Trace.{
  Op, claims, finishes, retries, prunes, queues, History, step, run, end_of, IsSound, step-IsSound,
  run-IsSound,
}

-- The operation gives the delivery new attempts, or is a claim whose token is not new.
abbrev pub restores : String → Op → Db → Bool
restores id (claims lease token) db =
    token == "" || exists_where (has_token token) db.logout_deliveries
restores id (finishes d e) db = false
restores id (retries user_id other audit) db =
    other == id && exists_where (is_unsettled user_id id) db.logout_deliveries
restores id (prunes cutoff) db = false
restores id (queues ids selects) db =
    exists_where (λ (cs : ClientSession). ids cs.sid == id) db.client_sessions

-- One where the claim yields this delivery.
abbrev pub got_it : String → Option ClaimedDelivery → ℕ
got_it id none = 0
got_it id (some c) = if c.delivery.id == id then 1 else 0

-- One where a worker gets this delivery.
abbrev pub is_try : ℕ → String → Op → Db → ℕ
is_try now id (claims lease token) db = got_it id (claim_logout_delivery now lease token db).1
is_try now id (finishes d e) db = 0
is_try now id (retries user_id other audit) db = 0
is_try now id (prunes cutoff) db = 0
is_try now id (queues ids selects) db = 0

-- How often workers get the delivery, until it is given new attempts.
unfoldable pub tries : String → ℕ → History → Db → ℕ
tries id now [] db = 0
tries id now ((wait, op) ∷ ops) db =
    let more = tries id (now + wait) ops (step (now + wait) op db) in
    if restores id op db then 0 else is_try (now + wait) id op db + more

-- The attempts that are left to a delivery.
abbrev pub budget : Option LogoutDelivery → ℕ
budget none = 0
budget (some d) = 5 - d.attempts

abbrev pub budget_of : String → List LogoutDelivery → ℕ
budget_of id rows = budget (find_where (delivery_is id) rows)

budget-update-le :
    (id : String) (p : LogoutDelivery → Bool) (f : LogoutDelivery → LogoutDelivery)
    → ((x : LogoutDelivery) → (f x).id ≡ x.id)
    → ((x : LogoutDelivery) → p x ≡ true → (x.id == id) ≡ true → (f x).attempts ≡ x.attempts)
    → (rows : List LogoutDelivery) → budget_of id (update_where p f rows) ≤ budget_of id rows
budget-update-le id p f same kept [] = omega arith
budget-update-le id p f same kept (x ∷ rows) =
    ground (arith, same x, kept x, budget-update-le id p f same kept rows)

budget-delete-le :
    (id : String) (p : LogoutDelivery → Bool) (rows : List LogoutDelivery)
    → count_where (delivery_is id) rows ≤ 1
    → budget_of id (delete_where p rows) ≤ budget_of id rows
budget-delete-le id p [] one = omega arith
budget-delete-le id p (x ∷ rows) one = elim (Bool-cases (x.id == id)) [
  | inr other ↦ ground (arith, other, one, budget-delete-le id p rows)
  | inl same ↦
      (let none_more : count_where (delivery_is id) (delete_where p rows) ≡ 0 =
          ground (arith, same, one, count-delete-le (delivery_is id) p rows) in
        ground (arith, same, count_zero-find (delivery_is id) (delete_where p rows) none_more))
]

budget-append :
    (id : String) (xs ys : List LogoutDelivery)
    → find_where (delivery_is id) ys ≡ none
    → budget_of id (xs ++ ys) ≡ budget_of id xs
budget-append id [] ys h = ap budget h
budget-append id (x ∷ xs) ys h = ground (arith, budget-append id xs ys h)

owed_all-find :
    (now : ℕ) (ids : String → String) (selects : ClientSession → Bool) (id : String)
    (css : List ClientSession)
    → exists_where (λ (cs : ClientSession). ids cs.sid == id) css ≡ false
    → find_where (delivery_is id) (owed_all now ids selects css) ≡ none
unfolding owed_all
owed_all-find now ids selects id [] h = refl
owed_all-find now ids selects id (cs ∷ css) h = ground (arith, owed_all-find now ids selects id css)

-- No operation but the two that restore attempts adds to the budget, and a try takes from it.
abbrev Pays : ℕ → String → Op → Db → Type 0
Pays now id op db =
    is_try now id op db + budget_of id (step now op db).logout_deliveries
    ≤ budget_of id db.logout_deliveries

lost-le :
    (now : ℕ) (o : Option LogoutDelivery) → budget (map_some (without_broken now) o) ≤ budget o
lost-le now none = omega arith
lost-le now (some d) = ground arith

claim-Pays :
    (now lease : ℕ) (token id : String) (db : Db)
    → Exclusive now db
    → restores id (claims lease token) db ≡ false
    → Pays now id (claims lease token) db
unfolding step
claim-Pays now lease token id db ex kept =
    let op = claims lease token in
    elim (claim_logout_delivery_exact now lease token db ex.0 (ground (arith, kept))
      (ground (arith, kept))) [
        | inl (idle, went) ↦
            (let tried : is_try now id op db ≡ 0 =
                ap (λ (r : Option ClaimedDelivery). got_it id r) (ap (λ x. x.1) went) in
              let same : step now op db ≡ db = ap (λ x. x.0) went in
              omega (arith, tried, ap (λ (e : Db). budget_of id e.logout_deliveries) same))
        | inr (d, c, db', went, leased) ↦
            (let tried : is_try now id op db ≡ (if d.id == id then 1 else 0) =
                ap (λ (r : Option ClaimedDelivery). got_it id r) (ap (λ x. x.1) went)
                ∙ ap (λ (e : LogoutDelivery). if e.id == id then 1 else 0) leased.got in
              let same : step now op db ≡ db' = ap (λ x. x.0) went in
              let after =
                ap (λ (e : Db). budget_of id e.logout_deliveries) same
                ∙ ap budget (leased.left id) in
              elim (Bool-cases (d.id == id)) [
                | inl mine ↦
                    (let stored : find_delivery id db ≡ some d =
                        subst (λ v. find_delivery v db ≡ some d) ((eq_iff d.id id).0 mine)
                          leased.stored in
                      let low : suc d.attempts ≤ 5 = ground (arith, leased.may) in
                      ground (arith, tried, after, mine, low, ap budget stored))
                | inr other ↦ ground (arith, tried, after, other, lost-le now (find_delivery id db))
              ])
      ]

finish-Pays :
    (now : ℕ) (id : String) (d : LogoutDelivery) (e : Option String) (db : Db)
    → Pays now id (finishes d e) db
unfolding step finish_logout_delivery outcome_of
finish-Pays now id d none db = omega (
  arith,
  budget-update-le id (is_claim d.id d.claim_token) (outcome_of now d.attempts none) (λ x. refl)
      (λ x h k. refl) db.logout_deliveries,
)
finish-Pays now id d (some m) db = omega (
  arith,
  budget-update-le id (is_claim d.id d.claim_token) (outcome_of now d.attempts (some m)) (λ x. refl)
      (λ x h k. refl) db.logout_deliveries,
)

-- A retry that reaches a row reaches the delivery that it names.
retried_other :
    (id user_id other : String) (rows : List LogoutDelivery)
    → (other == id && exists_where (is_unsettled user_id id) rows) ≡ false
    → eqb (count_where (is_unsettled user_id other) rows) 0 ≡ false
    → (other == id) ≡ false
retried_other id user_id other rows kept found = elim (Bool-cases (other == id)) [
  | inr different ↦ different
  | inl same ↦
      (let nobody : exists_where (is_unsettled user_id id) rows ≡ false =
          ground (arith, kept, same) in
        let zero_other : count_where (is_unsettled user_id other) rows ≡ 0 =
          subst (λ v. count_where (is_unsettled user_id v) rows ≡ 0)
            (sym ((eq_iff other id).0 same))
            (exists-count_zero (is_unsettled user_id id) rows nobody) in
        ground (arith, found, zero_other))
]

retry-Pays :
    (now : ℕ) (id user_id other : String) (audit : Option AuditEvent) (db : Db)
    → restores id (retries user_id other audit) db ≡ false
    → Pays now id (retries user_id other audit) db
unfolding step retry_logout_delivery_now
retry-Pays now id user_id other audit db kept =
    let hit = is_unsettled user_id other in
    let db' : Db = record db {
      logout_deliveries = update_where hit (requeued now) db.logout_deliveries;
    } in
    elim (Bool-cases (eqb (count_where hit db.logout_deliveries) 0)) [
      | inl nobody ↦ rw (step, retry_logout_delivery_now, nobody) (omega arith)
      | inr found ↦ elim (Result-cases (record_audit_tx now audit db')) [
        | inr (e, refused) ↦ rw (step, retry_logout_delivery_now, found, refused) (omega arith)
        | inl (end, went) ↦
            (let other_id = retried_other id user_id other db.logout_deliveries kept found in
              let less =
                budget-update-le id hit (requeued now) (λ x. refl)
                  (λ x h k.
                    ground
                      (arith, h, k, other_id, eq_iff x.id other, eq_iff x.id id, eq_iff other id))
                  db.logout_deliveries in
              rw (step, retry_logout_delivery_now, found, went)
                (rw (record_audit_tx-eq now audit db' went) (omega (arith, less))))
      ]
    ]

prune-Pays :
    (now cutoff : ℕ) (id : String) (db : Db) → Exclusive now db → Pays now id (prunes cutoff) db
unfolding step delete_logout_deliveries_older_than
prune-Pays now cutoff id db ex = omega (
  arith,
  budget-delete-le id (λ (d : LogoutDelivery). is_delivered d.status && ltb d.updated_at cutoff)
      db.logout_deliveries (ex.0 id),
)

queued-budget :
    (now : ℕ) (id : String) (ids : String → String) (selects : ClientSession → Bool) (db db' : Db)
    → exists_where (λ (cs : ClientSession). ids cs.sid == id) db.client_sessions ≡ false
    → enqueue_logout_tx now ids selects db ≡ ok db'
    → budget_of id db'.logout_deliveries ≡ budget_of id db.logout_deliveries
unfolding enqueue_logout_tx
queued-budget now id ids selects db db' kept h =
    let told = λ (cs : ClientSession). is_told db cs && selects cs in
    let (rows, all, put) =
      >>=-ok (queue_all now ids told db.client_sessions db.logout_deliveries)
        (λ r. ok (record db { logout_deliveries = r })) h in
    let grown : db' ≡ record db { logout_deliveries = rows } = ground (arith, put) in
    rw grown (
      rw (queue_all_ok now ids told db.client_sessions db.logout_deliveries rows all) (
        budget-append id db.logout_deliveries (owed_all now ids told db.client_sessions)
          (owed_all-find now ids told id db.client_sessions kept)))

queue-Pays :
    (now : ℕ) (id : String) (ids : String → String) (selects : ClientSession → Bool) (db : Db)
    → restores id (queues ids selects) db ≡ false
    → Pays now id (queues ids selects) db
unfolding step
queue-Pays now id ids selects db kept = elim (Result-cases (enqueue_logout_tx now ids selects db)) [
  | inl (db', went) ↦
      rw (step, went) (omega (arith, queued-budget now id ids selects db db' kept went))
  | inr (e, refused) ↦ rw (step, refused) (omega arith)
]

step-Pays :
    (now : ℕ) (id : String) (op : Op) (db : Db)
    → Exclusive now db
    → restores id op db ≡ false
    → Pays now id op db
step-Pays now id (claims lease token) db ex kept = claim-Pays now lease token id db ex kept
step-Pays now id (finishes d e) db ex kept = finish-Pays now id d e db
step-Pays now id (retries user_id other audit) db ex kept =
    retry-Pays now id user_id other audit db kept
step-Pays now id (prunes cutoff) db ex kept = prune-Pays now cutoff id db ex
step-Pays now id (queues ids selects) db ex kept = queue-Pays now id ids selects db kept

tries-budget :
    (now : ℕ) (id : String) (ops : History) (db : Db)
    → IsSound now db
    → tries id now ops db ≤ budget_of id db.logout_deliveries
unfolding tries
tries-budget now id [] db sound = omega arith
tries-budget now id ((wait, op) ∷ ops) db (ex, bounded) =
    let later = later-IsExclusive now (now + wait) db.logout_deliveries (omega arith) ex in
    let rest =
      tries-budget (now + wait) id ops (step (now + wait) op db)
        (step-IsSound (now + wait) op db (later, bounded)) in
    elim (Bool-cases (restores id op db)) [
      | inl restored ↦ ground (arith, restored)
      | inr kept ↦ ground (arith, kept, rest, step-Pays (now + wait) id op db later kept)
    ]

-- Over any history of claims, outcomes, retries, prunings and new deliveries that begins where delivery ids
-- are distinct, no client has two deliveries whose lease runs and no counter of attempts is above five:
-- all this is so at its end; and workers get a delivery at most as often as five is above its counter at
-- the beginning (never, if it is not there), counted until a retry resets the counter, a logout comes
-- whose new ids, one for each client session, include that of the delivery, or a claim comes with no
-- token or with one that is in use.
pub run_five_tries :
    (now : ℕ) (ops : History) (id : String) (db : Db)
    → IsSound now db
    → IsSound (end_of now ops) (run now ops db)
      × (tries id now ops db ≤ budget_of id db.logout_deliveries)
run_five_tries now ops id db sound =
    (run-IsSound now ops db sound, tries-budget now id ops db sound)
