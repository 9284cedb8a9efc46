-- ===== src/Deliveries/Trace.antt =====
-- Histories of the delivery queue of internal/store/logout_deliveries.go, under a clock that does not
-- go back.
use kysignon_server.Base.{
  ℕ, ◌+◌, Option, List, [], ◌∷◌, Bool, ◌&&◌, String, ok, err, ◌≡◌, arith, inl, inr, Result-cases,
  >>=-ok,
}
use kysignon_server.Schema.{Db, ClientSession, LogoutDelivery, AuditEvent}
use kysignon_server.Revocation.{is_told, queue_all, enqueue_logout_tx}
use kysignon_server.Deliveries.{
  claim_logout_delivery, finish_logout_delivery, retry_logout_delivery_now,
  delete_logout_deliveries_older_than,
}
use kysignon_server.Deliveries.Leases.{
  Exclusive, later-IsExclusive, claim-Exclusive, finish-Exclusive, retry-Exclusive, prune-Exclusive,
  queue_all-IsExclusive,
}
use kysignon_server.Deliveries.Attempts.{
  IsBounded, claim-IsBounded, finish-IsBounded, retry-IsBounded, prune-IsBounded,
  queue_all-IsBounded,
}

pub data Op : Type 0 where
  claims : ℕ → String → Op
  finishes : LogoutDelivery → Option String → Op
  retries : String → String → Option AuditEvent → Op
  prunes : ℕ → Op
  queues : (String → String) → (ClientSession → Bool) → Op

unfoldable pub step : ℕ → Op → Db → Db
step now (claims lease token) db = (claim_logout_delivery now lease token db).0
step now (finishes d e) db = (finish_logout_delivery now d e db).0
step now (retries user_id id audit) db = (retry_logout_delivery_now now user_id id audit db).0
step now (prunes cutoff) db = delete_logout_deliveries_older_than cutoff db
step now (queues ids selects) db = elim (enqueue_logout_tx now ids selects db) [
  | ok db' ↦ db'
  | err e ↦ db
]

-- Each operation with the time since the last.
abbrev pub History : Type 0
History = List (ℕ × Op)

unfoldable pub run : ℕ → History → Db → Db
unfolding step
run now [] db = db
run now ((wait, op) ∷ ops) db = run (now + wait) ops (step (now + wait) op db)

abbrev pub end_of : ℕ → History → ℕ
end_of now [] = now
end_of now ((wait, op) ∷ ops) = end_of (now + wait) ops

-- The invariant of the queue: distinct ids, one lease for each client, and no counter of
-- attempts above five.
abbrev pub IsSound : ℕ → Db → Type 0
IsSound now db = Exclusive now db × IsBounded db

queued-IsSound :
    (now : ℕ) (ids : String → String) (selects : ClientSession → Bool) (db db' : Db)
    → IsSound now db
    → enqueue_logout_tx now ids selects db ≡ ok db'
    → IsSound now db'
unfolding enqueue_logout_tx
queued-IsSound now ids selects db db' (ex, bounded) h =
    let told = λ (cs : ClientSession). is_told db cs && selects cs in
    let (rows, all, put) =
      >>=-ok (queue_all now ids told db.client_sessions db.logout_deliveries)
        (λ r. ok (record db { logout_deliveries = r })) h in
    let grown : db' ≡ record db { logout_deliveries = rows } = ground (arith, put) in
    rw grown (
      queue_all-IsExclusive now now ids told db.client_sessions db.logout_deliveries rows ex all,
      queue_all-IsBounded now ids told db.client_sessions db.logout_deliveries rows bounded all,
    )

pub step-IsSound : (now : ℕ) (op : Op) (db : Db) → IsSound now db → IsSound now (step now op db)
unfolding step
step-IsSound now (claims lease token) db (ex, bounded) =
    (claim-Exclusive now lease token db ex, claim-IsBounded now lease token db ex bounded)
step-IsSound now (finishes d e) db (ex, bounded) =
    (finish-Exclusive now now d e db ex, finish-IsBounded now d e db bounded)
step-IsSound now (retries user_id id audit) db (ex, bounded) = (
  retry-Exclusive now now user_id id audit db ex,
  retry-IsBounded now user_id id audit db bounded,
)
step-IsSound now (prunes cutoff) db (ex, bounded) =
    (prune-Exclusive now cutoff db ex, prune-IsBounded cutoff db bounded)
step-IsSound now (queues ids selects) db sound =
    elim (Result-cases (enqueue_logout_tx now ids selects db)) [
      | inl (db', went) ↦ rw (step, went) (queued-IsSound now ids selects db db' sound went)
      | inr (e, refused) ↦ rw (step, refused) sound
    ]

-- Every history keeps the invariant.
pub run-IsSound :
    (now : ℕ) (ops : History) (db : Db) → IsSound now db → IsSound (end_of now ops) (run now ops db)
unfolding run
run-IsSound now [] db sound = sound
run-IsSound now ((wait, op) ∷ ops) db (ex, bounded) =
    run-IsSound (now + wait) ops (step (now + wait) op db) (
      step-IsSound (now + wait) op db
        (later-IsExclusive now (now + wait) db.logout_deliveries (omega arith) ex, bounded))
