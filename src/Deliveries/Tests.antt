-- ===== src/Deliveries/Tests.antt =====
-- Runs of the delivery queue of internal/store/logout_deliveries.go.
use kysignon_server.Base.{
  ◌+◌, ◌*◌, ◌≤◌, some, none, [], ◌∷◌, ◌++◌, false, exists_where, ok, err, not_found, ◌≡◌, ◌⊎◌, refl,
  arith,
}
use kysignon_server.Schema.{Db, LogoutDelivery, DeliveryStatus, second, minute}
use kysignon_server.Schema.Samples.{with_app}
use kysignon_server.Deliveries.{
  ClaimedDelivery, is_due, oldest, lease_to, with_client, claim_logout_delivery, retry_at,
  outcome_of, finish_logout_delivery,
}
use kysignon_server.Deliveries.Trace.{claims, finishes, run, end_of, step, History, IsSound}
use kysignon_server.Deliveries.Due.{may_run}
use kysignon_server.Deliveries.Claimed.{IsClaimed, claim_logout_delivery_exact}
use kysignon_server.Deliveries.Tries.{tries, budget_of, run_five_tries}
use kysignon_server.Deliveries.Spent.{finish_logout_delivery-once}
use kysignon_server.Deliveries.Attempts.{retry_at_bounds}

abbrev waiting : LogoutDelivery
waiting = record {
  id = "d";
  client_id = "client";
  user_id = "alice";
  sid = "sid";
  status = DeliveryStatus.queued;
  attempts = 0;
  last_error = "";
  claim_token = "";
  lease_until = none;
  next_attempt_at = 5;
  created_at = 5;
  updated_at = 5;
}

abbrev exhausted : LogoutDelivery
exhausted = record waiting {
  id = "x";
  client_id = "other";
  attempts = 5;
  claim_token = "t0";
  lease_until = some 7;
}

abbrev with_waiting : Db
with_waiting = record with_app { logout_deliveries = waiting ∷ [] }

abbrev with_exhausted : Db
with_exhausted = record with_app { logout_deliveries = exhausted ∷ [] }

abbrev leased : LogoutDelivery
leased = lease_to 9 10 "t" waiting

abbrev with_leased : Db
with_leased = record with_app { logout_deliveries = leased ∷ [] }

claimed : claim_logout_delivery 9 10 "t" with_waiting ≡ (
  record with_app { logout_deliveries = leased ∷ [] },
  some (record {
    delivery = leased;
    client_name = "Client";
    backchannel_logout_uri = "https://a.example/logout";
  }),
)
unfolding claim_logout_delivery oldest is_due with_client
claimed = refl

-- The delivery out of attempts stays in the queue.
interrupted_stays : claim_logout_delivery 9 10 "t" with_exhausted ≡ (with_exhausted, none)
unfolding claim_logout_delivery oldest is_due
interrupted_stays = refl

fails_once :
    (finish_logout_delivery 12 leased
      (some "timeout")
      (record with_app { logout_deliveries = leased ∷ [] })).1
    ≡ ok tt
unfolding finish_logout_delivery
fails_once = refl

backs_off : retry_at 0 3 ≡ 240 * second
unfolding retry_at
backs_off = refl

abbrev history : History
history = (4, claims 10 "t") ∷ (3, finishes leased (some "timeout")) ∷ []

-- The worker gets the delivery once in this history, and it is not restored there.
tried_once : tries "d" 5 history with_waiting ≡ 1
unfolding tries step claim_logout_delivery oldest is_due with_client finish_logout_delivery
tried_once = refl

-- A failure, an interrupted try and one more.
tried_thrice :
    tries "d" 5 (history ++ (minute, claims 10 "u") ∷ (99, claims 10 "v") ∷ []) with_waiting ≡ 3
unfolding tries step claim_logout_delivery oldest is_due with_client finish_logout_delivery
    outcome_of retry_at
tried_thrice = refl

run_five_tries_example :
    IsSound (end_of 5 history) (run 5 history with_waiting)
    × (tries "d" 5 history with_waiting ≤ budget_of "d" with_waiting.logout_deliveries)
run_five_tries_example =
    run_five_tries 5 history "d" with_waiting ((λ v. ground arith, λ c. ground arith), refl)

claim_logout_delivery_exact_example :
    ((exists_where (may_run 9 (waiting ∷ [])) (waiting ∷ []) ≡ false)
      × (claim_logout_delivery 9 10 "t" with_waiting ≡ (with_waiting, none)))
    ⊎ ((d : LogoutDelivery) × (c : ClaimedDelivery) × (db' : Db) × (claim_logout_delivery 9 10 "t"
            with_waiting
          ≡ (db', some c))
        × IsClaimed 9 10 "t" d c with_waiting db')
claim_logout_delivery_exact_example =
    claim_logout_delivery_exact 9 10 "t" with_waiting (λ v. ground arith) refl refl

finish_logout_delivery-once_example :
    let db' =
      run 12 ((1, claims 10 "u") ∷ []) (finish_logout_delivery 12 leased none with_leased).0 in
    finish_logout_delivery 20 leased (some "late") db' ≡ (db', err not_found)
finish_logout_delivery-once_example =
    finish_logout_delivery-once 12 20 leased leased none (some "late") ((1, claims 10 "u") ∷ [])
      with_leased refl refl refl

retry_at_bounds_example : (7 + minute ≤ retry_at 7 2) × (retry_at 7 2 ≤ 7 + 30 * minute)
retry_at_bounds_example = retry_at_bounds 7 2 (omega arith) (omega arith)
