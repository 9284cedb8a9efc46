-- ===== src/Deliveries.antt =====
-- internal/store/logout_deliveries.go: the queue of logouts that clients are owed. A worker claims a
-- delivery under a lease, and records the attempt under its claim token.
pub mod Leases
pub mod Attempts
pub mod Due
pub mod Claimed
pub mod Tries
pub mod Trace
pub mod Spent
mod Tests
use Prim.Native.String.{String}
use kysignon_server.Base.{
  ℕ, zero, suc, ◌+◌, ◌-◌, ◌*◌, ◌%◌, ◌^◌, min, Option, some, none, List, [], ◌∷◌, Bool, true, false,
  ◌&&◌, ◌||◌, not, ◌==◌, ltb, leb, eqb, option_test, find_where, count_where, exists_where,
  update_where, delete_where, if◌then◌else◌, Result, ok, err, not_found,
}
use kysignon_server.Schema.{
  Db, OauthClient, LogoutDelivery, DeliveryStatus, is_queued, is_delivered, AuditEvent,
  record_audit_tx, second, minute,
}

abbrev pub logout_delivery_attempts : ℕ
logout_delivery_attempts = 5

abbrev pub lapsed_at : ℕ → Option ℕ → Bool
lapsed_at now lease = option_test false (λ t. leb t now) lease

-- lease_until>now
abbrev pub leased_at : ℕ → Option ℕ → Bool
leased_at now lease = option_test false (ltb now) lease

abbrev pub is_interrupted : ℕ → LogoutDelivery → Bool
is_interrupted now d =
    is_queued d.status && lapsed_at now d.lease_until && leb logout_delivery_attempts d.attempts

abbrev pub give_up : ℕ → LogoutDelivery → LogoutDelivery
give_up now d = record d {
  status = DeliveryStatus.failed;
  last_error = "interrupted repeatedly";
  claim_token = "";
  lease_until = none;
  updated_at = now;
}

abbrev pub in_flight : ℕ → String → LogoutDelivery → Bool
in_flight now client_id d =
    d.client_id == client_id && is_queued d.status && leased_at now d.lease_until

pub is_due : ℕ → List LogoutDelivery → LogoutDelivery → Bool
is_due now rows d =
    is_queued d.status
    && leb d.next_attempt_at now
    && not (leased_at now d.lease_until)
    && ltb d.attempts logout_delivery_attempts
    && not (exists_where (in_flight now d.client_id) rows)

-- ORDER BY created_at LIMIT 1; of rows of one age, the first.
pub oldest : (LogoutDelivery → Bool) → List LogoutDelivery → Option LogoutDelivery
oldest p [] = none
oldest p (d ∷ rows) = elim (oldest p rows) [
  | none ↦ if p d then some d else none
  | some e ↦ if p d && leb d.created_at e.created_at then some d else some e
]

abbrev pub lease_to : ℕ → ℕ → String → LogoutDelivery → LogoutDelivery
lease_to now lease token d = record d {
  claim_token = token;
  lease_until = some (now + lease);
  attempts = d.attempts + 1;
  updated_at = now;
}

abbrev pub delivery_is : String → LogoutDelivery → Bool
delivery_is id d = d.id == id

abbrev pub settled : ℕ → List LogoutDelivery → List LogoutDelivery
settled now rows = update_where (is_interrupted now) (give_up now) rows

-- The row and what the LEFT JOIN adds to it.
pub record ClaimedDelivery : Type 0 where
  pub delivery : LogoutDelivery
  pub client_name : String
  pub backchannel_logout_uri : String

pub with_client : Db → LogoutDelivery → ClaimedDelivery
with_client db d = elim (find_where (λ (c : OauthClient). c.id == d.client_id) db.oauth_clients) [
  | none ↦ record { delivery = d; client_name = d.client_id; backchannel_logout_uri = "" }
  | some c ↦ record {
    delivery = d;
    client_name = c.client_name;
    backchannel_logout_uri = c.backchannel_logout_uri;
  }
]

-- `token` is the new random claim token. Where nothing is due the transaction is rolled back.
pub claim_logout_delivery : ℕ → ℕ → String → Db → Db × Option ClaimedDelivery
claim_logout_delivery now lease token db =
    let rows = settled now db.logout_deliveries in
    elim (oldest (is_due now rows) rows) [
      | none ↦ (db, none)
      | some d ↦
          (let claimed = update_where (delivery_is d.id) (lease_to now lease token) rows in
            (
              record db { logout_deliveries = claimed },
              elim (find_where (λ (d : LogoutDelivery). d.claim_token == token) claimed) [
                | none ↦ none
                | some mine ↦ some (with_client db mine)
              ],
            ))
    ]

-- now.Add(logoutRetryDelay(attempts)), with the wrap-around of int64.
pub retry_at : ℕ → ℕ → ℕ
retry_at now attempts =
    let delay = 2 ^ attempts * (30 * second) % 2 ^ 64 in
    if leb (2 ^ 63) delay then now - (2 ^ 64 - delay) else now + min delay (30 * minute)

-- message[:200], of a text of ASCII characters.
pub cut : ℕ → String → String
cut zero s = ""
cut (suc n) String.[] = ""
cut (suc n) (String.◌∷◌ c s) = String.◌∷◌ c (cut n s)

abbrev pub is_claim : String → String → LogoutDelivery → Bool
is_claim id token d = d.id == id && d.claim_token == token && not (d.claim_token == "")

abbrev pub finished : ℕ → DeliveryStatus → String → ℕ → LogoutDelivery → LogoutDelivery
finished now status message next d = record d {
  status = status;
  last_error = message;
  next_attempt_at = next;
  claim_token = "";
  lease_until = none;
  updated_at = now;
}

-- The attempt's outcome, as the row shows it: no error, or the error's text.
pub outcome_of : ℕ → ℕ → Option String → LogoutDelivery → LogoutDelivery
outcome_of now attempts none d = finished now DeliveryStatus.delivered "" now d
outcome_of now attempts (some message) d =
    finished now
      (if leb logout_delivery_attempts attempts
        then DeliveryStatus.failed
        else DeliveryStatus.queued)
      (cut 200 message) (retry_at now attempts) d

-- `d` is the delivery as it was claimed.
pub finish_logout_delivery : ℕ → LogoutDelivery → Option String → Db → Db × Result (Unit {0})
finish_logout_delivery now d attempt_error db = (
  record db {
    logout_deliveries =
        update_where (is_claim d.id d.claim_token) (outcome_of now d.attempts attempt_error)
          db.logout_deliveries;
  },
  if eqb (count_where (is_claim d.id d.claim_token) db.logout_deliveries) 0
      then err not_found
      else ok tt,
)

abbrev pub is_unsettled : String → String → LogoutDelivery → Bool
is_unsettled user_id id d = d.id == id && d.user_id == user_id && not (is_delivered d.status)

abbrev pub requeued : ℕ → LogoutDelivery → LogoutDelivery
requeued now d = record d {
  status = DeliveryStatus.queued;
  attempts = 0;
  next_attempt_at = now;
  claim_token = "";
  lease_until = none;
  updated_at = now;
}

pub retry_logout_delivery_now : ℕ → String → String → Option AuditEvent → Db → Db × Result Bool
retry_logout_delivery_now now user_id id audit db =
    if eqb (count_where (is_unsettled user_id id) db.logout_deliveries) 0
    then (db, ok false)
    else elim (record_audit_tx now audit (record db {
      logout_deliveries =
          update_where (is_unsettled user_id id) (requeued now) db.logout_deliveries;
    })) [ ok db' ↦ (db', ok true) | err e ↦ (db, err e) ]

pub delete_logout_deliveries_older_than : ℕ → Db → Db
delete_logout_deliveries_older_than cutoff db = record db {
  logout_deliveries =
      delete_where (λ (d : LogoutDelivery). is_delivered d.status && ltb d.updated_at cutoff)
        db.logout_deliveries;
}
