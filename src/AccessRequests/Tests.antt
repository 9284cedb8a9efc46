-- ===== src/AccessRequests/Tests.antt =====
-- Runs of internal/store/access_requests.go.
use kysignon_server.Base.{
  none, some, [], ◌∷◌, true, false, ok, err, Error, List, arith, trim_space, len, pos, negsuc, ◌*◌,
  app_link_conflict, duplicate_request, request_not_pending, self_approval, cannot_decide, ◌≡◌,
  refl,
}
use kysignon_server.Schema.{
  Db, User, AccessRequest, RequestStatus, minute, audited_tx, record_audit_tx,
}
use kysignon_server.Schema.Samples.{with_app, alice, app, assignment}
use kysignon_server.Access.{effective_client_access, allowed, client_enabled}
use kysignon_server.Delegations.{owner_row}
use kysignon_server.Revocation.{is_told, queue_all, enqueue_logout_tx}
use kysignon_server.Grants.{
  revoke_lost_app_access_tx, put_assignment, write_user, write_grant, bump_app,
  apply_app_assignment_tx,
}
use kysignon_server.AccessRequests.{
  fresh_request, is_malformed, has_access, insert_request, create_request_tx, create_access_request,
  cancel_request_tx, cancel_access_request, may_decide, approve_tx, read_pending, check_decision,
  decided, decide_request_tx, decide_access_request, day, expire_access_requests_tx, expired_at,
}
use kysignon_server.AccessRequests.Outcomes.{Outcome, decide_access_request-Outcome}
use kysignon_server.AccessRequests.Granted.{decide_access_request_grants}
use kysignon_server.AccessRequests.Trace.{Op, run}
use kysignon_server.AccessRequests.Trace.Bounds.{IsBounded, run-IsBounded}
use kysignon_server.AccessRequests.Trace.Once.{decide_access_request-once}

abbrev bob : User
bob = record alice { id = "bob"; username = "bob" }

abbrev start : Db
start = record with_app {
  users = alice ∷ bob ∷ [];
  user_assignments = [];
  authorization_codes = [];
  admin_delegations = owner_row "bob" "app" ∷ [];
}

abbrev asked : AccessRequest
asked = fresh_request minute "r1" "alice" "app" "work" (60 * minute)

abbrev waiting : Db
waiting = record start { access_requests = asked ∷ [] }

filed :
    create_access_request minute "r1" "alice" "app" " work " (pos (60 * minute)) none start
    ≡ (waiting, ok asked)
unfolding create_access_request is_malformed trim_space len create_request_tx has_access allowed
    client_enabled insert_request record_audit_tx
filed = refl

again :
    create_access_request minute "r2" "alice" "app" "work" (pos 0) none waiting
    ≡ (waiting, err duplicate_request)
unfolding create_access_request is_malformed trim_space len create_request_tx has_access allowed
    client_enabled insert_request record_audit_tx
again = refl

negative :
    create_access_request minute "r1" "alice" "app" "work" (negsuc 0) none start
    ≡ (start, err app_link_conflict)
unfolding create_access_request is_malformed
negative = refl

-- Bob approves: Alice is assigned for an hour.
abbrev granted : Db
granted = record waiting {
  app_registry = record app { revision = 2 } ∷ [];
  user_assignments = record assignment { expires_at = some 3720 } ∷ [];
  access_requests = decided (2 * minute) "bob" "fine" RequestStatus.approved asked ∷ [];
}

approved :
    decide_access_request (2 * minute) (λ sid. sid) "r1" "bob" true "fine" none waiting
    ≡ (granted, ok (decided (2 * minute) "bob" "fine" RequestStatus.approved asked))
unfolding decide_access_request trim_space len decide_request_tx read_pending check_decision
    may_decide approve_tx record_audit_tx apply_app_assignment_tx bump_app write_grant write_user
    put_assignment revoke_lost_app_access_tx enqueue_logout_tx queue_all is_told
    effective_client_access allowed client_enabled
approved = refl

own_request :
    decide_access_request (2 * minute) (λ sid. sid) "r1" "alice" true "" none waiting
    ≡ (waiting, err self_approval)
unfolding decide_access_request trim_space len decide_request_tx read_pending check_decision
own_request = refl

outsider :
    decide_access_request (2 * minute) (λ sid. sid) "r1" "carol" true "" none waiting
    ≡ (waiting, err cannot_decide)
unfolding decide_access_request trim_space len decide_request_tx read_pending check_decision
    may_decide
outsider = refl

-- A decision that comes too late is refused, and the request still waits.
too_late :
    decide_access_request (15 * day) (λ sid. sid) "r1" "bob" true "" none waiting
    ≡ (waiting, err request_not_pending)
unfolding decide_access_request trim_space len decide_request_tx read_pending check_decision
too_late = refl

swept :
    expire_access_requests_tx (15 * day) waiting
    ≡ record waiting { access_requests = expired_at (15 * day) asked ∷ [] }
unfolding expire_access_requests_tx
swept = refl

not_hers : cancel_access_request minute "r1" "bob" none waiting ≡ (waiting, err request_not_pending)
unfolding cancel_access_request audited_tx cancel_request_tx
not_hers = refl

decide_access_request-Outcome_example :
    Outcome
      (2 * minute)
      "r1"
      "bob"
      (trim_space "fine")
      true
      waiting
      (decide_access_request (2 * minute) (λ sid. sid) "r1" "bob" true "fine" none waiting)
decide_access_request-Outcome_example =
    decide_access_request-Outcome (2 * minute) (λ sid. sid) "r1" "bob" true "fine" none waiting

decide_access_request_grants_example : has_access (30 * minute) "app" "alice" granted ≡ true
unfolding client_enabled
decide_access_request_grants_example =
    decide_access_request_grants (2 * minute) (λ sid. sid) "r1" "bob" "fine" none waiting granted
      (decided (2 * minute) "bob" "fine" RequestStatus.approved asked) (30 * minute) app approved
      refl refl refl refl

abbrev history : List Op
history =
    Op.create (3 * minute) "r2" "alice" "app" "more" (pos 0) none ∷ Op.expire (4 * minute) ∷ []

decide_access_request-once_example :
    ((e : Error) × (decide_access_request
          (5 * minute)
          (λ sid. sid)
          "r1"
          "bob"
          false
          ""
          none
          (run history granted)
        ≡ (run history granted, err e)))
    × ((e : Error) × (cancel_access_request (5 * minute) "r1" "bob" none (run history granted)
          ≡ (run history granted, err e)))
decide_access_request-once_example =
    decide_access_request-once (2 * minute) (λ sid. sid) "r1" "bob" true "fine" none waiting granted
      (decided (2 * minute) "bob" "fine" RequestStatus.approved asked) approved history (5 * minute)
      false "bob" "" none

start-IsBounded : IsBounded []
start-IsBounded = record {
  ids = λ v. omega arith;
  few = λ u. omega arith;
  single = λ a u. omega arith;
}

run-IsBounded_example : IsBounded (run history start).access_requests
run-IsBounded_example = run-IsBounded history start start-IsBounded
