-- ===== src/Access/Tests.antt =====
-- Runs of internal/store/app_access.go and expiry.go.
use kysignon_server.Base.{some, true, false, ◌≡◌, refl, ◌*◌, arith}
use kysignon_server.Schema.{minute}
use kysignon_server.Schema.Samples.{with_app, app, alice}
use kysignon_server.Access.{
  not_over, client_enabled, allowed, effective_client_access, client_access_allowed, latest_from,
  pluck, grant_ends, ends_for, access_ends_at,
}
use kysignon_server.Access.Ends.{ends_for-allowed}

may_use : allowed minute with_app app alice ≡ true
unfolding allowed client_enabled
may_use = refl

ends_with_assignment : access_ends_at minute "alice" "client" with_app ≡ some 900
unfolding access_ends_at ends_for grant_ends pluck latest_from
ends_with_assignment = refl

over_then : client_access_allowed (15 * minute) "alice" "client" with_app ≡ false
unfolding client_access_allowed effective_client_access allowed client_enabled
over_then = refl

ends_for-allowed_example :
    allowed (15 * minute) with_app app alice
    ≡ not_over (15 * minute) (ends_for minute with_app app alice)
ends_for-allowed_example =
    ends_for-allowed minute (15 * minute) with_app app alice (omega arith) may_use
