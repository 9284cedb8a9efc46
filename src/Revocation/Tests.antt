-- ===== src/Revocation/Tests.antt =====
-- Runs of RevokeSession of internal/store/sessions.go.
use kysignon_server.Base.{
  some, none, [], ◌∷◌, ◌++◌, Bool, true, false, ◌&&◌, count_where, ok, err, not_found, ◌≡◌, refl,
}
use kysignon_server.Schema.{Db, Session, ClientSession, audited_tx, record_audit_tx}
use kysignon_server.Schema.Samples.{with_app, grant, challenge}
use kysignon_server.Revocation.{
  is_told, owed, queue_all, enqueue_logout_tx, in_ended, revoke_session_grants_tx, delete_sessions,
  revoke_sessions_tx, is_own, revoke_own, revoke_session, ensure_row, ensure_client_session,
}
use kysignon_server.Revocation.SignedOut.{IsSignedOut, owed_all, revoke_session_signs_out}

abbrev known : ClientSession
known = record {
  sid = "sid";
  client_id = "client";
  session_id = "s1";
  user_id = "alice";
  created_at = 3;
}

abbrev before : Db
before = record with_app {
  client_sessions = known ∷ [];
  step_up_tokens = grant ∷ [];
  step_up_challenges = challenge ∷ [];
}

abbrev after : Db
after = record before {
  sessions = [];
  client_sessions = [];
  authorization_codes = [];
  step_up_tokens = record grant { used_at = some 9 } ∷ [];
  step_up_challenges = [];
  logout_deliveries = owed 9 "sid" known ∷ [];
}

signs_out : revoke_session 9 (λ sid. sid) "alice" "s1" none before ≡ (after, ok tt)
unfolding revoke_session audited_tx record_audit_tx revoke_own revoke_sessions_tx enqueue_logout_tx
    queue_all is_told revoke_session_grants_tx delete_sessions
signs_out = refl

foreign : revoke_session 9 (λ sid. sid) "bob" "s1" none before ≡ (before, err not_found)
unfolding revoke_session audited_tx record_audit_tx revoke_own revoke_sessions_tx enqueue_logout_tx
    queue_all is_told revoke_session_grants_tx delete_sessions
foreign = refl

known_sid : ensure_client_session 5 "other" "client" "s1" "alice" before ≡ (before, ok "sid")
unfolding ensure_client_session ensure_row
known_sid = refl

revoke_session_signs_out_example :
    IsSignedOut "s1" after
    × (count_where (is_own "alice" "s1") after.sessions ≡ 0)
    × ((q : Session → Bool)
        → ((s : Session) → q s ≡ true → is_own "alice" "s1" s ≡ false)
        → count_where q after.sessions ≡ count_where q before.sessions)
    × (after.logout_deliveries
        ≡ before.logout_deliveries
          ++ owed_all 9
              (λ sid. sid)
              (λ cs. is_told before cs && in_ended (is_own "alice" "s1") before cs.session_id)
              before.client_sessions)
revoke_session_signs_out_example =
    revoke_session_signs_out 9 (λ sid. sid) "alice" "s1" none before after signs_out
