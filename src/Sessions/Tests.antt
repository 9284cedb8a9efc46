-- ===== src/Sessions/Tests.antt =====
-- Runs of CreateSessionForInteraction of internal/store/store.go.
use kysignon_server.Base.{some, none, [], ◌∷◌, ok, err, interaction_invalid, ◌≡◌, refl, arith}
use kysignon_server.Schema.{Db, Session, AuthorizationInteraction}
use kysignon_server.Schema.Samples.{with_alice, alice_session}
use kysignon_server.Enrollment.{requirement, meets, session_allowed}
use kysignon_server.Sessions.{
  Waiting, is_active_user, origin_lives, binds, bind_interaction, fresh_session, confine,
  put_session, create_session_for_interaction,
}
use kysignon_server.Sessions.Bound.{touches, run, create_session_for_interaction-once}

abbrev waiting : AuthorizationInteraction
waiting = record {
  hash = "i";
  browser_hash = "b";
  user_id = "";
  original_session_id = "";
  session_id = "";
  request = "q";
  client_id = "client";
  created_at = 5;
  expires_at = 90;
}

abbrev asked : Waiting
asked = record { interaction_hash = "i"; browser_hash = "b" }

abbrev login : Session
login = record alice_session {
  id = "new";
  session_token_hash = "new_token";
  expires_at = 500;
  evidence = record {
    primary_authenticated_at = some 6;
    factor_authenticated_at = none;
    factor_method = "";
  };
}

abbrev before : Db
before = record with_alice { authorization_interactions = waiting ∷ [] }

abbrev after : Db
after = record before {
  sessions = alice_session ∷ fresh_session 8 login ∷ [];
  authorization_interactions = record waiting { session_id = "new"; user_id = "alice" } ∷ [];
}

logged_in : create_session_for_interaction 8 login asked before ≡ (after, ok tt)
unfolding create_session_for_interaction bind_interaction binds is_active_user origin_lives
    put_session confine session_allowed meets requirement
logged_in = refl

abbrev again : Session
again = record login { id = "third"; session_token_hash = "third_token" }

create_session_for_interaction-once_example :
    create_session_for_interaction 9 again asked (run (touches 9 "new" ∷ []) after)
    ≡ (run (touches 9 "new" ∷ []) after, err interaction_invalid)
create_session_for_interaction-once_example =
    create_session_for_interaction-once 8 9 login again asked asked before after
      (touches 9 "new" ∷ []) (λ v. ground arith) refl refl logged_in refl refl
