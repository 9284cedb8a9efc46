-- ===== src/Oauth/Interactions/Tests.antt =====
-- Runs of the waiting requests: internal/store/authorization_interactions.go.
use kysignon_server.Base.{
  ◌+◌, ◌≤◌, [], ◌∷◌, Bool, true, false, ◌==◌, count_where, ok, err, interaction_invalid, Error, ◌⊎◌,
  ◌≡◌, refl, arith,
}
use kysignon_server.Schema.{Db, AuthorizationInteraction}
use kysignon_server.Schema.Samples.{with_app}
use kysignon_server.Oauth.Interactions.{
  owner_is, lapsed, unproved, has_room, swept, is_evicted, create_interaction_tx, session_lives,
  create_authorization_interaction, get_authorization_interaction, cancel_authorization_interaction,
}
use kysignon_server.Oauth.Interactions.Limits.{IsBounded, create_authorization_interaction_keeps}

abbrev waiting : AuthorizationInteraction
waiting = record {
  hash = "i";
  browser_hash = "b";
  user_id = "alice";
  original_session_id = "";
  session_id = "";
  request = "q";
  client_id = "client";
  created_at = 5;
  expires_at = 90;
}

abbrev expired : AuthorizationInteraction
expired = record waiting { hash = "old"; expires_at = 7 }

abbrev with_expired : Db
with_expired = record with_app { authorization_interactions = expired ∷ [] }

abbrev with_waiting : Db
with_waiting = record with_app { authorization_interactions = waiting ∷ [] }

creates : create_authorization_interaction 8 waiting with_expired ≡ (with_waiting, ok tt)
unfolding create_authorization_interaction create_interaction_tx swept is_evicted has_room
creates = refl

found : get_authorization_interaction 8 "i" "b" with_waiting ≡ ok waiting
unfolding get_authorization_interaction session_lives
found = refl

cancelled :
    get_authorization_interaction 8 "i" "b" (cancel_authorization_interaction "i" "b" with_waiting)
    ≡ err interaction_invalid
unfolding get_authorization_interaction cancel_authorization_interaction
cancelled = refl

few : IsBounded with_expired
few = (λ b. ground arith, ground arith)

create_authorization_interaction_keeps_example :
    ((e : Error) × (create_authorization_interaction 8 waiting with_expired
        ≡ (with_expired, err e)))
    ⊎ ((db' : Db) × (create_authorization_interaction 8 waiting with_expired ≡ (db', ok tt))
        × ((q : AuthorizationInteraction → Bool)
            → ((j : AuthorizationInteraction) → q j ≡ true → lapsed 8 j ≡ false)
            → count_where q db'.authorization_interactions
              ≡ count_where q with_expired.authorization_interactions
                + count_where q (unproved waiting ∷ []))
        × (("alice" == "") ≡ false
            → count_where (owner_is "alice") db'.authorization_interactions ≤ 10))
create_authorization_interaction_keeps_example =
    create_authorization_interaction_keeps 8 waiting with_expired refl
