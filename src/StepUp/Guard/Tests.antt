-- ===== src/StepUp/Guard/Tests.antt =====
-- Runs of the guards of internal/api/stepup.go.
use kysignon_server.Base.{
  String, some, [], ◌∷◌, ok, err, ◌≡◌, refl, arith, step_up_required, IsUnique,
}
use kysignon_server.Schema.{Db, StepUpToken, second}
use kysignon_server.Schema.Samples.{with_alice, alice, alice_session, grant}
use kysignon_server.StepUp.{consume_step_up_token}
use kysignon_server.StepUp.Guard.{Request, step_up_operation, credentials, consume_step_up}
use kysignon_server.StepUp.Guard.Opened.{IsGuarded, consume_step_up_exact}

abbrev same_text : String → String
same_text s = s

-- The preparation of an enrollment, whose grant names its end.
abbrev setup : Request
setup = record {
  user = some alice;
  session = some alice_session;
  step_up_header = "th";
  method = "POST";
  path = "/api/user/mfa/totp/setup";
}

abbrev with_grant : Db
with_grant = record with_alice {
  step_up_tokens = record grant { operation = "POST /api/user/mfa/totp/enable" } ∷ [];
}

accepted_now : (consume_step_up same_text second setup with_grant).1 ≡ ok tt
unfolding consume_step_up credentials step_up_operation consume_step_up_token
accepted_now = refl

other_path_refused :
    (consume_step_up same_text second (record setup { path = "/api/user/devices" }) with_grant).1
    ≡ err step_up_required
unfolding consume_step_up credentials step_up_operation consume_step_up_token
other_path_refused = refl

with_grant-IsUnique : IsUnique (λ (t : StepUpToken). t.token_hash) with_grant.step_up_tokens
with_grant-IsUnique v = ground arith

consume_step_up_exact_example : IsGuarded same_text second setup with_grant
consume_step_up_exact_example =
    consume_step_up_exact same_text second setup with_grant with_grant-IsUnique
