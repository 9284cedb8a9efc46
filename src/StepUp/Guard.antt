-- ===== src/StepUp/Guard.antt =====
-- internal/api/stepup.go: how a request's grant guards its operation.
pub mod Exact
pub mod Opened
mod Tests
use Prim.Native.String.{◌++◌}
use kysignon_server.Base.{
  ℕ, Option, some, none, Bool, true, false, ◌||◌, String, ◌==◌, if◌then◌else◌, Result, ok, err,
  step_up_required,
}
use kysignon_server.Schema.{Db, User, Session}
use kysignon_server.StepUp.{consume_step_up_token, has_valid_step_up_token}

-- What the guards read of a request: the identity that the middleware attached, the header with
-- the grant, "" where it is absent, and the operation.
pub record Request : Type 0 where
  pub user : Option User
  pub session : Option Session
  pub step_up_header : String
  pub method : String
  pub path : String

-- stepUpOperation of stepup_handlers.go: preparing an enrollment shares the grant of its end.
unfoldable pub step_up_operation : String → String
step_up_operation operation =
    if operation == "POST /api/user/mfa/totp/setup"
    then "POST /api/user/mfa/totp/enable"
    else if operation == "POST /api/user/passkeys/register/begin"
    then "POST /api/user/passkeys/register/finish"
    else operation

abbrev pub operation_of : Request → String
operation_of r = step_up_operation (r.method ++ (" " ++ r.path))

-- The identity and the grant of a request that has all three.
unfoldable pub credentials : Request → Option (String × (String × String))
credentials r = elim r.user [
  | none ↦ none
  | some u ↦ elim r.session [
    | none ↦ none
    | some s ↦ if r.step_up_header == "" then none else some (u.id, (s.id, r.step_up_header))
  ]
]

-- `hash` is crypto.HashSHA256.
module _ (hash : String → String) where
  pub require_step_up : ℕ → Request → Db → Result (Unit {0})
  require_step_up now r db = elim (credentials r) [
    | none ↦ err step_up_required
    | some (user_id, (session_id, raw)) ↦
        if has_valid_step_up_token now (hash raw) user_id session_id (operation_of r) db
        then ok tt
        else err step_up_required
  ]

  unfoldable pub consume_step_up : ℕ → Request → Db → Db × Result (Unit {0})
  consume_step_up now r db = elim (credentials r) [
    | none ↦ (db, err step_up_required)
    | some (user_id, (session_id, raw)) ↦
        (let (db', spent) =
            consume_step_up_token now (hash raw) user_id session_id (operation_of r) db in
          (db', if spent then ok tt else err step_up_required))
  ]
