-- ===== src/Delegations.antt =====
-- internal/store/delegations.go: narrow administrative powers of ordinary users.
pub mod Rows
pub mod Stored
mod Tests
use kysignon_server.Base.{
  ℕ, ◌+◌, Option, some, none, List, [], ◌∷◌, ◌++◌, Bool, true, false, ◌&&◌, ◌||◌, not, String, ◌==◌,
  text_before, is_none, option_test, find_where, exists_where, update_where, delete_where,
  if◌then◌else◌, Result, ok, err, ◌>>=◌, user_missing, app_record_missing, enrollment_conflict,
}
use kysignon_server.Schema.{
  Db, User, AppRecord, AuthorizationCode, AuthorizationInteraction, IssuedToken, AdminDelegation,
  EnrollmentPolicy, EnrollmentDeadline, FactorMask, AuditEvent, insert_row, user_exists, audited_tx,
  unix,
}
use kysignon_server.Enrollment.{applies, requirement}
use kysignon_server.Oauth.Codes.{revoke}

pub record Delegations : Type 0 where
  pub helpdesk : Bool
  pub auditor : Bool
  pub app_owner : List String

-- COALESCE(app_id,'')
abbrev pub app_of : AdminDelegation → String
app_of d = elim d.app_id [ none ↦ "" | some a ↦ a ]

-- ORDER BY app_id of the rows of one kind; sort.Strings.
unfoldable pub insert_text : String → List String → List String
insert_text a [] = a ∷ []
insert_text a (b ∷ bs) =
    let rest = insert_text a bs in if text_before b a then b ∷ rest else a ∷ b ∷ bs

abbrev pub is_row : String → String → AdminDelegation → Bool
is_row user_id kind d = d.user_id == user_id && d.kind == kind

unfoldable pub owned_apps : String → List AdminDelegation → List String
owned_apps user_id [] = []
owned_apps user_id (d ∷ rows) =
    let rest = owned_apps user_id rows in
    if is_row user_id "app_owner" d then insert_text (app_of d) rest else rest

unfoldable pub delegations : String → Db → Delegations
delegations user_id db = record {
  helpdesk = exists_where (is_row user_id "helpdesk") db.admin_delegations;
  auditor = exists_where (is_row user_id "auditor") db.admin_delegations;
  app_owner = owned_apps user_id db.admin_delegations;
}

abbrev pub is_empty_mask : FactorMask → Bool
is_empty_mask m = not (m.totp_bit || m.push_bit || m.webauthn_bit)

-- EXISTS(SELECT 1 FROM enrollment_requirements WHERE user_id=? AND allowed_mask=0)
pub is_conflicting : String → Db → Bool
is_conflicting user_id db =
    exists_where (λ (u : User). u.id == user_id && is_empty_mask (requirement db u).allowed_mask)
      db.users

-- INSERT OR IGNORE of the deadline that the policy for administrators gives the user.
pub administrator_deadlines : ℕ → String → Db → List EnrollmentDeadline
administrator_deadlines now user_id db =
    elim (find_where (λ (p : EnrollmentPolicy). p.scope == "administrators" && p.required)
      db.enrollment_policies) [
        | none ↦ db.enrollment_deadlines
        | some p ↦
            if exists_where (λ (d : EnrollmentDeadline). d.user_id == user_id && d.scope == p.scope)
              db.enrollment_deadlines
            then db.enrollment_deadlines
            else db.enrollment_deadlines
              ++ (record { user_id = user_id; scope = p.scope; due_at = unix now + p.grace_seconds }
                  ∷ [])
      ]

abbrev pub same_delegation : AdminDelegation → AdminDelegation → Bool
same_delegation d r = r.user_id == d.user_id && r.kind == d.kind && app_of r == app_of d

-- The INSERT with its trigger enrollment_new_delegation.
pub put_delegation : ℕ → AdminDelegation → Db → Result Db
put_delegation now d db = insert_row (same_delegation d) d db.admin_delegations >>= λ rows.
    (let db' : Db = record db { admin_delegations = rows } in
      if is_conflicting d.user_id db'
      then err enrollment_conflict
      else ok (record db' { enrollment_deadlines = administrator_deadlines now d.user_id db' }))

abbrev pub plain : String → String → AdminDelegation
plain user_id kind = record { user_id = user_id; kind = kind; app_id = none }

abbrev pub owner_row : String → String → AdminDelegation
owner_row user_id app = record { user_id = user_id; kind = "app_owner"; app_id = some app }

pub put_kind : ℕ → String → String → Bool → Db → Result Db
put_kind now user_id kind on db = if on then put_delegation now (plain user_id kind) db else ok db

-- The loop over the sorted applications; `before` is the one before.
pub put_owned : ℕ → String → Option String → List String → Db → Result Db
put_owned now user_id before [] db = ok db
put_owned now user_id before (app ∷ apps) db =
    let added =
      if exists_where (λ (a : AppRecord). a.id == app) db.app_registry
      then put_delegation now (owner_row user_id app) db
      else err app_record_missing in
    (if option_test false (λ b. b == app) before then ok db else added) >>= λ db'.
    put_owned now user_id (some app) apps db'

pub invalidate_user_enrollment_tx : ℕ → String → Db → Db
invalidate_user_enrollment_tx now user_id db = record db {
  authorization_codes =
      delete_where (λ (c : AuthorizationCode). c.user_id == user_id) db.authorization_codes;
  authorization_interactions =
      delete_where (λ (i : AuthorizationInteraction). i.user_id == user_id)
        db.authorization_interactions;
  issued_tokens =
      update_where (λ (t : IssuedToken). t.user_id == user_id && is_none t.revoked_at) (revoke now)
        db.issued_tokens;
}

pub sort_texts : List String → List String
sort_texts [] = []
sort_texts (a ∷ as') = insert_text a (sort_texts as')

-- The two kinds are inserted in the order of a Go map, which is not fixed; here helpdesk is first.
pub set_delegations_tx : ℕ → String → Delegations → Db → Result Db
set_delegations_tx now user_id d db =
    if user_exists user_id db
    then (put_kind now user_id "helpdesk" d.helpdesk (record db {
      admin_delegations =
          delete_where (λ (r : AdminDelegation). r.user_id == user_id) db.admin_delegations;
    })
        >>= λ db. put_kind now user_id "auditor" d.auditor db >>= λ db.
            put_owned now user_id none (sort_texts d.app_owner) db >>= λ db.
            ok (invalidate_user_enrollment_tx now user_id db))
    else err user_missing

-- `audit` is the event with its details.
pub set_delegations : ℕ → String → Delegations → Option AuditEvent → Db → Db × Result (Unit {0})
set_delegations now user_id d audit db = audited_tx now audit (set_delegations_tx now user_id d) db
