-- ===== src/Schema.antt =====
-- The database of internal/store: its tables as lists of rows, and the audit insert that the
-- transactions share. A statement that the model does not refuse succeeds: SQLite's own I/O
-- errors are left out.
mod Accounts
mod Factors
mod Apps
mod Enrollment
mod Requests
pub mod Samples
pub use Accounts.*
pub use Factors.*
pub use Apps.*
pub use Enrollment.*
pub use Requests.*
use kysignon_server.Base.{
  ℕ, Option, some, none, List, [], ◌∷◌, ◌++◌, Bool, String, ◌==◌, exists_where, if◌then◌else◌,
  Result, ok, err, constraint, ◌≡◌, refl, IsUnique, false, subst, Bool-cases, count_where,
  exists-count_zero, count_mono, count-append, arith, ◌≤◌, eq_iff, true, ◌⊎◌, inl, inr, Error,
  ◌>>=◌, >>=-ok, ap, sym, ◌∙◌,
}

pub record Db : Type 0 where
  pub users : List User
  pub sessions : List Session
  pub login_failures : List LoginFailure
  pub step_up_tokens : List StepUpToken
  pub step_up_challenges : List StepUpChallenge
  pub mfa_methods : List MfaMethod
  pub mfa_challenges : List MfaChallenge
  pub mfa_tokens : List MfaToken
  pub recovery_codes : List RecoveryCode
  pub native_devices : List NativeDevice
  pub webauthn_credentials : List WebAuthnCredential
  pub oauth_clients : List OauthClient
  pub app_registry : List AppRecord
  pub user_assignments : List UserAssignment
  pub group_assignments : List GroupAssignment
  pub group_memberships : List GroupMembership
  pub directory_groups : List DirectoryGroup
  pub authorization_codes : List AuthorizationCode
  pub issued_tokens : List IssuedToken
  pub authorization_interactions : List AuthorizationInteraction
  pub client_sessions : List ClientSession
  pub logout_deliveries : List LogoutDelivery
  pub access_requests : List AccessRequest
  pub enrollment_policies : List EnrollmentPolicy
  pub enrollment_deadlines : List EnrollmentDeadline
  pub admin_delegations : List AdminDelegation
  pub audit_events : List AuditEvent

abbrev pub empty_db : Db
empty_db = record {
  users = [];
  sessions = [];
  login_failures = [];
  step_up_tokens = [];
  step_up_challenges = [];
  mfa_methods = [];
  mfa_challenges = [];
  mfa_tokens = [];
  recovery_codes = [];
  native_devices = [];
  webauthn_credentials = [];
  oauth_clients = [];
  app_registry = [];
  user_assignments = [];
  group_assignments = [];
  group_memberships = [];
  directory_groups = [];
  authorization_codes = [];
  issued_tokens = [];
  authorization_interactions = [];
  client_sessions = [];
  logout_deliveries = [];
  access_requests = [];
  enrollment_policies = [];
  enrollment_deadlines = [];
  admin_delegations = [];
  audit_events = [];
}

-- INSERT of one row into a table, refused where `clashes` finds a row with its key.
abbrev pub insert_row : {A : Type 0} → (A → Bool) → A → List A → Result (List A)
insert_row clashes x xs = if exists_where clashes xs then err constraint else ok (xs ++ (x ∷ []))

-- REFERENCES users(id).
abbrev pub user_exists : String → Db → Bool
user_exists id db = exists_where (λ u. u.id == id) db.users

abbrev pub with_created_at : ℕ → AuditEvent → AuditEvent
with_created_at now e = elim e.created_at [ none ↦ record e { created_at = some now } | some t ↦ e ]

-- recordAuditTx: no event, no row; an event without a time gets the clock's.
unfoldable pub record_audit_tx : ℕ → Option AuditEvent → Db → Result Db
record_audit_tx now none db = ok db
record_audit_tx now (some e) db =
    elim (insert_row (λ r. r.id == e.id) (with_created_at now e) db.audit_events) [
      | ok rows ↦ ok (record db { audit_events = rows })
      | err x ↦ err x
    ]

-- The audit table after an event was recorded.
abbrev pub audited : ℕ → Option AuditEvent → List AuditEvent → List AuditEvent
audited now none rows = rows
audited now (some e) rows = rows ++ (with_created_at now e ∷ [])

-- A transaction commits its last state, or rolls back to its first.
abbrev pub commit : {A : Type 0} → A → Result Db → Db → Db × Result A
commit a (ok db') db = (db', ok a)
commit a (err e) db = (db, err e)

-- What holds before a transaction and of its last state holds after it.
pub commit_rule {ℓ} :
    {A : Type 0} (P : Db → Type ℓ) (a : A) (r : Result Db) (db : Db)
    → P db
    → ((db' : Db) → r ≡ ok db' → P db')
    → P (commit a r db).0
commit_rule P a (ok db') db p q = q db' refl
commit_rule P a (err e) db p q = p

-- A transaction commits the whole of its last state, or changes nothing and reports an error.
pub commit_cases :
    {A : Type 0} (a : A) (r : Result Db) (db : Db)
    → ((db' : Db) × (r ≡ ok db') × (commit a r db ≡ (db', ok a)))
      ⊎ ((e : Error) × (r ≡ err e) × (commit a r db ≡ (db, err e)))
commit_cases a (ok db') db = inl (db', refl, refl)
commit_cases a (err e) db = inr (e, refl, refl)

insert_row_ok :
    {A : Type 0} (clashes : A → Bool) (x : A) (xs ys : List A)
    → insert_row clashes x xs ≡ ok ys
    → (exists_where clashes xs ≡ false) × (ys ≡ xs ++ (x ∷ []))
insert_row_ok clashes x xs ys h = ground arith

-- An INSERT that refuses a row with the key of an old one keeps the column UNIQUE.
pub insert_row-IsUnique :
    {A : Type 0} (key : A → String) (clashes : A → Bool) (x : A) (xs ys : List A)
    → ((r : A) → (key r == key x) ≡ true → clashes r ≡ true)
    → IsUnique key xs
    → insert_row clashes x xs ≡ ok ys
    → IsUnique key ys
insert_row-IsUnique {A} key clashes x xs ys covers unique h v =
    let (fresh, appended) = insert_row_ok clashes x xs ys h in
    let with_key : String → A → Bool = λ w r. key r == w in
    let old : count_where (with_key (key x)) xs ≤ 0 = omega (
      arith,
      exists-count_zero clashes xs fresh,
      count_mono (with_key (key x)) clashes covers xs,
    ) in
    rw appended (elim (Bool-cases (key x == v)) [
      | inl same ↦
          let old_v : count_where (with_key v) xs ≤ 0 =
            subst (λ w. count_where (with_key w) xs ≤ 0) ((eq_iff (key x) v).0 same) old in
          ground (arith, old_v, count-append (with_key v) xs (x ∷ []))
      | inr other ↦ ground (arith, unique v, count-append (with_key v) xs (x ∷ []))
    ])

-- Recording an audit event changes the audit table only.
pub record_audit_tx-eq :
    (now : ℕ) (a : Option AuditEvent) (db : Db) {db' : Db}
    → record_audit_tx now a db ≡ ok db'
    → db' ≡ record db { audit_events = audited now a db.audit_events }
unfolding record_audit_tx
record_audit_tx-eq now none db h = ground arith
record_audit_tx-eq now (some e) db h = ground arith

-- auditedTx: the work and its audit event, or neither.
unfoldable pub audited_tx : ℕ → Option AuditEvent → (Db → Result Db) → Db → Db × Result (Unit {0})
audited_tx now audit work db = commit tt (work db >>= λ db'. record_audit_tx now audit db') db

-- A successful auditedTx has done its work and recorded its event.
pub audited_tx_ok :
    (now : ℕ) (audit : Option AuditEvent) (work : Db → Result Db) (db db' : Db)
    → audited_tx now audit work db ≡ (db', ok tt)
    → (mid : Db) × (work db ≡ ok mid)
      × (db' ≡ record mid { audit_events = audited now audit mid.audit_events })
unfolding audited_tx
audited_tx_ok now audit work db db' done =
    elim (commit_cases tt (work db >>= λ d. record_audit_tx now audit d) db) [
      | inr (e, refused, rolled) ↦ ground (arith, done, rolled)
      | inl (end, went, committed) ↦
          (let (mid, worked, recorded) = >>=-ok (work db) (λ d. record_audit_tx now audit d) went in
            (
              mid,
              worked,
              ap (λ r. r.0) (sym done ∙ committed) ∙ record_audit_tx-eq now audit mid recorded,
            ))
    ]

-- An auditedTx whose work fails, or whose event is refused, changes nothing.
pub audited_tx_cases :
    (now : ℕ) (audit : Option AuditEvent) (work : Db → Result Db) (db : Db)
    → ((db' : Db) × (audited_tx now audit work db ≡ (db', ok tt)))
      ⊎ ((e : Error) × (audited_tx now audit work db ≡ (db, err e)))
unfolding audited_tx
audited_tx_cases now audit work db =
    elim (commit_cases tt (work db >>= λ d. record_audit_tx now audit d) db) [
      | inr (e, refused, rolled) ↦ inr (e, rolled)
      | inl (end, went, committed) ↦ inl (end, committed)
    ]
