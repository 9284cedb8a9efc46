-- ===== src/Lib.antt =====
-- kysignon-server: an identity provider. Users log in with a password and a second factor, confirm
-- sensitive operations with a step-up, and applications get OAuth 2 / OpenID Connect codes and
-- tokens for them. All state is in one SQLite database, internal/store; the engines internal/mfa and
-- internal/oauth decide over it, and internal/api is its HTTP surface.
--
-- How the parts interact. A request passes the middleware (client address, CSRF). A sensitive handler
-- asks for a step-up grant, which a completed step-up challenge puts into the database and which the
-- guard spends. A step-up or a login proves a factor through the MFA engine: a TOTP code, an answer to a
-- push challenge, a recovery code. The authorization endpoint compares a session's evidence with the
-- application's policy and the request, writes a code into the database, and the token endpoint
-- exchanges the code: it reads the code, the client, the user and the end of the user's access, and
-- registers the token it signs. An administrative route passes the gate: a live session, the role or a
-- delegation, and the step-up guard where the route wants one. Every edit of access, and every approved
-- access request, ends by cutting off what its users lost, and the end of a session or of access
-- queues the logouts that clients are owed; a worker claims these one by one.
--
-- The files, and the code they are about:
-- - Base: instants, results and errors, tables (find, count, update, delete and insert on a list of
--   rows), text helpers (split, fields, lists with commas), and the lemmas on them.
-- - Schema: the rows of the tables, internal/store/models.go and the CREATE TABLE statements of
--   internal/store/store.go, app_access.go, app_authentication.go, group_enrollment.go,
--   client_sessions.go, logout_deliveries.go and access_requests.go. Db is the database: one list of
--   rows for each table, in the order of insertion. record_audit_tx is the audit insert of the
--   transactions, audited_tx is auditedTx.
-- - StepUp: internal/store/stepup.go, one function for each Store method, with its children: Trace
--   (histories of operations), Burn, SingleUse, Cancel, Attempts, Keys. StepUp.Guard is
--   requireStepUp, consumeStepUp and stepUpOperation of internal/api/stepup.go and
--   stepup_handlers.go.
-- - Mfa.Push, Mfa.Tokens, Mfa.Totp, Mfa.Recovery: internal/mfa/mfa.go (RespondPushChallenge,
--   CheckPushChallenge, ValidateMFAToken, calculateTOTPCode, matchTOTP, VerifyUserTOTP) with the
--   methods of internal/store/store.go that they call on mfa_challenges, mfa_tokens, mfa_methods and
--   recovery_codes.
-- - Access: the views of internal/store/app_access.go that decide who may use an application, and
--   AccessEndsAt of internal/store/expiry.go.
-- - Grants: SetAppPolicy, SetAppAssignment, SetAppAssignmentUntil and revokeLostAppAccessTx of
--   internal/store/app_access.go, with its children Steps, Cutoff, Edits and Direct.
-- - AccessRequests: internal/store/access_requests.go, with Decisions, Outcomes, Granted and Trace
--   (histories).
-- - Enrollment: the views of internal/store/group_enrollment.go and enrollment_policy.go that say which
--   factors a user needs and which sessions satisfy that.
-- - Oauth: ValidatePKCE, redirect addresses, scopes and authenticateClient of internal/oauth/oauth.go.
--   Oauth.Policy is internal/store/app_authentication.go with Satisfied and WithAppPolicy of
--   internal/oauth/authentication_request.go; Oauth.Requests is ParseAuthenticationRequest of the same
--   file; Oauth.Claims is internal/oauth/authentication.go; Oauth.Codes is the tables
--   authorization_codes and issued_tokens of internal/store/store.go; Oauth.Interactions is
--   internal/store/authorization_interactions.go; Oauth.Codes.Exchange is
--   ExchangeAuthorizationCode of internal/oauth/oauth.go up to the registration of the token.
-- - Sessions: CreateSessionForInteraction, GetSessionByTokenHash and TouchSession of
--   internal/store/store.go.
-- - Revocation: internal/store/sessions.go, client_sessions.go and enqueueLogoutTx of
--   internal/store/logout_deliveries.go. Deliveries: the rest of logout_deliveries.go, with Leases,
--   Attempts, Due, Claimed, Trace (histories), Tries and Spent.
-- - Delegations: internal/store/delegations.go, with the trigger of its table that
--   internal/store/group_enrollment.go declares.
-- - Permissions: internal/api/permissions.go, RequireAuth of internal/api/middleware.go and
--   requireStepUp of internal/api/server.go.
-- - Passwords: internal/auth/password.go. Netguard: internal/netguard/netguard.go.
-- - Lockout: RecordFailedLogin, IsAccountLocked and ClearFailedLogins of internal/store/store.go.
-- - Web: ClientIP and the CSRF check of internal/api/middleware.go.
--
-- How code corresponds to definitions. A Store method is a function from the database to the database
-- and the method's result; a transaction that fails gives the database it started from. SQL's WHERE is
-- a Boolean test on a row, UPDATE and DELETE go over every row that passes it, and an INSERT gives
-- `constraint` where a UNIQUE, CHECK or FOREIGN KEY of its table does not hold. Go errors are the
-- constructors of one data type, Base.Errors. An instant is a number of nanoseconds since 1970; an
-- operation reads the clock once and takes the reading as an argument, also where the code reads it
-- more than once. Stored instants compare as instants. Fresh identifiers and random bytes are
-- arguments. Machine words keep their wrap-around (the TOTP counter and the truncated code).
--
-- Code outside the repository is a parameter: SHA-256 and HMAC, the ECDSA check, decryption and base32 of
-- secrets, the encoding of JSON, Argon2 and base64, the parsers of net and net/url, and the trusted
-- networks. Every recursion is structural, on a list, a text or a time window of three steps. Only
-- the digits of a number take fuel, and as much of it as the number, which has fewer digits.
--
-- Not modelled: failures of the disk and of SQLite itself; encoding and signing of JWTs; HTTP
-- decoding, routing and rendering; the mail, push and sync clients; the queue of sync events, what
-- edits of access queue there, directory groups, SCIM, reconciliation, backup and restore, device
-- pairing, the expiry sweep, edits of policies for factors, and the rate limiter. The first are I/O or
-- library calls, the others are parts that no file here is about yet. Also left out are the audit
-- entry of a refused step-up and display names. Texts are valid UTF-8, those of delivery errors are
-- ASCII, and the clock is past the first TOTP step.
mod Base
pub mod Schema
pub mod StepUp
pub mod Mfa
pub mod Access
pub mod Enrollment
pub mod Oauth
pub mod Lockout
pub mod Sessions
pub mod Revocation
pub mod Deliveries
pub mod Delegations
pub mod Permissions
pub mod Grants
pub mod AccessRequests
pub mod Passwords
pub mod Netguard
pub mod Web
