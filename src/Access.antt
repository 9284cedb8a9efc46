-- ===== src/Access.antt =====
-- Who may use an application: the views and decisions of internal/store/app_access.go and
-- expiry.go. Every operation takes the clock's reading.
pub mod Ends
mod Tests
use kysignon_server.Base.{
  ℕ, Option, some, none, List, [], ◌∷◌, ◌++◌, map, Bool, true, false, ◌&&◌, ◌||◌, not, String, ◌==◌,
  ltb, is_none, option_test, find_where, exists_where, update_where, delete_where, if◌then◌else◌,
  is_some,
}
use kysignon_server.Schema.{
  Db, User, AppRecord, UserAssignment, GroupAssignment, GroupMembership, AuthorizationCode,
  IssuedToken, OauthClient, is_active, is_open_mode, unix,
}

-- expires_at IS NULL OR expires_at>unixepoch()
abbrev pub not_over : ℕ → Option ℕ → Bool
not_over now expires_at = option_test true (ltb (unix now)) expires_at

-- users.status='active' AND the account has not ended.
abbrev pub account_active : ℕ → User → Bool
account_active now u = is_active u.status && not_over now u.ends_at

-- a.client_id IS NULL OR the client is enabled.
unfoldable pub client_enabled : Db → AppRecord → Bool
client_enabled db a =
    option_test true
      (λ id. exists_where (λ (c : OauthClient). c.id == id && c.enabled) db.oauth_clients)
      a.client_id

-- app_access_facts.direct
abbrev pub is_direct : ℕ → AppRecord → String → UserAssignment → Bool
is_direct now a user_id d = d.app_id == a.id && d.user_id == user_id && not_over now d.expires_at

-- A membership of the user, in a group of the application, that live_group_memberships holds.
abbrev pub is_member : ℕ → Db → AppRecord → String → GroupMembership → Bool
is_member now db a user_id m =
    m.user_id == user_id
    && not_over now m.expires_at
    && exists_where (λ (g : GroupAssignment). g.app_id == a.id && g.group_id == m.group_id)
        db.group_assignments

-- The row of effective_app_access for an application and a user: appAllowedSQL over the facts.
unfoldable pub allowed : ℕ → Db → AppRecord → User → Bool
allowed now db a u =
    account_active now u
    && client_enabled db a
    && a.enabled
    && (is_open_mode a.access_mode
        || exists_where (is_direct now a u.id) db.user_assignments
        || exists_where (is_member now db a u.id) db.group_memberships)

abbrev pub has_client : String → AppRecord → Bool
has_client client_id a = option_test false (λ id. id == client_id) a.client_id

-- EXISTS(SELECT 1 FROM effective_app_access e JOIN app_registry a …) for a user and a client.
unfoldable pub effective_client_access : ℕ → String → String → Db → Bool
effective_client_access now user_id client_id db =
    exists_where
      (λ a.
        has_client client_id a
        && exists_where (λ u. u.id == user_id && allowed now db a u) db.users)
      db.app_registry

unfoldable pub client_access_allowed : ℕ → String → String → Db → Bool
client_access_allowed now user_id client_id db =
    exists_where (λ (c : OauthClient). c.id == client_id && c.enabled) db.oauth_clients
    && effective_client_access now user_id client_id db

-- The loop of AccessEndsAt over the grants that are not over. The first result tells of a grant
-- without an end, the second is the latest end.
abbrev pub later : ℕ → Option ℕ → Option ℕ
later t none = some t
later t (some s) = if ltb s t then some t else some s

abbrev pub Grants : Type 0
Grants = List (Option ℕ)

unfoldable pub latest_from : Option ℕ → Grants → Bool × Option ℕ
latest_from latest [] = (false, latest)
latest_from latest (none ∷ ends) = (true, latest)
latest_from latest (some t ∷ ends) = latest_from (later t latest) ends

-- SELECT … WHERE of one nullable instant.
unfoldable pub pluck : {A : Type 0} → (A → Bool) → (A → Option ℕ) → List A → Grants
pluck p ends_of [] = []
pluck p ends_of (x ∷ xs) = let rest = pluck p ends_of xs in if p x then ends_of x ∷ rest else rest

-- `end == nil || (latest != nil && latest.Before(*end))`
abbrev pub earlier_end : Option ℕ → Option ℕ → Option ℕ
earlier_end none latest = latest
earlier_end (some e) none = some e
earlier_end (some e) (some t) = if ltb t e then some t else some e

-- The UNION ALL of AccessEndsAt. PRIMARY KEY(app_id, group_id) keeps the join from repeating a
-- membership.
unfoldable pub grant_ends : ℕ → Db → AppRecord → String → Grants
grant_ends now db a user_id =
    pluck (is_direct now a user_id) (λ (d : UserAssignment). d.expires_at) db.user_assignments
    ++ pluck (is_member now db a user_id) (λ (m : GroupMembership). m.expires_at)
        db.group_memberships

-- AccessEndsAt for one application and one user, in Unix seconds.
unfoldable pub ends_for : ℕ → Db → AppRecord → User → Option ℕ
ends_for now db a u =
    let (unbounded, latest) = latest_from none (grant_ends now db a u.id) in
    if is_open_mode a.access_mode
    then u.ends_at
    else if unbounded
    then u.ends_at
    else earlier_end u.ends_at latest

unfoldable pub access_ends_at : ℕ → String → String → Db → Option ℕ
access_ends_at now user_id client_id db = elim (find_where (has_client client_id) db.app_registry) [
  | none ↦ none
  | some a ↦ elim (find_where (λ (u : User). u.id == user_id) db.users) [
    | none ↦ none
    | some u ↦ ends_for now db a u
  ]
]
