-- ===== src/AccessRequests/Granted.antt =====
-- An approval gives access: DecideAccessRequest of internal/store/access_requests.go with the views of
-- internal/store/app_access.go.
use kysignon_server.Base.{
  ℕ, Option, some, List, [], ◌∷◌, Bool, true, false, ◌&&◌, String, ◌==◌, option_test, trim_space,
  find_where, exists_where, update_where, Result, ok, ◌≡◌, arith, inl, inr, ap, ◌∙◌, sym, subst,
  eq_iff, eq_refl, exists_mono, find_where_sound,
}
use kysignon_server.Schema.{Db, User, AppRecord, AccessRequest, AuditEvent}
use kysignon_server.Access.{account_active, not_over, allowed, client_enabled, is_direct}
use kysignon_server.Grants.{is_app, bump, unix_or_nil}
use kysignon_server.Grants.Direct.{is_direct_for}
use kysignon_server.AccessRequests.{
  is_requestable, has_access, granted_until, decided, status_of, decide_access_request,
}
use kysignon_server.AccessRequests.Outcomes.{Outcome, IsDecided, decide_access_request-Outcome}

exists-update_found :
    {A : Type 0} (p q : A → Bool) (f : A → A) (a : A)
    → q (f a) ≡ true
    → (xs : List A) → find_where p xs ≡ some a
    → exists_where q (update_where p f xs) ≡ true
exists-update_found p q f a hit [] h = cc
exists-update_found p q f a hit (x ∷ xs) h = ground (arith, hit, exists-update_found p q f a hit xs)

-- Who has a direct assignment and an active account may use an enabled application.
allowed_direct :
    (t : ℕ) (db : Db) (a : AppRecord) (u : User) (user_id : String)
    → (u.id == user_id && account_active t u) ≡ true
    → client_enabled db a ≡ true
    → a.enabled ≡ true
    → exists_where (is_direct_for t a.id user_id) db.user_assignments ≡ true
    → (u.id == user_id && allowed t db a u) ≡ true
unfolding allowed
allowed_direct t db a u user_id active client enabled direct =
    let same : u.id ≡ user_id = (eq_iff u.id user_id).0 (ground (arith, active)) in
    let held : exists_where (is_direct t a u.id) db.user_assignments ≡ true =
      subst (λ v. exists_where (is_direct t a v) db.user_assignments ≡ true) (sym same)
        (exists_mono (is_direct_for t a.id user_id) (is_direct t a user_id)
          (λ d h. ground (arith, h)) db.user_assignments direct) in
    ground (arith, active, client, enabled, held)

module _ (now : ℕ) (id actor_id note : String) (r : AccessRequest) (db db' : Db)
    (decides : IsDecided now id actor_id note true r db db') (t : ℕ) (a : AppRecord)
    (registered : find_where (is_app r.app_id) db.app_registry ≡ some a) where
  same_id : a.id ≡ r.app_id
  same_id =
      (eq_iff a.id r.app_id).0 (find_where_sound (is_app r.app_id) db.app_registry a registered)

  open_app : is_requestable a ≡ true
  open_app =
      subst (λ (o : Option AppRecord). option_test false is_requestable o ≡ true) registered
        decides.requestable

  assigned_until :
      not_over t (unix_or_nil (granted_until now r)) ≡ true
      → exists_where (is_direct_for t a.id r.user_id) db'.user_assignments ≡ true
  assigned_until ahead =
      decides.assigned t a.id r.user_id
      ∙ ground (arith, ahead, same_id, eq_iff a.id r.app_id, eq_refl r.user_id)

  client_still : client_enabled db a ≡ true → client_enabled db' (bump a) ≡ true
  unfolding client_enabled
  client_still h = rw decides.clients h

  accessible :
      client_enabled db a ≡ true
      → exists_where (λ (u : User). u.id == r.user_id && account_active t u) db.users ≡ true
      → not_over t (unix_or_nil (granted_until now r)) ≡ true
      → has_access t r.app_id r.user_id db' ≡ true
  unfolding has_access
  accessible client active ahead =
      let may_use : User → Bool = λ u. u.id == r.user_id && allowed t db' (bump a) u in
      let is_active : User → Bool = λ u. u.id == r.user_id && account_active t u in
      let reaches : AppRecord → Bool = λ x.
        is_app r.app_id x && exists_where (λ u. u.id == r.user_id && allowed t db' x u) db'.users in
      let still_active : exists_where is_active db'.users ≡ true =
        ap (exists_where is_active) decides.users ∙ active in
      let enabled : a.enabled ≡ true = ground (arith, open_app) in
      let inside : exists_where may_use db'.users ≡ true =
        exists_mono is_active may_use
          (λ u h.
            allowed_direct t db' (bump a) u r.user_id h (client_still client) enabled
              (assigned_until ahead))
          db'.users still_active in
      let hit : reaches (bump a) ≡ true =
        ground (arith, inside, find_where_sound (is_app r.app_id) db.app_registry a registered) in
      ap (exists_where reaches) decides.registry
      ∙ exists-update_found (is_app r.app_id) reaches bump a hit db.app_registry registered

-- An approval works: where DecideAccessRequest approves a request, its user may use the application at
-- every instant before the end that the request asks for, at which the user's account is active, if the
-- application has no client or one that is enabled.
pub decide_access_request_grants :
    (now : ℕ) (ids : String → String) (id actor_id note : String) (audit : Option AuditEvent)
    (db db' : Db) (out : AccessRequest) (t : ℕ) (a : AppRecord)
    → decide_access_request now ids id actor_id true note audit db ≡ (db', ok out)
    → find_where (is_app out.app_id) db.app_registry ≡ some a
    → client_enabled db a ≡ true
    → exists_where (λ (u : User). u.id == out.user_id && account_active t u) db.users ≡ true
    → not_over t (unix_or_nil (granted_until now out)) ≡ true
    → has_access t out.app_id out.user_id db' ≡ true
unfolding Outcome
decide_access_request_grants now ids id actor_id note audit db db' out t a done registered client
      active ahead =
    elim (decide_access_request-Outcome now ids id actor_id true note audit db) [
      | inl (e, rolled) ↦ ground (arith, done, rolled)
      | inr (r, end, went, may, decides) ↦
          (let settled : AccessRequest =
              decided now actor_id (trim_space note) (status_of true) r in
            let same_db : end ≡ db' =
              ap (λ (x : Db × Result AccessRequest). x.0) (sym went ∙ done) in
            let results : Result.ok settled ≡ ok out =
              ap (λ (x : Db × Result AccessRequest). x.1) (sym went ∙ done) in
            let same : settled ≡ out = cc results in
            let app : r.app_id ≡ out.app_id = ap (λ (o : AccessRequest). o.app_id) same in
            let user : r.user_id ≡ out.user_id = ap (λ (o : AccessRequest). o.user_id) same in
            let goal : has_access t r.app_id r.user_id end ≡ true =
              accessible now id actor_id (trim_space note) r db end decides t a
                (subst (λ v. find_where (is_app v) db.app_registry ≡ some a) (sym app) registered)
                client
                (subst
                  (λ v.
                    exists_where (λ (u : User). u.id == v && account_active t u) db.users ≡ true)
                  (sym user) active)
                (subst
                  (λ (o : AccessRequest). not_over t (unix_or_nil (granted_until now o)) ≡ true)
                  (sym same) ahead) in
            subst (λ v. has_access t v out.user_id db' ≡ true) app
              (subst (λ v. has_access t r.app_id v db' ≡ true) user
                (subst (λ d. has_access t r.app_id r.user_id d ≡ true) same_db goal)))
    ]
