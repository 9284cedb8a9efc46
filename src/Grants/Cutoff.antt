-- ===== src/Grants/Cutoff.antt =====
-- What an edit of an application's access leaves usable: internal/store/app_access.go.
use kysignon_server.Base.{
  ℕ, List, ◌++◌, Bool, true, false, ◌&&◌, not, String, ◌==◌, is_none, count_where, update_where,
  delete_where, if◌then◌else◌, ok, >>=-ok, ◌≡◌, refl, arith, inl, inr, count-delete_inside,
  count-delete_outside, count-update_cover, count-update_meet, count_where-none, eq_iff, ◌∙◌, subst,
  ap, Bool-cases,
}
use kysignon_server.Schema.{Db, ClientSession, AuthorizationCode, IssuedToken}
use kysignon_server.Access.{effective_client_access, allowed, client_enabled}
use kysignon_server.Oauth.Codes.{revoke}
use kysignon_server.Revocation.{is_told, queue_all, enqueue_logout_tx}
use kysignon_server.Revocation.SignedOut.{owed_all, queue_all_ok}
use kysignon_server.Grants.{has_lost, revoke_lost_app_access_tx}

-- What a user has at a client: tokens that are not revoked, codes, and logins that the client knows.
abbrev pub is_live_token : String → String → IssuedToken → Bool
is_live_token u c t = is_none t.revoked_at && t.user_id == u && t.client_id == c

abbrev pub is_code : String → String → AuthorizationCode → Bool
is_code u c k = k.user_id == u && k.client_id == c

abbrev pub is_login_of : String → String → ClientSession → Bool
is_login_of u c cs = cs.user_id == u && cs.client_id == c

-- What is there for a user at a client stays if the access is there, and is gone otherwise; a client
-- that knew a login that is gone, and has a receiver, is owed one delivery for it.
pub record IsEnforced (now : ℕ) (ids : String → String) (before after : Db) : Type 0 where
  pub tokens :
      (u c : String)
      → count_where (is_live_token u c) after.issued_tokens ≡ (
          if effective_client_access now u c after
          then count_where (is_live_token u c) before.issued_tokens
          else 0)
  pub codes :
      (u c : String)
      → count_where (is_code u c) after.authorization_codes ≡ (
          if effective_client_access now u c after
          then count_where (is_code u c) before.authorization_codes
          else 0)
  pub logins :
      (u c : String)
      → count_where (is_login_of u c) after.client_sessions ≡ (
          if effective_client_access now u c after
          then count_where (is_login_of u c) before.client_sessions
          else 0)
  pub told :
      after.logout_deliveries
      ≡ before.logout_deliveries
        ++ owed_all now ids
            (λ cs. is_told before cs && has_lost now after cs.user_id cs.client_id)
            before.client_sessions

same_pair :
    (p : String → String → Bool) (u c u' c' : String) (b : Bool)
    → (u' == u && c' == c) ≡ true
    → p u c ≡ b
    → p u' c' ≡ b
same_pair p u c u' c' b same h =
    let first : u ≡ u' = ground (arith, same, eq_iff u' u) in
    let second : c ≡ c' = ground (arith, same, eq_iff c' c) in
    subst (λ x. p x c' ≡ b) first (subst (λ x. p u x ≡ b) second h)

-- Rows of a user at a client, after a DELETE of the rows of all pairs that lost their access.
count-delete_lost :
    {A : Type 0} (user client : A → String) (has : String → String → Bool) (u c : String)
    (xs : List A)
    → count_where
        (λ x. user x == u && client x == c)
        (delete_where (λ x. not (has (user x) (client x))) xs)
      ≡ (if has u c then count_where (λ x. user x == u && client x == c) xs else 0)
count-delete_lost {A} user client has u c xs =
    let own : A → Bool = λ x. user x == u && client x == c in
    let gone : A → Bool = λ x. not (has (user x) (client x)) in
    elim (Bool-cases (has u c)) [
      | inl kept ↦ rw kept (
          count-delete_outside own gone
            (λ x h. ground (arith, same_pair has u c (user x) (client x) true h kept)) xs)
      | inr lost ↦ rw lost (
          count-delete_inside own gone
            (λ x h. ground (arith, same_pair has u c (user x) (client x) false h lost)) xs)
    ]

count-update_lost :
    (now : ℕ) (has : String → String → Bool) (u c : String) (ts : List IssuedToken)
    → count_where (is_live_token u c) (
        update_where (λ t. is_none t.revoked_at && not (has t.user_id t.client_id)) (revoke now) ts)
      ≡ (if has u c then count_where (is_live_token u c) ts else 0)
count-update_lost now has u c ts =
    let gone : IssuedToken → Bool = λ t. is_none t.revoked_at && not (has t.user_id t.client_id) in
    elim (Bool-cases (has u c)) [
      | inl kept ↦ rw kept (
          omega (
            arith,
            count-update_meet (is_live_token u c) gone (revoke now) (λ t h. refl) ts,
            count_where-none (λ t. gone t && is_live_token u c t)
                (λ t. ground (arith, same_pair has u c t.user_id t.client_id true, kept)) ts,
          ))
      | inr lost ↦ rw lost (
          count-update_cover (is_live_token u c) gone (revoke now)
            (λ t h.
              ground
                (arith, h, same_pair has u c t.user_id t.client_id false (ground (arith, h)) lost))
            (λ t. refl) ts)
    ]

-- The tables after the cut-off, in terms of the rows before it.
unfoldable pub cut_db : ℕ → (String → String) → Db → Db
cut_db now ids db = record db {
  issued_tokens =
      update_where
        (λ (t : IssuedToken). is_none t.revoked_at && has_lost now db t.user_id t.client_id)
        (revoke now) db.issued_tokens;
  authorization_codes =
      delete_where (λ (c : AuthorizationCode). has_lost now db c.user_id c.client_id)
        db.authorization_codes;
  client_sessions =
      delete_where (λ (cs : ClientSession). has_lost now db cs.user_id cs.client_id)
        db.client_sessions;
  logout_deliveries =
      db.logout_deliveries
      ++ owed_all now ids (λ cs. is_told db cs && has_lost now db cs.user_id cs.client_id)
          db.client_sessions;
}

pub revoke_lost_app_access_tx_ok :
    (now : ℕ) (ids : String → String) (db db' : Db)
    → revoke_lost_app_access_tx now ids db ≡ ok db'
    → db' ≡ cut_db now ids db
unfolding revoke_lost_app_access_tx enqueue_logout_tx cut_db is_told
revoke_lost_app_access_tx_ok now ids db db' went =
    let lost = λ (cs : ClientSession). has_lost now db cs.user_id cs.client_id in
    let selects = λ (cs : ClientSession). is_told db cs && lost cs in
    let cut : Db = record db {
      issued_tokens =
          update_where
            (λ (t : IssuedToken). is_none t.revoked_at && has_lost now db t.user_id t.client_id)
            (revoke now) db.issued_tokens;
      authorization_codes =
          delete_where (λ (c : AuthorizationCode). has_lost now db c.user_id c.client_id)
            db.authorization_codes;
    } in
    let finish = λ (d : Db). record d { client_sessions = delete_where lost d.client_sessions } in
    let (mid, queued, done) =
      >>=-ok (enqueue_logout_tx now ids lost cut) (λ d. ok (finish d)) went in
    let (rows, all, put) =
      >>=-ok (queue_all now ids selects db.client_sessions db.logout_deliveries)
        (λ r. ok (record cut { logout_deliveries = r })) queued in
    let grown = queue_all_ok now ids selects db.client_sessions db.logout_deliveries rows all in
    let whole : mid ≡ record cut {
      logout_deliveries = db.logout_deliveries ++ owed_all now ids selects db.client_sessions;
    } =
      ground (arith, put, grown) in
    let ends_in : db' ≡ finish mid = ground (arith, done) in ends_in ∙ ap finish whole

pub cut_db-IsEnforced :
    (now : ℕ) (ids : String → String) (db : Db) → IsEnforced now ids db (cut_db now ids db)
unfolding cut_db effective_client_access allowed client_enabled
cut_db-IsEnforced now ids db =
    let has = λ (u c : String). effective_client_access now u c db in
    record {
      tokens = λ u c. count-update_lost now has u c db.issued_tokens;
      codes = λ u c.
          count-delete_lost (λ k. k.user_id) (λ k. k.client_id) has u c db.authorization_codes;
      logins =
          λ u c. count-delete_lost (λ s. s.user_id) (λ s. s.client_id) has u c db.client_sessions;
      told = refl;
    }
