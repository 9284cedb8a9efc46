-- ===== src/Revocation/SignedOut.antt =====
-- What is left of a login that was ended: internal/store/sessions.go.
use kysignon_server.Base.{
  ℕ, Option, some, none, List, [], ◌∷◌, ◌++◌, Bool, true, false, ◌&&◌, String, ◌==◌, eqb, is_none,
  option_test, count_where, if◌then◌else◌, ok, err, >>=-ok, not_found, ◌≡◌, refl, arith, inl, inr,
  count-delete_inside, count-delete_outside, count-update_cover, count-delete_self,
  exists-count_zero, count_mono, eq_iff, ◌∙◌, sym, subst, ap, Bool-cases, append-nil, append_assoc,
}
use kysignon_server.Schema.{
  Db, Session, ClientSession, LogoutDelivery, AuthorizationCode, AuthorizationInteraction,
  IssuedToken, StepUpToken, StepUpChallenge, AuditEvent, audited, insert_row, audited_tx_ok,
}
use kysignon_server.Oauth.Codes.{revoke}
use kysignon_server.StepUp.{burn_token}
use kysignon_server.Revocation.{
  is_told, owed, queue_all, enqueue_logout_tx, in_ended, revoke_session_grants_tx, delete_sessions,
  revoke_sessions_tx, is_own, revoke_own, revoke_session,
}

-- The deliveries owed to these client sessions, in their order.
unfoldable pub owed_all :
    ℕ → (String → String) → (ClientSession → Bool) → List ClientSession → List LogoutDelivery
owed_all now ids selects [] = []
owed_all now ids selects (cs ∷ more) =
    let rest = owed_all now ids selects more in
    if selects cs then owed now (ids cs.sid) cs ∷ rest else rest

pub queue_all_ok :
    (now : ℕ) (ids : String → String) (selects : ClientSession → Bool) (css : List ClientSession)
    (rows rows' : List LogoutDelivery)
    → queue_all now ids selects css rows ≡ ok rows'
    → rows' ≡ rows ++ owed_all now ids selects css
unfolding queue_all owed_all
queue_all_ok now ids selects [] rows rows' h = ground (arith, append-nil rows)
queue_all_ok now ids selects (cs ∷ more) rows rows' h = elim (Bool-cases (selects cs)) [
  | inl chosen ↦
      (let fresh = owed now (ids cs.sid) cs in
        let (mid, put, rest) =
          >>=-ok
            (if selects cs
              then insert_row (λ (d : LogoutDelivery). d.id == fresh.id) fresh rows
              else ok rows)
            (λ rows'. queue_all now ids selects more rows') h in
        let grown : mid ≡ rows ++ (fresh ∷ []) = ground (arith, chosen, put) in
        rw chosen (
          queue_all_ok now ids selects more mid rows' rest
          ∙ ap (λ m. m ++ owed_all now ids selects more) grown
          ∙ append_assoc rows (fresh ∷ []) (owed_all now ids selects more)))
  | inr skipped ↦ rw skipped (queue_all_ok now ids selects more rows rows' (rw skipped at h))
]

-- Nothing that this session minted can be used.
abbrev pub IsSignedOut : String → Db → Type 0
IsSignedOut id db =
    (count_where
        (λ (t : IssuedToken). is_none t.revoked_at && option_test false (λ s. s == id) t.session_id)
        db.issued_tokens
      ≡ 0)
    × (count_where (λ (c : AuthorizationCode). c.session_id == id) db.authorization_codes ≡ 0)
    × (count_where (λ (t : StepUpToken). is_none t.used_at && t.session_id == id) db.step_up_tokens
        ≡ 0)
    × (count_where (λ (c : StepUpChallenge). c.session_id == id) db.step_up_challenges ≡ 0)
    × (count_where (λ (i : AuthorizationInteraction). i.session_id == id)
          db.authorization_interactions
        ≡ 0)
    × (count_where (λ (cs : ClientSession). cs.session_id == id) db.client_sessions ≡ 0)

same_ended :
    (ends : Session → Bool) (db : Db) (s id : String)
    → (s == id) ≡ true
    → in_ended ends db id ≡ true
    → in_ended ends db s ≡ true
same_ended ends db s id same ended =
    subst (λ v. in_ended ends db v ≡ true) (sym ((eq_iff s id).0 same)) ended

session_selected :
    (ends : Session → Bool) (db : Db) (id : String)
    → in_ended ends db id ≡ true
    → (o : Option String) → option_test false (λ s. s == id) o ≡ true
    → option_test false (in_ended ends db) o ≡ true
session_selected ends db id ended none h = cc
session_selected ends db id ended (some s) h = same_ended ends db s id h ended

-- The whole effect of the transaction, in terms of the rows before it.
pub revoked_db : ℕ → (String → String) → (Session → Bool) → Db → Db
revoked_db now ids ends db = delete_sessions ends (
    revoke_session_grants_tx now
      (λ session_id user_id. option_test false (in_ended ends db) session_id)
      (record db {
        logout_deliveries =
            db.logout_deliveries
            ++ owed_all now ids (λ cs. is_told db cs && in_ended ends db cs.session_id)
                db.client_sessions;
      }))

pub revoke_sessions_tx_ok :
    (now : ℕ) (ids : String → String) (ends : Session → Bool) (db db' : Db)
    → revoke_sessions_tx now ids ends db ≡ ok db'
    → db' ≡ revoked_db now ids ends db
unfolding revoke_sessions_tx enqueue_logout_tx revoked_db
revoke_sessions_tx_ok now ids ends db db' h =
    let told = λ (cs : ClientSession). is_told db cs && in_ended ends db cs.session_id in
    let finish = λ (d : Db). delete_sessions ends (
      revoke_session_grants_tx now
        (λ session_id user_id. option_test false (in_ended ends db) session_id) d) in
    let (mid, queued, done) =
      >>=-ok (enqueue_logout_tx now ids (λ cs. in_ended ends db cs.session_id) db)
        (λ d. ok (finish d)) h in
    let (rows, all, put) =
      >>=-ok (queue_all now ids told db.client_sessions db.logout_deliveries)
        (λ r. ok (record db { logout_deliveries = r })) queued in
    let grown = queue_all_ok now ids told db.client_sessions db.logout_deliveries rows all in
    let whole : mid ≡ record db {
      logout_deliveries = db.logout_deliveries ++ owed_all now ids told db.client_sessions;
    } =
      ground (arith, put, grown) in
    let ends_in : db' ≡ finish mid = ground (arith, done) in ends_in ∙ ap finish whole

revoked-IsSignedOut :
    (now : ℕ) (ids : String → String) (ends : Session → Bool) (db : Db) (id : String)
    → in_ended ends db id ≡ true
    → IsSignedOut id (revoked_db now ids ends db)
unfolding revoked_db delete_sessions revoke_session_grants_tx
revoked-IsSignedOut now ids ends db id ended =
    let same = λ (s : String) (h : (s == id) ≡ true). same_ended ends db s id h ended in
    let picks = session_selected ends db id ended in
    (
      count-update_cover _ _ (revoke now) (λ t h. ground (arith, h, picks t.session_id)) (λ t. refl)
          db.issued_tokens,
      count-delete_inside _ _ (λ c h. same c.session_id h) db.authorization_codes,
      count-update_cover _ _ (burn_token now) (λ t h. ground (arith, h, same t.session_id))
          (λ t. refl) db.step_up_tokens,
      count-delete_inside _ _ (λ c h. same c.session_id h) db.step_up_challenges,
      count-delete_inside _ _ (λ i h. same i.session_id h) db.authorization_interactions,
      count-delete_inside _ _ (λ cs h. same cs.session_id h) db.client_sessions,
    )

own_ended :
    (user_id id : String) (db : Db)
    → eqb (count_where (is_own user_id id) db.sessions) 0 ≡ false
    → in_ended (is_own user_id id) db id ≡ true
own_ended user_id id db some_own = elim (Bool-cases (in_ended (is_own user_id id) db id)) [
  | inl found ↦ found
  | inr missing ↦
      (let hit : Session → Bool = λ s. s.id == id && is_own user_id id s in
        ground (
          arith,
          exists-count_zero hit db.sessions missing,
          count_mono (is_own user_id id) hit (λ s h. ground (arith, h)) db.sessions,
        ))
]

-- What RevokeSession leaves: the transaction without its audit row.
revoke_session_ok :
    (now : ℕ) (ids : String → String) (user_id id : String) (audit : Option AuditEvent)
    (db db' : Db)
    → revoke_session now ids user_id id audit db ≡ (db', ok tt)
    → (in_ended (is_own user_id id) db id ≡ true)
      × (db' ≡ record (revoked_db now ids (is_own user_id id) db) {
        audit_events = audited now audit db.audit_events;
      })
unfolding revoke_session revoke_own revoked_db delete_sessions revoke_session_grants_tx
revoke_session_ok now ids user_id id audit db db' done =
    let ends = is_own user_id id in
    let check = λ (d : Db). if eqb (count_where ends db.sessions) 0 then err not_found else ok d in
    let (mid, worked, recorded) =
      audited_tx_ok now audit (revoke_own now ids user_id id) db db' done in
    let (raw, revoked, checked) = >>=-ok (revoke_sessions_tx now ids ends db) check worked in
    let settled : (eqb (count_where ends db.sessions) 0 ≡ false) × (mid ≡ raw) =
      (ground (arith, checked), ground (arith, checked)) in
    (
      own_ended user_id id db settled.0,
      recorded
          ∙ ap (λ (d : Db). record d { audit_events = audited now audit d.audit_events })
              (settled.1 ∙ revoke_sessions_tx_ok now ids ends db raw revoked),
    )

-- RevokeSession, where it succeeds: nothing that the session minted can be used (its tokens are revoked,
-- its step-up grants spent, its codes, requests, challenges and client sessions gone), it is deleted and
-- no other session is, and each client that knew the login and has a receiver is owed one delivery.
pub revoke_session_signs_out :
    (now : ℕ) (ids : String → String) (user_id id : String) (audit : Option AuditEvent)
    (db db' : Db)
    → revoke_session now ids user_id id audit db ≡ (db', ok tt)
    → IsSignedOut id db'
      × (count_where (is_own user_id id) db'.sessions ≡ 0)
      × ((q : Session → Bool)
          → ((s : Session) → q s ≡ true → is_own user_id id s ≡ false)
          → count_where q db'.sessions ≡ count_where q db.sessions)
      × (db'.logout_deliveries
          ≡ db.logout_deliveries
            ++ owed_all now ids
                (λ cs. is_told db cs && in_ended (is_own user_id id) db cs.session_id)
                db.client_sessions)
unfolding revoked_db delete_sessions revoke_session_grants_tx
revoke_session_signs_out now ids user_id id audit db db' done =
    let (ended, effect) = revoke_session_ok now ids user_id id audit db db' done in
    rw effect (
      revoked-IsSignedOut now ids (is_own user_id id) db id ended,
      count-delete_self (is_own user_id id) db.sessions,
      λ q spared. count-delete_outside q (is_own user_id id) spared db.sessions,
      refl,
    )
