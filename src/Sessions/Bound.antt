-- ===== src/Sessions/Bound.antt =====
-- One authorization request is bound to one login: CreateSessionForInteraction of internal/store/store.go.
use kysignon_server.Base.{
  ℕ, ◌≤◌, List, [], ◌∷◌, ◌++◌, Bool, true, false, ◌&&◌, String, ◌==◌, count_where, exists_where,
  update_where, ok, err, ◌>>=◌, interaction_invalid, ◌≡◌, refl, arith, inl, inr, IsUnique,
  count-update_meet, count_mono, >>=-ok, sym, ap, ◌∙◌, any, count-update_only, count-append,
  count-delete-le,
}
use kysignon_server.Schema.{Db, Session, AuthorizationInteraction, commit_rule, commit_cases}
use kysignon_server.Sessions.{
  Waiting, is_active_user, binds, bind, bind_interaction, fresh_session, clashes_with, confine,
  put_session, create_session_for_interaction, touch_session,
}
use kysignon_server.Oauth.Interactions.{
  is_asked, unproved, swept, create_interaction_tx, create_authorization_interaction,
  cancel_authorization_interaction,
}
use kysignon_server.Oauth.Interactions.Limits.{swept-le, create_tx_ok}

-- The request waits for a login.
abbrev pub is_waiting : String → AuthorizationInteraction → Bool
is_waiting hash i = i.hash == hash && i.session_id == ""

pub put_session_ok :
    (now : ℕ) (sess : Session) (db db' : Db)
    → put_session now sess db ≡ ok db'
    → (is_active_user sess.user_id db ≡ true)
      × (exists_where (clashes_with sess) db.sessions ≡ false)
      × (db'
          ≡ confine now sess.id
              (record db { sessions = db.sessions ++ (fresh_session now sess ∷ []) }))
unfolding put_session
put_session_ok now sess db db' h = (ground arith, ground arith, ground arith)

binds-is_waiting :
    (now : ℕ) (w : Waiting) (sess : Session) (db : Db) (i : AuthorizationInteraction)
    → binds now w sess db i ≡ true
    → is_waiting w.interaction_hash i ≡ true
unfolding binds
binds-is_waiting now w sess db i h = ground arith

-- No request under this hash waits for a login.
abbrev pub IsTaken : String → Db → Type 0
IsTaken hash db = count_where (is_waiting hash) db.authorization_interactions ≡ 0

bind_interaction-IsTaken :
    (now : ℕ) (w : Waiting) (sess : Session) (db db' : Db)
    → IsUnique (λ (i : AuthorizationInteraction). i.hash) db.authorization_interactions
    → (w.interaction_hash == "") ≡ false
    → (sess.id == "") ≡ false
    → bind_interaction now w sess db ≡ ok db'
    → IsTaken w.interaction_hash db'
unfolding bind_interaction
bind_interaction-IsTaken now w sess db db' unique named real bound =
    let rows = db.authorization_interactions in
    let hits = binds now w sess db in
    let waits = is_waiting w.interaction_hash in
    let one : count_where hits rows ≡ 1 = ground arith in
    let after : db'.authorization_interactions ≡ update_where hits (bind sess) rows =
      ground arith in
    rw (after) (
      omega (
        arith,
        one,
        unique w.interaction_hash,
        count_mono waits (λ i. i.hash == w.interaction_hash) (λ i h. ground arith) rows,
        count_mono hits (λ i. hits i && waits i)
            (λ i h. ground (arith, h, binds-is_waiting now w sess db i h)) rows,
        count-update_meet waits hits (bind sess) (λ i h. ground (arith, real)) rows,
      ))

taken_refuses :
    (now : ℕ) (w : Waiting) (sess : Session) (db : Db)
    → (w.interaction_hash == "") ≡ false
    → IsTaken w.interaction_hash db
    → create_session_for_interaction now sess w db ≡ (db, err interaction_invalid)
unfolding create_session_for_interaction bind_interaction
taken_refuses now w sess db named taken =
    let none_left : count_where (binds now w sess db) db.authorization_interactions ≤ 0 = omega (
      arith,
      taken,
      count_mono (binds now w sess db) (is_waiting w.interaction_hash)
          (binds-is_waiting now w sess db) db.authorization_interactions,
    ) in
    ground (arith, none_left)

put_session-interactions :
    (now : ℕ) (sess : Session) (db db' : Db)
    → put_session now sess db ≡ ok db'
    → db'.authorization_interactions ≡ db.authorization_interactions
unfolding confine
put_session-interactions now sess db db' h =
    let (active, new, e) = put_session_ok now sess db db' h in
    ap (λ d. d.authorization_interactions) e

-- A login ends the wait of its request, and starts no other's.
create_tx-IsTaken :
    (hash : String) (now : ℕ) (sess : Session) (w : Waiting) (db db' : Db)
    → IsTaken hash db
    → (bind_interaction now w sess db >>= λ db'. put_session now sess db') ≡ ok db'
    → IsTaken hash db'
unfolding bind_interaction
create_tx-IsTaken hash now sess w db db' taken h =
    let (mid, bound, put) =
      >>=-ok (bind_interaction now w sess db) (λ d. put_session now sess d) h in
    let hits = binds now w sess db in
    let fewer : count_where (is_waiting hash)
          (update_where hits (bind sess) db.authorization_interactions)
        ≤ 0 =
      omega (
        arith,
        taken,
        count-update_only (is_waiting hash) hits (bind sess)
            (λ i hit q. ground (arith, hit, q, binds-is_waiting now w sess db i hit))
            db.authorization_interactions,
      ) in
    rw (put_session-interactions now sess mid db' put) (ground (arith, fewer, taken))

pub data Op : Type 0 where
  creates : ℕ → AuthorizationInteraction → Op
  cancels : String → String → Op
  logs_in : ℕ → Session → Waiting → Op
  touches : ℕ → String → Op

unfoldable pub step : Op → Db → Db
step (creates now i) db = (create_authorization_interaction now i db).0
step (cancels h b) db = cancel_authorization_interaction h b db
step (logs_in now sess w) db = (create_session_for_interaction now sess w db).0
step (touches now id) db = touch_session now id db

unfoldable pub run : List Op → Db → Db
unfolding step
run [] db = db
run (op ∷ ops) db = run ops (step op db)

-- The operation starts a new request under this hash.
abbrev pub starts : String → Op → Bool
starts hash (creates now i) = i.hash == hash
starts hash (cancels h b) = false
starts hash (logs_in now sess w) = false
starts hash (touches now id) = false

step-IsTaken :
    (hash : String) (op : Op) (db : Db)
    → starts hash op ≡ false
    → IsTaken hash db
    → IsTaken hash (step op db)
unfolding step cancel_authorization_interaction create_authorization_interaction
    create_session_for_interaction touch_session
step-IsTaken hash (creates now i) db other taken =
    commit_rule (IsTaken hash) tt (create_interaction_tx now i db) db taken (λ db' created.
      (let (room, rows) = create_tx_ok now i db db' created in
        rw (rows) (
          ground (
            arith,
            other,
            taken,
            count-append (is_waiting hash) (swept now db) (unproved i ∷ []),
            swept-le (is_waiting hash) (λ j u. refl) now db,
          ))))
step-IsTaken hash (cancels h b) db other taken =
    omega
      (arith, taken, count-delete-le (is_waiting hash) (is_asked h b) db.authorization_interactions)
step-IsTaken hash (logs_in now sess w) db other taken =
    commit_rule (IsTaken hash) tt (bind_interaction now w sess db >>= λ d. put_session now sess d)
      db taken (λ db' h. create_tx-IsTaken hash now sess w db db' taken h)
step-IsTaken hash (touches now id) db other taken = taken

run-IsTaken :
    (hash : String) (ops : List Op) (db : Db)
    → any (starts hash) ops ≡ false
    → IsTaken hash db
    → IsTaken hash (run ops db)
unfolding run
run-IsTaken hash [] db none_starts taken = taken
run-IsTaken hash (op ∷ ops) db none_starts taken =
    run-IsTaken hash ops (step op db) (ground arith) (step-IsTaken hash op db (ground arith) taken)

created-IsTaken :
    (now : ℕ) (sess : Session) (w : Waiting) (db db' : Db)
    → IsUnique (λ (i : AuthorizationInteraction). i.hash) db.authorization_interactions
    → (w.interaction_hash == "") ≡ false
    → (sess.id == "") ≡ false
    → create_session_for_interaction now sess w db ≡ (db', ok tt)
    → IsTaken w.interaction_hash db'
unfolding create_session_for_interaction
created-IsTaken now sess w db db' unique named real created =
    elim (commit_cases tt (bind_interaction now w sess db >>= λ d. put_session now sess d) db) [
      | inr (e, failed, rolled) ↦ ground (arith, created, rolled)
      | inl (end, went, committed) ↦
          (let (mid, bound, put) =
              >>=-ok (bind_interaction now w sess db) (λ d. put_session now sess d) went in
            let same : db' ≡ end = ap (λ r. r.0) (sym created ∙ committed) in
            rw (same, put_session-interactions now sess mid end put)
              (bind_interaction-IsTaken now w sess db mid unique named real bound))
    ]

-- Where requests have distinct hashes: after a login was created for a request, no login is created for
-- a request with this hash, whoever asks and from whatever browser, after any operations on requests and
-- sessions that start no new request under it; the attempt changes nothing.
pub create_session_for_interaction-once :
    (now later : ℕ) (sess other : Session) (w v : Waiting) (db db' : Db) (ops : List Op)
    → IsUnique (λ (i : AuthorizationInteraction). i.hash) db.authorization_interactions
    → (w.interaction_hash == "") ≡ false
    → (sess.id == "") ≡ false
    → create_session_for_interaction now sess w db ≡ (db', ok tt)
    → any (starts w.interaction_hash) ops ≡ false
    → v.interaction_hash ≡ w.interaction_hash
    → create_session_for_interaction later other v (run ops db')
      ≡ (run ops db', err interaction_invalid)
create_session_for_interaction-once now later sess other w v db db' ops unique named real created
      none_starts same =
    taken_refuses later v other (run ops db') (rw (same) named) (
      rw (same) (
        run-IsTaken w.interaction_hash ops db' none_starts
          (created-IsTaken now sess w db db' unique named real created)))
