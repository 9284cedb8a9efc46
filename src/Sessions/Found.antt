-- ===== src/Sessions/Found.antt =====
-- What a session's token finds after the login: internal/store/store.go.
use kysignon_server.Base.{
  ℕ, ◌+◌, some, none, List, [], ◌∷◌, ◌++◌, Bool, true, false, ◌&&◌, not, ltb, find_where,
  exists_where, update_where, if◌then◌else◌, ok, ◌>>=◌, ◌≡◌, refl, arith, inl, inr, >>=-ok,
  Bool-cases, sym, ap, ◌∙◌, eq_refl,
}
use kysignon_server.Schema.{Db, Session, commit_cases}
use kysignon_server.Enrollment.{session_allowed}
use kysignon_server.Sessions.{
  Waiting, is_active_user, is_session, confined, fresh_session, clashes_with, confine,
  bind_interaction, put_session, create_session_for_interaction, accepts, get_session_by_token_hash,
}
use kysignon_server.Sessions.Bound.{put_session_ok}

-- The rows after the INSERT and the UPDATE that confines the session.
abbrev stored : ℕ → Session → Bool → List Session → List Session
stored now sess only rows =
    update_where (is_session sess.id) (confined only) (rows ++ (fresh_session now sess ∷ []))

abbrev is_live : ℕ → ℕ → ℕ → Session → Bool
is_live now later idle sess = ltb later sess.expires_at && ltb later (now + idle)

find-stored :
    (now later idle : ℕ) (sess : Session) (only : Bool) (rows : List Session)
    → exists_where (clashes_with sess) rows ≡ false
    → find_where (accepts later idle sess.session_token_hash) (stored now sess only rows) ≡ (
        if is_live now later idle sess then some (confined only (fresh_session now sess)) else none)
unfolding accepts
find-stored now later idle sess only [] new =
    ground (arith, eq_refl sess.id, eq_refl sess.session_token_hash)
find-stored now later idle sess only (s ∷ rows) new =
    ground (arith, find-stored now later idle sess only rows)

bind_keeps :
    (now : ℕ) (w : Waiting) (sess : Session) (db mid : Db)
    → bind_interaction now w sess db ≡ ok mid
    → (mid.sessions ≡ db.sessions) × (mid.users ≡ db.users)
unfolding bind_interaction
bind_keeps now w sess db mid h = (ground arith, ground arith)

stored_found :
    (now later idle : ℕ) (sess : Session) (mid end : Db)
    → put_session now sess mid ≡ ok end
    → get_session_by_token_hash later idle sess.session_token_hash end
      ≡ (if is_live now later idle sess then some (fresh_session now sess) else none)
unfolding get_session_by_token_hash confine
stored_found now later idle sess mid end put =
    let (active, new, e) = put_session_ok now sess mid end put in
    let only = not (
      session_allowed now (record mid { sessions = mid.sessions ++ (fresh_session now sess ∷ []) })
        sess.id) in
    let found = find-stored now later idle sess only mid.sessions new in
    elim (Bool-cases (is_live now later idle sess)) [
      | inl live ↦ rw (e, get_session_by_token_hash, confine, found, live) refl
      | inr dead ↦ rw (e, get_session_by_token_hash, confine, found, dead) refl
    ]

-- Where CreateSessionForInteraction succeeds: the user is active, no session had this id or token, and
-- the token finds the new session from then on exactly until it expires or idles out, whatever the
-- clock reads.
pub create_session_for_interaction_found :
    (now : ℕ) (sess : Session) (w : Waiting) (db db' : Db)
    → create_session_for_interaction now sess w db ≡ (db', ok tt)
    → (is_active_user sess.user_id db ≡ true)
      × (exists_where (clashes_with sess) db.sessions ≡ false)
      × ((later idle : ℕ)
          → get_session_by_token_hash later idle sess.session_token_hash db'
            ≡ (if is_live now later idle sess then some (fresh_session now sess) else none))
unfolding create_session_for_interaction is_active_user
create_session_for_interaction_found now sess w db db' created =
    elim (commit_cases tt (bind_interaction now w sess db >>= λ d. put_session now sess d) db) [
      | inr (e, failed, rolled) ↦ ground (arith, created, rolled)
      | inl (end, went, committed) ↦
          (let (mid, bound, put) =
              >>=-ok (bind_interaction now w sess db) (λ d. put_session now sess d) went in
            let (active, new, e) = put_session_ok now sess mid end put in
            let (sessions, users) = bind_keeps now w sess db mid bound in
            let same : db' ≡ end = ap (λ r. r.0) (sym created ∙ committed) in
            (
              rw (users) at active,
              rw (sessions) at new,
              λ later idle. rw (same) (stored_found now later idle sess mid end put),
            ))
    ]
