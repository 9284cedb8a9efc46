-- ===== src/Oauth/Interactions.antt =====
-- internal/store/authorization_interactions.go: the requests that wait for a login. ORDER BY ends with
-- the primary key, so a row's position is one more than the number of rows before it.
pub mod Limits
mod Tests
use kysignon_server.Base.{
  ℕ, ◌+◌, ◌-◌, Option, some, none, List, [], ◌∷◌, ◌++◌, Bool, true, false, ◌&&◌, ◌||◌, not, String,
  ◌==◌, text_before, ltb, leb, eqb, is_some, find_where, count_where, exists_where, update_where,
  delete_where, if◌then◌else◌, Result, ok, err, ◌>>=◌, interaction_invalid,
}
use kysignon_server.Schema.{Db, Session, AuthorizationInteraction, insert_row, commit}

abbrev pub owner_is : String → AuthorizationInteraction → Bool
owner_is user_id i = i.user_id == user_id

abbrev pub browser_is : String → AuthorizationInteraction → Bool
browser_is browser i = i.browser_hash == browser

abbrev pub is_proved : AuthorizationInteraction → Bool
is_proved i = not (i.session_id == "")

-- ORDER BY (session_id<>'') DESC, created_at DESC, hash.
kept_before : AuthorizationInteraction → AuthorizationInteraction → Bool
kept_before i j =
    if is_proved i && not (is_proved j)
    then true
    else if is_proved j && not (is_proved i)
    then false
    else if ltb j.created_at i.created_at
    then true
    else if ltb i.created_at j.created_at
    then false
    else text_before i.hash j.hash

-- ORDER BY created_at, hash.
older : AuthorizationInteraction → AuthorizationInteraction → Bool
older i j =
    if ltb i.created_at j.created_at
    then true
    else if ltb j.created_at i.created_at
    then false
    else text_before i.hash j.hash

abbrev pub session_is : String → Session → Bool
session_is id s = s.id == id

-- The first statement of the repair: a proved row without an owner gets its session's.
pub adopts : Db → AuthorizationInteraction → Bool
adopts db i = i.user_id == "" && is_proved i && exists_where (session_is i.session_id) db.sessions

pub adopt : Db → AuthorizationInteraction → AuthorizationInteraction
adopt db i = elim (find_where (session_is i.session_id) db.sessions) [
  | none ↦ i
  | some s ↦ record i { user_id = s.user_id }
]

pub is_orphan : Db → AuthorizationInteraction → Bool
is_orphan db i = is_proved i && not (exists_where (session_is i.session_id) db.sessions)

-- Ten or more rows of its account are kept before the row: position>10.
pub is_excess : List AuthorizationInteraction → AuthorizationInteraction → Bool
is_excess rows i =
    not (i.user_id == "")
    && leb 10 (count_where (λ j. owner_is i.user_id j && kept_before j i) rows)

pub repaired : Db → List AuthorizationInteraction → List AuthorizationInteraction
repaired db rows =
    let owned = delete_where (is_orphan db) (update_where (adopts db) (adopt db) rows) in
    delete_where (is_excess owned) owned

abbrev pub is_pending : AuthorizationInteraction → Bool
is_pending i = i.session_id == "" && i.user_id == ""

-- Among the LIMIT oldest rows without a proof and an owner.
pub is_evicted : List AuthorizationInteraction → AuthorizationInteraction → Bool
is_evicted rows i =
    is_pending i
    && ltb (count_where (λ j. is_pending j && older j i) rows) (count_where (λ j. true) rows - 9999)

abbrev pub total : List AuthorizationInteraction → ℕ
total rows = count_where (λ j. true) rows

abbrev pub lapsed : ℕ → AuthorizationInteraction → Bool
lapsed now i = leb i.expires_at now

-- The rows that the transaction has before its INSERT.
pub swept : ℕ → Db → List AuthorizationInteraction
swept now db =
    let live = delete_where (lapsed now) db.authorization_interactions in
    let kept = if ltb (total live) 10_000 then live else repaired db live in
    delete_where (is_evicted kept) kept

pub has_room : AuthorizationInteraction → List AuthorizationInteraction → Bool
has_room i rows =
    ltb (count_where (browser_is i.browser_hash) rows) 10
    && (i.user_id == "" || ltb (count_where (owner_is i.user_id) rows) 10)
    && ltb (total rows) 10_000

abbrev pub same_hash : AuthorizationInteraction → AuthorizationInteraction → Bool
same_hash i j = j.hash == i.hash

-- The INSERT names no session_id, whose default is ''.
abbrev pub unproved : AuthorizationInteraction → AuthorizationInteraction
unproved i = record i { session_id = "" }

pub create_interaction_tx : ℕ → AuthorizationInteraction → Db → Result Db
create_interaction_tx now i db =
    let rows = swept now db in
    if has_room i rows
    then (insert_row (same_hash i) (unproved i) rows >>= λ rows'.
        ok (record db { authorization_interactions = rows' }))
    else err interaction_invalid

unfoldable pub create_authorization_interaction :
    ℕ → AuthorizationInteraction → Db → Db × Result (Unit {0})
create_authorization_interaction now i db = commit tt (create_interaction_tx now i db) db

abbrev pub is_asked : String → String → AuthorizationInteraction → Bool
is_asked hash browser i = i.hash == hash && i.browser_hash == browser

pub session_lives : ℕ → Db → AuthorizationInteraction → Bool
session_lives now db i =
    i.original_session_id == ""
    || exists_where (λ (s : Session). s.id == i.original_session_id && ltb now s.expires_at)
        db.sessions

pub get_authorization_interaction : ℕ → String → String → Db → Result AuthorizationInteraction
get_authorization_interaction now hash browser db =
    elim (find_where
      (λ i. is_asked hash browser i && ltb now i.expires_at && session_lives now db i)
      db.authorization_interactions) [ none ↦ err interaction_invalid | some i ↦ ok i ]

unfoldable pub cancel_authorization_interaction : String → String → Db → Db
cancel_authorization_interaction hash browser db = record db {
  authorization_interactions = delete_where (is_asked hash browser) db.authorization_interactions;
}
