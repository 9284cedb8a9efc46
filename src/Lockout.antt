-- ===== src/Lockout.antt =====
-- Account lockout of internal/store/store.go. Every operation takes the clock's reading.
pub mod Window
mod Tests
use kysignon_server.Base.{
  ℕ, ◌+◌, ◌-◌, ◌*◌, Option, some, none, List, [], ◌∷◌, ◌++◌, Bool, true, false, ◌&&◌, not, String,
  ◌==◌, ltb, leb, find_where, exists_where, update_where, delete_where, if◌then◌else◌, Result, ok,
  err, constraint,
}
use kysignon_server.Schema.{Db, LoginFailure, minute, user_exists}

abbrev pub max_failed_logins : ℕ
max_failed_logins = 10

abbrev pub lockout_duration : ℕ
lockout_duration = 15 * minute

abbrev pub is_of : String → LoginFailure → Bool
is_of user_id f = f.user_id == user_id

abbrev pub count_failure : ℕ → LoginFailure → LoginFailure
count_failure now f = record f { failures = f.failures + 1; last_failure_at = now }

-- INSERT … ON CONFLICT(user_id) DO UPDATE.
pub failed_rows : ℕ → String → List LoginFailure → List LoginFailure
failed_rows now user_id rows =
    if exists_where (is_of user_id) rows
    then update_where (is_of user_id) (count_failure now) rows
    else rows ++ (record { user_id = user_id; failures = 1; last_failure_at = now } ∷ [])

-- The new number of failures. REFERENCES users(id) refuses an unknown user.
pub record_failed_login : ℕ → String → Db → Db × Result ℕ
record_failed_login now user_id db =
    if user_exists user_id db
    then (let rows = failed_rows now user_id db.login_failures in
        (
          record db { login_failures = rows },
          ok (elim (find_where (is_of user_id) rows) [ none ↦ 0 | some f ↦ f.failures ]),
        ))
    else (db, err constraint)

-- time.Since(last) < LockoutDuration, which a clock before `last` satisfies.
pub is_account_locked : ℕ → String → Db → Bool
is_account_locked now user_id db = elim (find_where (is_of user_id) db.login_failures) [
  | none ↦ false
  | some f ↦
      if ltb f.failures max_failed_logins
      then false
      else ltb now (f.last_failure_at + lockout_duration)
]

pub clear_failed_logins : String → Db → Db
clear_failed_logins user_id db = record db {
  login_failures = delete_where (is_of user_id) db.login_failures;
}
