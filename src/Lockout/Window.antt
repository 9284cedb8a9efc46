-- ===== src/Lockout/Window.antt =====
-- When an account is locked: internal/store/store.go.
use kysignon_server.Base.{
  ℕ, ◌+◌, ◌*◌, Option, some, none, List, [], ◌∷◌, Bool, true, false, ◌&&◌, String, ◌==◌, ltb, leb,
  eqb, find_where, exists_where, if◌then◌else◌, ◌≡◌, refl, arith, Bool-cases, Option-cases, inl,
  inr, eq_iff, eq_refl, exists-find_none, exists-find_some, find-update_same, find-append_new,
  find-append_other, find-delete_self, find-delete_other, find-update_keep,
}
use kysignon_server.Schema.{Db, LoginFailure, user_exists, minute}
use kysignon_server.Lockout.{
  max_failed_logins, lockout_duration, is_of, count_failure, failed_rows, record_failed_login,
  is_account_locked, clear_failed_logins,
}

-- What happens to an account, with the readings of the clock.
pub data Op : Type 0 where
  fails : ℕ → String → Op
  clears : String → Op

unfoldable pub step : Op → Db → Db
step (fails now u) db = (record_failed_login now u db).0
step (clears u) db = clear_failed_logins u db

unfoldable pub run : List Op → Db → Db
unfolding step
run [] db = db
run (op ∷ ops) db = run ops (step op db)

-- The reference: the consecutive failures of one user and the reading at the last of them.
pub record Streak : Type 0 where
  pub failures : ℕ
  pub last_at : ℕ

abbrev pub continue_streak : String → Op → Streak → Streak
continue_streak u (fails now v) s =
    if v == u then record { failures = s.failures + 1; last_at = now } else s
continue_streak u (clears v) s = if v == u then record { failures = 0; last_at = 0 } else s

abbrev pub streak : String → List Op → Streak → Streak
streak u [] s = s
streak u (op ∷ ops) s = streak u ops (continue_streak u op s)

-- The row of a user stands for a streak: none for the empty one.
pub stands_for : Option LoginFailure → Streak → Bool
stands_for none s = eqb s.failures 0
stands_for (some f) s =
    eqb f.failures s.failures && eqb f.last_failure_at s.last_at && ltb 0 s.failures

empty_stands : (t : ℕ) → stands_for none (record { failures = 0; last_at = t }) ≡ true
unfolding stands_for
empty_stands t = refl

abbrev Agrees : String → List LoginFailure → Streak → Type 0
Agrees u rows s = stands_for (find_where (is_of u) rows) s ≡ true

other_user :
    (u v : String) → (v == u) ≡ false → (f : LoginFailure) → is_of u f ≡ true → is_of v f ≡ false
other_user u v other f h = ground (arith, eq_iff f.user_id u, eq_iff f.user_id v, eq_iff v u)

failed-same :
    (now : ℕ) (u : String) (rows : List LoginFailure) (s : Streak)
    → Agrees u rows s
    → Agrees u (failed_rows now u rows) (record { failures = s.failures + 1; last_at = now })
unfolding failed_rows stands_for
failed-same now u rows s h = elim (Bool-cases (exists_where (is_of u) rows)) [
  | inr new ↦
      let empty = exists-find_none (is_of u) rows new in
      rw
        (
          new,
          find-append_new (is_of u) (record { user_id = u; failures = 1; last_failure_at = now })
              rows new (eq_refl u),
        )
        (ground (arith, rw empty at h))
  | inl known ↦
      let (f, found) = exists-find_some (is_of u) rows known in
      rw (known, find-update_same (is_of u) (count_failure now) f (λ x. refl) rows found)
        (ground (arith, rw found at h))
]

failed-other :
    (now : ℕ) (u v : String) (rows : List LoginFailure)
    → (v == u) ≡ false
    → find_where (is_of u) (failed_rows now v rows) ≡ find_where (is_of u) rows
unfolding failed_rows
failed-other now u v rows other = elim (Bool-cases (exists_where (is_of v) rows)) [
  | inr new ↦ rw new (
      find-append_other (is_of u) (record { user_id = v; failures = 1; last_failure_at = now }) rows
        other)
  | inl known ↦ rw known (
      find-update_keep (is_of u) (is_of v) (count_failure now) (λ x. refl) (other_user u v other)
        rows)
]

recorded_rows :
    (now : ℕ) (v : String) (db : Db)
    → user_exists v db ≡ true
    → (record_failed_login now v db).0.login_failures ≡ failed_rows now v db.login_failures
unfolding record_failed_login
recorded_rows now v db known = rw (record_failed_login, known) refl

refused_rows :
    (now : ℕ) (v : String) (db : Db)
    → user_exists v db ≡ false
    → (record_failed_login now v db).0.login_failures ≡ db.login_failures
unfolding record_failed_login
refused_rows now v db unknown = rw (record_failed_login, unknown) refl

step-Agrees :
    (u : String) (op : Op) (db : Db) (s : Streak)
    → user_exists u db ≡ true
    → Agrees u db.login_failures s
    → Agrees u (step op db).login_failures (continue_streak u op s)
unfolding step clear_failed_logins
step-Agrees u (fails now v) db s known h = elim (Bool-cases (v == u)) [
  | inl same ↦
      rw (same, (eq_iff v u).0 same, recorded_rows now u db known)
        (failed-same now u db.login_failures s h)
  | inr other ↦ rw other (elim (Bool-cases (user_exists v db)) [
    | inl registered ↦
        rw (recorded_rows now v db registered, failed-other now u v db.login_failures other) h
    | inr unknown ↦ rw (refused_rows now v db unknown) h
  ])
]
step-Agrees u (clears v) db s known h = elim (Bool-cases (v == u)) [
  | inl same ↦
      rw (same, (eq_iff v u).0 same, find-delete_self (is_of u) db.login_failures) (empty_stands 0)
  | inr other ↦
      rw (other, find-delete_other (is_of u) (is_of v) (other_user u v other) db.login_failures) h
]

step-users : (op : Op) (db : Db) → (step op db).users ≡ db.users
unfolding step record_failed_login clear_failed_logins
step-users (fails now v) db = ground arith
step-users (clears v) db = refl

run-Agrees :
    (u : String) (ops : List Op) (db : Db) (s : Streak)
    → user_exists u db ≡ true
    → Agrees u db.login_failures s
    → Agrees u (run ops db).login_failures (streak u ops s)
unfolding run
run-Agrees u [] db s known h = h
run-Agrees u (op ∷ ops) db s known h =
    run-Agrees u ops (step op db) (continue_streak u op s) (rw (step-users op db) known)
      (step-Agrees u op db s known h)

locked_as :
    (now : ℕ) (u : String) (db : Db) (s : Streak)
    → Agrees u db.login_failures s
    → is_account_locked now u db
      ≡ (leb max_failed_logins s.failures && ltb now (s.last_at + lockout_duration))
unfolding is_account_locked stands_for
locked_as now u db s h = elim (Option-cases (find_where (is_of u) db.login_failures)) [
  | inl gone ↦ rw (is_account_locked, gone) (ground (arith, rw gone at h))
  | inr (f, found) ↦ rw (is_account_locked, found) (ground (arith, rw found at h))
]

-- However failures and clears of all accounts are ordered: an account that began without failures
-- is locked exactly where its last ten or more attempts since its last clear all failed and less
-- than 15 minutes have passed since the latest of them.
pub is_account_locked_exact :
    (now : ℕ) (u : String) (ops : List Op) (db : Db)
    → user_exists u db ≡ true
    → find_where (is_of u) db.login_failures ≡ none
    → let s = streak u ops (record { failures = 0; last_at = 0 }) in
      is_account_locked now u (run ops db)
      ≡ (leb 10 s.failures && ltb now (s.last_at + 15 * minute))
is_account_locked_exact now u ops db known clean =
    locked_as now u (run ops db) _
      (run-Agrees u ops db (record { failures = 0; last_at = 0 }) known (rw clean (empty_stands 0)))
