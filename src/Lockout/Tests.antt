-- ===== src/Lockout/Tests.antt =====
-- Runs of the lockout of internal/store/store.go.
use kysignon_server.Base.{◌+◌, ◌*◌, ◌&&◌, List, [], ◌∷◌, ◌++◌, true, false, ltb, leb, ◌≡◌, refl}
use kysignon_server.Schema.{minute, second}
use kysignon_server.Schema.Samples.{with_alice}
use kysignon_server.Lockout.{
  failed_rows, record_failed_login, is_account_locked, clear_failed_logins,
}
use kysignon_server.Lockout.Window.{Op, fails, clears, run, streak, is_account_locked_exact}

abbrev three : List Op
three = fails second "alice" ∷ fails (2 * second) "alice" ∷ fails (3 * second) "alice" ∷ []

abbrev ten_wrong : List Op
ten_wrong = three ++ (three ++ (three ++ (fails minute "alice" ∷ [])))

locked_after_ten : is_account_locked (2 * minute) "alice" (run ten_wrong with_alice) ≡ true
unfolding run record_failed_login failed_rows is_account_locked
locked_after_ten = refl

open_after_quarter : is_account_locked (16 * minute) "alice" (run ten_wrong with_alice) ≡ false
unfolding run record_failed_login failed_rows is_account_locked
open_after_quarter = refl

open_after_clear :
    is_account_locked (2 * minute) "alice" (run (ten_wrong ++ (clears "alice" ∷ [])) with_alice)
    ≡ false
unfolding run record_failed_login failed_rows is_account_locked clear_failed_logins
open_after_clear = refl

is_account_locked_exact_example :
    let s = streak "alice" ten_wrong (record { failures = 0; last_at = 0 }) in
    is_account_locked (2 * minute) "alice" (run ten_wrong with_alice)
    ≡ (leb 10 s.failures && ltb (2 * minute) (s.last_at + 15 * minute))
is_account_locked_exact_example =
    is_account_locked_exact (2 * minute) "alice" ten_wrong with_alice refl refl
