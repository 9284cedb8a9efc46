-- ===== src/Mfa/Totp/Tests.antt =====
-- Runs of the one-time codes of internal/mfa/mfa.go.

use kysignon_server.Base.{
  ℕ, some, List, [], ◌∷◌, Option, String, true, false, ok, ◌≡◌, refl, ◌*◌, ◌<◌, trim_space,
}
use kysignon_server.Schema.{Db, minute}
use kysignon_server.Schema.Samples.{with_alice, totp_method}
use kysignon_server.Mfa.{get_mfa_method, consume_totp_counter}
use kysignon_server.Mfa.Totp.{
  verify_user_totp, verify_step, match_totp, match_steps, calculate_totp_code, truncate_code,
  uint32_at, index, six_digits, put_uint64,
}
use kysignon_server.Mfa.Totp.Accepted.{IsStep, verify_user_totp_sound, verify_user_totp-increases}
use kysignon_server.Mfa.Totp.Replay.{run}

-- The HMAC of RFC 4226's appendix D, for the counter 0 and the key "12345678901234567890".
abbrev rfc_hmac : List ℕ → List ℕ → List ℕ
rfc_hmac key message =
    0xcc ∷ 0x93 ∷ 0xcf ∷ 0x18 ∷ 0x50 ∷ 0x8d ∷ 0x94 ∷ 0x93 ∷ 0x4c ∷ 0x64 ∷ 0xb6 ∷ 0x5d ∷ 0x8b ∷ 0xa7
    ∷ 0x66 ∷ 0x7f ∷ 0xb7 ∷ 0xcd ∷ 0xe4 ∷ 0xb0 ∷ []

rfc_code : calculate_totp_code rfc_hmac [] 0 ≡ ok "755224"
unfolding calculate_totp_code truncate_code uint32_at index six_digits put_uint64
rfc_code = refl

abbrev with_totp : Db
with_totp = record with_alice { mfa_methods = totp_method ∷ [] }

abbrev opens_all : String → Option (List ℕ)
opens_all s = some []

-- An HMAC that depends on the last byte of the message only.
abbrev last_byte : List ℕ → List ℕ → List ℕ
last_byte key [] = []
last_byte key (a ∷ b ∷ c ∷ d ∷ e ∷ f ∷ g ∷ h ∷ []) =
    0 ∷ 0 ∷ 0 ∷ h ∷ 0 ∷ 0 ∷ 0 ∷ 0 ∷ 0 ∷ 0 ∷ 0 ∷ 0 ∷ 0 ∷ 0 ∷ 0 ∷ 0 ∷ 0 ∷ 0 ∷ 0 ∷ 0 ∷ []
last_byte key _ = []

first_code :
    (verify_user_totp last_byte opens_all some (2 * minute) "alice" "000004 " with_totp).1 ≡ ok true
unfolding verify_user_totp get_mfa_method match_totp match_steps calculate_totp_code truncate_code
    uint32_at index six_digits put_uint64 trim_space verify_step consume_totp_counter
first_code = refl

verify_user_totp_sound_example :
    (c : ℕ) × IsStep last_byte opens_all some (2 * minute) "alice" "000004 " with_totp c
    × ((consume_totp_counter "alice" c with_totp).1 ≡ true)
    × ((verify_user_totp last_byte opens_all some (2 * minute) "alice" "000004 " with_totp).0
        ≡ (consume_totp_counter "alice" c with_totp).0)
verify_user_totp_sound_example =
    verify_user_totp_sound last_byte opens_all some (2 * minute) "alice" "000004 " with_totp
      first_code

abbrev once_verified : Db
once_verified =
    (verify_user_totp last_byte opens_all some (2 * minute) "alice" "000004 " with_totp).0

second_code :
    (verify_user_totp last_byte opens_all some (3 * minute) "alice" "000005" once_verified).1
    ≡ ok true
unfolding verify_user_totp get_mfa_method match_totp match_steps calculate_totp_code truncate_code
    uint32_at index six_digits put_uint64 trim_space verify_step consume_totp_counter
second_code = refl

replayed_code :
    (verify_user_totp last_byte opens_all some (2 * minute) "alice" "000004" once_verified).1
    ≡ ok false
unfolding verify_user_totp get_mfa_method match_totp match_steps calculate_totp_code truncate_code
    uint32_at index six_digits put_uint64 trim_space verify_step consume_totp_counter
replayed_code = refl

verify_user_totp-increases_example :
    (c c' : ℕ) × IsStep last_byte opens_all some (2 * minute) "alice" "000004 " with_totp c
    × IsStep last_byte opens_all some (3 * minute) "alice" "000005" once_verified c'
    × (c < c')
unfolding run
verify_user_totp-increases_example =
    verify_user_totp-increases last_byte opens_all some (2 * minute) (3 * minute) "alice" "000004 "
      "000005" with_totp [] first_code second_code
