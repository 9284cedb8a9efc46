-- ===== src/Mfa/Totp.antt =====
-- One-time codes of internal/mfa/mfa.go.
pub mod Accepted
pub mod Codes
pub mod Replay
mod Tests
use Prim.Native.Char.{Char}
use Prim.Native.String.{◌++◌}
use kysignon_server.Base.{
  ℕ, zero, suc, ◌+◌, ◌-◌, ◌*◌, ◌/◌, ◌%◌, ◌^◌, Option, none, some, List, [], ◌∷◌, Bool, true, false,
  String, ◌==◌, trim_space, Result, ok, err, ◌>>=◌, out_of_range, totp_not_enrolled,
  totp_secret_unreadable, if◌then◌else◌, length, eqb,
}
use kysignon_server.Schema.{Db, unix, totp}
use kysignon_server.Mfa.{get_mfa_method, consume_totp_counter}

-- sum[i]
index : List ℕ → ℕ → Result ℕ
index [] i = err out_of_range
index (b ∷ bs) zero = ok b
index (b ∷ bs) (suc i) = index bs i

abbrev byte : ℕ → ℕ → ℕ
byte n i = n / 2 ^ (8 * i) % 256

-- binary.BigEndian.PutUint64.
pub put_uint64 : ℕ → List ℕ
put_uint64 n =
    byte n 7 ∷ byte n 6 ∷ byte n 5 ∷ byte n 4 ∷ byte n 3 ∷ byte n 2 ∷ byte n 1 ∷ byte n 0 ∷ []

abbrev digit : ℕ → String
digit n =
    if eqb n 0
    then "0"
    else if eqb n 1
    then "1"
    else if eqb n 2
    then "2"
    else if eqb n 3
    then "3"
    else if eqb n 4
    then "4"
    else if eqb n 5
    then "5"
    else if eqb n 6
    then "6"
    else if eqb n 7
    then "7"
    else if eqb n 8
    then "8"
    else "9"

-- fmt.Sprintf("%06d", n) for n below 10 ^ 6.
pub six_digits : ℕ → String
six_digits n =
    digit (n / 100000 % 10)
    ++ (digit (n / 10000 % 10)
        ++ (digit (n / 1000 % 10)
            ++ (digit (n / 100 % 10) ++ (digit (n / 10 % 10) ++ digit (n % 10)))))

-- binary.BigEndian.Uint32(sum[offset:offset+4]).
uint32_at : List ℕ → ℕ → Result ℕ
uint32_at sum offset = do
  a ← index sum offset
  b ← index sum (offset + 1)
  c ← index sum (offset + 2)
  d ← index sum (offset + 3)
  ok (((a * 256 + b) * 256 + c) * 256 + d)

-- The part of calculateTOTPCode after h.Sum(nil): & 0x0F is % 16, and & 0x7FFFFFFF is % 2 ^ 31.
pub truncate_code : List ℕ → Result String
truncate_code sum = do
  last ← index sum (length sum - 1)
  word ← uint32_at sum (last % 16)
  ok (six_digits (word % 2 ^ 31 % 1000000))

-- i = -1, 0, 1 from the current step; the clock reads 30 seconds or more.
abbrev pub window : ℕ → List ℕ
window now = let current = unix now / 30 in (current - 1) ∷ current ∷ (current + 1) ∷ []

-- The step that is accepted is spent at once.
pub verify_step : String → Option ℕ → Db → Db × Result Bool
verify_step user_id none db = (db, ok false)
verify_step user_id (some counter) db =
    let (db', spent) = consume_totp_counter user_id counter db in (db', ok spent)

-- `hmac_sha1` is HMAC-SHA1 with a key over a message, as bytes.
module _ (hmac_sha1 : (secret message : List ℕ) → List ℕ) where
  pub calculate_totp_code : List ℕ → ℕ → Result String
  calculate_totp_code secret counter = truncate_code (hmac_sha1 secret (put_uint64 counter))

  -- The loop of matchTOTP over the steps that are left.
  match_steps : List ℕ → String → List ℕ → Result (Option ℕ)
  match_steps secret trimmed [] = ok none
  match_steps secret trimmed (counter ∷ later) = calculate_totp_code secret counter >>= λ code.
      if code == trimmed then ok (some counter) else match_steps secret trimmed later

  -- `decode_secret` trims and upper-cases the secret and decodes it as base32 without padding.
  pub match_totp :
      (decode_secret : String → Option (List ℕ)) → ℕ → String → String → Result (Option ℕ)
  match_totp decode_secret now secret_base32 code = elim (decode_secret secret_base32) [
    | none ↦ ok none
    | some secret ↦ match_steps secret (trim_space code) (window now)
  ]

  -- `decrypt` is crypto.DecryptAESGCM with the server's key.
  pub verify_user_totp :
      (decode_secret : String → Option (List ℕ)) (decrypt : String → Option String)
      → ℕ
      → String
      → String
      → Db
      → Db × Result Bool
  verify_user_totp decode_secret decrypt now user_id code db =
      elim (get_mfa_method user_id totp db) [
        | none ↦ (db, err totp_not_enrolled)
        | some method ↦
            if method.encrypted_secret == ""
            then (db, err totp_not_enrolled)
            else elim (decrypt method.encrypted_secret) [
              | none ↦ (db, err totp_secret_unreadable)
              | some secret ↦ elim (match_totp decode_secret now secret code) [
                | err e ↦ (db, err e)
                | ok step ↦ verify_step user_id step db
              ]
            ]
      ]
