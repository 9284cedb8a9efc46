-- ===== src/Passwords.antt =====
-- internal/auth/password.go: the hash of a password and its encoded form. Argon2, its version number and
-- base64 are parameters; bytes are numbers. A call of Argon2 may panic, so it gives a result.
pub mod Verified
mod Tests
use Prim.Native.Char.{code}
use Prim.Native.String.{◌++◌}
use kysignon_server.Base.{
  ℕ, zero, suc, ◌+◌, ◌-◌, ◌*◌, ◌/◌, ◌%◌, ◌^◌, Option, some, none, List, [], ◌∷◌, Bool, true, false,
  ◌&&◌, not, String, ◌==◌, ℤ, pos, negsuc, ltb, leb, eqb, length, len, is_space, split_on,
  if◌then◌else◌, Result, ok, err, ◌>>=◌, password_short, password_long, hash_malformed,
  algorithm_unsupported, version_incompatible, number_malformed, encoding_malformed,
}

abbrev pub Bytes : Type 0
Bytes = List ℕ

-- DefaultParams
abbrev pub memory : ℕ
memory = 65536

abbrev pub iterations : ℕ
iterations = 3

abbrev pub parallelism : ℕ
parallelism = 4

abbrev pub key_length : ℕ
key_length = 32

abbrev pub max_password_length : ℕ
max_password_length = 1024

-- %d of fmt.Sprintf. `fuel` bounds the number of digits.
digit : ℕ → String
digit d =
    if eqb d 0
    then "0"
    else if eqb d 1
    then "1"
    else if eqb d 2
    then "2"
    else if eqb d 3
    then "3"
    else if eqb d 4
    then "4"
    else if eqb d 5
    then "5"
    else if eqb d 6
    then "6"
    else if eqb d 7
    then "7"
    else if eqb d 8
    then "8"
    else "9"

digits : ℕ → ℕ → String
digits zero n = digit n
digits (suc fuel) n =
    let more = digits fuel (n / 10) ++ digit (n % 10) in if ltb n 10 then digit n else more

unfoldable pub decimal : ℕ → String
unfolding digits digit
decimal n = digits n n

-- subtle.ConstantTimeCompare(a, b) == 1
unfoldable pub same_bytes : Bytes → Bytes → Bool
same_bytes [] [] = true
same_bytes [] (b ∷ bs) = false
same_bytes (a ∷ as') [] = false
same_bytes (a ∷ as') (b ∷ bs) = eqb a b && same_bytes as' bs

-- fmt.Sscanf: the literal text of a format, and the verb %d. What follows the last verb is ignored.
unfoldable pub strip : String → String → Option String
strip String.[] s = some s
strip (String.◌∷◌ c p) String.[] = none
strip (String.◌∷◌ c p) (String.◌∷◌ d s) =
    let rest = strip p s in if eqb (code c) (code d) then rest else none

skip_spaces : String → Option String
skip_spaces String.[] = some ""
skip_spaces (String.◌∷◌ c s) =
    let rest = skip_spaces s in
    if eqb (code c) 10 then none else if is_space c then rest else some (String.◌∷◌ c s)

abbrev is_digit : ℕ → Bool
is_digit c = leb 48 c && leb c 57

starts_number : String → Bool
starts_number String.[] = false
starts_number (String.◌∷◌ c s) = is_digit (code c)

scan_digits : ℕ → String → ℕ × String
scan_digits n String.[] = (n, "")
scan_digits n (String.◌∷◌ c s) =
    let more = scan_digits (n * 10 + (code c - 48)) s in
    if is_digit (code c) then more else (n, String.◌∷◌ c s)

-- The digits of a number below `limit`; a greater one is an overflow.
scan_below : ℕ → String → Option (ℕ × String)
scan_below limit s =
    if starts_number s
    then (let (n, rest) = scan_digits 0 s in if ltb n limit then some (n, rest) else none)
    else none

-- %d into an unsigned integer of `bits` bits.
unfoldable pub scan_uint : ℕ → String → Option (ℕ × String)
unfolding skip_spaces scan_below starts_number scan_digits
scan_uint bits s = elim (skip_spaces s) [ none ↦ none | some t ↦ scan_below (2 ^ bits) t ]

abbrev negative : ℕ → ℤ
negative n = if eqb n 0 then pos 0 else negsuc (n - 1)

scan_signed : String → Option ℤ
scan_signed String.[] = none
scan_signed (String.◌∷◌ c s) =
    if eqb (code c) 45
    then elim (scan_below (2 ^ 63 + 1) s) [ none ↦ none | some (n, rest) ↦ some (negative n) ]
    else elim (scan_below (2 ^ 63) (if eqb (code c) 43 then s else String.◌∷◌ c s)) [
      | none ↦ none
      | some (n, rest) ↦ some (pos n)
    ]

-- %d into an int.
unfoldable pub scan_int : String → Option ℤ
unfolding skip_spaces scan_signed scan_below starts_number scan_digits
scan_int s = elim (skip_spaces s) [ none ↦ none | some t ↦ scan_signed t ]

abbrev then_with {ℓ} : {A : Type ℓ} → Option (ℕ × String) → (ℕ → String → Option A) → Option A
then_with none next = none
then_with (some (n, rest)) next = next n rest

abbrev after {ℓ} : {A : Type ℓ} → String → String → (String → Option A) → Option A
after literal s next = elim (strip literal s) [ none ↦ none | some rest ↦ next rest ]

-- fmt.Sscanf(s, "v=%d", &version)
unfoldable pub scan_version : String → Option ℤ
unfolding strip
scan_version s = after "v=" s scan_int

pub record Params : Type 0 where
  pub memory_of : ℕ
  pub iterations_of : ℕ
  pub parallelism_of : ℕ

-- fmt.Sscanf(s, "m=%d,t=%d,p=%d", &memory, &iterations, &parallelism)
unfoldable pub scan_params : String → Option Params
unfolding strip
scan_params s = after "m=" s λ s. then_with (scan_uint 32 s) λ m s. after ",t=" s λ s.
    then_with (scan_uint 32 s) λ t s. after ",p=" s λ s.
      then_with (scan_uint 8 s)
        λ p s. some (record { memory_of = m; iterations_of = t; parallelism_of = p })

abbrev needed : {A : Type 0} → Option A → Result A
needed none = err number_malformed
needed (some a) = ok a

module _ (argon2_version : ℕ) (id_key : String → Bytes → ℕ → ℕ → ℕ → ℕ → Result Bytes)
    (encode : Bytes → String) (decode : String → Option Bytes) where
  -- The text in front of the salt.
  unfoldable pub prefix_text : String
  prefix_text =
      "$argon2id$v="
      ++ (decimal argon2_version
          ++ ("$m="
              ++ (decimal memory
                  ++ (",t=" ++ (decimal iterations ++ (",p=" ++ (decimal parallelism ++ "$")))))))

  -- `salt` is what rand.Read gives.
  unfoldable pub hash_password : String → Bytes → Result String
  hash_password password salt =
      if ltb (len password) 12
      then err password_short
      else if ltb max_password_length (len password)
      then err password_long
      else (id_key password salt iterations memory parallelism key_length >>= λ hash.
          ok (prefix_text ++ (encode salt ++ ("$" ++ encode hash))))

  abbrev decoded : String → Result Bytes
  decoded s = elim (decode s) [ none ↦ err encoding_malformed | some b ↦ ok b ]

  abbrev is_version : ℤ → Bool
  is_version (pos n) = eqb n argon2_version
  is_version (negsuc n) = false

  unfoldable pub verify_parts : String → List String → Result Bool
  verify_parts password (blank ∷ algorithm ∷ version ∷ params ∷ salt ∷ hash ∷ []) =
      if not (algorithm == "argon2id")
      then err algorithm_unsupported
      else (needed (scan_version version) >>= λ v.
          if is_version v
          then (needed (scan_params params) >>= λ p. decoded salt >>= λ salt.
              decoded hash >>= λ expected.
              id_key password salt p.iterations_of p.memory_of p.parallelism_of
                (length expected % 2 ^ 32)
              >>= λ calculated. ok (same_bytes calculated expected))
          else err version_incompatible)
  verify_parts password _ = err hash_malformed

  unfoldable pub verify_password : String → String → Result Bool
  verify_password password encoded = verify_parts password (split_on 36 encoded)
