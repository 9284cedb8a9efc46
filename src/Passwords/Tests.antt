-- ===== src/Passwords/Tests.antt =====
-- Runs of internal/auth/password.go with stand-ins for Argon2 and base64.
use Prim.Native.Char.{code}
use Prim.Native.String.{◌++◌}
use kysignon_server.Base.{
  ℕ, zero, suc, ◌+◌, Option, some, none, [], ◌∷◌, String, length, len, split_on, split_on-cons,
  if◌then◌else◌, eqb, Result, ok, err, ◌>>=◌, password_short, hash_malformed, number_malformed, ◌≡◌,
  refl, sym, true, arith, ap, ◌∙◌,
}
use kysignon_server.Passwords.{
  Bytes, memory, iterations, parallelism, key_length, scan_int, scan_uint, scan_version,
  scan_params, prefix_text, same_bytes, hash_password, verify_parts, verify_password,
}
use kysignon_server.Passwords.Verified.{verify_password-hash_password}

-- A key that tells passwords of different lengths apart.
fill : ℕ → ℕ → Bytes
fill zero x = []
fill (suc n) x = x ∷ fill n x

length-fill : (n x : ℕ) → length (fill n x) ≡ n
unfolding fill
length-fill zero x = refl
length-fill (suc n) x = ap suc (length-fill n x)

abbrev derive : String → Bytes → ℕ → ℕ → ℕ → ℕ → Result Bytes
derive p s t m l n = ok (fill n (len p))

derive-sized :
    (p : String) (s : Bytes) (t m l n : ℕ) (k : Bytes) → derive p s t m l n ≡ ok k → length k ≡ n
derive-sized p s t m l n k h =
    let same : fill n (len p) ≡ k = cc h in ap length (sym same) ∙ length-fill n (len p)

-- Each byte is as many ones as it counts, and a zero.
ones : ℕ → String → String
ones zero s = String.◌∷◌ "0" s
ones (suc n) s = String.◌∷◌ "1" (ones n s)

encode : Bytes → String
encode [] = ""
encode (x ∷ xs) = ones x (encode xs)

prepend : ℕ → Option Bytes → Option Bytes
prepend n none = none
prepend n (some b) = some (n ∷ b)

decode_from : ℕ → String → Option Bytes
decode_from n String.[] = some []
decode_from n (String.◌∷◌ c s) =
    let more = decode_from (suc n) s in
    let next = prepend n (decode_from zero s) in if eqb (code c) 49 then more else next

decode-ones :
    (x n : ℕ) (s : String) → decode_from n (ones x s) ≡ prepend (n + x) (decode_from zero s)
unfolding decode_from ones
decode-ones zero n s = ap (λ k. prepend k (decode_from zero s)) (omega arith)
decode-ones (suc x) n s =
    decode-ones x (suc n) s ∙ ap (λ k. prepend k (decode_from zero s)) (omega arith)

decode-encode : (b : Bytes) → decode_from zero (encode b) ≡ some b
unfolding encode decode_from prepend
decode-encode [] = refl
decode-encode (x ∷ xs) = decode-ones x zero (encode xs) ∙ rw (decode-encode xs) (ground arith)

split-ones :
    (x : ℕ) (s : String) → split_on 36 s ≡ (s ∷ []) → split_on 36 (ones x s) ≡ (ones x s ∷ [])
unfolding ones
split-ones zero s h = split_on-cons "0" 36 s refl h
split-ones (suc x) s h = split_on-cons "1" 36 (ones x s) refl (split-ones x s h)

split-encode : (b : Bytes) → split_on 36 (encode b) ≡ (encode b ∷ [])
unfolding encode split_on
split-encode [] = refl
split-encode (x ∷ xs) = split-ones x (encode xs) (split-encode xs)

abbrev secret : String
secret = "correct horse"

abbrev stored : String
stored =
    prefix_text 19 derive encode (decode_from zero)
    ++ (encode (1 ∷ 2 ∷ []) ++ ("$" ++ encode (fill 32 13)))

hashed : hash_password 19 derive encode (decode_from zero) secret (1 ∷ 2 ∷ []) ≡ ok stored
unfolding hash_password fill len
hashed = refl

short : hash_password 19 derive encode (decode_from zero) "horse" [] ≡ err password_short
unfolding hash_password len
short = refl

malformed :
    verify_password 19 derive encode (decode_from zero) secret "$argon2id$v=19$"
    ≡ err hash_malformed
unfolding verify_password split_on verify_parts
malformed = refl

-- 2 ^ 32 does not fit the memory of 32 bits.
overflow :
    verify_password 19 derive encode
      (decode_from zero)
      secret
      "$argon2id$v=19$m=4294967296,t=3,p=4$0$0"
    ≡ err number_malformed
unfolding verify_password split_on verify_parts scan_version scan_params scan_int scan_uint
overflow = refl

verify_password-hash_password_example :
    (verify_password 19 derive encode (decode_from zero) secret stored ≡ ok true)
    × ((q : String)
        → verify_password 19 derive encode (decode_from zero) q stored ≡ (
            derive q (1 ∷ 2 ∷ []) iterations memory parallelism key_length >>= λ k.
            derive secret (1 ∷ 2 ∷ []) iterations memory parallelism key_length >>= λ own.
            ok (same_bytes k own)))
verify_password-hash_password_example =
    verify_password-hash_password 19 derive encode (decode_from zero) refl derive-sized
      decode-encode split-encode secret (1 ∷ 2 ∷ []) stored hashed
