-- ===== src/Passwords/Verified.antt =====
-- VerifyPassword on what HashPassword makes: internal/auth/password.go.
use Prim.Native.Char.{Char}
use Prim.Native.String.{◌++◌}
use text.Mathlib.TextLemmas.{nil-append, cons-append, append_assoc}
use kysignon_server.Base.{
  ℕ, Option, some, [], ◌∷◌, true, String, ltb, length, len, split_on, split_on-append, Result, ok,
  ◌>>=◌, >>=-ok, ◌≡◌, refl, arith, ap, ◌∙◌, Bool-cases, inl, inr,
}
use kysignon_server.Passwords.{
  Bytes, memory, iterations, parallelism, key_length, decimal, same_bytes, scan_int, scan_uint,
  scan_version, scan_params, prefix_text, hash_password, verify_parts, verify_password,
  max_password_length, decoded,
}

same_bytes_refl : (b : Bytes) → same_bytes b b ≡ true
unfolding same_bytes
same_bytes_refl [] = refl
same_bytes_refl (x ∷ b) = ground (arith, same_bytes_refl b)

abbrev dollar : Char
dollar = "$"

dollar-append : (s : String) → "$" ++ s ≡ String.◌∷◌ dollar s
dollar-append s = cons-append dollar String.[] s ∙ ap (String.◌∷◌ dollar) (nil-append s)

-- The text of the parameters.
abbrev params_text : String
params_text = "$argon2id$v=19$m=65536,t=3,p=4"

params_text-split : split_on 36 params_text ≡ ("" ∷ "argon2id" ∷ "v=19" ∷ "m=65536,t=3,p=4" ∷ [])
unfolding split_on
params_text-split = refl

hash_password_ok :
    (argon2_version : ℕ) (id_key : String → Bytes → ℕ → ℕ → ℕ → ℕ → Result Bytes)
    (encode : Bytes → String) (decode : String → Option Bytes) (password : String) (salt : Bytes)
    (encoded : String)
    → hash_password argon2_version id_key encode decode password salt ≡ ok encoded
    → (hash : Bytes) × (id_key password salt iterations memory parallelism key_length ≡ ok hash)
      × (prefix_text argon2_version id_key encode decode ++ (encode salt ++ ("$" ++ encode hash))
          ≡ encoded)
unfolding hash_password
hash_password_ok argon2_version id_key encode decode password salt encoded hashed =
    let make : Bytes → Result String = λ hash.
      ok (
        prefix_text argon2_version id_key encode decode ++ (encode salt ++ ("$" ++ encode hash))) in
    let derive = id_key password salt iterations memory parallelism key_length in
    elim (Bool-cases (ltb (len password) 12)) [
      | inl short ↦ ground (arith, short, hashed)
      | inr _ ↦ elim (Bool-cases (ltb max_password_length (len password))) [
        | inl long ↦ ground (arith, long, hashed)
        | inr _ ↦
            (let chain : (derive >>= make) ≡ ok encoded = ground (arith, hashed) in
              let (hash, derived, built) = >>=-ok derive make chain in
              (hash, derived, ground (arith, built)))
      ]
    ]

module _ (argon2_version : ℕ) (id_key : String → Bytes → ℕ → ℕ → ℕ → ℕ → Result Bytes)
    (encode : Bytes → String) (decode : String → Option Bytes) (version : argon2_version ≡ 19)
    (sized : (p : String) (s : Bytes) (t m l n : ℕ) (k : Bytes)
      → id_key p s t m l n ≡ ok k
      → length k ≡ n)
    (decode-encode : (b : Bytes) → decode (encode b) ≡ some b)
    (undivided : (b : Bytes) → split_on 36 (encode b) ≡ (encode b ∷ [])) where
  prefix_text-eq : prefix_text argon2_version id_key encode decode ≡ params_text ++ "$"
  unfolding prefix_text decimal
  prefix_text-eq = rw version refl

  encoded-split :
      (salt hash : Bytes)
      → split_on 36
          (prefix_text argon2_version id_key encode decode ++ (encode salt ++ ("$" ++ encode hash)))
        ≡ ("" ∷ "argon2id" ∷ "v=19" ∷ "m=65536,t=3,p=4" ∷ encode salt ∷ encode hash ∷ [])
  encoded-split salt hash =
      let rest = encode salt ++ ("$" ++ encode hash) in
      let tail : split_on 36 rest ≡ (encode salt ∷ encode hash ∷ []) =
        rw
          (
            dollar-append (encode hash),
            split_on-append dollar 36 refl (encode salt) (encode hash),
            undivided salt,
            undivided hash,
          )
          refl in
      rw
        (
          prefix_text-eq,
          append_assoc params_text "$" rest,
          dollar-append rest,
          split_on-append dollar 36 refl params_text rest,
          params_text-split,
          tail,
        )
        refl

  verify_encoded :
      (q : String) (salt hash : Bytes)
      → length hash ≡ 32
      → verify_password argon2_version id_key encode decode q
          (prefix_text argon2_version id_key encode decode ++ (encode salt ++ ("$" ++ encode hash)))
        ≡ (id_key q salt iterations memory parallelism key_length >>= λ k. ok (same_bytes k hash))
  unfolding verify_password verify_parts scan_version scan_params scan_int scan_uint
  verify_encoded q salt hash long =
      let salt_read : decoded argon2_version id_key encode decode (encode salt) ≡ ok salt =
        rw (decode-encode salt, decoded) refl in
      let hash_read : decoded argon2_version id_key encode decode (encode hash) ≡ ok hash =
        rw (decode-encode hash, decoded) refl in
      rw (encoded-split salt hash, verify_parts, version) (rw (salt_read, hash_read, long) refl)

  -- Where Argon2 gives a key of the length asked for, base64 decodes what it encodes and its text has no
  -- dollar sign: VerifyPassword accepts a password against what HashPassword made of it, and for any
  -- other password it answers whether Argon2 derives the same key from it, with the same salt.
  pub verify_password-hash_password :
      (password : String) (salt : Bytes) (encoded : String)
      → hash_password argon2_version id_key encode decode password salt ≡ ok encoded
      → (verify_password argon2_version id_key encode decode password encoded ≡ ok true)
        × ((q : String)
            → verify_password argon2_version id_key encode decode q encoded ≡ (
                id_key q salt iterations memory parallelism key_length >>= λ k.
                id_key password salt iterations memory parallelism key_length >>= λ own.
                ok (same_bytes k own)))
  verify_password-hash_password password salt encoded hashed =
      let (hash, derived, built) =
        hash_password_ok argon2_version id_key encode decode password salt encoded hashed in
      let long = sized password salt iterations memory parallelism key_length hash derived in
      let verified = λ (q : String). verify_encoded q salt hash long in
      rw (← built) (
        verified password ∙ rw (derived, same_bytes_refl hash) refl,
        λ q. verified q ∙ rw derived refl,
      )
