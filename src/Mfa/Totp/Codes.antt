-- ===== src/Mfa/Totp/Codes.antt =====
-- The code that internal/mfa/mfa.go cuts out of an HMAC.
use Prim.Native.String.{count}
use text.Mathlib.TextLemmas.{length-append}
use kysignon_server.Base.{
  ℕ, zero, suc, ◌+◌, ◌-◌, ◌<◌, ◌%◌, ◌*◌, ◌^◌, List, [], ◌∷◌, String, ok, ◌≡◌, refl, arith, length,
  if◌then◌else◌, eqb, Bool, true, false,
}
use kysignon_server.Mfa.Totp.{
  digit, put_uint64, index, truncate_code, uint32_at, six_digits, calculate_totp_code,
}

index-in_bounds : (bs : List ℕ) (i : ℕ) → i < length bs → (b : ℕ) × (index bs i ≡ ok b)
unfolding index
index-in_bounds [] i h = absurd (omega (arith, h))
index-in_bounds (b ∷ bs) zero h = (b, refl)
index-in_bounds (b ∷ bs) (suc i) h = index-in_bounds bs i (omega arith)

count-if : (b : Bool) (x y : String) → count x ≡ 1 → count y ≡ 1 → count (if b then x else y) ≡ 1
count-if true x y h k = h
count-if false x y h k = k

count-digit : (n : ℕ) → count (digit n) ≡ 1
count-digit n = count-if (eqb n 0) "0" _ refl (
    count-if (eqb n 1) "1" _ refl (
      count-if (eqb n 2) "2" _ refl (
        count-if (eqb n 3) "3" _ refl (
          count-if (eqb n 4) "4" _ refl (
            count-if (eqb n 5) "5" _ refl (
              count-if (eqb n 6) "6" _ refl
                (count-if (eqb n 7) "7" _ refl (count-if (eqb n 8) "8" "9" refl refl))))))))

count-six_digits : (n : ℕ) → count (six_digits n) ≡ 6
unfolding six_digits
count-six_digits n = simp (length-append, count-digit)

uint32-in_bounds : (sum : List ℕ) (i : ℕ) → i + 3 < length sum → (w : ℕ) × (uint32_at sum i ≡ ok w)
unfolding uint32_at
uint32-in_bounds sum i h =
    let (a, ea) = index-in_bounds sum i (omega arith) in
    let (b, eb) = index-in_bounds sum (i + 1) (omega arith) in
    let (c, ec) = index-in_bounds sum (i + 2) (omega arith) in
    let (d, ed) = index-in_bounds sum (i + 3) (omega arith) in
    (((a * 256 + b) * 256 + c) * 256 + d, rw (ea, eb, ec, ed) refl)

-- For a SHA-1 sized HMAC no index and no slice bound of calculateTOTPCode is out of range, and the
-- code has six characters.
pub calculate_totp_code-total :
    (hmac_sha1 : (secret message : List ℕ) → List ℕ)
    → ((key message : List ℕ) → length (hmac_sha1 key message) ≡ 20)
    → (secret : List ℕ) (counter : ℕ)
    → (code : String) × (calculate_totp_code hmac_sha1 secret counter ≡ ok code) × (count code ≡ 6)
unfolding calculate_totp_code truncate_code
calculate_totp_code-total hmac_sha1 sized secret counter =
    let sum = hmac_sha1 secret (put_uint64 counter) in
    let (last, e) =
      index-in_bounds sum (length sum - 1) (omega (arith, sized secret (put_uint64 counter))) in
    let (word, e') =
      uint32-in_bounds sum (last % 16) (omega (arith, sized secret (put_uint64 counter))) in
    (six_digits (word % 2 ^ 31 % 1000000), rw (e, e') refl, count-six_digits _)
