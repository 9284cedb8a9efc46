-- ===== src/Mfa/Tokens.antt =====
-- Login tokens of internal/store/store.go and internal/mfa/mfa.go: the attempt cap and single use.
pub mod Spent
pub mod Guesses
mod Tests
use Prim.Native.String.{len}
use kysignon_server.Base.{
  ℕ, zero, suc, ◌+◌, ◌≤◌, ◌<◌, Option, none, some, List, [], ◌∷◌, Bool, true, false, ◌&&◌, ◌||◌,
  String, ◌==◌, trim_space, is_none, count_where, update_where, find_where, ok, err, Result, ◌≡◌,
  refl, arith, all, not, count_mono, count_zero-find, ltb, if◌then◌else◌, ap, count-update_keep,
  eq_refl, count-update_self, count-update-le, count-delete-le, count-append, mfa_token_malformed,
  mfa_token_invalid, eq_iff, Bool-cases, inl, inr, find_where_sound, count-update_burn, eqb,
}
use native.Mathlib.Nat.{add-zero, add_assoc}
use kysignon_server.Schema.{Db, MfaToken}
use kysignon_server.Mfa.{
  create_mfa_token, get_valid_mfa_token, record_mfa_failure, consume_mfa_token,
  delete_expired_mfa_tokens, redeemable, count_attempt, use_token, fresh_token,
}

abbrev pub max_mfa_attempts : ℕ
max_mfa_attempts = 5

-- ValidateMFAToken. `hash` is crypto.HashSHA256.
pub validate_mfa_token : (hash : String → String) → ℕ → String → Db → Result MfaToken
validate_mfa_token hash now raw db =
    if raw == "" || ltb 256 (len raw)
    then err mfa_token_malformed
    else elim (get_valid_mfa_token now (hash (trim_space raw)) max_mfa_attempts db) [
      | none ↦ err mfa_token_invalid
      | some t ↦ ok t
    ]

pub data Op : Type 0 where
  creates : ℕ → MfaToken → Op
  fails : String → Op
  consumes : ℕ → String → Op
  deletes_expired : ℕ → Op

unfoldable pub step : Op → Db → Db
step (creates now t) db = (create_mfa_token now t db).0
step (fails id) db = (record_mfa_failure id db).0
step (consumes now id) db = (consume_mfa_token now id db).0
step (deletes_expired now) db = delete_expired_mfa_tokens now db

unfoldable pub run : List Op → Db → Db
run [] db = db
run (op ∷ ops) db = run ops (step op db)

-- The operation offers a new token that passes the test.
abbrev pub mints : (MfaToken → Bool) → Op → Bool
mints q (creates now t) = q (fresh_token now t)
mints q _ = false

module _ (q : MfaToken → Bool)
    (used : (now : ℕ) (t : MfaToken) → q (use_token now t) ≡ true → q t ≡ true)
    (failing : (t : MfaToken) → q (count_attempt t) ≡ true → q t ≡ true) where
  abbrev pub NoToken : Db → Type 0
  NoToken db = count_where q db.mfa_tokens ≡ 0

  create-NoToken :
      (now : ℕ) (t : MfaToken) (db : Db)
      → q (fresh_token now t) ≡ false
      → NoToken db
      → NoToken (create_mfa_token now t db).0
  unfolding create_mfa_token
  create-NoToken now t db other h =
      ground (arith, count-append q db.mfa_tokens (fresh_token now t ∷ []))

  step-NoToken : (op : Op) (db : Db) → mints q op ≡ false → NoToken db → NoToken (step op db)
  unfolding step record_mfa_failure consume_mfa_token delete_expired_mfa_tokens
  step-NoToken (creates now t) db other h = create-NoToken now t db other h
  step-NoToken (fails id) db other h =
      omega (
        arith,
        count-update-le q (λ (t : MfaToken). t.id == id) count_attempt failing db.mfa_tokens,
      )
  step-NoToken (consumes now id) db other h = omega (
    arith,
    count-update-le q (λ (t : MfaToken). t.id == id && is_none t.used_at) (use_token now) (used now)
        db.mfa_tokens,
  )
  step-NoToken (deletes_expired now) db other h =
      omega (arith, count-delete-le q (λ t. ltb t.expires_at now) db.mfa_tokens)

  pub run-NoToken :
      (ops : List Op) (db : Db)
      → all (λ op. not (mints q op)) ops ≡ true
      → NoToken db
      → NoToken (run ops db)
  unfolding run
  run-NoToken [] db other h = h
  run-NoToken (op ∷ ops) db other h =
      run-NoToken ops (step op db) (ground arith) (step-NoToken op db (ground arith) h)
