-- ===== src/Mfa/Tokens/Tests.antt =====
-- Runs of the login tokens of internal/mfa/mfa.go.

use kysignon_server.Base.{List, [], ◌∷◌, String, ok, ◌≡◌, ◌≢◌, refl, IsUnique, arith, trim_space}
use kysignon_server.Schema.{Db, minute, second}
use kysignon_server.Schema.Samples.{with_alice, login_token}
use kysignon_server.Mfa.{get_valid_mfa_token}
use kysignon_server.Mfa.Tokens.{validate_mfa_token, run, Op, fails}
use kysignon_server.Mfa.Tokens.Guesses.{five_guesses_end}

abbrev with_token : Db
with_token = record with_alice { mfa_tokens = login_token ∷ [] }

abbrev same_text : String → String
same_text s = s

tokens-IsUnique : IsUnique (λ t. t.token_hash) with_token.mfa_tokens
tokens-IsUnique v = ground arith

valid_now : validate_mfa_token same_text second " raw" with_token ≡ ok login_token
unfolding validate_mfa_token get_valid_mfa_token trim_space
valid_now = refl

abbrev guesses : List Op
guesses = fails "l1" ∷ fails "l1" ∷ fails "l2" ∷ fails "l1" ∷ fails "l1" ∷ fails "l1" ∷ []

five_guesses_end_example :
    validate_mfa_token same_text minute " raw" (run guesses with_token) ≢ ok login_token
five_guesses_end_example =
    five_guesses_end same_text second minute " raw" login_token login_token with_token guesses
      tokens-IsUnique refl (omega arith) valid_now
