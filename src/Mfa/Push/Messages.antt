-- ===== src/Mfa/Push/Messages.antt =====
-- The messages that devices sign, of internal/mfa/mfa.go.
use Prim.Native.Char.{Char, code}
use Prim.Native.String.{◌++◌}
use mathlib.Core.Path.{ap₂}
use text.Mathlib.TextLemmas.{nil-append, cons-append, head-eq_of_cons-eq, tail-eq_of_cons-eq}
use kysignon_server.Base.{
  Bool, true, false, ◌&&◌, not, String, ◌≡◌, refl, sym, ap, subst, ◌∙◌, arith, eqb, eq_iff,
}
use kysignon_server.Mfa.Push.{push_response_message, verb}

-- The text has no `|`.
abbrev pub has_no_bar : String → Bool
has_no_bar String.[] = true
has_no_bar (String.◌∷◌ c s) = not (eqb (code c) b'|') && has_no_bar s

abbrev bar : Char
bar = "|"

bar-append : (s : String) → "|" ++ s ≡ String.◌∷◌ bar s
bar-append s = cons-append bar String.[] s ∙ ap (String.◌∷◌ bar) (nil-append s)

no_bar_head : (c : Char) (s : String) → bar ≡ c → ¬ (has_no_bar (String.◌∷◌ c s) ≡ true)
no_bar_head c s e h = cc (subst (λ d. has_no_bar (String.◌∷◌ d s) ≡ true) (sym e) h)

-- A first part without bars is what stands before the first bar.
split_bar :
    (s t r u : String)
    → has_no_bar s ≡ true
    → has_no_bar t ≡ true
    → s ++ ("|" ++ r) ≡ t ++ ("|" ++ u)
    → (s ≡ t) × (r ≡ u)
split_bar String.[] String.[] r u hs ht e = (
  refl,
  tail-eq_of_cons-eq
      (sym (bar-append r) ∙ sym (nil-append ("|" ++ r)) ∙ e ∙ nil-append ("|" ++ u) ∙ bar-append u),
)
split_bar String.[] (String.◌∷◌ d t) r u hs ht e =
    let head : bar ≡ d =
      head-eq_of_cons-eq
        (sym (bar-append r) ∙ sym (nil-append ("|" ++ r)) ∙ e ∙ cons-append d t ("|" ++ u)) in
    absurd (no_bar_head d t head ht)
split_bar (String.◌∷◌ c s) String.[] r u hs ht e =
    let head : bar ≡ c =
      head-eq_of_cons-eq
        (sym (bar-append u) ∙ sym (nil-append ("|" ++ u)) ∙ sym e ∙ cons-append c s ("|" ++ r)) in
    absurd (no_bar_head c s head hs)
split_bar (String.◌∷◌ c s) (String.◌∷◌ d t) r u hs ht e =
    let whole = sym (cons-append c s ("|" ++ r)) ∙ e ∙ cons-append d t ("|" ++ u) in
    let (rest, tails) =
      split_bar s t r u (ground arith) (ground arith) (tail-eq_of_cons-eq whole) in
    (ap₂ String.◌∷◌ (head-eq_of_cons-eq whole) rest, tails)

verb_no_bar : (b : Bool) → has_no_bar (verb b) ≡ true
verb_no_bar true = refl
verb_no_bar false = refl

verb-injective : (a b : Bool) → verb a ≡ verb b → a ≡ b
verb-injective true true e = refl
verb-injective true false e = absurd (cc ((eq_iff "approve" "deny").1 e))
verb-injective false true e = absurd (cc ((eq_iff "deny" "approve").1 e))
verb-injective false false e = refl

-- Where challenge ids have no `|`: a signed answer stands for one challenge, one decision and one
-- choice of digits, so it cannot be replayed for any other.
pub push_response_message-injective :
    (id id' : String) (approve approve' : Bool) (digits digits' : String)
    → has_no_bar id ≡ true
    → has_no_bar id' ≡ true
    → push_response_message id approve digits ≡ push_response_message id' approve' digits'
    → (id ≡ id') × (approve ≡ approve') × (digits ≡ digits')
unfolding push_response_message
push_response_message-injective id id' approve approve' digits digits' hid hid' e =
    let (_, after_version) = split_bar "kysignon-push-v1" "kysignon-push-v1" _ _ refl refl e in
    let (ids, after_id) = split_bar id id' _ _ hid hid' after_version in
    let (verbs, choices) =
      split_bar (verb approve) (verb approve') _ _ (verb_no_bar approve) (verb_no_bar approve')
        after_id in
    (ids, verb-injective approve approve' verbs, choices)
