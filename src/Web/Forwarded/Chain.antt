-- ===== src/Web/Forwarded/Chain.antt =====
-- A forwarded chain cannot be forged from the left: internal/api/middleware.go.
use Prim.Native.String.{◌++◌ as ◌⧺◌}
use kysignon_server.Base.{
  Option, List, [], ◌∷◌, ◌++◌, Bool, true, ◌||◌, not, String, trim_space, split_commas, ◌≡◌, refl,
  arith, any, Bool-cases, Option-cases, inl, inr, ◌∙◌, ap, sym,
}
use mathlib.Core.List.{append-nil, append_assoc}
use kysignon_server.Base.{split_commas-append}
use kysignon_server.Web.Forwarded.{reversed, is_trusted_ip, is_trusted_proxy, walk, client_ip}

reversed-append : (xs ys : List String) → reversed (xs ++ ys) ≡ reversed ys ++ reversed xs
unfolding reversed
reversed-append [] ys = sym (append-nil (reversed ys))
reversed-append (x ∷ xs) ys =
    ap (λ zs. zs ++ (x ∷ [])) (reversed-append xs ys)
    ∙ append_assoc (reversed ys) (reversed xs) (x ∷ [])

any-append : (p : String → Bool) (xs ys : List String) → any p (xs ++ ys) ≡ (any p xs || any p ys)
any-append p [] ys = refl
any-append p (x ∷ xs) ys = ground (arith, any-append p xs ys)

any-reversed : (p : String → Bool) (xs : List String) → any p (reversed xs) ≡ any p xs
unfolding reversed
any-reversed p [] = refl
any-reversed p (x ∷ xs) = ground (arith, any-append p (reversed xs) (x ∷ []), any-reversed p xs)

module _ {Ip : Type 0} (parse_ip : String → Option Ip) (show_ip : Ip → String)
    (trusted : Ip → Bool) where
  -- The entry ends the walk: it is no address, or not one of a configured proxy.
  abbrev pub stops : String → Bool
  stops part = not (is_trusted_ip trusted (parse_ip (trim_space part)))

  walk-append :
      (remote : String) (xs ys : List String)
      → any stops xs ≡ true
      → walk parse_ip show_ip trusted remote (xs ++ ys) ≡ walk parse_ip show_ip trusted remote xs
  unfolding walk
  walk-append remote [] ys h = cc
  walk-append remote (x ∷ xs) ys h = elim (Option-cases (parse_ip (trim_space x))) [
    | inl malformed ↦ rw (walk, malformed) refl
    | inr (ip, parsed) ↦ elim (Bool-cases (trusted ip)) [
      | inr other ↦ rw (walk, parsed, other) refl
      | inl ours ↦ rw (walk, parsed, ours) (walk-append remote xs ys (ground arith))
    ]
  ]

  -- Whatever a client puts in front of a forwarded chain changes nothing: where the part of the
  -- header behind it has an entry that is no address of a configured proxy, the request is
  -- attributed as if that part stood alone.
  pub client_ip_unforged :
      (no_networks : Bool) (header remote forged chain : String)
      → any stops (split_commas chain) ≡ true
      → client_ip parse_ip show_ip trusted no_networks header
          (record { remote_host = remote; forwarded = forged ⧺ ("," ⧺ chain) })
        ≡ client_ip parse_ip show_ip trusted no_networks header
            (record { remote_host = remote; forwarded = chain })
  unfolding client_ip is_trusted_proxy
  client_ip_unforged no_networks header remote forged chain h =
      rw
        (
          split_commas-append forged chain,
          reversed-append (split_commas forged) (split_commas chain),
          walk-append remote (reversed (split_commas chain)) (reversed (split_commas forged))
              (any-reversed stops (split_commas chain) ∙ h),
        )
        refl
