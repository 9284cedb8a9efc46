-- ===== src/Netguard/Blocks.antt =====
-- The IPv4 addresses that internal/netguard/netguard.go refuses, as blocks of addresses.
use kysignon_server.Base.{
  ℕ, ◌+◌, ◌*◌, ◌/◌, ◌^◌, ◌<◌, Option, some, List, [], ◌∷◌, any, Bool, true, false, ◌&&◌, ◌||◌, not,
  String, ◌==◌, eqb, ltb, if◌then◌else◌, Result, ok, err, address_refused, ◌≡◌, refl, arith, ap,
  ◌∙◌, ◌⊎◌, inl, inr, none, ◌≢◌, eq_iff, Option-cases,
}
use kysignon_server.Netguard.{Ip, Url, is_non_public, dial_control, validate_parsed, validate_url}

-- The address as a number of 32 bits.
abbrev pub number : ℕ → ℕ → ℕ → ℕ → ℕ
number a b c d = ((a * 256 + b) * 256 + c) * 256 + d

-- A block of addresses: its first one and how many it has.
abbrev pub in_block : ℕ → ℕ × ℕ → Bool
in_block n (start, size) = not (ltb n start) && ltb n (start + size)

-- 127.0.0.0/8, 10.0.0.0/8, 172.16.0.0/12, 192.168.0.0/16, 169.254.0.0/16, 0.0.0.0/32, 224.0.0.0/4
abbrev pub blocks : List (ℕ × ℕ)
blocks =
    (number 127 0 0 0, 2 ^ 24)
    ∷ (number 10 0 0 0, 2 ^ 24)
    ∷ (number 172 16 0 0, 2 ^ 20)
    ∷ (number 192 168 0 0, 2 ^ 16)
    ∷ (number 169 254 0 0, 2 ^ 16)
    ∷ (number 0 0 0 0, 1)
    ∷ (number 224 0 0 0, 2 ^ 28)
    ∷ []

-- The two forms of an IPv4 address.
abbrev pub plain : ℕ → ℕ → ℕ → ℕ → Ip
plain a b c d = a ∷ b ∷ c ∷ d ∷ []

abbrev pub mapped : ℕ → ℕ → ℕ → ℕ → Ip
mapped a b c d = 0 ∷ 0 ∷ 0 ∷ 0 ∷ 0 ∷ 0 ∷ 0 ∷ 0 ∷ 0 ∷ 0 ∷ 255 ∷ 255 ∷ a ∷ b ∷ c ∷ d ∷ []

same_forms : (a b c d : ℕ) → is_non_public (mapped a b c d) ≡ is_non_public (plain a b c d)
unfolding is_non_public
same_forms a b c d = refl

-- The same tests, in the order of the code and in that of the blocks.
reordered :
    {p p' q q' r r' s s' l l' m u u' g g' : Bool}
    → p ≡ p'
    → q ≡ q'
    → r ≡ r'
    → s ≡ s'
    → l ≡ l'
    → u ≡ u'
    → g ≡ g'
    → (m ≡ true → g ≡ true)
    → (p || (q || r || s) || l || m || u || g || false)
      ≡ (p' || (q' || (r' || (s' || (l' || (u' || (g' || false)))))))
reordered {p} {p'} {q} {q'} {r} {r'} {s} {s'} {l} {l'} {m} h1 h2 h3 h4 h5 h6 h7 h8 = ground arith

abbrev answer : Bool → Result (Unit {0})
answer refused = if refused then err address_refused else ok tt

module _ (a b c d : ℕ) (a_byte : a < 256) (b_byte : b < 256) (c_byte : c < 256)
    (d_byte : d < 256) where
  -- A block of all addresses with one first byte.
  first_byte : (n : ℕ) → eqb a n ≡ in_block (number a b c d) (number n 0 0 0, 16777216)
  first_byte n = ground arith

  private_172 :
      (eqb a 172 && eqb (b / 16) 1) ≡ in_block (number a b c d) (number 172 16 0 0, 1048576)
  private_172 = ground arith

  first_bytes :
      (n m : ℕ) → m < 256 → (eqb a n && eqb b m) ≡ in_block (number a b c d) (number n m 0 0, 65536)
  first_bytes n m h = ground arith

  nowhere :
      (eqb a 0 && (eqb b 0 && (eqb c 0 && (eqb d 0 && true)))) ≡ in_block (number a b c d) (0, 1)
  nowhere = ground arith

  multicast : eqb (a / 16) 14 ≡ in_block (number a b c d) (number 224 0 0 0, 268435456)
  multicast = ground arith

  local_multicast : (eqb a 224 && eqb b 0 && eqb c 0) ≡ true → eqb (a / 16) 14 ≡ true
  local_multicast h = ground arith

  plain_exact : is_non_public (plain a b c d) ≡ any (in_block (number a b c d)) blocks
  unfolding is_non_public
  plain_exact =
      reordered (first_byte 127) (first_byte 10) private_172 (first_bytes 192 168 (omega arith))
        (first_bytes 169 254 (omega arith)) nowhere multicast local_multicast

  -- The dialer, where private addresses are not allowed, refuses an IPv4 address, plain or mapped into IPv6,
  -- exactly where it lies in one of these blocks: 127.0.0.0/8, 10.0.0.0/8, 172.16.0.0/12,
  -- 192.168.0.0/16, 169.254.0.0/16, 0.0.0.0/32 and 224.0.0.0/4; it lets every other one pass.
  pub dial_control_exact :
      (split_host_port : String → Option String) (parse_ip : String → Option Ip)
      (address host : String) (ip : Ip)
      → split_host_port address ≡ some host
      → parse_ip host ≡ some ip
      → (ip ≡ plain a b c d) ⊎ (ip ≡ mapped a b c d)
      → dial_control split_host_port parse_ip false address
        ≡ (if any (in_block (number a b c d)) blocks then err address_refused else ok tt)
  unfolding dial_control
  dial_control_exact split_host_port parse_ip address host ip split parsed form =
      let same : is_non_public ip ≡ any (in_block (number a b c d)) blocks = elim form [
        | inl direct ↦ ap is_non_public direct ∙ plain_exact
        | inr through ↦ ap is_non_public through ∙ (same_forms a b c d ∙ plain_exact)
      ] in
      rw (split, parsed) (ap (λ (r : Bool). answer r) same)

-- What ValidateURL accepts: a URL with https, a host, no credentials and no fragment, and a host that, where
-- it is an address, the dialer does not refuse.
pub validate_url_sound :
    (parse_url : String → Option Url) (split_host_port : String → Option String)
    (parse_ip : String → Option Ip) (raw address : String) (u : Url)
    → parse_url raw ≡ some u
    → split_host_port address ≡ some u.hostname
    → validate_url parse_url parse_ip false raw ≡ ok tt
    → (u.scheme ≡ "https")
      × (u.hostname ≢ "")
      × (u.has_user ≡ false)
      × (u.fragment ≡ "")
      × ((dial_control split_host_port parse_ip false address ≡ ok tt)
          ⊎ (parse_ip u.hostname ≡ none))
unfolding validate_url validate_parsed dial_control
validate_url_sound parse_url split_host_port parse_ip raw address u parsed split accepted =
    let checked : validate_parsed parse_ip false raw u ≡ ok tt = ground (arith, parsed, accepted) in
    let host_given : (u.hostname == "") ≡ false = ground (arith, checked) in
    (
      (eq_iff u.scheme "https").0 (ground (arith, checked)),
      λ e. ground (arith, host_given, (eq_iff u.hostname "").1 e),
      ground (arith, checked),
      (eq_iff u.fragment "").0 (ground (arith, checked)),
      elim (Option-cases (parse_ip u.hostname)) [
        | inl name ↦ inr name
        | inr (ip, is_address) ↦ inl (rw (split, is_address) (ground (arith, checked, is_address)))
      ],
    )
