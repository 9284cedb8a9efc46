-- ===== src/Web/Forwarded.antt =====
-- ClientIP of internal/api/middleware.go. `Ip` is net.IP.
pub mod Chain
mod Tests
use kysignon_server.Base.{
  Option, some, none, List, [], ◌∷◌, ◌++◌, Bool, true, false, ◌||◌, not, String, ◌==◌, trim_space,
  split_commas, if◌then◌else◌,
}

-- The peer's address without its port, and the value of the configured forwarding header, "" where
-- it is absent.
pub record Request : Type 0 where
  pub remote_host : String
  pub forwarded : String

-- The last element first, as the loop's index counts down.
pub reversed : List String → List String
reversed [] = []
reversed (x ∷ xs) = reversed xs ++ (x ∷ [])

-- isTrustedIP; `trusted` tells whether one of the configured networks contains the address.
abbrev pub is_trusted_ip : {Ip : Type 0} → (Ip → Bool) → Option Ip → Bool
is_trusted_ip trusted none = false
is_trusted_ip trusted (some ip) = trusted ip

-- `parse_ip` is net.ParseIP, `none` for nil; `show_ip` is IP.String.
module _ {Ip : Type 0} (parse_ip : String → Option Ip) (show_ip : Ip → String)
    (trusted : Ip → Bool) where
  -- `no_networks` tells that no proxy is configured.
  pub is_trusted_proxy : Bool → Request → Bool
  is_trusted_proxy no_networks r =
      if no_networks then false else is_trusted_ip trusted (parse_ip r.remote_host)

  -- The loop over the forwarded chain, from the right.
  pub walk : String → List String → String
  walk remote_host [] = remote_host
  walk remote_host (part ∷ parts) =
      let further = walk remote_host parts in
      elim (parse_ip (trim_space part)) [
        | none ↦ remote_host
        | some ip ↦ if trusted ip then further else show_ip ip
      ]

  pub client_ip : Bool → String → Request → String
  client_ip no_networks forwarded_header r =
      if not (is_trusted_proxy no_networks r) || forwarded_header == ""
      then r.remote_host
      else walk r.remote_host (reversed (split_commas r.forwarded))
