-- ===== src/RateLimit.antt =====
-- The client address behind proxies, and the keys of the rate limits, in backend/app/utils/rate_limit.py.
-- Python's `ipaddress` is a parameter, and so are the trusted proxies and the white list of the settings.
pub mod Forwarded
pub mod Keys
use vector_doc_qa.Prelude.{
  ℕ, Bool, true, false, not, ◌||◌, Option, none, some, List, [], ◌∷◌, ◌++◌, map, reverse, ◌==◌,
  is_empty, any, select, if◌then◌else◌,
}
use vector_doc_qa.Text.{Text, strip}
use vector_doc_qa.Files.{same_text}

pub record Ipaddress : Type 1 where
  pub Address : Type 0
  pub Network : Type 0
  -- None stands for ValueError; the network is read with strict=False.
  pub ip_address : Text → Option Address
  pub ip_network : Text → Option Network
  pub contains : Network → Address → Bool
  pub text_of : Address → Text

-- text.split(",")
unfoldable pub split_from : Text → Text → List Text
split_from part [] = part ∷ []
split_from part (c ∷ text) =
    let rest = split_from [] text in
    let more = split_from (part ++ c ∷ []) text in if c == b',' then part ∷ rest else more

-- The entries of the header that are not empty.
unfoldable pub entries : Text → List Text
entries x_forwarded_for = select (λ e. not (is_empty e)) (map strip (split_from [] x_forwarded_for))

-- The parts of a request that are read; a header that is absent is none.
pub record ProxiedRequest : Type 0 where
  pub host : Option Text
  pub x_forwarded_for : Option Text
  pub x_real_ip : Option Text

module _ (lib : Ipaddress) (trusted_proxy_ips : List Text) where
  abbrev pub parse_ip : Text → Option lib.Address
  parse_ip ip = lib.ip_address (strip ip)

  -- An entry that is empty or no network is passed over.
  unfoldable pub in_networks : lib.Address → List Text → Bool
  in_networks client [] = false
  in_networks client (proxy_ip ∷ proxies) =
      let rest = in_networks client proxies in
      if is_empty (strip proxy_ip) then rest else elim (lib.ip_network (strip proxy_ip)) [
        | none ↦ rest
        | some network ↦ lib.contains network client || rest
      ]

  unfoldable pub is_trusted_proxy : Text → Bool
  is_trusted_proxy client_ip = elim (parse_ip client_ip) [
    | none ↦ false
    | some client ↦ in_networks client trusted_proxy_ips
  ]

  -- The normalized chain, unless an entry is no address.
  unfoldable pub normalize : List Text → Option (List Text)
  normalize [] = some []
  normalize (ip ∷ ips) =
      let rest = normalize ips in
      elim (parse_ip ip) [
        | none ↦ none
        | some address ↦ elim rest [ none ↦ none | some chain ↦ some (lib.text_of address ∷ chain) ]
      ]

  -- The first hop that is no trusted proxy.
  unfoldable pub first_untrusted : List Text → Option Text
  first_untrusted [] = none
  first_untrusted (hop_ip ∷ hops) =
      if is_trusted_proxy hop_ip then first_untrusted hops else some hop_ip

  -- From the right, beginning with the peer.
  abbrev pub resolve_chain : Text → Option (List Text) → Option Text
  resolve_chain peer_ip none = none
  resolve_chain peer_ip (some chain) = first_untrusted (reverse (chain ++ peer_ip ∷ []))

  unfoldable pub resolve_forwarded_for_client_ip : Text → Text → Option Text
  resolve_forwarded_for_client_ip x_forwarded_for peer_ip =
      let forwarded_ips = entries x_forwarded_for in
      if is_empty forwarded_ips then none else resolve_chain peer_ip (normalize forwarded_ips)

  -- "127.0.0.1"
  abbrev pub loopback : Text
  loopback = b'1' ∷ b'2' ∷ b'7' ∷ b'.' ∷ b'0' ∷ b'.' ∷ b'0' ∷ b'.' ∷ b'1' ∷ []

  abbrev pub peer_of : ProxiedRequest → Text
  peer_of request = elim request.host [ none ↦ loopback | some host ↦ host ]

  -- An answer that is not empty, or the other one.
  abbrev pub or_text : Option Text → Text → Text
  or_text none other = other
  or_text (some []) other = other
  or_text (some (c ∷ r)) other = c ∷ r

  abbrev pub forwarded : Option Text → Text → Option Text
  forwarded none peer_ip = none
  forwarded (some []) peer_ip = none
  forwarded (some (c ∷ r)) peer_ip = resolve_forwarded_for_client_ip (c ∷ r) peer_ip

  abbrev pub real_ip : Option Text → Text → Text
  real_ip none peer_ip = peer_ip
  real_ip (some []) peer_ip = peer_ip
  real_ip (some (c ∷ r)) peer_ip = elim (parse_ip (c ∷ r)) [
    | none ↦ peer_ip
    | some address ↦ lib.text_of address
  ]

  unfoldable pub client_ip : ProxiedRequest → Text
  client_ip request =
      let peer_ip = peer_of request in
      if is_trusted_proxy peer_ip
      then or_text (forwarded request.x_forwarded_for peer_ip) (real_ip request.x_real_ip peer_ip)
      else peer_ip
