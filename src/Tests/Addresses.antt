-- ===== src/Tests/Addresses.antt =====
-- Runs of the resolution of client addresses, where any text that does not begin with a question mark is an
-- address and a network is one address.
use vector_doc_qa.Prelude.{
  ◌≡◌, refl, true, false, Option, none, some, List, [], ◌∷◌, ◌++◌, ◌==◌, is_some, if◌then◌else◌,
}
use vector_doc_qa.Text.{Text, strip, is_space}
use vector_doc_qa.Files.{same_text}
use vector_doc_qa.RateLimit.{
  Ipaddress, split_from, entries, in_networks, is_trusted_proxy, normalize, first_untrusted,
  resolve_forwarded_for_client_ip, client_ip,
}
use vector_doc_qa.RateLimit.Forwarded.{
  resolve_forwarded_for_client_ip-injected, resolve_forwarded_for_client_ip-spoiled,
}

abbrev read_address : Text → Option Text
read_address [] = none
read_address (c ∷ r) = if c == b'?' then none else some (c ∷ r)

abbrev lib : Ipaddress
lib = record {
  Address = Text;
  Network = Text;
  ip_address = read_address;
  ip_network = some;
  contains = same_text;
  text_of = λ a. a;
}

-- The proxy "9".
abbrev proxies : List Text
proxies = (b'9' ∷ []) ∷ []

resolved : resolve_forwarded_for_client_ip lib proxies (b'5' ∷ []) (b'9' ∷ []) ≡ some (b'5' ∷ [])
unfolding resolve_forwarded_for_client_ip entries split_from strip is_space normalize
    first_untrusted is_trusted_proxy in_networks same_text
resolved = refl

valid : is_some (normalize lib proxies (entries (b'7' ∷ []))) ≡ true
unfolding normalize entries split_from strip is_space
valid = refl

invalid : is_some (normalize lib proxies (entries (b'?' ∷ []))) ≡ false
unfolding normalize entries split_from strip is_space
invalid = refl

resolve_forwarded_for_client_ip-injected_example :
    resolve_forwarded_for_client_ip lib proxies ((b'7' ∷ []) ++ b',' ∷ b'5' ∷ []) (b'9' ∷ [])
    ≡ some (b'5' ∷ [])
resolve_forwarded_for_client_ip-injected_example =
    resolve_forwarded_for_client_ip-injected lib proxies (b'7' ∷ []) (b'5' ∷ []) (b'9' ∷ [])
      (b'5' ∷ []) valid resolved

resolve_forwarded_for_client_ip-spoiled_example :
    resolve_forwarded_for_client_ip lib proxies ((b'?' ∷ []) ++ b',' ∷ b'5' ∷ []) (b'9' ∷ []) ≡ none
resolve_forwarded_for_client_ip-spoiled_example =
    resolve_forwarded_for_client_ip-spoiled lib proxies (b'?' ∷ []) (b'5' ∷ []) (b'9' ∷ []) invalid

-- The client behind the proxy, by the header.
client_address :
    client_ip lib proxies (record {
      host = some (b'9' ∷ []);
      x_forwarded_for = some (b'7' ∷ b',' ∷ b'5' ∷ []);
      x_real_ip = none;
    })
    ≡ b'5' ∷ []
unfolding client_ip is_trusted_proxy strip is_space in_networks same_text
    resolve_forwarded_for_client_ip entries split_from normalize first_untrusted
client_address = refl
