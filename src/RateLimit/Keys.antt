-- ===== src/RateLimit/Keys.antt =====
-- The keys of the rate limits in backend/app/utils/rate_limit.py. The random UUID of a request from
-- the white list is a parameter.
use Prim.Native.Char.{code}
use text.Mathlib.Text.{◌==◌ as str_eq}
use vector_doc_qa.Prelude.{
  String, Bool, Option, none, some, List, ◌++◌, ◌==◌, any, map, if◌then◌else◌,
}
use vector_doc_qa.Text.{Text, strip}
use vector_doc_qa.Text.Write.{codes}
use vector_doc_qa.Files.{same_text}
use vector_doc_qa.Auth.Security.{Crypto, decode_access_token}
use vector_doc_qa.RateLimit.{Ipaddress, ProxiedRequest, client_ip}

unfoldable pub is_ip_whitelisted : List Text → Text → Bool
unfolding same_text
is_ip_whitelisted whitelisted_ips client_ip = any (same_text client_ip) (map strip whitelisted_ips)

-- A request with the two places of its token; what is absent is none.
pub record LimitedRequest : Type 0 where
  pub proxied : ProxiedRequest
  pub authorization : Option String
  pub access_token_cookie : Option String

-- `text[len(prefix):]`, if the text starts with the prefix.
unfoldable pub after_prefix : String → String → Option String
after_prefix String.[] text = some text
after_prefix (String.◌∷◌ p prefix) String.[] = none
after_prefix (String.◌∷◌ p prefix) (String.◌∷◌ c text) =
    let rest = after_prefix prefix text in if code p == code c then rest else none

abbrev bearer_of : Option String → Option String
bearer_of none = none
bearer_of (some auth_header) = after_prefix "Bearer " auth_header

-- `if text:`
abbrev truthy : Option String → Option String
truthy none = none
truthy (some text) = if str_eq text "" then none else some text

module _ (lib : Ipaddress) (trusted_proxy_ips whitelisted_ips : List Text) (crypto : Crypto)
    (uuid : Text) where
  unfoldable pub get_ip_key : LimitedRequest → Text
  unfolding client_ip is_ip_whitelisted
  get_ip_key request =
      let ip = client_ip lib trusted_proxy_ips request.proxied in
      if is_ip_whitelisted whitelisted_ips ip then uuid else ip

  abbrev user_of : Option String → Option String
  user_of none = none
  user_of (some token) = truthy (decode_access_token crypto token)

  abbrev user_key : Option String → Text → Text
  user_key none otherwise = otherwise
  user_key (some user_id) otherwise = codes "user:" ++ codes user_id

  unfoldable pub get_user_or_ip_key : LimitedRequest → Text
  unfolding client_ip is_ip_whitelisted decode_access_token after_prefix
  get_user_or_ip_key request =
      let ip = client_ip lib trusted_proxy_ips request.proxied in
      if is_ip_whitelisted whitelisted_ips ip
      then uuid
      else user_key (user_of (bearer_of request.authorization))
          (user_key (user_of (truthy request.access_token_cookie)) ip)
