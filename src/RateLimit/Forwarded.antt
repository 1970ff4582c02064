-- ===== src/RateLimit/Forwarded.antt =====
-- What a client can and can not do to its address by the header that it sends.
use mathlib.Core.List.{reverse-append, map-append, append_assoc}
use vector_doc_qa.Prelude.{
  ◌≡◌, refl, ap, ◌∙◌, true, false, not, Option, none, some, List, [], ◌∷◌, ◌++◌, map, reverse,
  arith, is_empty, is_some, select, select-append, Bool-cases, Option-cases, inl, inr,
}
use vector_doc_qa.Text.{Text, strip}
use vector_doc_qa.RateLimit.{
  Ipaddress, split_from, entries, normalize, is_trusted_proxy, first_untrusted,
  resolve_forwarded_for_client_ip,
}

split_from-append :
    (part a b : Text) → split_from part (a ++ b',' ∷ b) ≡ split_from part a ++ split_from [] b
unfolding split_from
split_from-append part [] b = refl
split_from-append part (c ∷ a) b =
    ground (arith, split_from-append [] a b, split_from-append (part ++ c ∷ []) a b)

entries-append : (a b : Text) → entries (a ++ b',' ∷ b) ≡ entries a ++ entries b
unfolding entries
entries-append a b =
    ap (λ l. select (λ e. not (is_empty e)) (map strip l)) (split_from-append [] a b)
    ∙ ap (select (λ e. not (is_empty e))) (map-append strip (split_from [] a) (split_from [] b))
    ∙ select-append (λ e. not (is_empty e)) (map strip (split_from [] a))
        (map strip (split_from [] b))

module _ (lib : Ipaddress) (trusted_proxy_ips : List Text) where
  abbrev glue : Option (List Text) → Option (List Text) → Option (List Text)
  glue none other = none
  glue (some a) none = none
  glue (some a) (some b) = some (a ++ b)

  normalize-append :
      (xs ys : List Text)
      → normalize lib trusted_proxy_ips (xs ++ ys)
        ≡ glue (normalize lib trusted_proxy_ips xs) (normalize lib trusted_proxy_ips ys)
  unfolding normalize
  normalize-append [] ys = elim (Option-cases (normalize lib trusted_proxy_ips ys)) [
    | inl bad ↦ ground (arith, bad)
    | inr (chain, good) ↦ ground (arith, good)
  ]
  normalize-append (x ∷ xs) ys = ground (arith, normalize-append xs ys)

  first_untrusted-append :
      (xs ys : List Text) (ip : Text)
      → first_untrusted lib trusted_proxy_ips xs ≡ some ip
      → first_untrusted lib trusted_proxy_ips (xs ++ ys) ≡ some ip
  unfolding first_untrusted
  first_untrusted-append [] ys ip h = cc
  first_untrusted-append (x ∷ xs) ys ip h = ground (arith, first_untrusted-append xs ys ip)

  chain_injected :
      (left right : List Text) (peer ip : Text)
      → first_untrusted lib trusted_proxy_ips (reverse (right ++ peer ∷ [])) ≡ some ip
      → first_untrusted lib trusted_proxy_ips (reverse ((left ++ right) ++ peer ∷ [])) ≡ some ip
  chain_injected left right peer ip h =
      ap (λ l. first_untrusted lib trusted_proxy_ips (reverse l))
        (append_assoc left right (peer ∷ []))
      ∙ ap (first_untrusted lib trusted_proxy_ips) (reverse-append left (right ++ peer ∷ []))
      ∙ first_untrusted-append (reverse (right ++ peer ∷ [])) (reverse left) ip h

  not_empty : (xs ys : List Text) → is_empty ys ≡ false → is_empty (xs ++ ys) ≡ false
  not_empty [] ys h = h
  not_empty (x ∷ xs) ys h = refl

  -- If a header resolves to an address, it resolves to the same one with any valid addresses put in
  -- front of it.
  pub resolve_forwarded_for_client_ip-injected :
      (injected header peer_ip ip : Text)
      → is_some (normalize lib trusted_proxy_ips (entries injected)) ≡ true
      → resolve_forwarded_for_client_ip lib trusted_proxy_ips header peer_ip ≡ some ip
      → resolve_forwarded_for_client_ip lib trusted_proxy_ips (injected ++ b',' ∷ header) peer_ip
        ≡ some ip
  unfolding resolve_forwarded_for_client_ip
  resolve_forwarded_for_client_ip-injected injected header peer_ip ip valid h =
      elim (Option-cases (normalize lib trusted_proxy_ips (entries injected))) [
        | inl bad ↦ absurd (ground arith)
        | inr (left, l) ↦ elim (Option-cases (normalize lib trusted_proxy_ips (entries header))) [
          | inl bad ↦ absurd (ground arith)
          | inr (right, r) ↦ ground (
            arith,
            entries-append injected header,
            normalize-append (entries injected) (entries header),
            not_empty (entries injected) (entries header),
            chain_injected left right peer_ip ip,
          )
        ]
      ]

  -- With an entry put in front of it that is no address, no header resolves to an address.
  pub resolve_forwarded_for_client_ip-spoiled :
      (injected header peer_ip : Text)
      → is_some (normalize lib trusted_proxy_ips (entries injected)) ≡ false
      → resolve_forwarded_for_client_ip lib trusted_proxy_ips (injected ++ b',' ∷ header) peer_ip
        ≡ none
  unfolding resolve_forwarded_for_client_ip
  resolve_forwarded_for_client_ip-spoiled injected header peer_ip bad =
      ground (
        arith,
        entries-append injected header,
        normalize-append (entries injected) (entries header),
      )

  first_untrusted-not_trusted :
      (hops : List Text) (ip : Text)
      → first_untrusted lib trusted_proxy_ips hops ≡ some ip
      → is_trusted_proxy lib trusted_proxy_ips ip ≡ false
  unfolding first_untrusted
  first_untrusted-not_trusted [] ip h = cc
  first_untrusted-not_trusted (x ∷ hops) ip h =
      elim (Bool-cases (is_trusted_proxy lib trusted_proxy_ips x)) [
        | inl trusted ↦ first_untrusted-not_trusted hops ip (rw trusted at h)
        | inr other ↦ let e : some x ≡ some ip = rw other at h in ground (arith, e)
      ]

  -- An address that a header resolves to is never a trusted proxy.
  pub resolve_forwarded_for_client_ip-untrusted :
      (header peer_ip ip : Text)
      → resolve_forwarded_for_client_ip lib trusted_proxy_ips header peer_ip ≡ some ip
      → is_trusted_proxy lib trusted_proxy_ips ip ≡ false
  unfolding resolve_forwarded_for_client_ip
  resolve_forwarded_for_client_ip-untrusted header peer_ip ip h =
      elim (Option-cases (normalize lib trusted_proxy_ips (entries header))) [
        | inl bad ↦ absurd (ground arith)
        | inr (chain, good) ↦
            first_untrusted-not_trusted (reverse (chain ++ peer_ip ∷ [])) ip (ground arith)
      ]
