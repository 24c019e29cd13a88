-- ===== src/Spec/Fetch/Tests.antt =====
-- Fetching at a concrete network: a redirect is followed and the body returned; a private address is
-- refused.
use postman_bootstrap_action.Base.{
  ℕ, zero, suc, ◌==◌, if◌then◌else◌, some, List, [], ◌∷◌, Text, codes, Text-discrete, ℕ_discrete,
  starts_with, ends_with, drop_last, length, ◌≡◌, refl,
}
use postman_bootstrap_action.Base.Contract.{ok, err, spec_fetch_blocked}
use postman_bootstrap_action.Spec.Fetch.{
  SafeFetchBudget, safe_fetch_limits, SafeFetchTransportResponse, HeaderValue, Settled, Request,
  Runtime, one, fulfilled, or_failed, stop, sent, is_private_host, is_refused, is_redirect,
  validate_safe_https_url, header_value, normalize_lookup_addresses, unblocked, is_pinned, accept,
  redirect_target, follow, respond, resolve_addresses, request_for, exchange, one_round, rounds,
  counted_in, safe_fetch_text,
}
use postman_bootstrap_action.Base.{true, false, arith, any, split_on, drop_while, is_space}
use postman_bootstrap_action.Spec.Fetch.Ipv4
use postman_bootstrap_action.Spec.Fetch.Ipv4.{
  digits_from, parse_int, parse_octet, parse_ipv4, are_blocked, is_blocked_ipv4,
}
use postman_bootstrap_action.Spec.Fetch.Ipv4.Ranges.{
  number, is_in, special_ranges, are_blocked-special_ranges,
}
use postman_bootstrap_action.Base.{All, trim}
use postman_bootstrap_action.Spec.Fetch.Ipv6.{
  dotted_ipv4_tail_to_hextets, split_last_colon, normalize_ip_address, is_blocked_address,
}
use postman_bootstrap_action.Spec.Fetch.Public.{IsPublic, with_addresses, safe_fetch_text-ArePublic}
use postman_bootstrap_action.Spec.Fetch.Laws.{IsSafe, safe_fetch_text-IsSafe}

-- URLs are texts without user information, and an address is blocked when it begins with `10.`.
abbrev rt : Runtime Text
rt = record {
  to_lower = λ t. t;
  parse = λ t. some t;
  protocol = λ u. codes "https:";
  username = λ u. [];
  password = λ u. [];
  hostname = λ u. u;
  resolve = λ t u. some t;
  byte_length = λ t. length t;
  is_ip = λ t. if_digit t;
  normalize_ip_address = λ t. t;
  is_blocked_address = λ t. starts_with (codes "10.") t;
}
  where
    if_digit : Text → ℕ
    if_digit [] = 0
    if_digit (c ∷ t) = if c == b'1' then 4 else 0

abbrev names : ℕ → Text → Settled (List Text)
names n host = fulfilled (codes "1.1.1.1" ∷ [])

abbrev private_names : ℕ → Text → Settled (List Text)
private_names n host = fulfilled (codes "1.1.1.1" ∷ codes "10.0.0.1" ∷ [])

abbrev answer : ℕ → List (Text × HeaderValue) → Text → SafeFetchTransportResponse
answer status headers body = record {
  status_code = status;
  headers = headers;
  body = body;
  remote_address = some (codes "1.1.1.1");
}

abbrev servers : ℕ → Request Text → Settled SafeFetchTransportResponse
servers zero r = fulfilled (answer 302 ((codes "location", one (codes "b.org")) ∷ []) [])
servers (suc n) r = fulfilled (answer 200 [] (codes "doc"))

abbrev fresh : SafeFetchBudget
fresh = record { refs = 0; total_bytes = 0 }

redirect_followed :
    let out = safe_fetch_text rt safe_fetch_limits names servers (codes "a.org") fresh 0 in
    (out.result ≡ ok (codes "doc")) × (length out.requests ≡ 2)
unfolding safe_fetch_text counted_in rounds one_round exchange request_for resolve_addresses respond
    follow redirect_target accept is_pinned unblocked normalize_lookup_addresses header_value
    validate_safe_https_url is_redirect is_refused is_private_host sent stop or_failed ends_with
    starts_with drop_last Text-discrete ℕ_discrete
redirect_followed = (refl, refl)

private_refused :
    let out = safe_fetch_text rt safe_fetch_limits private_names servers (codes "a.org") fresh 0 in
    (out.result ≡ err spec_fetch_blocked) × (out.requests ≡ [])
unfolding safe_fetch_text counted_in rounds one_round exchange request_for resolve_addresses respond
    follow redirect_target accept is_pinned unblocked normalize_lookup_addresses header_value
    validate_safe_https_url is_redirect is_refused is_private_host sent stop or_failed ends_with
    starts_with drop_last Text-discrete ℕ_discrete
private_refused = (refl, refl)

safe_fetch_text-IsSafe_example :
    IsSafe rt safe_fetch_limits 6 0
      (safe_fetch_text rt safe_fetch_limits names servers (codes "a.org") fresh 0)
safe_fetch_text-IsSafe_example =
    safe_fetch_text-IsSafe rt safe_fetch_limits names servers (codes "a.org") fresh 0

safe_fetch_text-ArePublic_example :
    All
      (λ (r : Request Text).
        IsPublic rt.to_lower rt.is_ip (normalize_ip_address rt.to_lower rt.is_ip r.address))
      (safe_fetch_text
        (with_addresses rt)
        safe_fetch_limits
        names
        servers
        (codes "a.org")
        fresh
        0).requests
safe_fetch_text-ArePublic_example =
    safe_fetch_text-ArePublic rt safe_fetch_limits names servers (codes "a.org") fresh 0

public_fetched :
    (safe_fetch_text
      (with_addresses rt)
      safe_fetch_limits
      names
      servers
      (codes "a.org")
      fresh
      0).result
    ≡ ok (codes "doc")
unfolding safe_fetch_text counted_in rounds one_round exchange request_for resolve_addresses respond
    follow redirect_target accept is_pinned unblocked normalize_lookup_addresses header_value
    validate_safe_https_url is_redirect is_refused is_private_host sent stop or_failed ends_with
    starts_with drop_last Text-discrete ℕ_discrete with_addresses normalize_ip_address
    dotted_ipv4_tail_to_hextets split_last_colon split_on trim is_blocked_address is_blocked_ipv4
    parse_ipv4 parse_octet parse_int Ipv4.digits digits_from are_blocked
public_fetched = refl

private_text :
    (is_blocked_ipv4 (codes "172.31.0.1") ≡ true) × (is_blocked_ipv4 (codes "172.32.0.1") ≡ false)
unfolding is_blocked_ipv4 are_blocked parse_ipv4 parse_octet parse_int Ipv4.digits digits_from
    split_on drop_while is_space
private_text = (refl, refl)

are_blocked-special_ranges_example :
    are_blocked 172 31 0 ≡ any (λ (r : ℕ × ℕ). is_in (number 172 31 0 1) r.0 r.1) special_ranges
are_blocked-special_ranges_example =
    are_blocked-special_ranges 172 31 0 1 (omega arith) (omega arith) (omega arith) (omega arith)
