-- ===== src/Spec/Fetch/Public.antt =====
-- Fetching with the tests of addresses that the code has (src/lib/spec/safe-spec-fetch.ts): every
-- connection is to a public address.
use postman_bootstrap_action.Base.{
  ℕ, false, some, List, Text, ◌==◌, any, All, All-imp, ◌≡◌, sym, ◌∙◌, ◌⊎◌, inl, inr, Bool-cases,
  Option-cases, arith,
}
use postman_bootstrap_action.Spec.Fetch.{
  Runtime, SafeFetchBudget, Limits, SafeFetchTransportResponse, Settled, Request, safe_fetch_text,
}
use postman_bootstrap_action.Spec.Fetch.Laws.{IsSafeRequest, safe_fetch_text-IsSafe}
use postman_bootstrap_action.Spec.Fetch.Ipv4.{Octets, parse_ipv4, are_blocked, is_blocked_ipv4}
use postman_bootstrap_action.Spec.Fetch.Ipv4.Bytes.{parse_ipv4-AreBytes}
use postman_bootstrap_action.Spec.Fetch.Ipv4.Ranges.{
  number, is_in, special_ranges, are_blocked-special_ranges,
}
use postman_bootstrap_action.Spec.Fetch.Ipv6.{
  dotted_ipv4_tail_to_hextets, expand_ipv6, are_blocked_parts, is_blocked_ipv6,
  normalize_ip_address, is_blocked_address,
}

-- The text is an address of version 4 outside of the special ranges, or one of version 6 whose parts
-- are not blocked.
abbrev pub IsPublic : (Text → Text) → (Text → ℕ) → Text → Type 0
IsPublic to_lower is_ip t =
    ((is_ip t ≡ 4)
      × ((o : Octets) × ((parse_ipv4 t ≡ some o)
            × (any (λ (r : ℕ × ℕ). is_in (number o.a o.b o.c o.d) r.0 r.1) special_ranges
                ≡ false))))
    ⊎ ((is_ip t ≡ 6)
        × (are_blocked_parts (expand_ipv6 to_lower is_ip (to_lower (dotted_ipv4_tail_to_hextets t)))
            ≡ false))

module _ (to_lower : Text → Text) (is_ip : Text → ℕ) where
  is_blocked_ipv4_lem :
      (t : Text)
      → is_blocked_ipv4 t ≡ false
      → (o : Octets) × ((parse_ipv4 t ≡ some o)
          × (any (λ (r : ℕ × ℕ). is_in (number o.a o.b o.c o.d) r.0 r.1) special_ranges ≡ false))
  unfolding is_blocked_ipv4
  is_blocked_ipv4_lem t h = elim (Option-cases (parse_ipv4 t)) [
    | inl bad ↦ absurd (ground arith)
    | inr (o, read) ↦
        let (ha, (hb, (hc, hd))) = parse_ipv4-AreBytes t read in
        let clear : are_blocked o.a o.b o.c ≡ false = ground arith in
        (o, (read, sym (are_blocked-special_ranges o.a o.b o.c o.d ha hb hc hd) ∙ clear))
  ]

  is_blocked_address-IsPublic :
      (address : Text)
      → is_blocked_address to_lower is_ip address ≡ false
      → IsPublic to_lower is_ip (normalize_ip_address to_lower is_ip address)
  unfolding is_blocked_address is_blocked_ipv6
  is_blocked_address-IsPublic address h =
      let t = normalize_ip_address to_lower is_ip address in
      elim (Bool-cases (is_ip t == 4)) [
        | inl four ↦ inl (ground arith, is_blocked_ipv4_lem t (ground arith))
        | inr other ↦ elim (Bool-cases (is_ip t == 6)) [
          | inl six ↦ inr (ground arith, ground arith)
          | inr neither ↦ absurd (ground arith)
        ]
      ]

-- The runtime with the tests of addresses that the code has.
unfoldable pub with_addresses : {Url : Type 0} → Runtime Url → Runtime Url
with_addresses rt = record rt {
  normalize_ip_address = normalize_ip_address rt.to_lower rt.is_ip;
  is_blocked_address = is_blocked_address rt.to_lower rt.is_ip;
}

module _ {Url : Type 0} (rt : Runtime Url) (limits : Limits)
    (lookup : ℕ → Text → Settled (List Text))
    (transport : ℕ → Request Url → Settled SafeFetchTransportResponse) where
  -- Every address that a request goes to is, in its normal form, an address of version 4 outside of
  -- all the special ranges, or one of version 6 whose parts are not blocked, whatever the names
  -- resolve to and wherever the redirects lead.
  pub safe_fetch_text-ArePublic :
      (input : Text) (budget : SafeFetchBudget) (depth : ℕ)
      → All
          (λ (r : Request Url).
            IsPublic rt.to_lower rt.is_ip (normalize_ip_address rt.to_lower rt.is_ip r.address))
          (safe_fetch_text (with_addresses rt) limits lookup transport input budget depth).requests
  unfolding with_addresses
  safe_fetch_text-ArePublic input budget depth =
      All-imp (IsSafeRequest (with_addresses rt) limits) _ _
        (λ r safe. is_blocked_address-IsPublic rt.to_lower rt.is_ip r.address (safe.1))
        (safe_fetch_text-IsSafe (with_addresses rt) limits lookup transport input budget
          depth).requests_safe
