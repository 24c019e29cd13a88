-- ===== src/Spec/Fetch/Laws.antt =====
-- What fetching a document guarantees (src/lib/spec/safe-spec-fetch.ts, safeFetchText).
use postman_bootstrap_action.Base.{
  ℕ, suc, zero, ◌+◌, ◌≤◌, false, not, ◌||◌, Option, none, some, List, [], ◌∷◌, Text, All, length,
  ◌≡◌, refl, arith, inl, inr, Bool-cases, if-both, leb, codes, Option-cases, is_empty, ltb,
}
use postman_bootstrap_action.Base.Contract.{
  ContractCode, Result, ok, err, >>=-Ensures, settle-both, Ensures,
}
use postman_bootstrap_action.Spec.Fetch.{
  Runtime, SafeFetchBudget, Limits, SafeFetchTransportResponse, Settled, or_failed, Request,
  Outcome, stop, sent, is_refused, validate_safe_https_url, normalize_lookup_addresses, unblocked,
  is_pinned, is_redirect, header_value, accept, redirect_target, follow, respond, resolve_addresses,
  first_of, request_for, exchange, one_round, rounds, counted_in, safe_fetch_text,
}

module _ {Url : Type 0} (rt : Runtime Url) (limits : Limits) where
  -- The request goes to a URL that is not refused and to an address that is not blocked.
  abbrev pub IsSafeRequest : Request Url → Type 0
  IsSafeRequest r = (is_refused rt r.url ≡ false) × (rt.is_blocked_address r.address ≡ false)

  -- A body that is returned is within the limits, and is accounted for.
  abbrev pub IsWithin : ℕ → SafeFetchBudget → Result Text → Type 0
  IsWithin before after (err code) = Unit
  IsWithin before after (ok body) =
      (rt.byte_length body ≤ limits.max_bytes_per_resource)
      × ((after.total_bytes ≡ before + rt.byte_length body)
          × (after.total_bytes ≤ limits.max_total_bytes))

  pub record IsSafe (most before : ℕ) (out : Outcome Url) : Type 0 where
    pub requests_safe : All IsSafeRequest out.requests
    pub requests_few : length out.requests ≤ most
    pub within : IsWithin before out.budget out.result

  stop-IsSafe :
      (most : ℕ) (before : SafeFetchBudget) (code : ContractCode)
      → IsSafe most before.total_bytes (stop before (err code))
  unfolding stop
  stop-IsSafe most before code = record {
    requests_safe = tt;
    requests_few = omega arith;
    within = tt;
  }

  validate_safe_https_url_lem :
      (input : Text) → Ensures (λ url. is_refused rt url ≡ false) (validate_safe_https_url rt input)
  unfolding validate_safe_https_url
  validate_safe_https_url_lem input = ground arith

  unblocked_lem :
      (found : List Text)
      → Ensures (λ found'. rt.is_blocked_address (first_of found') ≡ false) (unblocked rt found)
  unfolding unblocked
  unblocked_lem [] = tt
  unblocked_lem (a ∷ rest) = ground arith

  redirect_target_lem :
      (url : Url) (location : Option Text)
      → Ensures (λ target. is_refused rt target ≡ false) (redirect_target rt limits url location)
  unfolding redirect_target
  redirect_target_lem url none = tt
  redirect_target_lem url (some location) = elim (Bool-cases (is_empty location)) [
    | inl blank ↦ rw blank tt
    | inr given ↦ rw given (elim (Option-cases (rt.resolve location url)) [
      | inl thrown ↦ rw thrown tt
      | inr (target, made) ↦ rw made (validate_safe_https_url_lem target)
    ])
  ]

  accept-IsSafe :
      (most : ℕ) (before : SafeFetchBudget) (body : Text)
      → IsSafe most before.total_bytes (accept rt limits before body)
  unfolding accept stop
  accept-IsSafe most before body =
      elim (Bool-cases (ltb limits.max_bytes_per_resource (rt.byte_length body))) [
        | inl large ↦
            rw large (record { requests_safe = tt; requests_few = omega arith; within = tt })
        | inr fits ↦
            rw fits
              (elim (Bool-cases
                (ltb limits.max_total_bytes (before.total_bytes + rt.byte_length body))) [
                  | inl over ↦
                      rw over
                        (record { requests_safe = tt; requests_few = omega arith; within = tt })
                  | inr total ↦ rw total (record {
                    requests_safe = tt;
                    requests_few = omega arith;
                    within = (ground arith, (refl, ground arith));
                  })
                ])
      ]

  sent-IsSafe :
      (most : ℕ) (before : SafeFetchBudget) (request : Request Url) {later : Outcome Url}
      → IsSafeRequest request
      → IsSafe most before.total_bytes later
      → IsSafe (suc most) before.total_bytes (sent request later)
  unfolding sent
  sent-IsSafe most before request safe h = record {
    requests_safe = (safe, h.requests_safe);
    requests_few = omega (arith, h.requests_few);
    within = h.within;
  }

  -- What the rounds that are left do is safe, when they are given a URL that is not refused.
  abbrev NextIsSafe : ℕ → SafeFetchBudget → Option (Url → Outcome Url) → Type 0
  NextIsSafe most before none = Unit
  NextIsSafe most before (some go) =
      (url : Url) → is_refused rt url ≡ false → IsSafe most before.total_bytes (go url)

  follow-IsSafe :
      (most : ℕ) (before : SafeFetchBudget) (next : Option (Url → Outcome Url)) (url : Url)
      (location : Option Text)
      → NextIsSafe most before next
      → IsSafe most before.total_bytes (follow rt limits before url location next)
  unfolding follow
  follow-IsSafe most before none url location h = stop-IsSafe most before _
  follow-IsSafe most before (some go) url location h =
      settle-both (λ target. is_refused rt target ≡ false) (IsSafe most before.total_bytes)
        (redirect_target rt limits url location) (redirect_target_lem url location) h
        (λ code. stop-IsSafe most before code)

  respond-IsSafe :
      (most : ℕ) (before : SafeFetchBudget) (next : Option (Url → Outcome Url)) (url : Url)
      (addresses : List Text) (response : SafeFetchTransportResponse)
      → NextIsSafe most before next
      → IsSafe most before.total_bytes (respond rt limits next url before addresses response)
  unfolding respond
  respond-IsSafe most before next url addresses response h =
      if-both (IsSafe most before.total_bytes)
        (not (is_pinned rt addresses response.remote_address)) (stop-IsSafe most before _)
        (if-both (IsSafe most before.total_bytes) (is_redirect response.status_code)
          (follow-IsSafe most before next url (header_value rt response.headers (codes "location"))
            h)
          (if-both (IsSafe most before.total_bytes)
            (ltb response.status_code 200 || leb 300 response.status_code)
            (stop-IsSafe most before _) (accept-IsSafe most before response.body)))

  settled : {A : Type 0} (m : Result A) → Ensures (λ _. Unit {0}) m
  settled (ok a) = tt
  settled (err code) = tt

  module _ (lookup : ℕ → Text → Settled (List Text))
      (transport : ℕ → Request Url → Settled SafeFetchTransportResponse) where
    resolve_addresses_lem :
        (n : ℕ) (url : Url)
        → Ensures
            (λ found'. rt.is_blocked_address (first_of found') ≡ false)
            (resolve_addresses rt limits lookup transport n url)
    unfolding resolve_addresses
    resolve_addresses_lem n url = >>=-Ensures _ (or_failed (lookup n (rt.hostname url))) _ (λ found.
        >>=-Ensures _ (normalize_lookup_addresses rt found) _
          (λ addresses. unblocked_lem addresses))

    one_round-IsSafe :
        (most : ℕ) (before : SafeFetchBudget) (next : Option (Url → Outcome Url)) (n : ℕ)
        (url : Url)
        → is_refused rt url ≡ false
        → NextIsSafe most before next
        → IsSafe
            (suc most)
            before.total_bytes
            (one_round rt limits lookup transport next n url before)
    unfolding one_round exchange request_for
    one_round-IsSafe most before next n url fine h =
        settle-both (λ found'. rt.is_blocked_address (first_of found') ≡ false)
          (IsSafe (suc most) before.total_bytes)
          (resolve_addresses rt limits lookup transport n url) (resolve_addresses_lem n url)
          (λ addresses clear.
            sent-IsSafe most before (request_for rt limits lookup transport url before addresses)
              (fine, clear)
              (settle-both (λ _. Unit {0}) (IsSafe most before.total_bytes)
                (or_failed
                  (transport n (request_for rt limits lookup transport url before addresses)))
                (settled (
                  or_failed
                    (transport n (request_for rt limits lookup transport url before addresses))))
                (λ response _. respond-IsSafe most before next url addresses response h)
                (λ code. stop-IsSafe most before code)))
          (λ code. stop-IsSafe (suc most) before code)

    rounds-IsSafe :
        (left n : ℕ) (url : Url) (before : SafeFetchBudget)
        → is_refused rt url ≡ false
        → IsSafe (suc left) before.total_bytes (rounds rt limits lookup transport left n url before)
    unfolding rounds
    rounds-IsSafe zero n url before fine = one_round-IsSafe 0 before none n url fine tt
    rounds-IsSafe (suc left) n url before fine =
        one_round-IsSafe (suc left) before _ n url fine
          (λ target ok_target. rounds-IsSafe left (n + 1) target before ok_target)

    abbrev counted : SafeFetchBudget → SafeFetchBudget
    counted budget = record { refs = budget.refs + 1; total_bytes = budget.total_bytes }

    -- Whatever the names resolve to and the servers answer, redirects included: every request goes to
    -- an HTTPS URL that is not refused, at an address that is not blocked; there are at most one more
    -- requests than redirects are allowed; and a body that is returned is within the limit of a
    -- resource, has been added to the budget, and has not brought it over the limit of all.
    pub safe_fetch_text-IsSafe :
        (input : Text) (budget : SafeFetchBudget) (depth : ℕ)
        → IsSafe
            (suc limits.max_redirects)
            budget.total_bytes
            (safe_fetch_text rt limits lookup transport input budget depth)
    unfolding safe_fetch_text counted_in
    safe_fetch_text-IsSafe input budget depth =
        if-both (IsSafe (suc limits.max_redirects) budget.total_bytes) (ltb limits.max_depth depth)
          (stop-IsSafe (suc limits.max_redirects) budget _)
          (if-both (IsSafe (suc limits.max_redirects) budget.total_bytes)
            (ltb limits.max_external_refs (budget.refs + 1))
            (stop-IsSafe (suc limits.max_redirects) (counted budget) _)
            (settle-both (λ url. is_refused rt url ≡ false)
              (IsSafe (suc limits.max_redirects) budget.total_bytes)
              (validate_safe_https_url rt input) (validate_safe_https_url_lem input)
              (λ url fine. rounds-IsSafe limits.max_redirects 0 url (counted budget) fine)
              (λ code. stop-IsSafe (suc limits.max_redirects) (counted budget) code)))
