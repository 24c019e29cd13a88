-- ===== src/Spec/Fetch.antt =====
-- src/lib/spec/safe-spec-fetch.ts: fetching a document over HTTPS from addresses that are not
-- private, within budgets.
pub mod Laws
pub mod Ipv4
pub mod Ipv6
pub mod Public
mod Tests
use postman_bootstrap_action.Base.{
  ℕ, suc, zero, ◌+◌, ◌-◌, ◌*◌, min, Bool, true, false, not, ◌&&◌, ◌||◌, Option, none, some, List,
  [], ◌∷◌, map, Text, Text-discrete, codes, ◌===◌, ◌==◌, ltb, leb, is_empty, ends_with, drop_last,
  any, or_else, if◌then◌else◌,
}
use postman_bootstrap_action.Base.Contract.{
  ContractCode, Result, ok, err, ◌>>=◌, settle, spec_fetch_blocked, spec_fetch_failed,
  ref_depth_exceeded, ref_limit_exceeded, ref_size_exceeded, uncoded,
}

pub record SafeFetchBudget : Type 0 where
  pub refs : ℕ
  pub total_bytes : ℕ

-- The limits that are in force: the options, or `SAFE_FETCH_LIMITS`.
pub record Limits : Type 0 where
  pub max_redirects : ℕ
  pub max_external_refs : ℕ
  pub max_depth : ℕ
  pub max_bytes_per_resource : ℕ
  pub max_total_bytes : ℕ

abbrev pub safe_fetch_limits : Limits
safe_fetch_limits = record {
  max_redirects = 5;
  max_external_refs = 100;
  max_depth = 20;
  max_bytes_per_resource = 25 * 1024 * 1024;
  max_total_bytes = 25 * 1024 * 1024;
}

-- `string | string[] | undefined`
pub data HeaderValue : Type 0 where
  one : Text → HeaderValue
  many : List Text → HeaderValue
  absent : HeaderValue

pub record SafeFetchTransportResponse : Type 0 where
  pub status_code : ℕ
  pub headers : List (Text × HeaderValue)
  pub body : Text
  pub remote_address : Option Text

-- What a promise of the network comes to: a value, or an error with the code that its message begins
-- with, if any.
pub data Settled (A : Type 0) : Type 0 where
  fulfilled : A → Settled A
  rejected : Option ContractCode → Settled A

-- `throwIfContractError`, and the failure that stands for any other error.
unfoldable pub or_failed : {A : Type 0} → Settled A → Result A
or_failed (fulfilled a) = ok a
or_failed (rejected (some code)) = err code
or_failed (rejected none) = err spec_fetch_failed

abbrev first_value : HeaderValue → Option Text
first_value (one v) = some v
first_value (many []) = none
first_value (many (v ∷ vs)) = some v
first_value absent = none

unfoldable pub is_redirect : ℕ → Bool
is_redirect status =
    status == 301 || status == 302 || status == 303 || status == 307 || status == 308

-- A request that is sent: where to, and to which address.
pub record Request (Url : Type 0) : Type 0 where
  pub url : Url
  pub address : Text
  pub max_bytes : ℕ

-- What a call leaves behind: the requests it sent, in order, the budget, and what it returns.
pub record Outcome (Url : Type 0) : Type 0 where
  pub requests : List (Request Url)
  pub budget : SafeFetchBudget
  pub result : Result Text

unfoldable pub stop : {Url : Type 0} → SafeFetchBudget → Result Text → Outcome Url
stop budget result = record { requests = []; budget = budget; result = result }

unfoldable pub sent : {Url : Type 0} → Request Url → Outcome Url → Outcome Url
sent request later = record {
  requests = request ∷ later.requests;
  budget = later.budget;
  result = later.result;
}

-- The runtime's URLs and texts, and the tests of addresses: parameters. `resolve` is
-- `new URL(location, url).toString()`, which may throw, and `byte_length` the length in UTF-8.
pub record Runtime (Url : Type 0) : Type 0 where
  pub to_lower : Text → Text
  pub parse : Text → Option Url
  pub protocol : Url → Text
  pub username : Url → Text
  pub password : Url → Text
  pub hostname : Url → Text
  pub resolve : Text → Url → Option Text
  pub byte_length : Text → ℕ
  pub is_ip : Text → ℕ
  pub normalize_ip_address : Text → Text
  pub is_blocked_address : Text → Bool

abbrev pub first_of : List Text → Text
first_of [] = []
first_of (a ∷ rest) = a

module _ {Url : Type 0} (rt : Runtime Url) where
  abbrev without_brackets : Text → Text
  without_brackets host = drop_close (drop_open host)
    where
      drop_open : Text → Text
      drop_open [] = []
      drop_open (c ∷ t) = if c == b'[' then t else c ∷ t

      drop_close : Text → Text
      drop_close t = if ends_with (codes "]") t then drop_last t else t

  unfoldable pub is_private_host : Text → Bool
  is_private_host host =
      host === codes "localhost"
      || ends_with (codes ".localhost") host
      || ends_with (codes ".local") host
      || ends_with (codes ".internal") host

  unfoldable pub is_refused : Url → Bool
  is_refused url =
      not (rt.protocol url === codes "https:")
      || not (is_empty (rt.username url))
      || not (is_empty (rt.password url))
      || is_private_host (rt.to_lower (rt.hostname url))
      || (not (rt.is_ip (without_brackets (rt.to_lower (rt.hostname url))) == 0)
          && rt.is_blocked_address (without_brackets (rt.to_lower (rt.hostname url))))

  unfoldable pub validate_safe_https_url : Text → Result Url
  validate_safe_https_url input = elim (rt.parse input) [
    | none ↦ err spec_fetch_blocked
    | some url ↦ if is_refused url then err spec_fetch_blocked else ok url
  ]

  unfoldable pub header_value : List (Text × HeaderValue) → Text → Option Text
  header_value [] name = none
  header_value ((key, v) ∷ headers) name =
      let rest = header_value headers name in
      if rt.to_lower key === rt.to_lower name then first_value v else rest

  unfoldable pub normalize_lookup_addresses : List Text → Result (List Text)
  normalize_lookup_addresses [] = ok []
  normalize_lookup_addresses (a ∷ rest) = do
    address ← checked (rt.normalize_ip_address a)
    others ← normalize_lookup_addresses rest
    ok (address ∷ others)
    where
      checked : Text → Result Text
      checked address =
          if rt.is_ip address == 4 || rt.is_ip address == 6
          then ok address
          else err spec_fetch_blocked

  -- The addresses of a host are all to be unblocked, and there is one at least.
  unfoldable pub unblocked : List Text → Result (List Text)
  unblocked [] = err spec_fetch_blocked
  unblocked (a ∷ rest) =
      if any rt.is_blocked_address (a ∷ rest) then err spec_fetch_blocked else ok (a ∷ rest)

  -- The address that answered is one of the addresses that were looked up.
  unfoldable pub is_pinned : List Text → Option Text → Bool
  is_pinned addresses none = false
  is_pinned addresses (some remote) =
      not (is_empty remote)
      && not (is_empty (rt.normalize_ip_address remote))
      && not (rt.is_blocked_address (rt.normalize_ip_address remote))
      && any (λ a. a === rt.normalize_ip_address remote) addresses

  module _ (limits : Limits) where
    unfoldable pub accept : SafeFetchBudget → Text → Outcome Url
    accept budget body =
        if ltb limits.max_bytes_per_resource (rt.byte_length body)
        then stop budget (err ref_size_exceeded)
        else counted
            (record { refs = budget.refs; total_bytes = budget.total_bytes + rt.byte_length body })
      where
        counted : SafeFetchBudget → Outcome Url
        counted after =
            if ltb limits.max_total_bytes after.total_bytes
            then stop after (err ref_size_exceeded)
            else stop after (ok body)

    unfoldable pub redirect_target : Url → Option Text → Result Url
    redirect_target url none = err spec_fetch_failed
    redirect_target url (some location) =
        if is_empty location then err spec_fetch_failed else elim (rt.resolve location url) [
          | none ↦ err uncoded
          | some target ↦ validate_safe_https_url target
        ]

    -- A redirect, when the rounds that are left are `next`.
    unfoldable pub follow :
        SafeFetchBudget → Url → Option Text → Option (Url → Outcome Url) → Outcome Url
    follow budget url location none = stop budget (err spec_fetch_failed)
    follow budget url location (some go) =
        settle (redirect_target url location) go (λ code. stop budget (err code))

    -- What the loop does with a response. `next` is the rounds that are left, if any.
    unfoldable pub respond :
        Option (Url → Outcome Url)
        → Url
        → SafeFetchBudget
        → List Text
        → SafeFetchTransportResponse
        → Outcome Url
    respond next url budget addresses response =
        if not (is_pinned addresses response.remote_address)
        then stop budget (err spec_fetch_blocked)
        else if is_redirect response.status_code
        then follow budget url (header_value response.headers (codes "location")) next
        else if ltb response.status_code 200 || leb 300 response.status_code
        then stop budget (err spec_fetch_failed)
        else accept budget response.body

    -- The network: DNS and the transport, as they answer in each round.
    module _ (lookup : ℕ → Text → Settled (List Text))
        (transport : ℕ → Request Url → Settled SafeFetchTransportResponse) where
      unfoldable pub resolve_addresses : ℕ → Url → Result (List Text)
      resolve_addresses n url = do
        found ← or_failed (lookup n (rt.hostname url))
        addresses ← normalize_lookup_addresses found
        unblocked addresses

      -- The bytes that are left are 0 here, and negative in the source, when an earlier call with the
      -- same budget has overrun it.
      unfoldable pub request_for : Url → SafeFetchBudget → List Text → Request Url
      request_for url budget addresses = record {
        url = url;
        address = first_of addresses;
        max_bytes = min limits.max_bytes_per_resource (limits.max_total_bytes - budget.total_bytes);
      }

      unfoldable pub exchange :
          Option (Url → Outcome Url) → ℕ → Url → SafeFetchBudget → List Text → Outcome Url
      exchange next n url budget addresses = sent (request_for url budget addresses) (
          settle (or_failed (transport n (request_for url budget addresses)))
            (λ response. respond next url budget addresses response)
            (λ code. stop budget (err code)))

      unfoldable pub one_round :
          Option (Url → Outcome Url) → ℕ → Url → SafeFetchBudget → Outcome Url
      one_round next n url budget =
          settle (resolve_addresses n url) (λ addresses. exchange next n url budget addresses)
            (λ code. stop budget (err code))

      -- The loop, with the number of redirects that may still be followed.
      unfoldable pub rounds : ℕ → ℕ → Url → SafeFetchBudget → Outcome Url
      rounds zero n url budget = one_round none n url budget
      rounds (suc left) n url budget =
          one_round (some (λ target. rounds left (n + 1) target budget)) n url budget

      unfoldable pub counted_in : Text → SafeFetchBudget → Outcome Url
      counted_in input budget =
          if ltb limits.max_external_refs budget.refs
          then stop budget (err ref_limit_exceeded)
          else settle (validate_safe_https_url input)
              (λ url. rounds limits.max_redirects 0 url budget) (λ code. stop budget (err code))

      unfoldable pub safe_fetch_text : Text → SafeFetchBudget → ℕ → Outcome Url
      safe_fetch_text input budget depth =
          if ltb limits.max_depth depth
          then stop budget (err ref_depth_exceeded)
          else counted_in input
              (record { refs = budget.refs + 1; total_bytes = budget.total_bytes })
