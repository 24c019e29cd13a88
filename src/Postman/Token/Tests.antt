-- ===== src/Postman/Token/Tests.antt =====
-- A concrete `retry` and network, with the token provider run on them.
use postman_bootstrap_action.Base.{
  ℕ, zero, suc, ◌≤◌, Bool, true, Option, none, some, List, [], ◌∷◌, ◌≡◌, refl, Text, codes,
  Text-discrete, ◌===◌, inl, inr, Bool-cases, if◌then◌else◌, arith, trim, includes, drop_last_while,
}
use postman_bootstrap_action.Base.Json.{Json, obj, str, field, end, get}
use postman_bootstrap_action.Base.Retry.{
  Tried, gave, threw, Retry, Tries, gives, refused, exhausted, again,
}
use postman_bootstrap_action.Postman.PmakDiagnostics.{
  Response, service_account, is_ok, is_rejection, identity_of, payload_identity, read_json,
  user_identity, names_someone, is_blank, unnamed, result_of,
}
use postman_bootstrap_action.Postman.Token.{
  Failure, mint_error, Settings, AccessTokenProvider, Call, post_mint, get_me, extract_access_token,
  should_retry, is_permanent, record_call, adopt_token, inspected, inspect_pmak_identity,
  settle_preflight, preflight_mint_credential, minted, read_mint, mint_once, settle_mint,
  mint_checked, mint_with_retry, Outcome, refusal, is_rejected_mint,
}
use postman_bootstrap_action.Postman.Token.Laws.{IsMint, mint_with_retry-IsMint}
use postman_bootstrap_action.Postman.Token.Requests.{requests, mint_with_retry-requests}
use postman_bootstrap_action.Postman.Token.Rejected.{mint_with_retry-rejected}
use postman_bootstrap_action.Postman.Token.Flight.{
  Flight, Reach, here, next, calls, lands, take_off, refresh, join, MintInputs,
  mint_access_token_if_needed, idle, land,
}
use postman_bootstrap_action.Postman.Token.Flight.Laws.{IsSingle, refresh-IsSingle}
use postman_bootstrap_action.Postman.Token.Flight.Answers.{
  mint, IsCurrent, AreAnswered, refresh-answered, refresh-IsCurrent,
}
use postman_bootstrap_action.Postman.Token.Flight.Needed.{
  IsStarted, first_mint, mint_access_token_if_needed-IsStarted,
}

module _ {S E A : Type 0} (should : E → Bool) (attempt : S → Tried E A × S) where
  -- What is done behind an attempt, with so many more allowed.
  abbrev after : ℕ → Tried E A × S → Tried E A × S
  after n (gave a, t) = (gave a, t)
  after zero (threw e, t) = (threw e, t)
  after (suc n) (threw e, t) =
      let rest = after n (attempt t) in if should e then rest else (threw e, t)

  after-Tries :
      (n : ℕ) (s : S) (o : Tried E A × S)
      → attempt s ≡ o
      → Tries attempt should (suc n) s (after n o)
  after-Tries n s (gave a, t) e = gives e
  after-Tries zero s (threw f, t) e = exhausted e
  after-Tries (suc n) s (threw f, t) e = elim (Bool-cases (should f)) [
    | inl yes_again ↦ rw yes_again (again e yes_again (after-Tries n t (attempt t) refl))
    | inr stops ↦ rw stops (refused e stops)
  ]

  abbrev loop : ℕ → S → Tried E A × S
  loop zero s = attempt s
  loop (suc n) s = after n (attempt s)

  loop-Tries : (n : ℕ) (s : S) → 1 ≤ n → Tries attempt should n s (loop n s)
  loop-Tries zero s h = absurd (omega arith)
  loop-Tries (suc n) s h = after-Tries n s (attempt s) refl

abbrev retry_loop : Retry AccessTokenProvider Failure
retry_loop = record {
  run = λ n should attempt s. loop should attempt n s;
  run_tries = λ n should attempt s h. loop-Tries should attempt n s h;
}

abbrev same_case : Text → Text
same_case t = t

abbrev two_digits : ℕ → Text
two_digits n = codes "42"

abbrev user : Json
user = obj (field (codes "username") (str []) (field (codes "email") (str []) end))

abbrev parse : Text → Option Json
parse t =
    if t === codes "me"
    then some (obj (field (codes "user") user end))
    else if t === codes "minted"
    then some (obj (field (codes "access_token") (str (codes " t1 ")) end))
    else none

abbrev read_url : Text → Option Text
read_url t = some t

-- The first mint fails for a while, and the second gives a token.
abbrev slow_network : List Call → Call → Option Response
slow_network sent (get_me base) = some (record { status = 200; body = some (codes "me") })
slow_network (call ∷ []) (post_mint base) = some (record { status = 503; body = none })
slow_network _ (post_mint base) = some (record { status = 200; body = some (codes "minted") })

-- The service rejects every mint.
abbrev closed_network : List Call → Call → Option Response
closed_network sent (get_me base) = some (record { status = 200; body = some (codes "me") })
closed_network sent (post_mint base) = some (record { status = 403; body = none })

abbrev settings : Settings
settings = record { api_key = codes "PMAK-1"; api_base_url = codes "https://api"; max_attempts = 2 }

abbrev fresh : AccessTokenProvider
fresh = record { token = codes "t0"; preflight_identity = none; announced = []; sent = [] }

abbrev checked : AccessTokenProvider
checked = record {
  token = codes "t0";
  preflight_identity = some (record { kind = service_account; status = none });
  announced = [];
  sent = [];
}

minted_slowly : mint same_case two_digits parse read_url slow_network settings retry_loop fresh ≡ (
  gave (codes "t1"),
  record {
    token = codes "t1";
    preflight_identity = some (record { kind = service_account; status = none });
    announced = codes "t1" ∷ [];
    sent =
        post_mint (codes "https://api")
        ∷ post_mint (codes "https://api")
        ∷ get_me (codes "https://api")
        ∷ [];
  },
)
unfolding mint_with_retry mint_checked settle_mint mint_once read_mint minted
    preflight_mint_credential settle_preflight inspect_pmak_identity inspected record_call
    adopt_token extract_access_token refusal should_retry is_permanent is_ok is_rejection
    is_rejected_mint includes identity_of payload_identity read_json user_identity names_someone
    is_blank unnamed result_of trim drop_last_while get Text-discrete
minted_slowly = refl

mint_with_retry-IsMint_example :
    IsMint same_case two_digits parse read_url slow_network settings fresh
      (mint same_case two_digits parse read_url slow_network settings retry_loop fresh)
mint_with_retry-IsMint_example =
    mint_with_retry-IsMint same_case two_digits parse read_url slow_network settings retry_loop
      (omega arith) fresh

mint_with_retry-requests_example :
    requests ((mint same_case two_digits parse read_url slow_network settings retry_loop fresh).1)
    ≤ 5
mint_with_retry-requests_example =
    mint_with_retry-requests same_case two_digits parse read_url slow_network settings retry_loop
      (omega arith) fresh

mint_with_retry-rejected_example :
    (message : Text) × (mint same_case two_digits parse read_url closed_network settings retry_loop
        checked
      ≡ (
        threw (mint_error message true (some 403)),
        record checked {
          sent = get_me (codes "https://api") ∷ post_mint (codes "https://api") ∷ [];
        },
      ))
unfolding drop_last_while is_rejection trim
mint_with_retry-rejected_example =
    mint_with_retry-rejected same_case two_digits parse read_url closed_network settings retry_loop
      checked (record { kind = service_account; status = none })
      (record { status = 403; body = none }) (codes "https://api") (omega arith) refl refl refl refl
      refl

-- Two callers of `refresh` share a mint, and a third comes when it has landed.
abbrev provider_mint : AccessTokenProvider → Outcome Text
provider_mint = mint same_case two_digits parse read_url slow_network settings retry_loop

abbrev shared : Flight
shared = refresh (land provider_mint (refresh (refresh (take_off fresh))))

Reach-shared : Reach provider_mint (take_off fresh) shared
unfolding take_off refresh join
Reach-shared = next (next (next (next here calls) calls) (lands refl)) calls

refresh-IsSingle_example : IsSingle shared
refresh-IsSingle_example = refresh-IsSingle provider_mint fresh shared Reach-shared

refresh-answered_example :
    (g : Flight) × (Reach provider_mint shared g
      × ((g.phase ≡ idle) × ((g.callers ≡ shared.callers) × AreAnswered g shared.callers)))
refresh-answered_example = refresh-answered provider_mint fresh shared Reach-shared

refresh-IsCurrent_example :
    IsCurrent same_case two_digits parse read_url slow_network settings retry_loop
      (codes "t0")
      shared
refresh-IsCurrent_example =
    refresh-IsCurrent same_case two_digits parse read_url slow_network settings retry_loop fresh
      shared (omega arith) Reach-shared

abbrev key_only : MintInputs
key_only = record {
  postman_access_token = none;
  postman_api_key = some (codes "PMAK-1");
  postman_api_base = none;
}

mint_access_token_if_needed-IsStarted_example :
    IsStarted key_only
      ((first_mint same_case two_digits parse read_url slow_network retry_loop
        (codes "https://api")
        key_only).0)
      (mint_access_token_if_needed same_case two_digits parse read_url slow_network retry_loop
        (codes "https://api")
        key_only)
mint_access_token_if_needed-IsStarted_example =
    mint_access_token_if_needed-IsStarted same_case two_digits parse read_url slow_network
      retry_loop (codes "https://api") key_only
