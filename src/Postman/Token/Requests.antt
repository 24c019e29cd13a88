-- ===== src/Postman/Token/Requests.antt =====
-- How many requests a mint sends.
use postman_bootstrap_action.Base.{
  ℕ, suc, ◌+◌, ◌*◌, ◌≤◌, Option, List, ap, Text, is_empty, length, if-both, arith,
}
use postman_bootstrap_action.Base.Json.{Json}
use postman_bootstrap_action.Base.Retry.{gave, threw, Retry}
use postman_bootstrap_action.Base.Retry.Laws.{Tries-measure}
use postman_bootstrap_action.Postman.PmakDiagnostics.{Response, Mode, diagnostic, preflight}
use postman_bootstrap_action.Postman.Token.{
  Failure, Settings, AccessTokenProvider, Call, Outcome, record_call, adopt_token, should_retry,
  inspected, inspect_pmak_identity, preflight_mint_credential, mint_once, diagnosed, settle_mint,
  mint_checked, mint_with_retry,
}
use postman_bootstrap_action.Postman.Token.Laws.{settle_preflight-same, preflight-Tries, mint-Tries}

abbrev pub requests : AccessTokenProvider → ℕ
requests p = length p.sent

module _ (to_lower : Text → Text) (number : ℕ → Text) (parse_json : Text → Option Json)
    (parse_url : Text → Option Text) (network : List Call → Call → Option Response)
    (settings : Settings) where
  inspect-requests :
      (mode : Mode) (p : AccessTokenProvider)
      → requests
          ((inspect_pmak_identity to_lower number parse_json parse_url network settings mode p).1)
        ≤ suc (requests p)
  unfolding inspect_pmak_identity inspected record_call
  inspect-requests mode p = ground arith

  preflight-requests :
      (p : AccessTokenProvider)
      → requests
          ((preflight_mint_credential to_lower number parse_json parse_url network settings p).1)
        ≤ suc (requests p)
  unfolding preflight_mint_credential
  preflight-requests p =
      let (a, b, c) =
        settle_preflight-same to_lower number parse_json parse_url network settings (
          inspect_pmak_identity to_lower number parse_json parse_url network settings preflight
            p) in
      ground (arith, ap length c, inspect-requests preflight p)

  mint_once-requests :
      (p : AccessTokenProvider)
      → requests ((mint_once to_lower number parse_json parse_url network settings p).1)
        ≤ suc (requests p)
  unfolding mint_once record_call
  mint_once-requests p = omega arith

  module _ (retry : Retry AccessTokenProvider Failure) (h : 1 ≤ settings.max_attempts) where
    settle_mint-requests :
        (o : Outcome Text)
        → requests ((settle_mint to_lower number parse_json parse_url network settings o).1)
          ≤ suc (requests (o.1))
    unfolding settle_mint adopt_token diagnosed
    settle_mint-requests (gave token, p) = omega arith
    settle_mint-requests (threw failure, p) = ground (arith, inspect-requests diagnostic p)

    mint_checked-requests :
        (o : Outcome Unit)
        → requests ((mint_checked to_lower number parse_json parse_url network settings retry o).1)
          ≤ suc (settings.max_attempts + requests (o.1))
    unfolding mint_checked
    mint_checked-requests (threw failure, p) = omega arith
    mint_checked-requests (gave done, p) = omega (
      arith,
      settle_mint-requests (
          retry.run settings.max_attempts should_retry
            (mint_once to_lower number parse_json parse_url network settings) p),
      Tries-measure (mint_once to_lower number parse_json parse_url network settings) should_retry
          requests mint_once-requests
          (mint-Tries to_lower number parse_json parse_url network settings retry h p),
    )

    -- A mint comes to its end, whatever the network answers, and sends at most one request for each
    -- attempt of the check before the mint, one for each attempt of the mint, and one for the
    -- diagnosis. One attempt at least is configured.
    pub mint_with_retry-requests :
        (p : AccessTokenProvider)
        → requests
            ((mint_with_retry to_lower number parse_json parse_url network settings retry p).1)
          ≤ 2 * settings.max_attempts + 1 + requests p
    unfolding mint_with_retry
    mint_with_retry-requests p =
        if-both (λ (o : Outcome Text). requests (o.1) ≤ 2 * settings.max_attempts + 1 + requests p)
          (is_empty settings.api_key) (omega arith)
          (omega (
            arith,
            mint_checked-requests (
                retry.run settings.max_attempts should_retry
                  (preflight_mint_credential to_lower number parse_json parse_url network settings)
                  p),
            Tries-measure
                (preflight_mint_credential to_lower number parse_json parse_url network settings)
                should_retry requests preflight-requests
                (preflight-Tries to_lower number parse_json parse_url network settings retry h p),
          ))
