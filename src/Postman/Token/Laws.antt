-- ===== src/Postman/Token/Laws.antt =====
-- Minting an access token: what it gives, and what it changes.
use postman_bootstrap_action.Base.{
  ℕ, ◌≤◌, false, Option, none, some, List, ◌∷◌, ◌≡◌, refl, ap, ◌∙◌, Text, is_empty, inl, inr,
  Bool-cases, if-both, arith,
}
use postman_bootstrap_action.Base.Json.{Json}
use postman_bootstrap_action.Base.Retry.{gave, threw, Retry, Tries}
use postman_bootstrap_action.Base.Retry.Laws.{Tries-trans, Tries-gave}
use postman_bootstrap_action.Postman.PmakDiagnostics.{
  Response, is_ok, PmakDiagnosticResult, Mode, diagnostic, preflight,
}
use postman_bootstrap_action.Postman.Token.{
  Failure, Settings, AccessTokenProvider, Call, post_mint, Outcome, record_call, adopt_token,
  extract_access_token, should_retry, is_rejected_mint, inspected, inspect_pmak_identity,
  settle_preflight, preflight_mint_credential, minted, read_mint, mint_once, diagnosed, settle_mint,
  body_text, mint_checked, mint_with_retry,
}

-- Neither the token nor what was announced has changed.
abbrev pub IsQuiet : AccessTokenProvider → AccessTokenProvider → Type 0
IsQuiet p q = (q.token ≡ p.token) × (q.announced ≡ p.announced)

IsQuiet-trans : (p q r : AccessTokenProvider) → IsQuiet p q → IsQuiet q r → IsQuiet p r
IsQuiet-trans p q r (a, b) (c, d) = (c ∙ a, d ∙ b)

extract_access_token_given :
    (payload : Option Json) {token : Text}
    → extract_access_token payload ≡ some token
    → is_empty token ≡ false
unfolding extract_access_token
extract_access_token_given payload h = ground arith

module _ (to_lower : Text → Text) (number : ℕ → Text) (parse_json : Text → Option Json)
    (parse_url : Text → Option Text) (network : List Call → Call → Option Response)
    (settings : Settings) where
  -- What a mint comes to. A token is one that the network gave to the last request of a mint, and
  -- it is the token from then on; an error changes neither the token nor what was announced.
  abbrev pub IsMint : AccessTokenProvider → Outcome Text → Type 0
  IsMint p (gave token, q) =
      (q.token ≡ token)
      × (q.announced ≡ token ∷ p.announced)
      × (is_empty token ≡ false)
      × ((before : List Call) × (read_mint to_lower number parse_json parse_url network settings
              (network before (post_mint settings.api_base_url))
            ≡ gave token))
  IsMint p (threw failure, q) = IsQuiet p q

  inspect-IsQuiet :
      (mode : Mode) (p : AccessTokenProvider)
      → IsQuiet p
          ((inspect_pmak_identity to_lower number parse_json parse_url network settings mode p).1)
  unfolding inspect_pmak_identity inspected record_call
  inspect-IsQuiet mode p = ground arith

  pub settle_preflight-same :
      (o : Outcome PmakDiagnosticResult)
      → let q = (settle_preflight to_lower number parse_json parse_url network settings o).1 in
        (q.token ≡ o.1.token) × (q.announced ≡ o.1.announced) × (q.sent ≡ o.1.sent)
  unfolding settle_preflight
  settle_preflight-same (threw failure, p) = (refl, refl, refl)
  settle_preflight-same (gave result, p) = ground arith

  preflight-IsQuiet :
      (p : AccessTokenProvider)
      → IsQuiet p
          ((preflight_mint_credential to_lower number parse_json parse_url network settings p).1)
  unfolding preflight_mint_credential
  preflight-IsQuiet p =
      let (a, b, c) =
        settle_preflight-same (
          inspect_pmak_identity to_lower number parse_json parse_url network settings preflight
            p) in
      ground (arith, inspect-IsQuiet preflight p)

  mint_once-IsQuiet :
      (p : AccessTokenProvider)
      → IsQuiet p ((mint_once to_lower number parse_json parse_url network settings p).1)
  unfolding mint_once record_call
  mint_once-IsQuiet p = (refl, refl)

  minted-some :
      (o : Option Text) {token : Text}
      → minted to_lower number parse_json parse_url network settings o ≡ gave token
      → o ≡ some token
  unfolding minted
  minted-some none h = absurd (cc)
  minted-some (some t) h = cc

  read_mint_given :
      (response : Option Response) {token : Text}
      → read_mint to_lower number parse_json parse_url network settings response ≡ gave token
      → is_empty token ≡ false
  unfolding read_mint
  read_mint_given none h = absurd (cc)
  read_mint_given (some response) h = elim (Bool-cases (is_ok response)) [
    | inl fine ↦
        extract_access_token_given (parse_json (body_text response.body))
          (minted-some (extract_access_token (parse_json (body_text response.body))) (ground arith))
    | inr bad ↦ absurd (ground arith)
  ]

  diagnosed-IsMint :
      (p : AccessTokenProvider) (failure : Failure) (original : Text)
      (o : Outcome PmakDiagnosticResult)
      → IsQuiet p (o.1)
      → IsMint p
          (diagnosed to_lower number parse_json parse_url network settings failure original o)
  unfolding diagnosed
  diagnosed-IsMint p failure original (threw other, q) quiet = quiet
  diagnosed-IsMint p failure original (gave result, q) quiet = quiet

  mint_once-read_mint :
      (before : AccessTokenProvider) {o : Outcome Text}
      → mint_once to_lower number parse_json parse_url network settings before ≡ o
      → read_mint to_lower number parse_json parse_url network settings
          (network before.sent (post_mint settings.api_base_url))
        ≡ o.0
  unfolding mint_once
  mint_once-read_mint before e = ap (λ z. z.0) e

  -- The mint's attempts, settled.
  settle_mint-IsMint :
      (p : AccessTokenProvider) (o : Outcome Text)
      → IsQuiet p (o.1)
      → ((token : Text)
          → o.0 ≡ gave token
          → (before : AccessTokenProvider) × (mint_once to_lower number parse_json parse_url network
                settings before
              ≡ o))
      → IsMint p (settle_mint to_lower number parse_json parse_url network settings o)
  unfolding settle_mint adopt_token
  settle_mint-IsMint p (gave token, q) (same, told) source =
      let (before, e) = source token refl in
      let given = mint_once-read_mint before e in
      (refl, ap (λ z. token ∷ z) told, read_mint_given _ given, (before.sent, given))
  settle_mint-IsMint p (threw failure, q) quiet source =
      if-both (IsMint p) (is_rejected_mint failure)
        (diagnosed-IsMint p failure _ _ (
          IsQuiet-trans p q
            ((inspect_pmak_identity to_lower number parse_json parse_url network settings diagnostic
              q).1)
            quiet (inspect-IsQuiet diagnostic q)))
        quiet

  module _ (retry : Retry AccessTokenProvider Failure) (h : 1 ≤ settings.max_attempts) where
    pub preflight-Tries :
        (p : AccessTokenProvider)
        → Tries
            (preflight_mint_credential to_lower number parse_json parse_url network settings)
            should_retry
            settings.max_attempts
            p
            (retry.run settings.max_attempts should_retry
              (preflight_mint_credential to_lower number parse_json parse_url network settings)
              p)
    preflight-Tries p = retry.run_tries settings.max_attempts should_retry _ p h

    pub mint-Tries :
        (p : AccessTokenProvider)
        → Tries
            (mint_once to_lower number parse_json parse_url network settings)
            should_retry
            settings.max_attempts
            p
            (retry.run settings.max_attempts should_retry
              (mint_once to_lower number parse_json parse_url network settings)
              p)
    mint-Tries p = retry.run_tries settings.max_attempts should_retry _ p h

    mint_checked-IsMint :
        (p : AccessTokenProvider) (o : Outcome Unit)
        → IsQuiet p (o.1)
        → IsMint p (mint_checked to_lower number parse_json parse_url network settings retry o)
    unfolding mint_checked
    mint_checked-IsMint p (threw failure, q) quiet = quiet
    mint_checked-IsMint p (gave done, q) quiet =
        settle_mint-IsMint p _
          (IsQuiet-trans p q
            ((retry.run settings.max_attempts should_retry
              (mint_once to_lower number parse_json parse_url network settings) q).1)
            quiet
            (Tries-trans (mint_once to_lower number parse_json parse_url network settings)
              should_retry IsQuiet IsQuiet-trans mint_once-IsQuiet (mint-Tries q)))
          (λ token given.
            Tries-gave (mint_once to_lower number parse_json parse_url network settings)
              should_retry (mint-Tries q) given)

    -- A mint that gives a token took it from an answer of the mint's endpoint; it is not empty, it is
    -- the provider's token from then on, and it is announced once. A mint that throws leaves the
    -- provider's token, and what was announced, as they were. One attempt at least is configured.
    pub mint_with_retry-IsMint :
        (p : AccessTokenProvider)
        → IsMint p (mint_with_retry to_lower number parse_json parse_url network settings retry p)
    unfolding mint_with_retry
    mint_with_retry-IsMint p =
        if-both (IsMint p) (is_empty settings.api_key) (refl, refl)
          (mint_checked-IsMint p _ (
            Tries-trans
              (preflight_mint_credential to_lower number parse_json parse_url network settings)
              should_retry IsQuiet IsQuiet-trans preflight-IsQuiet (preflight-Tries p)))
