-- ===== src/Postman/Token/Rejected.antt =====
-- A mint that the service rejects is not tried again.
use postman_bootstrap_action.Base.{
  ℕ, ◌≤◌, Bool, true, false, Option, some, List, [], ◌∷◌, ◌≡◌, refl, sym, subst, ◌∙◌, Text, ap,
  is_empty, trim, drop_last_while, ◌==◌, arith, if◌then◌else◌,
}
use postman_bootstrap_action.Base.Json.{Json}
use postman_bootstrap_action.Base.Retry.{gave, threw, Retry}
use postman_bootstrap_action.Base.Retry.Laws.{Tries-first_gave, Tries-first_refused}
use postman_bootstrap_action.Postman.PmakDiagnostics.{
  PmakDiagnosticResult, Mode, diagnostic, Response, is_ok, is_rejection, identity_of,
  format_rejected_mint, mask_pmak_diagnostic,
}
use postman_bootstrap_action.Postman.Token.{
  Failure, mint_error, Settings, AccessTokenProvider, Call, post_mint, get_me, record_call,
  should_retry, is_permanent, is_rejected_mint, inspected, inspect_pmak_identity,
  preflight_mint_credential, body_text, refusal, read_mint, mint_once, diagnosed, settle_mint,
  mint_checked, mint_with_retry,
}

module _ (to_lower : Text → Text) (number : ℕ → Text) (parse_json : Text → Option Json)
    (parse_url : Text → Option Text) (network : List Call → Call → Option Response)
    (settings : Settings) where
  is_ok-is_rejection :
      (response : Response) → is_rejection response.status ≡ true → is_ok response ≡ false
  unfolding is_ok is_rejection
  is_ok-is_rejection response h = ground arith

  -- A refusal by status 401 or 403 is permanent, whatever its message.
  abbrev IsRejected : ℕ → Failure → Type 0
  IsRejected status failure = (message : Text) × (failure ≡ mint_error message true (some status))

  chosen-IsRejected :
      {status : ℕ} (b c : Bool) (m n : Text) (failure : Failure)
      → c ≡ true
      → IsRejected status (
          if b
          then mint_error m true (some status)
          else if c
          then mint_error n true (some status)
          else failure)
  chosen-IsRejected true c m n failure h = (m, refl)
  chosen-IsRejected false true m n failure h = (n, refl)
  chosen-IsRejected false false m n failure h = absurd (cc)

  refusal-IsRejected :
      (status : ℕ) (body : Text)
      → is_rejection status ≡ true
      → IsRejected status
          (refusal to_lower number parse_json parse_url network settings status body)
  unfolding refusal
  refusal-IsRejected status body h = chosen-IsRejected _ (is_rejection status) _ _ _ h

  read_mint-IsRejected :
      (response : Response)
      → is_rejection response.status ≡ true
      → (failure : Failure) × (IsRejected response.status failure
          × (read_mint to_lower number parse_json parse_url network settings (some response)
              ≡ threw failure))
  unfolding read_mint
  read_mint-IsRejected response h =
      let bad : is_ok response ≡ false = is_ok-is_rejection response h in
      (
        refusal to_lower number parse_json parse_url network settings response.status
            (body_text response.body),
        (refusal-IsRejected response.status (body_text response.body) h, rw bad refl),
      )

  rejected_mint :
      {status : ℕ} {failure : Failure}
      → IsRejected status failure
      → is_rejection status ≡ true
      → (is_rejected_mint failure ≡ true) × (should_retry failure ≡ false)
  unfolding is_rejected_mint should_retry is_permanent
  rejected_mint (message, e) h = (subst (λ z. is_rejected_mint z ≡ true) (sym e) h, rw e refl)

  preflight-known :
      (p : AccessTokenProvider) {known : PmakDiagnosticResult}
      → p.preflight_identity ≡ some known
      → preflight_mint_credential to_lower number parse_json parse_url network settings p
        ≡ (gave tt, p)
  unfolding preflight_mint_credential
  preflight-known p checked = rw checked refl

  inspect-read :
      (mode : Mode) (p : AccessTokenProvider) {url : Text}
      → parse_url (trim settings.api_base_url) ≡ some url
      → inspect_pmak_identity to_lower number parse_json parse_url network settings mode p
        ≡ inspected to_lower number parse_json parse_url network settings mode
            (drop_last_while (λ c. c == b'/') url)
            p
  unfolding inspect_pmak_identity inspected
  inspect-read mode p read = rw (inspect_pmak_identity, read) refl

  mint_once-answered :
      (p : AccessTokenProvider) {response : Response} {failure : Failure}
      → network p.sent (post_mint settings.api_base_url) ≡ some response
      → read_mint to_lower number parse_json parse_url network settings (some response)
        ≡ threw failure
      → mint_once to_lower number parse_json parse_url network settings p
        ≡ (threw failure, record_call (post_mint settings.api_base_url) p)
  unfolding mint_once
  mint_once-answered p answered e = rw answered (rw e refl)

  settle_mint-rejected :
      (p : AccessTokenProvider) {status : ℕ} {failure : Failure} (url : Text)
      → IsRejected status failure
      → is_rejection status ≡ true
      → parse_url (trim settings.api_base_url) ≡ some url
      → (message : Text) × (settle_mint to_lower number parse_json parse_url network settings
            (threw failure, p)
          ≡ (
            threw (mint_error message true (some status)),
            record_call (get_me (drop_last_while (λ c. c == b'/') url)) p,
          ))
  unfolding settle_mint diagnosed inspected is_permanent is_rejected_mint
  settle_mint-rejected p url (message, e) bad read =
      let original = mask_pmak_diagnostic message (some settings.api_key ∷ some p.token ∷ []) in
      let call = get_me (drop_last_while (λ c. c == b'/') url) in
      (
        format_rejected_mint original
            (identity_of parse_json diagnostic (network p.sent call)).kind,
        rw e (
            rw bad (
              ap
                (diagnosed to_lower number parse_json parse_url network settings
                  (mint_error message true _) original)
                (inspect-read diagnostic p read))),
      )

  -- The credential was checked before, and the service rejects the mint: the provider sends the one
  -- mint and one request for a diagnosis, throws a permanent error with the status of the answer, and
  -- changes nothing else. One attempt at least is configured, there is a key, and the base URL can be
  -- read.
  pub mint_with_retry-rejected :
      (retry : Retry AccessTokenProvider Failure) (p : AccessTokenProvider)
      (known : PmakDiagnosticResult) (response : Response) (url : Text)
      → 1 ≤ settings.max_attempts
      → is_empty settings.api_key ≡ false
      → p.preflight_identity ≡ some known
      → network p.sent (post_mint settings.api_base_url) ≡ some response
      → is_rejection response.status ≡ true
      → parse_url (trim settings.api_base_url) ≡ some url
      → (message : Text) × (mint_with_retry to_lower number parse_json parse_url network settings
            retry p
          ≡ (
            threw (mint_error message true (some response.status)),
            record p {
              sent =
                  get_me (drop_last_while (λ c. c == b'/') url)
                  ∷ post_mint settings.api_base_url
                  ∷ p.sent;
            },
          ))
  unfolding mint_with_retry mint_checked record_call
  mint_with_retry-rejected retry p known response url h keyed checked answered bad read =
      let (failure, (rejected, e)) = read_mint-IsRejected response bad in
      let (message, settled) =
        settle_mint-rejected (record_call (post_mint settings.api_base_url) p) url rejected bad
          read in
      (
        message,
        rw keyed (
            ap (mint_checked to_lower number parse_json parse_url network settings retry) (
              Tries-first_gave _ should_retry (preflight-known p checked)
                (retry.run_tries settings.max_attempts should_retry _ p h))
            ∙ ap (settle_mint to_lower number parse_json parse_url network settings) (
                Tries-first_refused _ should_retry (mint_once-answered p answered e)
                  ((rejected_mint rejected bad).1)
                  (retry.run_tries settings.max_attempts should_retry _ p h))
            ∙ settled),
      )
