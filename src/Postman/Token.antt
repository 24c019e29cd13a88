-- ===== src/Postman/Token.antt =====
-- src/lib/postman/token-provider.ts: the access token, and how it is minted.
pub mod Flight
pub mod Laws
pub mod Requests
pub mod Rejected
mod Tests
use postman_bootstrap_action.Base.{
  ℕ, Bool, true, false, not, ◌&&◌, ◌||◌, Option, none, some, List, [], ◌∷◌, ◌++◌, Text, codes, ◌==◌,
  is_empty, includes, trim, drop_last_while, if◌then◌else◌,
}
use postman_bootstrap_action.Base.Json.{Json, obj, str, Fields, get}
use postman_bootstrap_action.Base.Retry.{Tried, gave, threw, Retry}
use postman_bootstrap_action.Postman.PmakDiagnostics.{
  PmakDiagnosticKind, PmakDiagnosticResult, personal, service_account, invalid, inconclusive,
  Response, is_ok, is_rejection, Mode, preflight, diagnostic, read_json, identity_of,
  format_rejected_mint, mask_pmak_diagnostic,
}

-- What a mint throws: a `MintError`, or an error of any other class.
pub data Failure : Type 0 where
  mint_error : (message : Text) → (permanent : Bool) → (status : Option ℕ) → Failure
  other_error : Failure

-- The fields that do not change.
pub record Settings : Type 0 where
  pub api_key : Text
  pub api_base_url : Text
  pub max_attempts : ℕ

pub data Call : Type 0 where
  get_me : (base : Text) → Call
  post_mint : (base : Text) → Call

-- The fields that change, with what the rest of the run has seen: the tokens that `onToken` was
-- given and the requests, the latest first.
pub record AccessTokenProvider : Type 0 where
  pub token : Text
  pub preflight_identity : Option PmakDiagnosticResult
  pub announced : List Text
  pub sent : List Call

abbrev text_or : Text → Option Text → Text
text_or blank none = blank
text_or blank (some t) = if is_empty t then blank else t

abbrev at_least_one : Option ℕ → ℕ
at_least_one none = 2
at_least_one (some n) = if n == 0 then 1 else n

-- The constructor. `production` is the profile's API base URL.
unfoldable pub settings_of : Text → Option Text → Option Text → Option ℕ → Settings
settings_of production api_key api_base_url max_attempts = record {
  api_key = trim (text_or [] api_key);
  api_base_url = drop_last_while (λ c. c == b'/') (text_or production api_base_url);
  max_attempts = at_least_one max_attempts;
}

unfoldable pub create_provider : Option Text → AccessTokenProvider
create_provider access_token = record {
  token = trim (text_or [] access_token);
  preflight_identity = none;
  announced = [];
  sent = [];
}

unfoldable pub can_refresh : Settings → Bool
can_refresh settings = not (is_empty settings.api_key)

abbrev trimmed_text : Option Json → Option Text
trimmed_text (some (str t)) = if is_empty (trim t) then none else some (trim t)
trimmed_text _ = none

abbrev session_token : Option Json → Option Text
session_token (some (obj session)) = trimmed_text (get session (codes "token"))
session_token _ = none

unfoldable pub extract_access_token : Option Json → Option Text
extract_access_token (some (obj payload)) =
    elim (trimmed_text (get payload (codes "access_token"))) [
      | some token ↦ some token
      | none ↦ session_token (get payload (codes "session"))
    ]
extract_access_token _ = none

unfoldable pub is_permanent : Failure → Bool
is_permanent (mint_error message permanent status) = permanent
is_permanent other_error = false

unfoldable pub is_rejected_mint : Failure → Bool
is_rejected_mint (mint_error message permanent (some status)) = is_rejection status
is_rejected_mint _ = false

unfoldable pub should_retry : Failure → Bool
should_retry failure = not (is_permanent failure)

unfoldable pub record_call : Call → AccessTokenProvider → AccessTokenProvider
record_call call p = record p { sent = call ∷ p.sent }

-- `this.token = token; this.onToken?.(token)`
unfoldable pub adopt_token : Text → AccessTokenProvider → AccessTokenProvider
adopt_token token p = record p { token = token; announced = token ∷ p.announced }

abbrev pub Outcome : Type 0 → Type 0
Outcome A = Tried Failure A × AccessTokenProvider

-- `await response.text().catch(() => '')`
abbrev pub body_text : Option Text → Text
body_text none = []
body_text (some t) = t

-- The runtime: lower case, decimal numbers, `JSON.parse`, and `new URL(…).toString()`, which may
-- throw. The network answers a call by the calls before it; `none` is a request that fails.
module _ (to_lower : Text → Text) (number : ℕ → Text) (parse_json : Text → Option Json)
    (parse_url : Text → Option Text) (network : List Call → Call → Option Response)
    (settings : Settings) where
  unfoldable pub inspected : Mode → Text → AccessTokenProvider → Outcome PmakDiagnosticResult
  inspected mode base p = (
    gave (identity_of parse_json mode (network p.sent (get_me base))),
    record_call (get_me base) p,
  )

  unfoldable pub inspect_pmak_identity : Mode → AccessTokenProvider → Outcome PmakDiagnosticResult
  inspect_pmak_identity mode p = elim (parse_url (trim settings.api_base_url)) [
    | none ↦ (threw other_error, p)
    | some url ↦ inspected mode (drop_last_while (λ c. c == b'/') url) p
  ]

  abbrev status_text : Option ℕ → Text
  status_text none = codes "undefined"
  status_text (some status) = number status

  unfoldable pub preflight_failure : PmakDiagnosticResult → Failure
  preflight_failure result = elim result.kind [
    | invalid ↦
        mint_error
          (format_rejected_mint
            (codes "postman: postman-api-key preflight GET /me was rejected (HTTP "
              ++ status_text result.status
              ++ codes ").")
            invalid)
          true result.status
    | _ ↦ mint_error (codes "postman: postman-api-key preflight GET /me failed.") false none
  ]

  abbrev is_known : PmakDiagnosticKind → Bool
  is_known personal = true
  is_known service_account = true
  is_known _ = false

  unfoldable pub settle_preflight : Outcome PmakDiagnosticResult → Outcome Unit
  settle_preflight (threw failure, p) = (threw failure, p)
  settle_preflight (gave result, p) =
      if is_known result.kind
      then (gave tt, record p { preflight_identity = some result })
      else (threw (preflight_failure result), p)

  unfoldable pub preflight_mint_credential : AccessTokenProvider → Outcome Unit
  preflight_mint_credential p = elim p.preflight_identity [
    | some identity ↦ (gave tt, p)
    | none ↦ settle_preflight (inspect_pmak_identity preflight p)
  ]

  unfoldable pub refusal : ℕ → Text → Failure
  refusal status body =
      if status == 400 && includes (codes "service accounts not enabled") (to_lower body)
      then mint_error
          (codes
            "postman: access-token mint failed because service accounts are not enabled for this team.")
          true (some status)
      else if is_rejection status
      then mint_error
          (codes "postman: access-token mint failed because the postman-api-key was rejected (HTTP "
            ++ number status
            ++ codes ").")
          true (some status)
      else mint_error
          (codes "postman: access-token mint failed (service-account-tokens HTTP "
            ++ number status
            ++ codes ").")
          false (some status)

  unfoldable pub minted : Option Text → Tried Failure Text
  minted (some token) = gave token
  minted none =
      threw (
        mint_error (codes "postman: access-token mint succeeded but returned no token.") false none)

  unfoldable pub read_mint : Option Response → Tried Failure Text
  read_mint none = threw other_error
  read_mint (some response) =
      if is_ok response
      then minted (extract_access_token (parse_json (body_text response.body)))
      else threw (refusal response.status (body_text response.body))

  unfoldable pub mint_once : AccessTokenProvider → Outcome Text
  mint_once p = (
    read_mint (network p.sent (post_mint settings.api_base_url)),
    record_call (post_mint settings.api_base_url) p,
  )

  abbrev message_of : Failure → Text
  message_of (mint_error message permanent status) = message
  message_of other_error = []

  abbrev status_of : Failure → Option ℕ
  status_of (mint_error message permanent status) = status
  status_of other_error = none

  -- The rejected mint with its diagnosis, unless the diagnosis throws.
  unfoldable pub diagnosed : Failure → Text → Outcome PmakDiagnosticResult → Outcome Text
  diagnosed failure original (threw other, p) = (threw other, p)
  diagnosed failure original (gave result, p) = (
    threw (
        mint_error (format_rejected_mint original result.kind) (is_permanent failure)
          (status_of failure)),
    p,
  )

  unfoldable pub settle_mint : Outcome Text → Outcome Text
  settle_mint (gave token, p) = (gave token, adopt_token token p)
  settle_mint (threw failure, p) =
      if is_rejected_mint failure
      then diagnosed failure
          (mask_pmak_diagnostic (message_of failure) (some settings.api_key ∷ some p.token ∷ []))
          (inspect_pmak_identity diagnostic p)
      else (threw failure, p)

  module _ (retry : Retry AccessTokenProvider Failure) where
    unfoldable pub mint_checked : Outcome Unit → Outcome Text
    mint_checked (threw failure, p) = (threw failure, p)
    mint_checked (gave done, p) =
        settle_mint (retry.run settings.max_attempts should_retry mint_once p)

    unfoldable pub mint_with_retry : AccessTokenProvider → Outcome Text
    mint_with_retry p =
        if is_empty settings.api_key
        then (threw other_error, p)
        else mint_checked (retry.run settings.max_attempts should_retry preflight_mint_credential p)
