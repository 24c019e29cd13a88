-- ===== src/Postman/Token/Flight.antt =====
-- src/lib/postman/token-provider.ts, refresh: the mint that is in flight is shared, as the steps of
-- the event loop. Also mintAccessTokenIfNeeded.
pub mod Laws
pub mod Answers
pub mod Needed
use postman_bootstrap_action.Base.{
  ℕ, suc, ◌+◌, Bool, true, false, not, ◌||◌, Option, none, some, List, [], ◌∷◌, ◌≡◌, Text, is_empty,
  if◌then◌else◌,
}
use postman_bootstrap_action.Base.Json.{Json}
use postman_bootstrap_action.Base.Retry.{Tried, gave, threw, Retry}
use postman_bootstrap_action.Postman.PmakDiagnostics.{Response}
use postman_bootstrap_action.Postman.Token.{
  Failure, Settings, AccessTokenProvider, Call, Outcome, settings_of, create_provider,
  mint_with_retry,
}

-- `inflight` is undefined when the phase is `idle`. A mint that has come to its end stays in flight
-- until the callback of `finally` has run.
pub data Phase : Type 0 where
  idle minting : Phase
  landed : Tried Failure Text → Phase

-- The promises are numbered from 1; `started` is the number of the latest. `callers` has the promise
-- that each call of `refresh` was given, and `settled` the promises that callers see settled.
pub record Flight : Type 0 where
  pub provider : AccessTokenProvider
  pub phase : Phase
  pub started : ℕ
  pub callers : List ℕ
  pub settled : List (ℕ × Tried Failure Text)

-- A run begins with no mint, and no caller.
unfoldable pub take_off : AccessTokenProvider → Flight
take_off provider = record {
  provider = provider;
  phase = idle;
  started = 0;
  callers = [];
  settled = [];
}

-- `this.inflight ??= …`, and the promise that the caller is given.
unfoldable pub join : Phase → Flight → Flight
join idle f = record f {
  phase = minting;
  started = suc f.started;
  callers = suc f.started ∷ f.callers;
}
join _ f = record f { callers = f.started ∷ f.callers }

-- A call of `refresh`.
unfoldable pub refresh : Flight → Flight
refresh f = join f.phase f

unfoldable pub arrive : Outcome Text → Flight → Flight
arrive (outcome, p) f = record f { provider = p; phase = landed outcome }

unfoldable pub settle_promise : Phase → Flight → Flight
settle_promise (landed outcome) f = record f {
  phase = idle;
  settled = (f.started, outcome) ∷ f.settled;
}
settle_promise _ f = f

-- The callback of `finally`, with which the promise is settled.
unfoldable pub clear : Flight → Flight
clear f = settle_promise f.phase f

module _ (mint : AccessTokenProvider → Outcome Text) where
  -- The mint comes to its end. Nothing but the mint uses what it changes before, so it is one step.
  unfoldable pub land : Flight → Flight
  land f = arrive (mint f.provider) f

  -- What the event loop may do next.
  pub data Step (f : Flight) : Flight → Type 0 where
    calls : Step f (refresh f)
    lands : f.phase ≡ minting → Step f (land f)
    clears : (outcome : Tried Failure Text) → f.phase ≡ landed outcome → Step f (clear f)

  pub data Reach (f : Flight) : Flight → Type 0 where
    here : Reach f f
    next : {g h : Flight} → Reach f g → Step g h → Reach f h

pub record MintInputs : Type 0 where
  pub postman_access_token : Option Text
  pub postman_api_key : Option Text
  pub postman_api_base : Option Text

pub data LogEntry : Type 0 where
  info warning : LogEntry

-- The inputs behind the call, the secrets that were set, and the log.
pub record Started : Type 0 where
  pub inputs : MintInputs
  pub secrets : List Text
  pub log : List LogEntry

abbrev pub is_given : Option Text → Bool
is_given none = false
is_given (some t) = not (is_empty t)

unfoldable pub start_with : MintInputs → Outcome Text → Started
start_with inputs (gave token, p) = record {
  inputs = record inputs { postman_access_token = some token };
  secrets = p.announced;
  log = info ∷ [];
}
start_with inputs (threw failure, p) = record {
  inputs = inputs;
  secrets = p.announced;
  log = warning ∷ [];
}

module _ (to_lower : Text → Text) (number : ℕ → Text) (parse_json : Text → Option Json)
    (parse_url : Text → Option Text) (network : List Call → Call → Option Response)
    (retry : Retry AccessTokenProvider Failure) (production : Text) where
  unfoldable pub mint_access_token_if_needed : MintInputs → Started
  mint_access_token_if_needed inputs =
      if is_given inputs.postman_access_token || not (is_given inputs.postman_api_key)
      then record { inputs = inputs; secrets = []; log = [] }
      else start_with inputs (
          mint_with_retry to_lower number parse_json parse_url network
            (settings_of production inputs.postman_api_key inputs.postman_api_base none) retry
            (create_provider none))
