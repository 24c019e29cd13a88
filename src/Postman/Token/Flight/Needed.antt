-- ===== src/Postman/Token/Flight/Needed.antt =====
-- The token that is minted at the start of a run, where only the key is given.
use postman_bootstrap_action.Base.{
  ℕ, ◌≤◌, Bool, true, false, not, ◌||◌, Option, none, some, List, [], ◌∷◌, ◌≡◌, refl, ◌⊎◌, inl, inr,
  Text, is_empty, if◌then◌else◌, arith,
}
use postman_bootstrap_action.Base.Json.{Json}
use postman_bootstrap_action.Base.Retry.{Tried, gave, threw, Retry}
use postman_bootstrap_action.Postman.PmakDiagnostics.{Response}
use postman_bootstrap_action.Postman.Token.{
  Failure, Call, AccessTokenProvider, Outcome, settings_of, create_provider, mint_with_retry,
}
use postman_bootstrap_action.Postman.Token.Laws.{IsMint, mint_with_retry-IsMint}
use postman_bootstrap_action.Postman.Token.Flight.{
  MintInputs, Started, start_with, is_given, info, warning, mint_access_token_if_needed,
}

-- What a mint leaves: its token, which is not empty, in the inputs, set as a secret; or, where it
-- failed, the inputs as they were, no secret, and a warning.
abbrev pub IsSettled : MintInputs → Started → Tried Failure Text → Type 0
IsSettled inputs s (gave token) =
    (is_empty token ≡ false)
    × ((s.inputs ≡ record inputs { postman_access_token = some token })
        × ((s.secrets ≡ token ∷ []) × (s.log ≡ info ∷ [])))
IsSettled inputs s (threw failure) =
    (s.inputs ≡ inputs) × ((s.secrets ≡ []) × (s.log ≡ warning ∷ []))

-- Nothing is done exactly where a token is given or the key is missing; elsewhere the mint, which has
-- this outcome, decides.
abbrev pub IsStarted : MintInputs → Tried Failure Text → Started → Type 0
IsStarted inputs outcome s =
    (((is_given inputs.postman_access_token ≡ true) ⊎ (is_given inputs.postman_api_key ≡ false))
      × ((s.inputs ≡ inputs) × ((s.secrets ≡ []) × (s.log ≡ []))))
    ⊎ ((is_given inputs.postman_access_token ≡ false)
        × ((is_given inputs.postman_api_key ≡ true) × IsSettled inputs s outcome))

module _ (to_lower : Text → Text) (number : ℕ → Text) (parse_json : Text → Option Json)
    (parse_url : Text → Option Text) (network : List Call → Call → Option Response)
    (retry : Retry AccessTokenProvider Failure) (production : Text) where
  -- The mint with the key and the base URL that the inputs give, by a provider without a token.
  abbrev pub first_mint : MintInputs → Outcome Text
  first_mint inputs =
      mint_with_retry to_lower number parse_json parse_url network
        (settings_of production inputs.postman_api_key inputs.postman_api_base none) retry
        (create_provider none)

  start_with-IsSettled :
      (inputs : MintInputs) (o : Outcome Text)
      → IsMint to_lower number parse_json parse_url network
          (settings_of production inputs.postman_api_key inputs.postman_api_base none)
          (create_provider none)
          o
      → IsSettled inputs (start_with inputs o) (o.0)
  unfolding start_with create_provider
  start_with-IsSettled inputs (gave token, p) (same, told, given, source) =
      (given, (refl, (told, refl)))
  start_with-IsSettled inputs (threw failure, p) (same, told) = (refl, (told, refl))

  settings_of_attempts :
      (key base : Option Text) → 1 ≤ (settings_of production key base none).max_attempts
  unfolding settings_of
  settings_of_attempts key base = omega arith

  needed-IsStarted :
      (given keyed : Bool) (inputs : MintInputs) (o : Outcome Text)
      → is_given inputs.postman_access_token ≡ given
      → is_given inputs.postman_api_key ≡ keyed
      → IsSettled inputs (start_with inputs o) (o.0)
      → IsStarted inputs (o.0) (
          if given || not keyed
          then record { inputs = inputs; secrets = []; log = [] }
          else start_with inputs o)
  needed-IsStarted true keyed inputs o e k settled = inl (inl e, (refl, (refl, refl)))
  needed-IsStarted false false inputs o e k settled = inl (inr k, (refl, (refl, refl)))
  needed-IsStarted false true inputs o e k settled = inr (e, (k, settled))

  -- Where the inputs give a token, or no key, nothing is changed, set as a secret or logged.
  -- Otherwise the outcome of the mint decides: a token that it gives is not empty, and the inputs get
  -- it, it is the only secret that is set, and the success is logged; where it fails, the inputs are
  -- as they were, no secret is set, and a warning is logged.
  pub mint_access_token_if_needed-IsStarted :
      (inputs : MintInputs)
      → IsStarted inputs ((first_mint inputs).0) (
          mint_access_token_if_needed to_lower number parse_json parse_url network retry production
            inputs)
  unfolding mint_access_token_if_needed
  mint_access_token_if_needed-IsStarted inputs =
      needed-IsStarted _ _ inputs (first_mint inputs) refl refl (
        start_with-IsSettled inputs (first_mint inputs) (
          mint_with_retry-IsMint to_lower number parse_json parse_url network
            (settings_of production inputs.postman_api_key inputs.postman_api_base none) retry
            (settings_of_attempts inputs.postman_api_key inputs.postman_api_base)
            (create_provider none)))
