-- ===== src/Postman/Token/Flight/Answers.antt =====
-- Every caller of `refresh` is answered, and the token is the latest that was minted.
use postman_bootstrap_action.Base.{
  ℕ, zero, suc, ◌≤◌, true, Option, List, [], ◌∷◌, ◌≡◌, refl, sym, ap, subst, ◌∙◌, Text, ◌==◌,
  length, any, All, arith,
}
use postman_bootstrap_action.Base.Json.{Json}
use postman_bootstrap_action.Base.Retry.{Tried, gave, threw, Retry}
use postman_bootstrap_action.Postman.PmakDiagnostics.{Response}
use postman_bootstrap_action.Postman.Token.{
  Failure, Settings, Call, AccessTokenProvider, Outcome, mint_with_retry,
}
use postman_bootstrap_action.Postman.Token.Laws.{IsMint, mint_with_retry-IsMint}
use postman_bootstrap_action.Postman.Token.Flight.{
  Phase, idle, minting, landed, Flight, take_off, join, refresh, arrive, land, settle_promise,
  clear, Step, calls, lands, clears, Reach, here, next,
}
use postman_bootstrap_action.Postman.Token.Flight.Laws.{
  in_flight, down, numbers, IsSingle, Reach-IsSingle, refresh-IsSingle,
}

any-down : (k n : ℕ) → 1 ≤ k → k ≤ n → any (λ j. j == k) (down n) ≡ true
any-down k zero h g = absurd (omega arith)
any-down k (suc n) h g = ground (arith, any-down k n h)

abbrev pub AreAnswered : Flight → List ℕ → Type 0
AreAnswered f = All (λ k. any (λ j. j == k) (numbers f) ≡ true)

down-answered :
    (n : ℕ) (ks : List ℕ)
    → All (λ k. (1 ≤ k) × (k ≤ n)) ks
    → All (λ k. any (λ j. j == k) (down n) ≡ true) ks
down-answered n [] h = tt
down-answered n (k ∷ ks) ((a, b), h) = (any-down k n a b, down-answered n ks h)

idle-AreAnswered : (f : Flight) → IsSingle f → f.phase ≡ idle → AreAnswered f f.callers
unfolding in_flight
idle-AreAnswered f h e =
    let all_settled : f.started ≡ length f.settled = omega (arith, h.one_at_most, ap in_flight e) in
    subst (λ ns. All (λ k. any (λ j. j == k) ns ≡ true) f.callers) (sym h.in_order)
      (down-answered (length f.settled) f.callers
        (subst (λ n. All (λ k. (1 ≤ k) × (k ≤ n)) f.callers) all_settled h.awaited))

clear-landed :
    (f : Flight) {outcome : Tried Failure Text}
    → f.phase ≡ landed outcome
    → ((clear f).phase ≡ idle) × ((clear f).callers ≡ f.callers)
unfolding clear settle_promise
clear-landed f e =
    subst (λ z. ((settle_promise z f).phase ≡ idle) × ((settle_promise z f).callers ≡ f.callers))
      (sym e) (refl, refl)

module _ (mint : AccessTokenProvider → Outcome Text) where
  -- From here the mint in flight, if there is one, comes to its end.
  abbrev pub Settles : Flight → Type 0
  Settles f = (g : Flight) × (Reach mint f g × ((g.phase ≡ idle) × (g.callers ≡ f.callers)))

  Settles-phase : (phase : Phase) (f : Flight) → f.phase ≡ phase → Settles f
  unfolding land arrive
  Settles-phase idle f e = (f, (here, (e, refl)))
  Settles-phase minting f e = (
    clear (land mint f),
    (
      next (next here (lands e)) (clears ((mint f.provider).0) refl),
      clear-landed (land mint f) refl,
    ),
  )
  Settles-phase (landed outcome) f e = (clear f, (next here (clears outcome e), clear-landed f e))

  -- From every state that a run reaches, the steps of the mint in flight lead to a state without one
  -- in which the promise of every caller is settled.
  pub refresh-answered :
      (p : AccessTokenProvider) (f : Flight)
      → Reach mint (take_off p) f
      → (g : Flight) × (Reach mint f g
          × ((g.phase ≡ idle) × ((g.callers ≡ f.callers) × AreAnswered g f.callers)))
  refresh-answered p f r =
      let (g, (path, (landing, same))) = Settles-phase f.phase f refl in
      let answered =
        idle-AreAnswered g (Reach-IsSingle mint path (refresh-IsSingle mint p f r)) landing in
      (g, (path, (landing, (same, subst (AreAnswered g) same answered))))

-- The token that was minted last, or the first one.
abbrev pub last_given : Text → List (ℕ × Tried Failure Text) → Text
last_given first [] = first
last_given first ((n, gave token) ∷ rest) = token
last_given first ((n, threw failure) ∷ rest) = last_given first rest

-- What has come of the mints so far, the latest first.
unfoldable pub outcomes : Phase → Flight → List (ℕ × Tried Failure Text)
outcomes (landed outcome) f = (f.started, outcome) ∷ f.settled
outcomes _ f = f.settled

module _ (to_lower : Text → Text) (number : ℕ → Text) (parse_json : Text → Option Json)
    (parse_url : Text → Option Text) (network : List Call → Call → Option Response)
    (settings : Settings) (retry : Retry AccessTokenProvider Failure) where
  abbrev pub mint : AccessTokenProvider → Outcome Text
  mint = mint_with_retry to_lower number parse_json parse_url network settings retry

  abbrev pub IsCurrent : Text → Flight → Type 0
  IsCurrent first f = f.provider.token ≡ last_given first (outcomes f.phase f)

  arrive-IsCurrent :
      (first : Text) (o : Outcome Text) (f : Flight)
      → f.phase ≡ minting
      → IsMint to_lower number parse_json parse_url network settings f.provider o
      → IsCurrent first f
      → IsCurrent first (arrive o f)
  unfolding arrive outcomes
  arrive-IsCurrent first (gave token, p) f e minted h = minted.0
  arrive-IsCurrent first (threw failure, p) f e minted h =
      minted.0 ∙ h ∙ ap (λ z. last_given first (outcomes z f)) e

  join-IsCurrent :
      (first : Text) (phase : Phase) (f : Flight)
      → f.phase ≡ phase
      → IsCurrent first f
      → IsCurrent first (join phase f)
  unfolding join outcomes
  join-IsCurrent first idle f e h = h ∙ ap (λ z. last_given first (outcomes z f)) e
  join-IsCurrent first minting f e h =
      h
      ∙ ap (λ z. last_given first (outcomes z f)) e
      ∙ ap (λ z. last_given first (outcomes z (join minting f))) (sym e)
  join-IsCurrent first (landed outcome) f e h =
      h
      ∙ ap (λ z. last_given first (outcomes z f)) e
      ∙ ap (λ z. last_given first (outcomes z (join (landed outcome) f))) (sym e)

  settle_promise-IsCurrent :
      (first : Text) (phase : Phase) (f : Flight)
      → f.phase ≡ phase
      → IsCurrent first f
      → IsCurrent first (settle_promise phase f)
  unfolding settle_promise outcomes
  settle_promise-IsCurrent first idle f e h = h
  settle_promise-IsCurrent first minting f e h = h
  settle_promise-IsCurrent first (landed outcome) f e h =
      h ∙ ap (λ z. last_given first (outcomes z f)) e

  Step-IsCurrent :
      (first : Text) (many : 1 ≤ settings.max_attempts) {f g : Flight}
      → Step mint f g
      → IsCurrent first f
      → IsCurrent first g
  unfolding refresh land clear
  Step-IsCurrent first many {f = f} calls h = join-IsCurrent first f.phase f refl h
  Step-IsCurrent first many {f = f} (lands e) h =
      arrive-IsCurrent first (mint f.provider) f e
        (mint_with_retry-IsMint to_lower number parse_json parse_url network settings retry many
          f.provider)
        h
  Step-IsCurrent first many {f = f} (clears outcome e) h =
      settle_promise-IsCurrent first f.phase f refl h

  -- In every state that a run reaches, the token is the one that the latest successful mint gave, or
  -- the first one while there is none: failed mints leave it, and calls of `refresh` do not change it.
  -- One attempt at least is configured.
  pub refresh-IsCurrent :
      (p : AccessTokenProvider) (f : Flight)
      → 1 ≤ settings.max_attempts
      → Reach mint (take_off p) f
      → IsCurrent p.token f
  unfolding take_off outcomes
  refresh-IsCurrent p f many here = refl
  refresh-IsCurrent p f many (next {g = g} r step) =
      Step-IsCurrent p.token many step (refresh-IsCurrent p g many r)
