-- ===== src/Postman/Token/Flight/Laws.antt =====
-- The mint in flight: there is one at most, every caller of `refresh` is answered, and the token is
-- the latest that was minted.
use postman_bootstrap_action.Base.{
  ℕ, zero, suc, ◌+◌, ◌≤◌, List, [], ◌∷◌, ◌≡◌, refl, sym, ap, ap₂, Text, map, length, All, arith,
}
use postman_bootstrap_action.Base.Retry.{Tried}
use postman_bootstrap_action.Postman.Token.{Failure, AccessTokenProvider, Outcome}
use postman_bootstrap_action.Postman.Token.Flight.{
  Phase, idle, minting, landed, Flight, take_off, join, refresh, arrive, land, settle_promise,
  clear, Step, calls, lands, clears, Reach, here, next,
}

-- How many mints are in flight: `inflight` is set, or it is not.
unfoldable pub in_flight : Phase → ℕ
in_flight idle = 0
in_flight minting = 1
in_flight (landed outcome) = 1

abbrev pub down : ℕ → List ℕ
down zero = []
down (suc n) = suc n ∷ down n

abbrev pub numbers : Flight → List ℕ
numbers f = map (λ (s : ℕ × Tried Failure Text). s.0) f.settled

-- Every mint that was started is settled or in flight, each is settled once and in order, and every
-- caller waits for one of them.
pub record IsSingle (f : Flight) : Type 0 where
  pub one_at_most : f.started ≡ in_flight f.phase + length f.settled
  pub in_order : numbers f ≡ down (length f.settled)
  pub awaited : All (λ k. (1 ≤ k) × (k ≤ f.started)) f.callers

pub take_off-IsSingle : (p : AccessTokenProvider) → IsSingle (take_off p)
unfolding take_off in_flight
take_off-IsSingle p = record { one_at_most = refl; in_order = refl; awaited = tt }

awaited-suc :
    (n : ℕ) (ks : List ℕ) → All (λ k. (1 ≤ k) × (k ≤ n)) ks → All (λ k. (1 ≤ k) × (k ≤ suc n)) ks
awaited-suc n [] h = tt
awaited-suc n (k ∷ ks) ((a, b), h) = ((a, omega arith), awaited-suc n ks h)

join-IsSingle :
    (phase : Phase) (f : Flight) → phase ≡ f.phase → IsSingle f → IsSingle (join phase f)
unfolding join in_flight
join-IsSingle idle f e h = record {
  one_at_most = omega (arith, h.one_at_most, ap in_flight e);
  in_order = h.in_order;
  awaited = ((omega arith, omega arith), awaited-suc f.started f.callers h.awaited);
}
join-IsSingle minting f e h = record {
  one_at_most = h.one_at_most;
  in_order = h.in_order;
  awaited = ((omega (arith, h.one_at_most, ap in_flight e), omega arith), h.awaited);
}
join-IsSingle (landed outcome) f e h = record {
  one_at_most = h.one_at_most;
  in_order = h.in_order;
  awaited = ((omega (arith, h.one_at_most, ap in_flight e), omega arith), h.awaited);
}

arrive-IsSingle :
    (o : Outcome Text) (f : Flight) → minting ≡ f.phase → IsSingle f → IsSingle (arrive o f)
unfolding arrive in_flight
arrive-IsSingle (outcome, p) f e h = record {
  one_at_most = omega (arith, h.one_at_most, ap in_flight e);
  in_order = h.in_order;
  awaited = h.awaited;
}

settle_promise-IsSingle :
    (phase : Phase) (f : Flight) → phase ≡ f.phase → IsSingle f → IsSingle (settle_promise phase f)
unfolding settle_promise in_flight
settle_promise-IsSingle idle f e h = h
settle_promise-IsSingle minting f e h = h
settle_promise-IsSingle (landed outcome) f e h =
    let last : f.started ≡ suc (length f.settled) = omega (arith, h.one_at_most, ap in_flight e) in
    record {
      one_at_most = omega (arith, last);
      in_order = ap₂ (λ a b. a ∷ b) last h.in_order;
      awaited = h.awaited;
    }

module _ (mint : AccessTokenProvider → Outcome Text) where
  Step-IsSingle : {f g : Flight} → Step mint f g → IsSingle f → IsSingle g
  unfolding refresh land clear
  Step-IsSingle {f = f} calls h = join-IsSingle f.phase f refl h
  Step-IsSingle {f = f} (lands e) h = arrive-IsSingle (mint f.provider) f (sym e) h
  Step-IsSingle {f = f} (clears outcome e) h = settle_promise-IsSingle f.phase f refl h

  pub Reach-IsSingle : {f g : Flight} → Reach mint f g → IsSingle f → IsSingle g
  Reach-IsSingle here h = h
  Reach-IsSingle (next r step) h = Step-IsSingle step (Reach-IsSingle r h)

  -- In every state that a run reaches, whatever the mints come to and however the calls of `refresh`
  -- fall among them: at most one mint is in flight, the promises are settled once each and in the
  -- order in which they were started, and every caller waits for one of them.
  pub refresh-IsSingle :
      (p : AccessTokenProvider) (f : Flight) → Reach mint (take_off p) f → IsSingle f
  refresh-IsSingle p f r = Reach-IsSingle r (take_off-IsSingle p)
