-- ===== src/Repo/Branch/Slug/Edges.antt =====
-- Cutting dots, underscores and dashes off both ends.
use postman_bootstrap_action.Base.{
  ℕ, Bool, true, false, not, ◌&&◌, [], ◌∷◌, Text, all, length, is_empty, drop_while,
  drop_last_while, ◌≡◌, refl, ◌≤◌, arith,
}
use postman_bootstrap_action.Repo.Branch.Slug.{is_dash, is_edge, trim_edges}
use postman_bootstrap_action.Repo.Branch.Slug.Runs.{singles}

unfoldable pub first_ok : Text → Bool
first_ok [] = true
first_ok (c ∷ t) = not (is_edge c)

unfoldable pub last_ok : Text → Bool
last_ok [] = true
last_ok (c ∷ t) = not (is_empty t && is_edge c) && last_ok t

first_ok-drop_while : (t : Text) → first_ok (drop_while is_edge t) ≡ true
unfolding first_ok drop_while
first_ok-drop_while [] = refl
first_ok-drop_while (c ∷ t) = ground (arith, first_ok-drop_while t)

first_ok-drop_last_while :
    (t : Text) → first_ok t ≡ true → first_ok (drop_last_while is_edge t) ≡ true
unfolding first_ok drop_last_while
first_ok-drop_last_while [] h = refl
first_ok-drop_last_while (c ∷ t) h = ground arith

last_ok-drop_last_while : (t : Text) → last_ok (drop_last_while is_edge t) ≡ true
unfolding last_ok drop_last_while
last_ok-drop_last_while [] = refl
last_ok-drop_last_while (c ∷ t) = ground (arith, last_ok-drop_last_while t)

drop_while_of_first_ok : (t : Text) → first_ok t ≡ true → drop_while is_edge t ≡ t
unfolding first_ok drop_while
drop_while_of_first_ok [] h = refl
drop_while_of_first_ok (c ∷ t) h = ground arith

drop_last_while_of_last_ok : (t : Text) → last_ok t ≡ true → drop_last_while is_edge t ≡ t
unfolding last_ok drop_last_while
drop_last_while_of_last_ok [] h = refl
drop_last_while_of_last_ok (c ∷ t) h = ground (arith, drop_last_while_of_last_ok t)

module _ (p q : ℕ → Bool) where
  pub all-drop_while : (t : Text) → all q t ≡ true → all q (drop_while p t) ≡ true
  unfolding drop_while
  all-drop_while [] h = refl
  all-drop_while (c ∷ t) h = ground (arith, all-drop_while t)

  pub all-drop_last_while : (t : Text) → all q t ≡ true → all q (drop_last_while p t) ≡ true
  unfolding drop_last_while
  all-drop_last_while [] h = refl
  all-drop_last_while (c ∷ t) h = ground (arith, all-drop_last_while t)

length-drop_while : (p : ℕ → Bool) (t : Text) → length (drop_while p t) ≤ length t
unfolding drop_while
length-drop_while p [] = omega arith
length-drop_while p (c ∷ t) = ground (arith, length-drop_while p t)

length-drop_last_while : (p : ℕ → Bool) (t : Text) → length (drop_last_while p t) ≤ length t
unfolding drop_last_while
length-drop_last_while p [] = omega arith
length-drop_last_while p (c ∷ t) = ground (arith, length-drop_last_while p t)

singles-drop_while :
    (p : ℕ → Bool) (was : Bool) (t : Text)
    → singles was t ≡ true
    → singles false (drop_while p t) ≡ true
unfolding drop_while singles
singles-drop_while p was [] h = refl
singles-drop_while p was (c ∷ t) h = ground (arith, singles-drop_while p (is_dash c) t)

singles-drop_last_while :
    (p : ℕ → Bool) (was : Bool) (t : Text)
    → singles was t ≡ true
    → singles was (drop_last_while p t) ≡ true
unfolding drop_last_while singles
singles-drop_last_while p was [] h = refl
singles-drop_last_while p was (c ∷ t) h = ground (arith, singles-drop_last_while p (is_dash c) t)

-- What `trim_edges` yields, and what it leaves alone.
pub trim_edges_ends :
    (t : Text) → (first_ok (trim_edges t) ≡ true) × (last_ok (trim_edges t) ≡ true)
unfolding trim_edges
trim_edges_ends t = (
  first_ok-drop_last_while _ (first_ok-drop_while t),
  last_ok-drop_last_while (drop_while is_edge t),
)

pub trim_edges_keeps :
    (q : ℕ → Bool) (t : Text)
    → all q t ≡ true
    → singles false t ≡ true
    → (all q (trim_edges t) ≡ true) × (singles false (trim_edges t) ≡ true)
unfolding trim_edges
trim_edges_keeps q t h s = (
  all-drop_last_while is_edge q _ (all-drop_while is_edge q t h),
  singles-drop_last_while is_edge false _ (singles-drop_while is_edge false t s),
)

pub length-trim_edges : (t : Text) → length (trim_edges t) ≤ length t
unfolding trim_edges
length-trim_edges t =
    omega
      (arith, length-drop_last_while is_edge (drop_while is_edge t), length-drop_while is_edge t)

pub trim_edges_of_ok : (t : Text) → first_ok t ≡ true → last_ok t ≡ true → trim_edges t ≡ t
unfolding trim_edges
trim_edges_of_ok t f l = rw (drop_while_of_first_ok t f) (drop_last_while_of_last_ok t l)
