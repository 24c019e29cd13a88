-- ===== src/Repo/Branch/Slug/Runs.antt =====
-- The replacement of runs, and the texts that it leaves alone.
use postman_bootstrap_action.Base.{
  ℕ, Bool, true, false, not, ◌&&◌, [], ◌∷◌, map, Text, all, length, is_space, ◌≡◌, refl, ◌≤◌, arith,
}
use postman_bootstrap_action.Repo.Branch.Slug.{is_slug_char, is_dash, replace_runs, to_slug_char}

-- No two dashes in a row; the flag says that a dash stands before the text.
unfoldable pub singles : Bool → Text → Bool
singles was [] = true
singles was (c ∷ t) = not (was && is_dash c) && singles (is_dash c) t

pub singles-replace_runs : (was : Bool) (t : Text) → singles was (replace_runs is_dash was t) ≡ true
unfolding singles replace_runs is_dash
singles-replace_runs was [] = refl
singles-replace_runs was (c ∷ t) =
    ground (arith, singles-replace_runs true t, singles-replace_runs false t)

pub replace_runs_of_singles :
    (was : Bool) (t : Text) → singles was t ≡ true → replace_runs is_dash was t ≡ t
unfolding singles replace_runs is_dash
replace_runs_of_singles was [] h = refl
replace_runs_of_singles was (c ∷ t) h =
    ground (arith, replace_runs_of_singles true t, replace_runs_of_singles false t)

pub replace_runs_of_all :
    (was : Bool) (t : Text) → all is_slug_char t ≡ true → replace_runs is_space was t ≡ t
unfolding replace_runs is_space is_slug_char
replace_runs_of_all was [] h = refl
replace_runs_of_all was (c ∷ t) h = ground (arith, replace_runs_of_all false t)

pub length-replace_runs :
    (p : ℕ → Bool) (was : Bool) (t : Text) → length (replace_runs p was t) ≤ length t
unfolding replace_runs
length-replace_runs p was [] = omega arith
length-replace_runs p was (c ∷ t) = ground (arith, length-replace_runs p (p c) t)

pub all-replace_runs :
    (was : Bool) (t : Text)
    → all is_slug_char t ≡ true
    → all is_slug_char (replace_runs is_dash was t) ≡ true
unfolding replace_runs is_dash is_slug_char
all-replace_runs was [] h = refl
all-replace_runs was (c ∷ t) h = ground (arith, all-replace_runs true t, all-replace_runs false t)

pub all-to_slug_char : (t : Text) → all is_slug_char (map to_slug_char t) ≡ true
unfolding to_slug_char is_slug_char
all-to_slug_char [] = refl
all-to_slug_char (c ∷ t) = ground (arith, all-to_slug_char t)

pub map-to_slug_char_of_all : (t : Text) → all is_slug_char t ≡ true → map to_slug_char t ≡ t
unfolding to_slug_char
map-to_slug_char_of_all [] h = refl
map-to_slug_char_of_all (c ∷ t) h = ground (arith, map-to_slug_char_of_all t)
