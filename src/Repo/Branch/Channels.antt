-- ===== src/Repo/Branch/Channels.antt =====
-- src/lib/repo/branch-decision.ts: the `channels` input, and the channel of a branch.
pub mod Globs
pub mod Laws
use postman_bootstrap_action.Base.{
  ℕ, Bool, true, false, ◌&&◌, ◌||◌, Option, none, some, List, [], ◌∷◌, ◌++◌, Text, codes, ◌===◌,
  ◌==◌, leb, is_empty, trim, cut, split_on, starts_with, ends_with, drop_last, is_upper, is_digit,
  all, any, length, if◌then◌else◌,
}
use postman_bootstrap_action.Repo.Branch.{
  ChannelRule, Result, ok, err, ◌>>=◌, channels_input_invalid, clean,
}

abbrev pub is_code_char : ℕ → Bool
is_code_char c = is_upper c || is_digit c || c == b'_' || c == b'-'

-- `/^[A-Z][A-Z0-9_-]{0,15}$/`
unfoldable pub is_code : Text → Bool
is_code [] = false
is_code (c ∷ t) = is_upper c && leb (length t) 15 && all is_code_char t

abbrev pub release_pattern : Text
release_pattern = codes "release/*"

abbrev pub release_rule : ChannelRule
release_rule = record { pattern = release_pattern; code = codes "RC" }

-- `if (!rules.some(...)) rules.push(...)`
unfoldable pub with_release : List ChannelRule → List ChannelRule
with_release rules =
    if any (λ r. r.pattern === release_pattern) rules then rules else rules ++ release_rule ∷ []

-- `raw ? raw.split(',') : []`
unfoldable pub channel_parts : Option Text → List Text
channel_parts input = elim (clean input) [ none ↦ [] | some raw ↦ split_on b',' raw ]

module _ (to_upper : Text → Text) where
  -- The body of the loop on an entry that is not empty: the pattern and the code at its first `=`.
  unfoldable pub parse_entry : Text → Result ChannelRule
  parse_entry entry = elim (cut b'=' entry) [
    | none ↦ err channels_input_invalid
    | some (before, behind) ↦
        if is_empty before || is_empty behind
        then err channels_input_invalid
        else if is_code (to_upper (trim behind))
        then ok (record { pattern = trim before; code = to_upper (trim behind) })
        else err channels_input_invalid
  ]

  unfoldable pub parse_parts : List Text → Result (List ChannelRule)
  parse_parts [] = ok []
  parse_parts (part ∷ parts) =
      let rest = parse_parts parts in
      if is_empty (trim part)
      then rest
      else (do rule ← parse_entry (trim part); rules ← rest; ok (rule ∷ rules))

  unfoldable pub parse_channel_rules : Option Text → Result (List ChannelRule)
  parse_channel_rules input = do rules ← parse_parts (channel_parts input); ok (with_release rules)

-- The test of one round of `matchChannel`.
unfoldable pub rule_matches : Text → ChannelRule → Bool
rule_matches branch rule =
    if ends_with (codes "*") rule.pattern
    then starts_with (drop_last rule.pattern) branch
    else branch === rule.pattern

unfoldable pub match_channel : Text → List ChannelRule → Option ChannelRule
match_channel branch [] = none
match_channel branch (rule ∷ rules) =
    if rule_matches branch rule then some rule else match_channel branch rules
