-- ===== src/Repo/Branch/Channels/Laws.antt =====
-- What the parsed channel rules satisfy, and which rule a branch is given.
use postman_bootstrap_action.Base.{
  Bool, true, false, Option, none, some, List, [], ◌∷◌, Text, trim, ◌===◌, any, any-append, All,
  All-append, ◌≡◌, refl, subst, ◌∙◌, ◌↔◌, arith, Bool-cases, inl, inr,
}
use postman_bootstrap_action.Repo.Branch.{ChannelRule, ok, Ensures, Ensures-ok, >>=-eq-ok}
use postman_bootstrap_action.Repo.Branch.Channels.Globs.{Matches, rule_matches-Matches}
use postman_bootstrap_action.Repo.Branch.Channels.{
  is_code, release_pattern, release_rule, channel_parts, with_release, parse_entry, parse_parts,
  parse_channel_rules, rule_matches, match_channel,
}

-- The rule is the first in the list whose pattern stands for the branch.
pub data IsFirstMatch (branch : Text) : List ChannelRule → ChannelRule → Type 0 where
  here :
      {rule : ChannelRule} {rules : List ChannelRule}
      → Matches branch rule
      → IsFirstMatch branch (rule ∷ rules) rule
  later :
      {rule found : ChannelRule} {rules : List ChannelRule}
      → ¬ Matches branch rule
      → IsFirstMatch branch rules found
      → IsFirstMatch branch (rule ∷ rules) found

matched :
    {branch : Text} {rule : ChannelRule} → rule_matches branch rule ≡ true → Matches branch rule
matched {branch} {rule} = (rule_matches-Matches branch rule).0

missed :
    {branch : Text} {rule : ChannelRule} → rule_matches branch rule ≡ false → ¬ Matches branch rule
missed {branch} {rule} miss m =
    let hit : rule_matches branch rule ≡ true = (rule_matches-Matches branch rule).1 m in cc

rule_matches-false :
    {branch : Text} {rule : ChannelRule} → ¬ Matches branch rule → rule_matches branch rule ≡ false
rule_matches-false {branch} {rule} miss = elim (Bool-cases (rule_matches branch rule)) [
  | inl hit ↦ absurd (miss (matched hit))
  | inr plain ↦ plain
]

match_channel_sound :
    (branch : Text) (rules : List ChannelRule) (found : ChannelRule)
    → match_channel branch rules ≡ some found
    → IsFirstMatch branch rules found
unfolding match_channel
match_channel_sound branch [] found e = cc
match_channel_sound branch (rule ∷ rules) found e = elim (Bool-cases (rule_matches branch rule)) [
  | inl hit ↦ subst (IsFirstMatch branch (rule ∷ rules)) (ground arith) (here (matched hit))
  | inr miss ↦ later (missed miss) (match_channel_sound branch rules found (ground arith))
]

match_channel_complete :
    {branch : Text} {rules : List ChannelRule} {found : ChannelRule}
    → IsFirstMatch branch rules found
    → match_channel branch rules ≡ some found
unfolding match_channel
match_channel_complete {branch} (here {rule} hit) =
    rw ((rule_matches-Matches branch rule).1 hit) refl
match_channel_complete {branch} (later {rule} miss h) =
    rw (rule_matches-false miss) (match_channel_complete h)

-- A rule is the channel of a branch exactly if it is the first in the list whose pattern stands for
-- the branch: a pattern that ends in a star for the branches that begin with what is before the star,
-- any other for the branch of that name.
pub match_channel-IsFirstMatch :
    (branch : Text) (rules : List ChannelRule) (found : ChannelRule)
    → (match_channel branch rules ≡ some found) ↔ IsFirstMatch branch rules found
match_channel-IsFirstMatch branch rules found =
    (match_channel_sound branch rules found, match_channel_complete)

abbrev pub NoneMatches : Text → List ChannelRule → Type 0
NoneMatches branch = All (λ rule. ¬ Matches branch rule)

match_channel-none_sound :
    (branch : Text) (rules : List ChannelRule)
    → match_channel branch rules ≡ none
    → NoneMatches branch rules
unfolding match_channel
match_channel-none_sound branch [] e = tt
match_channel-none_sound branch (rule ∷ rules) e = elim (Bool-cases (rule_matches branch rule)) [
  | inl hit ↦ absurd (ground arith)
  | inr miss ↦ (missed miss, match_channel-none_sound branch rules (ground arith))
]

match_channel-none_complete :
    (branch : Text) (rules : List ChannelRule)
    → NoneMatches branch rules
    → match_channel branch rules ≡ none
unfolding match_channel
match_channel-none_complete branch [] h = refl
match_channel-none_complete branch (rule ∷ rules) h =
    rw (rule_matches-false (h.0)) (match_channel-none_complete branch rules (h.1))

pub match_channel-none :
    (branch : Text) (rules : List ChannelRule)
    → (match_channel branch rules ≡ none) ↔ NoneMatches branch rules
match_channel-none branch rules =
    (match_channel-none_sound branch rules, match_channel-none_complete branch rules)

abbrev pub HasCode : ChannelRule → Type 0
HasCode rule = is_code rule.code ≡ true

abbrev pub has_release : List ChannelRule → Bool
has_release = any (λ r. r.pattern === release_pattern)

with_release-has_release : (rules : List ChannelRule) → has_release (with_release rules) ≡ true
unfolding with_release
with_release-has_release rules = elim (Bool-cases (has_release rules)) [
  | inl given ↦ rw given given
  | inr lacking ↦ rw lacking (
      any-append (λ (r : ChannelRule). r.pattern === release_pattern) rules (release_rule ∷ [])
      ∙ ground arith)
]

with_release-HasCode :
    (rules : List ChannelRule) → All HasCode rules → All HasCode (with_release rules)
unfolding with_release is_code
with_release-HasCode rules h = elim (Bool-cases (has_release rules)) [
  | inl given ↦ rw given h
  | inr lacking ↦ rw lacking (All-append HasCode rules (release_rule ∷ []) h (refl, tt))
]

module _ (to_upper : Text → Text) where
  parse_entry-HasCode : (entry : Text) → Ensures HasCode (parse_entry to_upper entry)
  unfolding parse_entry
  parse_entry-HasCode entry = ground arith

  parse_parts-HasCode : (parts : List Text) → Ensures (All HasCode) (parse_parts to_upper parts)
  unfolding parse_parts
  parse_parts-HasCode [] = tt
  parse_parts-HasCode (part ∷ parts) =
      ground (arith, parse_entry-HasCode (trim part), parse_parts-HasCode parts)

  -- Every rule that the `channels` input yields has a code of one to sixteen units, an upper-case
  -- letter and then upper-case letters, digits, `_` and `-`; and a rule for `release/*` is among
  -- them, whatever the input.
  pub parse_channel_rules-HasCode :
      (input : Option Text) (rules : List ChannelRule)
      → parse_channel_rules to_upper input ≡ ok rules
      → All HasCode rules × (has_release rules ≡ true)
  unfolding parse_channel_rules
  parse_channel_rules-HasCode input rules e =
      let (parsed, given, same) = >>=-eq-ok (parse_parts to_upper (channel_parts input)) _ e in
      let coded = Ensures-ok (All HasCode) (parse_parts-HasCode (channel_parts input)) given in
      let final : with_release parsed ≡ rules = cc in
      (
        subst (All HasCode) final (with_release-HasCode parsed coded),
        subst (λ r. has_release r ≡ true) final (with_release-has_release parsed),
      )
