-- ===== src/Repo/Branch/Channels/Globs.antt =====
-- Which branches the pattern of a channel rule stands for (src/lib/repo/branch-decision.ts,
-- matchChannel).
use postman_bootstrap_action.Base.{
  ℕ, true, [], ◌∷◌, ◌++◌, Text, codes, starts_with, ends_with, drop_last, reverse, ◌≡◌, ◌≢◌, ◌↔◌,
  refl, sym, ap, ◌∙◌, inl, inr, Bool-cases, arith,
}
use mathlib.Core.List.{reverse-append, reverse-reverse}
use postman_bootstrap_action.Repo.Branch.{ChannelRule}
use postman_bootstrap_action.Repo.Branch.Channels.{rule_matches}

abbrev star : Text
star = codes "*"

-- A pattern that ends in a star stands for the branches that begin with what is before the star; any
-- other stands for the branch of that name.
pub data Matches (branch : Text) (rule : ChannelRule) : Type 0 where
  named :
      ((prefix : Text) → rule.pattern ≢ prefix ++ star)
      → branch ≡ rule.pattern
      → Matches branch rule
  below :
      (prefix rest : Text)
      → rule.pattern ≡ prefix ++ star
      → branch ≡ prefix ++ rest
      → Matches branch rule

starts_with-append : (prefix rest : Text) → starts_with prefix (prefix ++ rest) ≡ true
unfolding starts_with
starts_with-append [] rest = refl
starts_with-append (c ∷ prefix) rest = ground (arith, starts_with-append prefix rest)

starts_with-split :
    (prefix t : Text) → starts_with prefix t ≡ true → (rest : Text) × (t ≡ prefix ++ rest)
unfolding starts_with
starts_with-split [] t h = (t, refl)
starts_with-split (c ∷ prefix) [] h = absurd (ground arith)
starts_with-split (c ∷ prefix) (d ∷ t) h =
    let (rest, same) = starts_with-split prefix t (ground arith) in
    let first : c ≡ d = ground arith in (rest, cc)

ends_with-append : (prefix : Text) → ends_with star (prefix ++ star) ≡ true
unfolding ends_with starts_with
ends_with-append prefix =
    ap (starts_with (reverse star)) (reverse-append prefix star)
    ∙ starts_with-append (reverse star) (reverse prefix)

ends_with-split : (t : Text) → ends_with star t ≡ true → (prefix : Text) × (t ≡ prefix ++ star)
unfolding ends_with
ends_with-split t h =
    let (rest, same) = starts_with-split (reverse star) (reverse t) h in
    (reverse rest, sym (reverse-reverse t) ∙ (ap reverse same ∙ reverse-append (reverse star) rest))

drop_last-append : (prefix : Text) (c : ℕ) → drop_last (prefix ++ c ∷ []) ≡ prefix
unfolding drop_last
drop_last-append [] c = refl
drop_last-append (d ∷ []) c = refl
drop_last-append (d ∷ e ∷ prefix) c = ap (λ t. d ∷ t) (drop_last-append (e ∷ prefix) c)

rule_matches_sound :
    (branch : Text) (rule : ChannelRule) → rule_matches branch rule ≡ true → Matches branch rule
unfolding rule_matches
rule_matches_sound branch rule h = elim (Bool-cases (ends_with star rule.pattern)) [
  | inl starred ↦
      let (prefix, whole) = ends_with-split rule.pattern starred in
      let cut : drop_last rule.pattern ≡ prefix =
        ap drop_last whole ∙ drop_last-append prefix b'*' in
      let begins : starts_with (drop_last rule.pattern) branch ≡ true = ground arith in
      let (rest, same) =
        starts_with-split prefix branch (ap (λ p. starts_with p branch) (sym cut) ∙ begins) in
      below prefix rest whole same
  | inr plain ↦
      named
        (λ prefix same.
          let starred : ends_with star rule.pattern ≡ true =
            ap (ends_with star) same ∙ ends_with-append prefix in
          cc)
        (ground arith)
]

rule_matches_complete :
    (branch : Text) (rule : ChannelRule) → Matches branch rule → rule_matches branch rule ≡ true
unfolding rule_matches
rule_matches_complete branch rule (named bare same) =
    elim (Bool-cases (ends_with star rule.pattern)) [
      | inl starred ↦
          let (prefix, whole) = ends_with-split rule.pattern starred in absurd (bare prefix whole)
      | inr plain ↦ ground arith
    ]
rule_matches_complete branch rule (below prefix rest whole same) =
    let starred : ends_with star rule.pattern ≡ true =
      ap (ends_with star) whole ∙ ends_with-append prefix in
    let cut : drop_last rule.pattern ≡ prefix = ap drop_last whole ∙ drop_last-append prefix b'*' in
    let begins : starts_with (drop_last rule.pattern) branch ≡ true =
      ap (λ p. starts_with p branch) cut
      ∙ (ap (starts_with prefix) same ∙ starts_with-append prefix rest) in
    ground arith

pub rule_matches-Matches :
    (branch : Text) (rule : ChannelRule) → (rule_matches branch rule ≡ true) ↔ Matches branch rule
rule_matches-Matches branch rule =
    (rule_matches_sound branch rule, rule_matches_complete branch rule)
