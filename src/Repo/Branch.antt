-- ===== src/Repo/Branch.antt =====
-- src/lib/repo/branch-decision.ts: the data that a run's branch decision is made of.
pub mod Identity
pub mod Channels
pub mod Decision
pub mod Decide
pub mod Slug
pub mod Marker
mod Tests
use postman_bootstrap_action.Base.{Bool, true, false, Option, none, some, [], Text, trim, is_empty}
pub use postman_bootstrap_action.Base.Contract.{
  ContractCode, channels_input_invalid, default_branch_unresolved, branch_decision_invalid, Result,
  ok, err, ◌>>=◌, Ensures, Ensures-ok, >>=-eq-ok,
}

pub data BranchTier : Type 0 where
  canonical channel preview gated legacy : BranchTier

pub data BranchStrategy : Type 0 where
  legacy publish_gate preview : BranchStrategy

pub data RefKind : Type 0 where
  default_branch branch tag unknown : RefKind

pub data IdentityProvider : Type 0 where
  github gitlab bitbucket azure_devops unknown : IdentityProvider

-- An absent field of an object is `none`.
pub record BranchIdentity : Type 0 where
  pub provider : IdentityProvider
  pub head_branch : Option Text
  pub raw_ref : Option Text
  pub default_branch : Option Text
  pub ref_kind : RefKind
  pub is_pr_context : Bool
  pub is_fork_pr : Bool
  pub head_sha : Option Text

pub record ChannelRule : Type 0 where
  pub pattern : Text
  pub code : Text

-- A text that is `undefined` or falsy.
abbrev pub nonempty : Text → Option Text
nonempty t = elim (is_empty t) [ true ↦ none | false ↦ some t ]

abbrev pub or_blank : Option Text → Text
or_blank none = []
or_blank (some t) = t

unfoldable pub clean : Option Text → Option Text
clean value = nonempty (trim (or_blank value))
