-- ===== src/Spec/Reconcile/Plan/Rounds.antt =====
-- What the rounds of the planning loops do to one file of the cloud (src/lib/postman/spec-file-reconcile.ts).
use postman_bootstrap_action.Base.{
  Bool, true, not, ◌&&◌, Option, some, is_some, List, map, Text, ◌===◌, ◌≡◌, sym, ap, ◌∙◌, inl, inr,
  arith, Bool-cases, Option-cases,
}
use mathlib.Core.List.{Memᴰ}
use postman_bootstrap_action.Spec.Bundle.{DefinitionFile}
use postman_bootstrap_action.Spec.Reconcile.{CloudSpecFileMeta}
use postman_bootstrap_action.Spec.Reconcile.Plan.{CloudByPath, lookup}
use postman_bootstrap_action.Base.Finding.{AreDistinct, any_at, any_of_member, ===→≡}
use postman_bootstrap_action.Spec.Reconcile.Plan.Parts.{
  differs, creates_with, updates_with, keyed, lookup-keyed-some,
}

abbrev pub ids_of : List CloudSpecFileMeta → List Text
ids_of = map (λ (m : CloudSpecFileMeta). m.id)

-- A file of the cloud that the target still has, with what its rounds find there.
module _ (nfc to_lower : Text → Text) (content_by_id : Text → Option Text)
    (cloud : List CloudSpecFileMeta) (apart : AreDistinct (ids_of cloud)) where
  abbrev by_path : CloudByPath
  by_path = keyed nfc to_lower cloud

  path_of_id :
      (m n : CloudSpecFileMeta)
      → Memᴰ m cloud
      → Memᴰ n cloud
      → (n.id === m.id) ≡ true
      → (nfc m.path === nfc n.path) ≡ true
  path_of_id m n mm mn same =
      let at_n : CloudSpecFileMeta → Bool = λ y. nfc y.path === nfc n.path in
      let itself : (nfc n.path === nfc n.path) ≡ true = ground arith in
      let both : ((n.id === m.id) && at_n n) ≡ true = rw same itself in
      sym (any_at (λ (y : CloudSpecFileMeta). y.id) at_n cloud apart m mm)
      ∙ any_of_member (λ y. (y.id === m.id) && at_n y) cloud n mn both

  -- The round of a file whose path is not that of `m` does not touch `m`; the one whose path it is
  -- updates it when the contents differ.
  pub updates_at :
      (m : CloudSpecFileMeta) (p : Text)
      → Memᴰ m cloud
      → lookup by_path p ≡ some m
      → (Q : Text → Bool) (f : DefinitionFile)
      → updates_with content_by_id (λ i c. (i === m.id) && Q c) by_path f
        ≡ ((f.path === p) && (differs f (content_by_id m.id) && Q f.content))
  updates_at m p mem found Q f = elim (Bool-cases (f.path === p)) [
    | inl at_p ↦
        let here : lookup by_path f.path ≡ some m =
          ap (lookup by_path) (===→≡ f.path p at_p) ∙ found in
        let itself : (m.id === m.id) ≡ true = ground arith in ground arith
    | inr off ↦ elim (Option-cases (lookup by_path f.path)) [
      | inl missing ↦ ground arith
      | inr (n, hit) ↦ elim (Bool-cases (n.id === m.id)) [
        | inl same ↦
            let (mem', at_f) = lookup-keyed-some nfc to_lower f.path cloud n hit in
            let (_, at_p) = lookup-keyed-some nfc to_lower p cloud m found in
            let paths : nfc m.path ≡ nfc n.path =
              ===→≡ (nfc m.path) (nfc n.path) (path_of_id m n mem mem' same) in
            let equal : f.path ≡ p = sym at_f ∙ sym paths ∙ at_p in absurd (ground arith)
        | inr other ↦ ground arith
      ]
    ]
  ]

  pub creates_at :
      (p c : Text) (f : DefinitionFile)
      → creates_with content_by_id (λ q t. (q === p) && (t === c)) by_path f
        ≡ (not (is_some (lookup by_path p)) && ((f.path === p) && (f.content === c)))
  creates_at p c f = ground arith
