-- ===== src/Spec/Reconcile/Plan/Laws.antt =====
-- What a plan makes of the files of the cloud (src/lib/postman/spec-file-reconcile.ts).
use postman_bootstrap_action.Base.{
  Bool, true, false, not, ◌&&◌, ◌||◌, Option, none, some, is_some, List, [], ◌∷◌, Text, ◌===◌, any,
  if◌then◌else◌, ◌≡◌, refl, sym, ap, subst, ◌∙◌, inl, inr, arith, Bool-cases, Option-cases,
}
use mathlib.Core.List.{Memᴰ}
use postman_bootstrap_action.Base.Contract.{ok}
use postman_bootstrap_action.Spec.Bundle.{DefinitionFile, DefinitionBundle, has_path}
use postman_bootstrap_action.Spec.Bundle.Laws.{IsBundle, paths_of}
use postman_bootstrap_action.Spec.Bundle.Paths.{path_key}
use postman_bootstrap_action.Spec.Reconcile.{
  CloudSpecFileMeta, CreateEntry, UpdateEntry, SpecFileReconcilePlan,
}
use postman_bootstrap_action.Spec.Reconcile.Plan.{CloudByPath, lookup, plan_spec_file_reconcile}
use postman_bootstrap_action.Spec.Reconcile.Plan.Made.{
  IsMade, AreDistinct-map, plan_spec_file_reconcile-IsMade,
}
use postman_bootstrap_action.Spec.Reconcile.Plan.Rounds.{ids_of, updates_at, creates_at}
use postman_bootstrap_action.Base.Finding.{
  ===→≡, AreDistinct, any-ext, any-none, any_at, any_of_member, any_member, none_of_any,
}
use postman_bootstrap_action.Spec.Reconcile.Plan.Parts.{
  differs, creates_with, updates_with, is_unread, keyed, lookup-keyed-none, lookup-keyed-some,
  stale_with,
}

abbrev reads : Option Text → Text → Bool
reads none c = false
reads (some t) c = t === c

module _ (nfc : Text → Text) (content_by_id : Text → Option Text) where
  -- A file of the cloud has the content `c` once the plan is carried out: it is not deleted, and the
  -- plan changes its content to `c`, or does not change it and it is `c`.
  abbrev pub keeps : SpecFileReconcilePlan → CloudSpecFileMeta → Text → Bool
  keeps plan m c =
      not (any (λ i. i === m.id) plan.delete)
      && (if any (λ (u : UpdateEntry). (u.id === m.id) && true) plan.update
          then any (λ (u : UpdateEntry). (u.id === m.id) && (u.content === c)) plan.update
          else reads (content_by_id m.id) c)

  -- Once the plan is carried out there is a file with this path and this content.
  abbrev pub holds_after : SpecFileReconcilePlan → List CloudSpecFileMeta → Text → Text → Bool
  holds_after plan cloud p c =
      any (λ (e : CreateEntry). (e.path === p) && (e.content === c)) plan.create
      || any (λ (m : CloudSpecFileMeta). (nfc m.path === p) && keeps plan m c) cloud

abbrev pub has_file : Text → Text → List DefinitionFile → Bool
has_file p c = any (λ (f : DefinitionFile). (f.path === p) && (f.content === c))

-- With what a file of the target does to the content that is there, the content is the file's.
content_after :
    (f : DefinitionFile) (there : Option Text) (c : Text)
    → is_some there ≡ true
    → (if differs f there && true then differs f there && (f.content === c) else reads there c)
      ≡ (f.content === c)
content_after f none c h = absurd (ground arith)
content_after f (some t) c h = ground arith

any-and :
    {A : Type 0} (b : Bool) (q : A → Bool) (xs : List A) → any (λ x. b && q x) xs ≡ (b && any q xs)
any-and b q [] = ground arith
any-and b q (x ∷ xs) = ground (arith, any-and b q xs)

module _ (nfc to_lower : Text → Text) (content_by_id : Text → Option Text)
    (cloud : List CloudSpecFileMeta) (apart : AreDistinct (ids_of cloud))
    (target : DefinitionBundle) (whole : AreDistinct (paths_of target.files))
    (plan : SpecFileReconcilePlan)
    (made : IsMade nfc to_lower content_by_id cloud target plan) where
  abbrev keyed_cloud : CloudByPath
  keyed_cloud = keyed nfc to_lower cloud

  created_at :
      (p c : Text)
      → any (λ (e : CreateEntry). (e.path === p) && (e.content === c)) plan.create
        ≡ (not (is_some (lookup keyed_cloud p)) && has_file p c target.files)
  created_at p c =
      made.created (λ q t. (q === p) && (t === c))
      ∙ any-ext (creates_with content_by_id (λ q t. (q === p) && (t === c)) keyed_cloud)
          (λ f. not (is_some (lookup keyed_cloud p)) && ((f.path === p) && (f.content === c)))
          target.files (λ f _. creates_at nfc to_lower content_by_id cloud apart p c f)
      ∙ any-and (not (is_some (lookup keyed_cloud p)))
          (λ (f : DefinitionFile). (f.path === p) && (f.content === c)) target.files

  deleted_at :
      (m : CloudSpecFileMeta)
      → Memᴰ m cloud
      → any (λ i. i === m.id) plan.delete ≡ not (has_path (nfc m.path) target.files)
  deleted_at m mem =
      made.deleted (λ i. i === m.id)
      ∙ any-ext (stale_with nfc to_lower (λ p. has_path p target.files) (λ i. i === m.id))
          (λ y. (y.id === m.id) && not (has_path (nfc y.path) target.files)) cloud
          (λ y _. ground arith)
      ∙ any_at (λ (y : CloudSpecFileMeta). y.id) (λ y. not (has_path (nfc y.path) target.files))
          cloud apart m mem

  -- Of the updates of a file of the cloud there is one, from the file of the target with its path.
  changed_at :
      (m : CloudSpecFileMeta) (p : Text) (f : DefinitionFile) (Q : Text → Bool)
      → Memᴰ m cloud
      → lookup keyed_cloud p ≡ some m
      → Memᴰ f target.files
      → f.path ≡ p
      → any (λ (u : UpdateEntry). (u.id === m.id) && Q u.content) plan.update
        ≡ (differs f (content_by_id m.id) && Q f.content)
  changed_at m p f Q mem found held at_p =
      made.updated (λ i c. (i === m.id) && Q c)
      ∙ any-ext (updates_with content_by_id (λ i c. (i === m.id) && Q c) keyed_cloud)
          (λ g. (g.path === f.path) && (differs g (content_by_id m.id) && Q g.content)) target.files
          (λ g _.
            subst
              (λ q.
                updates_with content_by_id (λ i c. (i === m.id) && Q c) keyed_cloud g
                ≡ ((g.path === q) && (differs g (content_by_id m.id) && Q g.content)))
              (sym at_p) (updates_at nfc to_lower content_by_id cloud apart m p mem found Q g))
      ∙ any_at (λ (g : DefinitionFile). g.path) (λ g. differs g (content_by_id m.id) && Q g.content)
          target.files whole f held

  kept_by :
      (m : CloudSpecFileMeta) (p c : Text) (f : DefinitionFile)
      → Memᴰ m cloud
      → lookup keyed_cloud p ≡ some m
      → Memᴰ f target.files
      → f.path ≡ p
      → keeps nfc content_by_id plan m c ≡ has_file p c target.files
  kept_by m p c f mem found mf at_p =
      let there : has_path p target.files ≡ true =
        any_of_member (λ (g : DefinitionFile). g.path === p) target.files f mf (ground arith) in
      let at_m : nfc m.path ≡ p = (lookup-keyed-some nfc to_lower p cloud m found).1 in
      let kept : any (λ i. i === m.id) plan.delete ≡ false =
        deleted_at m mem ∙ ap (λ q. not (has_path q target.files)) at_m ∙ ap not there in
      let known : is_unread content_by_id keyed_cloud f ≡ false =
        none_of_any (is_unread content_by_id keyed_cloud) target.files f made.read mf in
      let here : lookup keyed_cloud f.path ≡ some m = ap (lookup keyed_cloud) at_p ∙ found in
      let changed = changed_at m p f (λ _. true) mem found mf at_p in
      let changed_to = changed_at m p f (λ t. t === c) mem found mf at_p in
      let content : has_file f.path c target.files ≡ (f.content === c) =
        any_at (λ (g : DefinitionFile). g.path) (λ g. g.content === c) target.files whole f mf in
      let content_at : has_file p c target.files ≡ (f.content === c) =
        subst (λ q. has_file q c target.files ≡ (f.content === c)) at_p content in
      let read : is_some (content_by_id m.id) ≡ true = ground arith in
      rw kept
        (rw changed (rw changed_to (rw content_at (content_after f (content_by_id m.id) c read))))

  kept_at :
      (m : CloudSpecFileMeta) (p c : Text)
      → Memᴰ m cloud
      → lookup keyed_cloud p ≡ some m
      → keeps nfc content_by_id plan m c ≡ has_file p c target.files
  kept_at m p c mem found = elim (Bool-cases (has_path p target.files)) [
    | inl held ↦
        let (f, (mf, hit)) = any_member (λ (g : DefinitionFile). g.path === p) target.files held in
        let at_p : f.path ≡ p = ===→≡ f.path p hit in kept_by m p c f mem found mf at_p
    | inr gone ↦
        let at_p : nfc m.path ≡ p = (lookup-keyed-some nfc to_lower p cloud m found).1 in
        let deleted : any (λ i. i === m.id) plan.delete ≡ true =
          deleted_at m mem ∙ ap (λ q. not (has_path q target.files)) at_p ∙ ap not gone in
        let lacking : has_file p c target.files ≡ false =
          any-none (λ (f : DefinitionFile). (f.path === p) && (f.content === c)) target.files
            (λ f mf.
              rw (none_of_any (λ (g : DefinitionFile). g.path === p) target.files f gone mf)
                refl) in
        rw deleted (sym lacking)
  ]

  holds_after_lem :
      (p c : Text) → holds_after nfc content_by_id plan cloud p c ≡ has_file p c target.files
  holds_after_lem p c = elim (Option-cases (lookup keyed_cloud p)) [
    | inl missing ↦
        let none_there : any
              (λ (m : CloudSpecFileMeta). (nfc m.path === p) && keeps nfc content_by_id plan m c)
              cloud
            ≡ false =
          any-none
            (λ (m : CloudSpecFileMeta). (nfc m.path === p) && keeps nfc content_by_id plan m c)
            cloud (λ m mem. rw (lookup-keyed-none nfc to_lower p cloud m missing mem) refl) in
        let created = created_at p c in ground arith
    | inr (m, found) ↦
        let (mem, at_p) = lookup-keyed-some nfc to_lower p cloud m found in
        let one_there : any
              (λ (y : CloudSpecFileMeta). (nfc y.path === p) && keeps nfc content_by_id plan y c)
              cloud
            ≡ keeps nfc content_by_id plan m c =
          subst
            (λ q.
              any
                (λ (y : CloudSpecFileMeta). (nfc y.path === q) && keeps nfc content_by_id plan y c)
                cloud
              ≡ keeps nfc content_by_id plan m c)
            at_p
            (any_at (λ (y : CloudSpecFileMeta). nfc y.path) (λ y. keeps nfc content_by_id plan y c)
              cloud made.paths m mem) in
        let created = created_at p c in let kept = kept_at m p c mem found in ground arith
  ]

module _ (nfc to_lower : Text → Text) (content_by_id : Text → Option Text) where
  -- Carrying out a plan that planning returned makes the cloud's files those of the target: for every
  -- path and content, a file of the cloud has them afterwards exactly if a file of the target bundle
  -- has. The identifiers of the cloud's files are distinct, and the target is a bundle.
  pub plan_spec_file_reconcile-holds_after :
      (cloud : List CloudSpecFileMeta) (target : DefinitionBundle) (plan : SpecFileReconcilePlan)
      → AreDistinct (ids_of cloud)
      → IsBundle nfc to_lower target
      → plan_spec_file_reconcile nfc to_lower content_by_id cloud target ≡ ok plan
      → (p c : Text) → holds_after nfc content_by_id plan cloud p c ≡ has_file p c target.files
  plan_spec_file_reconcile-holds_after cloud target plan apart bundle h p c =
      holds_after_lem nfc to_lower content_by_id cloud apart target
        (AreDistinct-map (path_key nfc to_lower) (paths_of target.files) bundle.distinct) plan
        (plan_spec_file_reconcile-IsMade nfc to_lower content_by_id cloud target plan h) p c
