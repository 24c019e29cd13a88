-- ===== src/Spec/Reconcile/Plan/Parts.antt =====
-- The three lists of a plan (src/lib/postman/spec-file-reconcile.ts), by what is in them.
use postman_bootstrap_action.Base.{
  Bool, false, not, ◌&&◌, ◌||◌, Option, none, some, is_some, List, [], ◌∷◌, ◌++◌, map, Text, ◌===◌,
  any, any-append, ◌≡◌, refl, sym, ap, ap₂, subst, ◌∙◌, inl, inr, arith, Option-cases,
}
use mathlib.Core.List.{Memᴰ}
use postman_bootstrap_action.Base.Contract.{ok, >>=-eq-ok}
use postman_bootstrap_action.Spec.Bundle.{DefinitionFile, assert_valid_bundle_relative_path}
use postman_bootstrap_action.Spec.Bundle.Paths.{valid_nfc}
use postman_bootstrap_action.Spec.Reconcile.{CloudSpecFileMeta, CreateEntry, UpdateEntry}
use postman_bootstrap_action.Spec.Reconcile.Plan.{
  CloudByPath, Upserts, lookup, upsert, upsert_new, upsert_existing, upserts, cloud_by_path, stale,
  stale_one,
}

abbrev pub differs : DefinitionFile → Option Text → Bool
differs f none = false
differs f (some c) = not (c === f.content)

module _ (content_by_id : Text → Option Text) (R : Text → Text → Bool) where
  -- Whether the round of the file creates, or updates, an entry with the property.
  abbrev pub creates_with : CloudByPath → DefinitionFile → Bool
  creates_with by_path f = elim (lookup by_path f.path) [
    | none ↦ R f.path f.content
    | some m ↦ false
  ]

  abbrev pub updates_with : CloudByPath → DefinitionFile → Bool
  updates_with by_path f = elim (lookup by_path f.path) [
    | none ↦ false
    | some m ↦ differs f (content_by_id m.id) && R m.id f.content
  ]

  abbrev entry_with : CreateEntry → Bool
  entry_with e = R e.path e.content

  abbrev change_with : UpdateEntry → Bool
  change_with u = R u.id u.content

  upsert_with :
      (by_path : CloudByPath) (f : DefinitionFile) (one : Upserts)
      → upsert content_by_id by_path f ≡ ok one
      → (any entry_with one.0 ≡ creates_with by_path f)
        × (any change_with one.1 ≡ updates_with by_path f)
  unfolding upsert upsert_new upsert_existing
  upsert_with by_path f one h = ground arith

  pub upserts_with :
      (by_path : CloudByPath) (fs : List DefinitionFile) (ups : Upserts)
      → upserts content_by_id by_path fs ≡ ok ups
      → (any entry_with ups.0 ≡ any (creates_with by_path) fs)
        × (any change_with ups.1 ≡ any (updates_with by_path) fs)
  unfolding upserts
  upserts_with by_path [] ups h = ground arith
  upserts_with by_path (f ∷ fs) ups h =
      let (one, first, h1) = >>=-eq-ok (upsert content_by_id by_path f) _ h in
      let (rest, others, h2) = >>=-eq-ok (upserts content_by_id by_path fs) _ h1 in
      let same : (one.0 ++ rest.0, one.1 ++ rest.1) ≡ ups = cc in
      let (created, updated) = upsert_with by_path f one first in
      let (creating, updating) = upserts_with by_path fs rest others in
      (
        ap (λ (u : Upserts). any entry_with u.0) (sym same)
            ∙ any-append entry_with one.0 rest.0
            ∙ ap₂ ◌||◌ created creating,
        ap (λ (u : Upserts). any change_with u.1) (sym same)
            ∙ any-append change_with one.1 rest.1
            ∙ ap₂ ◌||◌ updated updating,
      )

module _ (content_by_id : Text → Option Text) where
  -- A file of the target that is in the cloud and whose content there is not known.
  abbrev pub is_unread : CloudByPath → DefinitionFile → Bool
  is_unread by_path f = elim (lookup by_path f.path) [
    | none ↦ false
    | some m ↦ not (is_some (content_by_id m.id))
  ]

  upsert-is_unread :
      (by_path : CloudByPath) (f : DefinitionFile) (one : Upserts)
      → upsert content_by_id by_path f ≡ ok one
      → is_unread by_path f ≡ false
  unfolding upsert upsert_existing
  upsert-is_unread by_path f one h = ground arith

  pub upserts-is_unread :
      (by_path : CloudByPath) (fs : List DefinitionFile) (ups : Upserts)
      → upserts content_by_id by_path fs ≡ ok ups
      → any (is_unread by_path) fs ≡ false
  unfolding upserts
  upserts-is_unread by_path [] ups h = refl
  upserts-is_unread by_path (f ∷ fs) ups h =
      let (one, first, h1) = >>=-eq-ok (upsert content_by_id by_path f) _ h in
      let (rest, others, h2) = >>=-eq-ok (upserts content_by_id by_path fs) _ h1 in
      rw (upsert-is_unread by_path f one first) (upserts-is_unread by_path fs rest others)

module _ (nfc to_lower : Text → Text) where
  abbrev pub keyed : List CloudSpecFileMeta → CloudByPath
  keyed = map (λ (m : CloudSpecFileMeta). (nfc m.path, m))

  pub cloud_by_path-keyed :
      (cloud : List CloudSpecFileMeta) (by_path : CloudByPath)
      → cloud_by_path nfc to_lower cloud ≡ ok by_path
      → by_path ≡ keyed cloud
  unfolding cloud_by_path
  cloud_by_path-keyed [] by_path h = ground arith
  cloud_by_path-keyed (m ∷ ms) by_path h =
      let (p, valid, h1) = >>=-eq-ok (assert_valid_bundle_relative_path nfc to_lower m.path) _ h in
      let (rest, others, h2) = >>=-eq-ok (cloud_by_path nfc to_lower ms) _ h1 in
      let normal : p ≡ nfc m.path = valid_nfc nfc to_lower m.path p valid in
      let tail : rest ≡ keyed ms = cloud_by_path-keyed ms rest others in
      let same : (p, m) ∷ rest ≡ by_path = cc in sym same ∙ ap₂ (λ q r. (q, m) ∷ r) normal tail

  pub lookup-keyed-none :
      (p : Text) (cloud : List CloudSpecFileMeta) (m : CloudSpecFileMeta)
      → lookup (keyed cloud) p ≡ none
      → Memᴰ m cloud
      → (nfc m.path === p) ≡ false
  unfolding lookup
  lookup-keyed-none p [] m h mem = elim mem [ ]
  lookup-keyed-none p (k ∷ ks) m h (Memᴰ.head e) =
      subst (λ z. (nfc z.path === p) ≡ false) (sym e) (ground arith)
  lookup-keyed-none p (k ∷ ks) m h (Memᴰ.tail mem) = lookup-keyed-none p ks m (ground arith) mem

  pub lookup-keyed-some :
      (p : Text) (cloud : List CloudSpecFileMeta) (m : CloudSpecFileMeta)
      → lookup (keyed cloud) p ≡ some m
      → Memᴰ m cloud × (nfc m.path ≡ p)
  unfolding lookup
  lookup-keyed-some p [] m h = absurd (ground arith)
  lookup-keyed-some p (k ∷ ks) m h = elim (Option-cases (lookup (keyed ks) p)) [
    | inl missing ↦
        let here : m ≡ k = ground arith in
        let at_p : nfc k.path ≡ p = ground arith in
        (Memᴰ.head here, ap (λ z. nfc z.path) here ∙ at_p)
    | inr (n, found) ↦
        let same : n ≡ m = ground arith in
        let (mem, at_p) = lookup-keyed-some p ks n found in
        (Memᴰ.tail (subst (λ z. Memᴰ z ks) same mem), subst (λ z. nfc z.path ≡ p) same at_p)
  ]

  module _ (in_target : Text → Bool) (R : Text → Bool) where
    abbrev pub stale_with : CloudSpecFileMeta → Bool
    stale_with m = not (in_target (nfc m.path)) && R m.id

    stale_one_lem :
        (m : CloudSpecFileMeta) (p : Text) (one : List Text)
        → stale_one nfc to_lower in_target m p ≡ ok one
        → any R one ≡ (not (in_target p) && R m.id)
    unfolding stale_one
    stale_one_lem m p one h = ground arith

    pub stale_lem :
        (cloud : List CloudSpecFileMeta) (gone : List Text)
        → stale nfc to_lower in_target cloud ≡ ok gone
        → any R gone ≡ any stale_with cloud
    unfolding stale
    stale_lem [] gone h = ground arith
    stale_lem (m ∷ ms) gone h =
        let (p, valid, h1) =
          >>=-eq-ok (assert_valid_bundle_relative_path nfc to_lower m.path) _ h in
        let (one, here, h2) = >>=-eq-ok (stale_one nfc to_lower in_target m p) _ h1 in
        let (rest, others, h3) = >>=-eq-ok (stale nfc to_lower in_target ms) _ h2 in
        let normal : p ≡ nfc m.path = valid_nfc nfc to_lower m.path p valid in
        let first : any R one ≡ stale_with m =
          subst (λ q. any R one ≡ (not (in_target q) && R m.id)) normal
            (stale_one_lem m p one here) in
        let same : one ++ rest ≡ gone = cc in
        ap (any R) (sym same) ∙ any-append R one rest ∙ ap₂ ◌||◌ first (stale_lem ms rest others)
