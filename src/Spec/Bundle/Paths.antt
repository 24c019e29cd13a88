-- ===== src/Spec/Bundle/Paths.antt =====
-- Paths within a bundle (src/lib/spec/definition-bundle.ts): what the checks of one path and of all
-- of them refuse.
use postman_bootstrap_action.Base.{
  false, ◌||◌, List, [], ◌∷◌, ◌++◌, map, Text, codes, ◌===◌, any, All, split_on, is_empty,
  if◌then◌else◌, ◌≡◌, refl, ap, subst, ◌∙◌, sym, arith, append-nil, append_assoc,
}
use postman_bootstrap_action.Base.Finding.{AreDistinct}
use postman_bootstrap_action.Base.Contract.{Result, ok, >>=-eq-ok}
use postman_bootstrap_action.Spec.Bundle.{
  is_dotted, case_fold_path_key, assert_valid_bundle_relative_path, add_key, collide_from,
  assert_no_path_collisions,
}

-- The folder above; the top is above itself.
abbrev pub parent : List Text → List Text
parent [] = []
parent (s ∷ []) = []
parent (s ∷ (s' ∷ ss)) = s ∷ parent (s' ∷ ss)

-- One segment of a POSIX path, resolved in a folder.
unfoldable pub step_into : List Text → Text → List Text
step_into folder s =
    if s === codes ".."
    then parent folder
    else if is_empty s || s === codes "."
    then folder
    else folder ++ s ∷ []

unfoldable pub descend : List Text → List Text → List Text
descend folder [] = folder
descend folder (s ∷ ss) = descend (step_into folder s) ss

step_into_plain :
    (folder : List Text) (s : Text) → is_dotted s ≡ false → step_into folder s ≡ folder ++ s ∷ []
unfolding step_into is_dotted
step_into_plain folder s h = ground arith

descend_plain :
    (folder ss : List Text) → any is_dotted ss ≡ false → descend folder ss ≡ folder ++ ss
unfolding descend
descend_plain folder [] h = sym (append-nil folder)
descend_plain folder (s ∷ ss) h =
    let here : is_dotted s ≡ false = ground arith in
    let rest : any is_dotted ss ≡ false = ground arith in
    rw (step_into_plain folder s here)
      (descend_plain (folder ++ s ∷ []) ss rest ∙ append_assoc folder (s ∷ []) ss)

module _ (nfc to_lower : Text → Text) where
  abbrev valid : Text → Result Text
  valid = assert_valid_bundle_relative_path nfc to_lower

  -- The key by which two paths of a bundle are compared.
  abbrev pub path_key : Text → Text
  path_key p = case_fold_path_key nfc to_lower (nfc p)

  abbrev pub path_keys : List Text → List Text
  path_keys = map path_key

  valid_plain : (raw p : Text) → valid raw ≡ ok p → any is_dotted (split_on b'/' p) ≡ false
  unfolding assert_valid_bundle_relative_path
  valid_plain raw p h = ground arith

  pub valid_nfc : (raw p : Text) → valid raw ≡ ok p → p ≡ nfc raw
  unfolding assert_valid_bundle_relative_path
  valid_nfc raw p h = ground arith

  -- A path that is accepted never leaves the folder it is resolved in: resolving its segments, `.` and
  -- `..` understood as a file system does, ends below the folder, at the segments themselves.
  pub descend-assert_valid_bundle_relative_path :
      (raw p : Text) (folder : List Text)
      → valid raw ≡ ok p
      → descend folder (split_on b'/' p) ≡ folder ++ split_on b'/' p
  descend-assert_valid_bundle_relative_path raw p folder h =
      descend_plain folder (split_on b'/' p) (valid_plain raw p h)

  -- Neither seen before nor twice.
  abbrev AreFresh : List Text → List Text → Type 0
  AreFresh seen ks = All (λ k. any (λ j. j === k) seen ≡ false) ks

  fresh_head :
      (k : Text) (seen ks : List Text) → AreFresh (k ∷ seen) ks → any (λ j. j === k) ks ≡ false
  fresh_head k seen [] h = refl
  fresh_head k seen (j ∷ js) h = ground (arith, fresh_head k seen js h.1)

  fresh_tail : (k : Text) (seen ks : List Text) → AreFresh (k ∷ seen) ks → AreFresh seen ks
  fresh_tail k seen [] h = tt
  fresh_tail k seen (j ∷ js) h = (ground arith, fresh_tail k seen js h.1)

  add_key_ok :
      (n : Text) (seen : List Text) (next : List Text → Result (Unit {0}))
      → add_key nfc to_lower n seen next ≡ ok tt
      → (any (λ j. j === case_fold_path_key nfc to_lower n) seen ≡ false)
        × (next (case_fold_path_key nfc to_lower n ∷ seen) ≡ ok tt)
  unfolding add_key
  add_key_ok n seen next h = ground arith

  collide_from-AreFresh :
      (seen paths : List Text)
      → collide_from nfc to_lower seen paths ≡ ok tt
      → AreDistinct (path_keys paths) × AreFresh seen (path_keys paths)
  unfolding collide_from
  collide_from-AreFresh seen [] h = (tt, tt)
  collide_from-AreFresh seen (p ∷ ps) h =
      let (n, accepted, added) = >>=-eq-ok (valid p) _ h in
      let is_nfc : n ≡ nfc p = valid_nfc p n accepted in
      let (unseen, later) = add_key_ok n seen _ added in
      let same : case_fold_path_key nfc to_lower n ≡ path_key p =
        ap (case_fold_path_key nfc to_lower) is_nfc in
      let after : collide_from nfc to_lower (path_key p ∷ seen) ps ≡ ok tt =
        subst (λ k. collide_from nfc to_lower (k ∷ seen) ps ≡ ok tt) same later in
      let (distinct, fresh) = collide_from-AreFresh (path_key p ∷ seen) ps after in
      (
        (fresh_head (path_key p) seen (path_keys ps) fresh, distinct),
        (
          subst (λ k. any (λ j. j === k) seen ≡ false) same unseen,
          fresh_tail (path_key p) seen (path_keys ps) fresh,
        ),
      )

  -- When the paths pass the test for collisions, no two of them have the same key: they still differ
  -- after Unicode normalisation and folding to lower case.
  pub assert_no_path_collisions-AreDistinct :
      (paths : List Text)
      → assert_no_path_collisions nfc to_lower paths ≡ ok tt
      → AreDistinct (path_keys paths)
  unfolding assert_no_path_collisions
  assert_no_path_collisions-AreDistinct paths h = (collide_from-AreFresh [] paths h).0
