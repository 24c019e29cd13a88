-- ===== src/Postman/Workspace/Laws.antt =====
-- What a selected workspace is (src/lib/postman/workspace-selection.ts, chooseCanonicalWorkspace).
use postman_bootstrap_action.Base.{
  ◌≤◌, Bool, true, false, not, ◌&&◌, ◌||◌, Option, none, some, List, [], ◌∷◌, Text, ◌===◌, is_empty,
  any, map, length, ◌≡◌, refl, sym, ap, subst, ◌∙◌, arith, inl, inr, Bool-cases, if-both,
}
use postman_bootstrap_action.Base.Finding.{AreDistinct, any_at, any_member}
use postman_bootstrap_action.Postman.Workspace.{
  WorkspaceCandidate, SelectionSource, CanonicalWorkspaceSelection, existing, create, manual_review,
  filter, insert_candidate, sort_candidates, is_linked, is_foreign, find_candidate, choose_found,
  choose_unlinked, choose_among, choose_canonical_workspace,
}

module _ (is_before : Text → Text → Bool) (normalize : Option Text → Text) where
  any-insert_candidate :
      (p : WorkspaceCandidate → Bool) (w : WorkspaceCandidate) (vs : List WorkspaceCandidate)
      → any p (insert_candidate is_before normalize w vs) ≡ (p w || any p vs)
  unfolding insert_candidate
  any-insert_candidate p w [] = refl
  any-insert_candidate p w (v ∷ vs) = ground (arith, any-insert_candidate p w vs)

  any-sort_candidates :
      (p : WorkspaceCandidate → Bool) (ws : List WorkspaceCandidate)
      → any p (sort_candidates is_before normalize ws) ≡ any p ws
  unfolding sort_candidates
  any-sort_candidates p [] = refl
  any-sort_candidates p (w ∷ ws) = ground (
    arith,
    any-insert_candidate p w (sort_candidates is_before normalize ws),
    any-sort_candidates p ws,
  )

  any-filter :
      (p q : WorkspaceCandidate → Bool) (ws : List WorkspaceCandidate)
      → any q (filter p ws) ≡ any (λ w. p w && q w) ws
  unfolding filter
  any-filter p q [] = refl
  any-filter p q (w ∷ ws) = ground (arith, any-filter p q ws)

  length-filter-insert_candidate :
      (p : WorkspaceCandidate → Bool) (w : WorkspaceCandidate) (vs : List WorkspaceCandidate)
      → length (filter p (insert_candidate is_before normalize w vs)) ≡ length (filter p (w ∷ vs))
  unfolding insert_candidate filter
  length-filter-insert_candidate p w [] = refl
  length-filter-insert_candidate p w (v ∷ vs) =
      ground (arith, length-filter-insert_candidate p w vs)

  length-filter-sort_candidates :
      (p : WorkspaceCandidate → Bool) (ws : List WorkspaceCandidate)
      → length (filter p (sort_candidates is_before normalize ws)) ≡ length (filter p ws)
  unfolding sort_candidates filter
  length-filter-sort_candidates p [] = refl
  length-filter-sort_candidates p (w ∷ ws) =
      length-filter-insert_candidate p w (sort_candidates is_before normalize ws)
      ∙ ground (arith, length-filter-sort_candidates p ws)

  -- What justifies a selection. One that exists is linked to no other repository; one is created only
  -- when none is linked to this repository; a review is asked for when two are or more.
  abbrev pub IsJustified : Text → List WorkspaceCandidate → CanonicalWorkspaceSelection → Type 0
  IsJustified repo ws (existing id source warned) =
      any (λ (c : WorkspaceCandidate). (c.id === id) && is_foreign is_before normalize repo c) ws
      ≡ false
  IsJustified repo ws create = any (is_linked is_before normalize repo) ws ≡ false
  IsJustified repo ws manual_review = 2 ≤ length (filter (is_linked is_before normalize repo) ws)

  abbrev linked : Text → WorkspaceCandidate → Bool
  linked repo c = is_linked is_before normalize repo c

  abbrev foreign : Text → WorkspaceCandidate → Bool
  foreign repo c = is_foreign is_before normalize repo c

  -- Whoever has the identifier of a candidate that is not foreign is not foreign.
  abbrev IsClear : Text → List WorkspaceCandidate → Type 0
  IsClear repo ws =
      (id : Text)
      → any (λ c. not (foreign repo c) && (c.id === id)) ws ≡ true
      → any (λ c. (c.id === id) && foreign repo c) ws ≡ false

  distinct-IsClear :
      (repo : Text) (ws : List WorkspaceCandidate)
      → AreDistinct (map (λ (c : WorkspaceCandidate). c.id) ws)
      → IsClear repo ws
  distinct-IsClear repo ws d id h =
      let (c, (mem, hit)) = any_member (λ c. not (foreign repo c) && (c.id === id)) ws h in
      let at_id : c.id ≡ id = ground arith in
      let clear : foreign repo c ≡ false = ground arith in
      subst (λ i. any (λ c'. (c'.id === i) && foreign repo c') ws ≡ false) at_id
        (any_at (λ (c' : WorkspaceCandidate). c'.id) (foreign repo) ws d c mem ∙ clear)

  sort_candidates-IsClear :
      (repo : Text) (ws : List WorkspaceCandidate)
      → IsClear repo ws
      → IsClear repo (sort_candidates is_before normalize ws)
  sort_candidates-IsClear repo ws clear id h =
      any-sort_candidates (λ c. (c.id === id) && foreign repo c) ws
      ∙ clear id (sym (any-sort_candidates (λ c. not (foreign repo c) && (c.id === id)) ws) ∙ h)

  -- A candidate that is linked to the repository is not foreign.
  linked_clear :
      (repo id : Text) (ws : List WorkspaceCandidate)
      → any (λ c. linked repo c && (c.id === id)) ws ≡ true
      → any (λ c. not (foreign repo c) && (c.id === id)) ws ≡ true
  unfolding is_linked is_foreign
  linked_clear repo id [] h = h
  linked_clear repo id (w ∷ ws) h = ground (arith, linked_clear repo id ws)

  find_candidate-none :
      (id : Text) (q : WorkspaceCandidate → Bool) (ws : List WorkspaceCandidate)
      → find_candidate is_before normalize id ws ≡ none
      → any (λ c. (c.id === id) && q c) ws ≡ false
  unfolding find_candidate
  find_candidate-none id q [] h = refl
  find_candidate-none id q (w ∷ ws) h = ground (arith, find_candidate-none id q ws)

  find_candidate-some :
      (id : Text) (q : WorkspaceCandidate → Bool) (ws : List WorkspaceCandidate)
      (w : WorkspaceCandidate)
      → find_candidate is_before normalize id ws ≡ some w
      → q w ≡ true
      → any (λ c. q c && (c.id === id)) ws ≡ true
  unfolding find_candidate
  find_candidate-some id q [] w h hq = absurd (ground arith)
  find_candidate-some id q (v ∷ vs) w h hq = elim (Bool-cases (v.id === id)) [
    | inl here ↦
        let at_v : v ≡ w = ground arith in let holds : q v ≡ true = ap q at_v ∙ hq in ground arith
    | inr elsewhere ↦ let later = find_candidate-some id q vs w (ground arith) hq in ground arith
  ]

  find_candidate_first :
      (w : WorkspaceCandidate) (ws : List WorkspaceCandidate)
      → find_candidate is_before normalize w.id (w ∷ ws) ≡ some w
  unfolding find_candidate
  find_candidate_first w ws = ground arith

  filter_none :
      (p : WorkspaceCandidate → Bool) (ws : List WorkspaceCandidate)
      → filter p ws ≡ []
      → any p ws ≡ false
  unfolding filter
  filter_none p [] h = refl
  filter_none p (w ∷ ws) h = ground (arith, filter_none p ws)

  linked_clear_of_id :
      (repo id : Text) (ws found : List WorkspaceCandidate)
      → IsClear repo ws
      → filter (linked repo) ws ≡ found
      → any (λ c. c.id === id) found ≡ true
      → any (λ c. (c.id === id) && foreign repo c) ws ≡ false
  linked_clear_of_id repo id ws found clear h there = clear id (
      linked_clear repo id ws (
        sym (any-filter (linked repo) (λ c. c.id === id) ws)
        ∙ ap (any (λ c. c.id === id)) h
        ∙ there))

  choose_found-IsJustified :
      (repo id : Text) (source : SelectionSource) (ws : List WorkspaceCandidate)
      → any (linked repo) ws ≡ false
      → IsClear repo ws
      → (found : Option WorkspaceCandidate) → find_candidate is_before normalize id ws ≡ found
      → IsJustified repo ws (choose_found is_before normalize repo id source found)
  unfolding choose_found
  choose_found-IsJustified repo id source ws none_linked clear none h =
      find_candidate-none id (foreign repo) ws h
  choose_found-IsJustified repo id source ws none_linked clear (some w) h =
      elim (Bool-cases (foreign repo w)) [
        | inl away ↦ rw away none_linked
        | inr ours ↦
            rw ours
              (clear id (find_candidate-some id (λ c. not (foreign repo c)) ws w h (ap not ours)))
      ]

  choose_unlinked-IsJustified :
      (repo repo_id : Text) (ws : List WorkspaceCandidate)
      → any (linked repo) ws ≡ false
      → IsClear repo ws
      → IsJustified repo ws (choose_unlinked is_before normalize repo repo_id ws)
  unfolding choose_unlinked
  choose_unlinked-IsJustified repo repo_id [] none_linked clear =
      if-both (IsJustified repo []) (is_empty repo_id) refl refl
  choose_unlinked-IsJustified repo repo_id (w ∷ ws) none_linked clear =
      if-both (IsJustified repo (w ∷ ws)) (is_empty repo_id)
        (choose_found-IsJustified repo w.id SelectionSource.name_match (w ∷ ws) none_linked clear
          (some w) (find_candidate_first w ws))
        (choose_found-IsJustified repo repo_id SelectionSource.repo_var (w ∷ ws) none_linked clear
          (find_candidate is_before normalize repo_id (w ∷ ws)) refl)

  choose_among-IsJustified :
      (repo repo_id : Text) (ws found : List WorkspaceCandidate)
      → filter (linked repo) ws ≡ found
      → IsClear repo ws
      → IsJustified repo ws (choose_among is_before normalize repo repo_id ws found)
  unfolding choose_among
  choose_among-IsJustified repo repo_id ws [] h clear =
      choose_unlinked-IsJustified repo repo_id ws (filter_none (linked repo) ws h) clear
  choose_among-IsJustified repo repo_id ws (w ∷ []) h clear =
      linked_clear_of_id repo w.id ws (w ∷ []) clear h (ground arith)
  choose_among-IsJustified repo repo_id ws (w ∷ (v ∷ vs)) h clear =
      elim (Bool-cases (not (is_empty repo_id) && any (λ c. c.id === repo_id) (w ∷ v ∷ vs))) [
        | inl kept ↦
            rw kept (linked_clear_of_id repo repo_id ws (w ∷ v ∷ vs) clear h (ground arith))
        | inr unclear ↦ rw unclear (subst (λ l. 2 ≤ length l) (sym h) (omega arith))
      ]

  IsJustified-sort_candidates :
      (repo : Text) (ws : List WorkspaceCandidate) (s : CanonicalWorkspaceSelection)
      → IsJustified repo (sort_candidates is_before normalize ws) s
      → IsJustified repo ws s
  IsJustified-sort_candidates repo ws (existing id source warned) h =
      sym (any-sort_candidates (λ c. (c.id === id) && foreign repo c) ws) ∙ h
  IsJustified-sort_candidates repo ws create h = sym (any-sort_candidates (linked repo) ws) ∙ h
  IsJustified-sort_candidates repo ws manual_review h =
      subst (λ n. 2 ≤ n) (length-filter-sort_candidates (linked repo) ws) h

  -- The selection is justified, whichever way the identifiers are ordered, when no two candidates have
  -- one identifier: a workspace that is selected is not linked to another repository, if it is among
  -- the candidates at all; a workspace is created only when no candidate is linked to the repository;
  -- and a review is asked for only when two candidates or more are linked to it.
  pub choose_canonical_workspace-IsJustified :
      (repo_workspace_id repo_url : Option Text) (matching : List WorkspaceCandidate)
      → AreDistinct (map (λ (c : WorkspaceCandidate). c.id) matching)
      → IsJustified
          (normalize repo_url)
          matching
          (choose_canonical_workspace is_before normalize repo_workspace_id repo_url matching)
  unfolding choose_canonical_workspace
  choose_canonical_workspace-IsJustified repo_workspace_id repo_url matching distinct =
      let repo = normalize repo_url in
      let sorted = sort_candidates is_before normalize matching in
      IsJustified-sort_candidates repo matching _ (
        choose_among-IsJustified repo _ sorted (filter (linked repo) sorted) refl
          (sort_candidates-IsClear repo matching (distinct-IsClear repo matching distinct)))
