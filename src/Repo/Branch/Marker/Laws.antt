-- ===== src/Repo/Branch/Marker/Laws.antt =====
-- Printing a marker into a description and reading it back.
use postman_bootstrap_action.Base.{
  Bool, true, false, ◌&&◌, ◌||◌, Option, none, some, [], ◌∷◌, ◌++◌, Text, codes, all, starts_with,
  ◌≡◌, refl, ap, sym, ◌∙◌, append_assoc, Bool-cases, inl, inr,
}
use postman_bootstrap_action.Base.Json.{Json, Fields, obj, end, field, str}
use postman_bootstrap_action.Base.Json.Print.{
  escape, escape_from, quote, is_high, is_low, starts_low, stringify, join_fields,
}
use postman_bootstrap_action.Repo.Branch.Marker.{
  marker_key, render_asset_marker, find_from, balanced, owned, parse_asset_marker,
}
use postman_bootstrap_action.Repo.Branch.Marker.Scan.{
  is_plain, before, Passes, Passes-append, Passes-plain, Passes-join_fields, braceless_fields,
  quote_plain, escape_from_plain, balanced_open, balanced_last,
}

-- The braces of an object with a body that is passed over are found, whatever follows.
balanced_object :
    (t post : Text) → Passes t → balanced 0 (b'{' ∷ t ++ b'}' ∷ post) ≡ some (b'{' ∷ t ++ b'}' ∷ [])
balanced_object t post h =
    balanced_open 0 (t ++ b'}' ∷ post)
    ∙ ap (before (b'{' ∷ [])) (h 0 (b'}' ∷ post) ∙ ap (before t) (balanced_last post))

find_from_brace :
    (marker : Fields) (post : Text)
    → find_from (codes "{") (render_asset_marker marker ++ post)
      ≡ some (stringify (obj marker) ++ post)
unfolding find_from starts_with render_asset_marker stringify
find_from_brace marker post = refl

module _ (json_parse : Text → Option Json) where
  -- A description that ends in some text, a printed marker and some more text, with no earlier
  -- occurrence of the key, is read back as the marker, if no string in it holds a brace, `JSON.parse`
  -- undoes `JSON.stringify` on it, and it names a repository and a role.
  pub parse-render_asset_marker :
      (marker : Fields) (pre post : Text)
      → find_from marker_key (pre ++ render_asset_marker marker ++ post)
        ≡ some (render_asset_marker marker ++ post)
      → braceless_fields marker ≡ true
      → json_parse (stringify (obj marker)) ≡ some (obj marker)
      → owned (obj marker) ≡ some (obj marker)
      → parse_asset_marker json_parse (some (pre ++ render_asset_marker marker ++ post))
        ≡ some (obj marker)
  unfolding parse_asset_marker stringify
  parse-render_asset_marker marker pre post first plain parses named = rw first (
      rw (find_from_brace marker post) (
        rw append_assoc (
          rw (balanced_object (join_fields marker) post (Passes-join_fields marker plain))
            (rw parses named))))

find_from_start :
    (marker : Fields)
    → find_from marker_key (render_asset_marker marker) ≡ some (render_asset_marker marker)
unfolding find_from starts_with render_asset_marker
find_from_start marker = refl

find_from_brace_start :
    (marker : Fields)
    → find_from (codes "{") (render_asset_marker marker) ≡ some (stringify (obj marker))
unfolding find_from starts_with render_asset_marker stringify
find_from_brace_start marker = refl

starts_low-append : (u v : Text) → starts_low (u ++ b'}' ∷ v) ≡ starts_low u
starts_low-append [] v = refl
starts_low-append (c ∷ u) v = refl

escape_from-append :
    (paired : Bool) (u v : Text)
    → escape_from paired (u ++ b'}' ∷ v) ≡ escape_from paired u ++ b'}' ∷ escape_from false v
unfolding escape_from escape
escape_from-append paired [] v = refl
escape_from-append paired (c ∷ u) v = rw (starts_low-append u v) (
    rw (escape_from-append (is_high c && starts_low u) u v)
      (elim (Bool-cases ((is_high c && starts_low u) || (is_low c && paired))) [
        | inl kept ↦ rw kept
        | inr escaped ↦ rw escaped (sym (append_assoc (escape c) _ _))
      ]))

-- What the braces enclose where the branch name, the second field, holds a closing brace behind `u`.
abbrev pub cut_fields : Text → Text → Text
cut_fields repo u =
    (quote (codes "repo") ++ b':' ∷ quote repo)
    ++ b',' ∷ (quote (codes "rawBranch") ++ b':' ∷ b'"' ∷ escape_from false u)

abbrev pub branch_marker : Text → Text → Fields → Fields
branch_marker repo branch rest =
    field (codes "repo") (str repo) (field (codes "rawBranch") (str branch) rest)

quote_cut :
    (u v : Text)
    → quote (u ++ b'}' ∷ v)
      ≡ b'"' ∷ (escape_from false u ++ b'}' ∷ (escape_from false v ++ b'"' ∷ []))
unfolding quote
quote_cut u v = rw (escape_from-append false u v) (simp append_assoc)

join_fields_cut :
    (repo u v : Text) (rest : Fields)
    → (x : Text) × (join_fields (branch_marker repo (u ++ b'}' ∷ v) rest)
        ≡ cut_fields repo u ++ b'}' ∷ x)
unfolding stringify
join_fields_cut repo u v end = (escape_from false v ++ b'"' ∷ [], simp (quote_cut, append_assoc))
join_fields_cut repo u v (field k w rest) = (
  escape_from false v ++ b'"' ∷ b',' ∷ join_fields (field k w rest),
  simp (quote_cut, append_assoc),
)

Passes-cut_fields :
    (repo u : Text) → all is_plain repo ≡ true → all is_plain u ≡ true → Passes (cut_fields repo u)
unfolding is_plain
Passes-cut_fields repo u h k =
    Passes-append (quote (codes "repo") ++ b':' ∷ quote repo) _
      (Passes-append (quote (codes "repo")) _ (Passes-plain _ (quote_plain (codes "repo") refl)) (
        Passes-append (b':' ∷ []) _ (Passes-plain (b':' ∷ []) refl)
          (Passes-plain _ (quote_plain repo h))))
      (Passes-append (b',' ∷ []) _ (Passes-plain (b',' ∷ []) refl) (
        Passes-append (quote (codes "rawBranch")) _
          (Passes-plain _ (quote_plain (codes "rawBranch") refl))
          (Passes-append (b':' ∷ b'"' ∷ []) _ (Passes-plain (b':' ∷ b'"' ∷ []) refl)
            (Passes-plain _ (escape_from_plain false u k)))))

module _ (json_parse : Text → Option Json) where
  -- A marker whose branch name holds a closing brace, behind text with no brace, is lost: reading it
  -- back gives nothing, although it was printed, if `JSON.parse` refuses the object that is cut off
  -- inside the name.
  pub parse-render_asset_marker_brace :
      (repo u v : Text) (rest : Fields)
      → all is_plain repo ≡ true
      → all is_plain u ≡ true
      → json_parse (b'{' ∷ cut_fields repo u ++ b'}' ∷ []) ≡ none
      → parse_asset_marker json_parse
          (some (render_asset_marker (branch_marker repo (u ++ b'}' ∷ v) rest)))
        ≡ none
  unfolding parse_asset_marker stringify
  parse-render_asset_marker_brace repo u v rest h k refused =
      let marker = branch_marker repo (u ++ b'}' ∷ v) rest in
      let (x, shape) = join_fields_cut repo u v rest in
      let scanned : balanced 0 (stringify (obj marker))
          ≡ some (b'{' ∷ cut_fields repo u ++ b'}' ∷ []) =
        ap (λ t. balanced 0 (b'{' ∷ (t ++ b'}' ∷ []))) shape
        ∙ ap (λ t. balanced 0 (b'{' ∷ t)) (append_assoc (cut_fields repo u) (b'}' ∷ x) (b'}' ∷ []))
        ∙ balanced_object (cut_fields repo u) (x ++ b'}' ∷ []) (Passes-cut_fields repo u h k) in
      rw (find_from_start marker) (rw (find_from_brace_start marker) (rw scanned (rw refused refl)))
