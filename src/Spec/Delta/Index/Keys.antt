-- ===== src/Spec/Delta/Index/Keys.antt =====
-- The keys of the entities of a collection are distinct (src/lib/spec/collection-delta.ts,
-- indexCollection).
use postman_bootstrap_action.Base.{
  false, not, none, List, [], ◌∷◌, ◌++◌, map, Text, codes, ◌===◌, any, any-append, ◌≡◌, refl, sym,
  ap, subst, ◌∙◌, inl, inr, Bool-cases, Option-cases, arith,
}
use postman_bootstrap_action.Base.Finding.{AreDistinct, ===→≡, ≡→===}
use postman_bootstrap_action.Base.Json.{
  Json, Items, Fields, null, bool, num, str, arr, obj, nil, cons, end, field, get,
}
use postman_bootstrap_action.Spec.Delta.{
  IndexedEntity, EntityType, collection, http_request, entity_type_of, is_array,
}
use postman_bootstrap_action.Spec.Delta.Index.{
  Visited, fresh, mark_invalid, mark_ambiguous, push, Place, following, inside, enter_as, is_folder,
  enter, visit_others, visit_folders, visit_children, visit, count_folders, with_siblings,
  index_collection,
}

abbrev pub keys : List IndexedEntity → List Text
keys = map (λ (e : IndexedEntity). e.key)

===-flip : (s t : Text) → (s === t) ≡ false → (t === s) ≡ false
===-flip s t h = elim (Bool-cases (t === s)) [
  | inl same ↦ let back = ≡→=== {s = s} {t = t} (sym (===→≡ t s same)) in absurd (cc)
  | inr other ↦ other
]

AreDistinct-append :
    (ks : List Text) (k : Text)
    → any (λ j. j === k) ks ≡ false
    → AreDistinct ks
    → AreDistinct (ks ++ (k ∷ []))
AreDistinct-append [] k h d = (refl, tt)
AreDistinct-append (j ∷ ks) k h d =
    let apart : (k === j) ≡ false = ===-flip j k (ground arith) in
    let none_here : any (λ i. i === j) ks ≡ false = d.0 in
    (
      any-append (λ i. i === j) ks (k ∷ []) ∙ ground arith,
      AreDistinct-append ks k (ground arith) (d.1),
    )

keys-append :
    (es : List IndexedEntity) (e : IndexedEntity) → keys (es ++ (e ∷ [])) ≡ keys es ++ (e.key ∷ [])
keys-append [] e = refl
keys-append (f ∷ es) e = ap (λ z. f.key ∷ z) (keys-append es e)

-- What was seen are the keys of the entries, once each.
abbrev pub IsKeyed : Visited → Type 0
IsKeyed s = (s.seen ≡ keys s.entries) × AreDistinct s.seen

push-IsKeyed :
    (e : IndexedEntity) (s : Visited)
    → any (λ k. k === e.key) s.seen ≡ false
    → IsKeyed s
    → IsKeyed (push e s)
unfolding push
push-IsKeyed e s new (same, apart) = (
  ap (λ z. z ++ (e.key ∷ [])) same ∙ sym (keys-append s.entries e),
  AreDistinct-append s.seen e.key new apart,
)

abbrev Keeps : (Visited → Visited) → Type 0
Keeps go = (s : Visited) → IsKeyed s → IsKeyed (go s)

abbrev mark-IsKeyed : Keeps mark_invalid × Keeps mark_ambiguous
unfolding mark_invalid mark_ambiguous
mark-IsKeyed = ((λ s h. h), (λ s h. h))

grown-IsKeyed :
    (kind : EntityType) (children : Visited → Visited) (e : IndexedEntity)
    → Keeps children
    → (s : Visited) → any (λ k. k === e.key) s.seen ≡ false
    → IsKeyed s
    → IsKeyed (elim kind [ http_request ↦ push e s | collection ↦ children (push e s) ])
grown-IsKeyed http_request children e keeps s new h = push-IsKeyed e s new h
grown-IsKeyed collection children e keeps s new h = keeps (push e s) (push-IsKeyed e s new h)

enter_as-IsKeyed :
    (children : Place → Visited → Visited) (e : IndexedEntity) (semantic : Text)
    → ((p : Place) → Keeps (children p))
    → Keeps (enter_as children e semantic)
unfolding enter_as
enter_as-IsKeyed children e semantic keeps s h = elim (Bool-cases (any (λ k. k === e.key) s.seen)) [
  | inl old ↦ rw old (mark-IsKeyed.1 s h)
  | inr new ↦ rw new (
      grown-IsKeyed e.entity_type (children (inside e semantic)) e (keeps (inside e semantic)) s new
        h)
]

module _ (to_text : Json → Text) (to_upper : Text → Text) where
  enter-IsKeyed :
      (children : Place → Visited → Visited) (p : Place) (item : Fields)
      → ((q : Place) → Keeps (children q))
      → Keeps (enter to_text to_upper children p item)
  unfolding enter
  enter-IsKeyed children p item keeps s h = elim (Option-cases (entity_type_of item)) [
    | inl unknown ↦ rw (enter, unknown) (mark-IsKeyed.0 s h)
    | inr (kind, known) ↦ rw (enter, known) (enter_as-IsKeyed children _ _ keeps s h)
  ]

  visit_others-IsKeyed : (items : Items) (p : Place) → Keeps (visit_others to_text to_upper items p)
  unfolding visit_others
  visit_others-IsKeyed nil p s h = h
  visit_others-IsKeyed (cons (obj item) items) p s h = elim (Bool-cases (is_folder item)) [
    | inl folder ↦ rw (visit_others, folder) (visit_others-IsKeyed items p s h)
    | inr other ↦
        rw (visit_others, other)
          (visit_others-IsKeyed items (following p) (enter to_text to_upper (λ q t. t) p item s)
            (enter-IsKeyed (λ q t. t) p item (λ q t k. k) s h))
  ]
  visit_others-IsKeyed (cons null items) p s h =
      visit_others-IsKeyed items (following p) _ (mark-IsKeyed.0 s h)
  visit_others-IsKeyed (cons (bool b) items) p s h =
      visit_others-IsKeyed items (following p) _ (mark-IsKeyed.0 s h)
  visit_others-IsKeyed (cons (num z t) items) p s h =
      visit_others-IsKeyed items (following p) _ (mark-IsKeyed.0 s h)
  visit_others-IsKeyed (cons (str t) items) p s h =
      visit_others-IsKeyed items (following p) _ (mark-IsKeyed.0 s h)
  visit_others-IsKeyed (cons (arr xs) items) p s h =
      visit_others-IsKeyed items (following p) _ (mark-IsKeyed.0 s h)

  mutual
    unfolding visit_folders

    visit_folders-IsKeyed :
        (items : Items) (p : Place) → Keeps (visit_folders to_text to_upper items p)
    visit_folders-IsKeyed nil p s h = h
    visit_folders-IsKeyed (cons (obj item) items) p s h = elim (Bool-cases (is_folder item)) [
      | inl folder ↦
          rw (visit_folders, folder)
            (visit_folders-IsKeyed items (following p)
              (enter to_text to_upper (λ q t. visit_children to_text to_upper item q t) p item s)
              (enter-IsKeyed (λ q t. visit_children to_text to_upper item q t) p item
                (λ q t k. visit_children-IsKeyed item q t k) s h))
      | inr other ↦ rw (visit_folders, other) (visit_folders-IsKeyed items p s h)
    ]
    visit_folders-IsKeyed (cons null items) p s h = visit_folders-IsKeyed items p s h
    visit_folders-IsKeyed (cons (bool b) items) p s h = visit_folders-IsKeyed items p s h
    visit_folders-IsKeyed (cons (num z t) items) p s h = visit_folders-IsKeyed items p s h
    visit_folders-IsKeyed (cons (str t) items) p s h = visit_folders-IsKeyed items p s h
    visit_folders-IsKeyed (cons (arr xs) items) p s h = visit_folders-IsKeyed items p s h

    visit_children-IsKeyed :
        (fields : Fields) (p : Place) → Keeps (visit_children to_text to_upper fields p)
    visit_children-IsKeyed end p s h = h
    visit_children-IsKeyed (field k v fields) p s h = elim (Bool-cases (k === codes "item")) [
      | inl items ↦ rw (visit_children, items) (visit-IsKeyed v p s h)
      | inr other ↦ rw (visit_children, other) (visit_children-IsKeyed fields p s h)
    ]

    visit-IsKeyed : (v : Json) (p : Place) → Keeps (visit to_text to_upper v p)
    visit-IsKeyed (arr items) p s h =
        visit_others-IsKeyed items (record p { index = count_folders items })
          (visit_folders to_text to_upper items p s) (visit_folders-IsKeyed items p s h)
    visit-IsKeyed null p s h = h
    visit-IsKeyed (bool b) p s h = h
    visit-IsKeyed (num z t) p s h = h
    visit-IsKeyed (str t) p s h = h
    visit-IsKeyed (obj fs) p s h = h

  keys-with_siblings :
      (entries es : List IndexedEntity) → keys (map (with_siblings entries) es) ≡ keys es
  unfolding with_siblings
  keys-with_siblings entries [] = refl
  keys-with_siblings entries (e ∷ es) = ap (λ z. e.key ∷ z) (keys-with_siblings entries es)

  -- No two entities of an indexed collection have the same key, however its items are nested, and
  -- whatever ids and names they have: an item whose key was seen before gets no entry.
  pub index_collection-AreDistinct :
      (item : Fields) → AreDistinct (keys (index_collection to_text to_upper item).entries)
  unfolding index_collection fresh
  index_collection-AreDistinct item =
      let start : Visited = fresh (not (is_array (get item (codes "item")))) in
      let root : Place = record { index = 0; parent_key = none; parent_path = []; depth = 0 } in
      let (same, apart) = visit_children-IsKeyed item root start (refl, tt) in
      subst AreDistinct
        (same
          ∙ sym (
              keys-with_siblings (visit_children to_text to_upper item root start).entries
                (visit_children to_text to_upper item root start).entries))
        apart
