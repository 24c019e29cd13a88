-- ===== src/Postman/CreateReconciliation/Tests.antt =====
-- Adoption and ambiguity at concrete values.
use postman_bootstrap_action.Base.{
  true, false, none, List, [], ◌∷◌, Text, Text-discrete, codes, starts_with, includes, ◌≡◌, refl,
}
use postman_bootstrap_action.Postman.CreateReconciliation.{
  adopt_exact_match, filter_exact_name, ErrorObject, no_code, object, is_abort_like,
  is_transient_message, is_ambiguous_transport_error, stands_alone,
}
use postman_bootstrap_action.Postman.CreateReconciliation.Laws.{
  IsExact, adopt_exact_match-filter_exact_name,
}

abbrev names : List Text
names = codes "a" ∷ codes "b" ∷ codes "a" ∷ []

adopt_exact_match-filter_exact_name_example :
    IsExact
      (λ t. t)
      (codes "b")
      names
      (adopt_exact_match (filter_exact_name (λ t. t) names (codes "b")))
adopt_exact_match-filter_exact_name_example =
    adopt_exact_match-filter_exact_name (λ t. t) (codes "b") names

abbrev failed_with : Text → ErrorObject
failed_with t = record {
  is_type_error = false;
  is_dom_exception = false;
  name = none;
  code = no_code;
  status = none;
  message = t;
}

ambiguous_messages :
    (is_ambiguous_transport_error (λ t. t) (object (failed_with (codes "HTTP 503 (x)"))) ≡ true)
    × (is_ambiguous_transport_error (λ t. t) (object (failed_with (codes "code 15031"))) ≡ false)
    × (is_ambiguous_transport_error
          (λ t. t)
          (object (failed_with (codes "the operation was aborted")))
        ≡ true)
unfolding is_ambiguous_transport_error is_transient_message is_abort_like stands_alone starts_with
    includes Text-discrete
ambiguous_messages = (refl, refl, refl)
