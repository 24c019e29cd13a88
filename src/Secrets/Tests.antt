-- ===== src/Secrets/Tests.antt =====
-- Redaction at concrete texts.
use postman_bootstrap_action.Base.{
  true, not, ◌||◌, some, List, [], ◌∷◌, Text, Text-discrete, codes, is_empty, trim, includes,
  starts_with, replace_all, replace_from, drop_while, drop_last_while, is_space, All, ◌≡◌, refl,
}
use postman_bootstrap_action.Base.Json.{Json, str, arr, cons, nil, null}
use postman_bootstrap_action.Secrets.{
  redacted, secret_values, has, distinct, insert_long, sort_long, normalize_secret_values,
  redact_each, redact_secrets, mask, add, add_all,
}
use postman_bootstrap_action.Secrets.Laws.{AreAbsent, redact_secrets-AreAbsent}
use postman_bootstrap_action.Secrets.Masker.{mask-add_all}
use postman_bootstrap_action.Secrets.Headers.{
  IsSanitized, sanitize_headers, sanitize_entries, sanitized_value, put,
  sanitize_headers-AreSanitized,
}

abbrev keys : Json
keys =
    arr
      (cons (str (codes " PMAK-1 ")) (cons null (cons (str (codes "PMAK-12")) (cons (str []) nil))))

redacted_text :
    redact_secrets (codes "key PMAK-12, old PMAK-1.") keys redacted
    ≡ codes "key [REDACTED], old [REDACTED]."
unfolding redact_secrets redact_each normalize_secret_values sort_long insert_long distinct has
    secret_values trim drop_while drop_last_while is_space replace_all replace_from starts_with
    Text-discrete
redacted_text = refl

redact_secrets-AreAbsent_example :
    AreAbsent
      (redact_secrets (codes "key PMAK-12, old PMAK-1.") keys redacted)
      (normalize_secret_values keys)
unfolding normalize_secret_values sort_long insert_long distinct has secret_values trim drop_while
    drop_last_while is_space Text-discrete
redact_secrets-AreAbsent_example =
    redact_secrets-AreAbsent (codes "key PMAK-12, old PMAK-1.") keys redacted (refl, (refl, tt))

mask-add_all_example :
    All
      (λ v.
        (is_empty (trim v)
          || not (
              includes (trim v) (
                mask redacted
                  (add_all (codes "PMAK-1" ∷ []) (codes " tok7 " ∷ []))
                  (codes "a tok7 b"))))
        ≡ true)
      (codes " tok7 " ∷ [])
unfolding normalize_secret_values sort_long insert_long distinct has secret_values trim drop_while
    drop_last_while is_space Text-discrete add_all add
mask-add_all_example =
    mask-add_all redacted (codes "a tok7 b") (codes "PMAK-1" ∷ []) (codes " tok7 " ∷ [])
      (refl, (refl, tt))

abbrev headers : List (Text × Text)
headers = (codes "cookie", codes "c") ∷ (codes "x-id", codes "PMAK-12") ∷ []

sanitized_headers :
    sanitize_headers (λ t. t) keys (some headers)
    ≡ ((codes "cookie", redacted) ∷ (codes "x-id", redacted) ∷ [])
unfolding sanitize_headers sanitize_entries sanitized_value put redact_secrets redact_each
    normalize_secret_values sort_long insert_long distinct has secret_values trim drop_while
    drop_last_while is_space replace_all replace_from starts_with Text-discrete
sanitized_headers = refl

sanitize_headers-AreSanitized_example :
    All (IsSanitized (λ t. t) keys) (sanitize_headers (λ t. t) keys (some headers))
unfolding normalize_secret_values sort_long insert_long distinct has secret_values trim drop_while
    drop_last_while is_space Text-discrete
sanitize_headers-AreSanitized_example =
    sanitize_headers-AreSanitized (λ t. t) keys (some headers) (refl, (refl, tt))
