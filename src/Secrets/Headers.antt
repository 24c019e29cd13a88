-- ===== src/Secrets/Headers.antt =====
-- src/lib/secrets.ts, sanitizeHeaders: headers as they may be logged.
use postman_bootstrap_action.Base.{
  Option, none, some, List, [], ◌∷◌, Text, codes, ◌===◌, All, ◌≡◌, refl, sym, subst, inl, inr,
  Bool-cases, if◌then◌else◌,
}
use postman_bootstrap_action.Base.Finding.{===→≡}
use postman_bootstrap_action.Base.Json.{Json}
use postman_bootstrap_action.Secrets.{redacted, has, normalize_secret_values, redact_secrets}
use postman_bootstrap_action.Secrets.Laws.{AreApart, AreAbsent, redact_secrets-AreAbsent}

abbrev pub sensitive_header_names : List Text
sensitive_header_names =
    codes "authorization"
    ∷ codes "cookie"
    ∷ codes "proxy-authorization"
    ∷ codes "set-cookie"
    ∷ codes "x-access-token"
    ∷ codes "x-api-key"
    ∷ []

-- `record[name] = value`
unfoldable pub put : Text → Text → List (Text × Text) → List (Text × Text)
put name value [] = (name, value) ∷ []
put name value ((n, v) ∷ rest) =
    let later = put name value rest in if n === name then (n, value) ∷ rest else (n, v) ∷ later

-- The entries of a bag of any kind, with texts as values, and `toLowerCase`.
module _ (to_lower : Text → Text) (secrets : Json) where
  unfoldable pub sanitized_value : Text → Text → Text
  sanitized_value name value =
      if has (to_lower name) sensitive_header_names
      then redacted
      else redact_secrets value secrets redacted

  unfoldable pub sanitize_entries : List (Text × Text) → List (Text × Text) → List (Text × Text)
  sanitize_entries sanitized [] = sanitized
  sanitize_entries sanitized ((name, value) ∷ rest) =
      sanitize_entries (put (to_lower name) (sanitized_value name value) sanitized) rest

  unfoldable pub sanitize_headers : Option (List (Text × Text)) → List (Text × Text)
  sanitize_headers none = []
  sanitize_headers (some entries) = sanitize_entries [] entries

  -- The value of a sensitive header is the replacement, and no secret is in any other.
  abbrev pub IsSanitized : Text × Text → Type 0
  IsSanitized (name, value) =
      if has name sensitive_header_names
      then value ≡ redacted
      else AreAbsent value (normalize_secret_values secrets)

  put-AreSanitized :
      (name value : Text) (sanitized : List (Text × Text))
      → IsSanitized (name, value)
      → All IsSanitized sanitized
      → All IsSanitized (put name value sanitized)
  unfolding put
  put-AreSanitized name value [] h all = (h, tt)
  put-AreSanitized name value ((n, v) ∷ rest) h (one, all) = elim (Bool-cases (n === name)) [
    | inl same ↦ rw same (subst (λ z. IsSanitized (z, value)) (sym (===→≡ n name same)) h, all)
    | inr other ↦ rw other (one, put-AreSanitized name value rest h all)
  ]

  sanitized_value-IsSanitized :
      (name value : Text)
      → AreApart redacted (normalize_secret_values secrets)
      → IsSanitized (to_lower name, sanitized_value name value)
  unfolding sanitized_value
  sanitized_value-IsSanitized name value apart =
      elim (Bool-cases (has (to_lower name) sensitive_header_names)) [
        | inl sensitive ↦ rw sensitive refl
        | inr other ↦ rw other (redact_secrets-AreAbsent value secrets redacted apart)
      ]

  sanitize_entries-AreSanitized :
      (sanitized entries : List (Text × Text))
      → AreApart redacted (normalize_secret_values secrets)
      → All IsSanitized sanitized
      → All IsSanitized (sanitize_entries sanitized entries)
  unfolding sanitize_entries
  sanitize_entries-AreSanitized sanitized [] apart all = all
  sanitize_entries-AreSanitized sanitized ((name, value) ∷ rest) apart all =
      sanitize_entries-AreSanitized (put (to_lower name) (sanitized_value name value) sanitized)
        rest apart
        (put-AreSanitized (to_lower name) (sanitized_value name value) sanitized
          (sanitized_value-IsSanitized name value apart) all)

  -- In the headers that are returned, the value of a sensitive header is the replacement alone, and
  -- no secret is in the value of any other. Given that the secrets are apart from the replacement.
  pub sanitize_headers-AreSanitized :
      (headers : Option (List (Text × Text)))
      → AreApart redacted (normalize_secret_values secrets)
      → All IsSanitized (sanitize_headers headers)
  unfolding sanitize_headers
  sanitize_headers-AreSanitized none apart = tt
  sanitize_headers-AreSanitized (some entries) apart =
      sanitize_entries-AreSanitized [] entries apart tt
