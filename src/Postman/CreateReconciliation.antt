-- ===== src/Postman/CreateReconciliation.antt =====
-- src/lib/postman/create-reconciliation.ts: which of the matches of an identity is adopted after a
-- creation whose outcome is not known, and of which failures it is not known.
pub mod Laws
mod Tests
use postman_bootstrap_action.Base.{
  ℕ, Bool, true, false, not, ◌&&◌, ◌||◌, Option, none, some, List, [], ◌∷◌, Text, codes, ◌===◌,
  ◌==◌, leb, is_digit, starts_with, includes, any, length, if◌then◌else◌,
}

-- Nothing is adopted, or one match is, or the error names how many there are.
pub data Adoption {ℓ} (A : Type ℓ) : Type ℓ where
  nothing : Adoption A
  adopted : A → Adoption A
  ambiguous_create_match : ℕ → Adoption A

unfoldable pub adopt_exact_match {ℓ} : {A : Type ℓ} → List A → Adoption A
adopt_exact_match [] = nothing
adopt_exact_match (m ∷ []) = adopted m
adopt_exact_match (m ∷ (n ∷ ms)) = ambiguous_create_match (length (m ∷ n ∷ ms))

unfoldable pub filter_exact_name {ℓ} : {A : Type ℓ} → (A → Text) → List A → Text → List A
filter_exact_name name_of [] name = []
filter_exact_name name_of (e ∷ es) name =
    let rest = filter_exact_name name_of es name in if name_of e === name then e ∷ rest else rest

-- `error.code`, where it is a string or a number.
pub data ErrorCode : Type 0 where
  no_code : ErrorCode
  text_code : Text → ErrorCode
  number_code : ℕ → ErrorCode

-- What is read of an error that is an object. A status is one that is a number, and the message is
-- that of an `Error`, or `String(error.message ?? '')`.
pub record ErrorObject : Type 0 where
  pub is_type_error : Bool
  pub is_dom_exception : Bool
  pub name : Option Text
  pub code : ErrorCode
  pub status : Option ℕ
  pub message : Text

-- Any value that was thrown.
pub data Thrown : Type 0 where
  falsy : Thrown
  primitive : Thrown
  object : ErrorObject → Thrown

abbrev is_named : Text → Option Text → Bool
is_named t none = false
is_named t (some n) = n === t

abbrev is_abort_code : ErrorCode → Bool
is_abort_code no_code = false
is_abort_code (text_code t) = t === codes "ABORT_ERR"
is_abort_code (number_code n) = n == 20

-- A digit, a letter of ASCII or `_`, as `\b` reads them. The text is in lower case.
abbrev is_word : ℕ → Bool
is_word c = is_digit c || (leb b'a' c && leb c b'z') || c == b'_'

abbrev begins_word : Text → Bool
begins_word [] = false
begins_word (c ∷ t) = is_word c

abbrev begins_number : Text → Bool
begins_number [] = false
begins_number (c ∷ t) = is_digit c

abbrev behind : Text → Text → Text
behind [] t = t
behind (c ∷ p) [] = []
behind (c ∷ p) (d ∷ t) = behind p t

-- One of the texts occurs with no unit of the kind before it and none behind it.
unfoldable pub stands_alone : (ℕ → Bool) → (Text → Bool) → List Text → Bool → Text → Bool
stands_alone is_unit begins words joined [] = false
stands_alone is_unit begins words joined (c ∷ t) =
    (not joined && any (λ w. starts_with w (c ∷ t) && not (begins (behind w (c ∷ t)))) words)
    || stands_alone is_unit begins words (is_unit c) t

abbrev abort_phrases : List Text
abort_phrases = codes "this operation was aborted" ∷ codes "the operation was aborted" ∷ []

abbrev transient_statuses : List Text
transient_statuses = codes "408" ∷ codes "429" ∷ codes "502" ∷ codes "503" ∷ codes "504" ∷ []

abbrev transient_words : List Text
transient_words =
    codes "esockettimedout"
    ∷ codes "etimedout"
    ∷ codes "econnreset"
    ∷ codes "timeout"
    ∷ codes "temporary"
    ∷ codes "temporarily"
    ∷ codes "upstream"
    ∷ []

unfoldable pub is_transient_status : ℕ → Bool
is_transient_status status = status == 408 || status == 429 || leb 500 status

-- Lower case, for the patterns that ignore case.
module _ (to_lower : Text → Text) where
  unfoldable pub is_abort_like : ErrorObject → Bool
  is_abort_like e =
      is_named (codes "AbortError") e.name
      || is_named (codes "TimeoutError") e.name
      || (e.is_dom_exception && is_named (codes "AbortError") e.name)
      || is_abort_code e.code
      || stands_alone is_word begins_word abort_phrases false (to_lower e.message)

  unfoldable pub is_abort_like_error : Thrown → Bool
  is_abort_like_error (object e) = is_abort_like e
  is_abort_like_error _ = false

  unfoldable pub is_transient_message : Text → Bool
  is_transient_message message =
      stands_alone is_digit begins_number transient_statuses false message
      || any (λ w. includes w (to_lower message)) transient_words

  abbrev by_status : Option ℕ → Text → Bool
  by_status (some status) message = is_transient_status status
  by_status none message = is_transient_message message

  unfoldable pub is_ambiguous_transport_error : Thrown → Bool
  is_ambiguous_transport_error falsy = false
  is_ambiguous_transport_error primitive = false
  is_ambiguous_transport_error (object e) =
      if e.is_type_error
      then true
      else if is_abort_like e
      then true
      else by_status e.status e.message
