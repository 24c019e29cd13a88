-- ===== src/Postman/PmakDiagnostics.antt =====
-- src/lib/postman/pmak-diagnostics.ts: what GET /me says of a Postman API key. A payload is left out.
use postman_bootstrap_action.Base.{
  ℕ, Bool, true, false, not, ◌&&◌, ◌||◌, Option, none, some, List, [], ◌∷◌, ◌++◌, Text, codes, ◌==◌,
  ltb, leb, is_empty, is_space, trim, replace_all, if◌then◌else◌,
}
use postman_bootstrap_action.Base.Json.{Json, null, obj, str, Fields, get, get_field}

pub data PmakDiagnosticKind : Type 0 where
  personal service_account invalid inconclusive : PmakDiagnosticKind

pub record PmakDiagnosticResult : Type 0 where
  pub kind : PmakDiagnosticKind
  pub status : Option ℕ

pub data Mode : Type 0 where
  diagnostic preflight : Mode

-- An answer of the network. Its body is `none` where reading it fails.
pub record Response : Type 0 where
  pub status : ℕ
  pub body : Option Text

-- `response.ok`
unfoldable pub is_ok : Response → Bool
is_ok response = leb 200 response.status && ltb response.status 300

unfoldable pub is_rejection : ℕ → Bool
is_rejection status = status == 401 || status == 403

unfoldable pub mask_secrets : Text → List (Option Text) → Text
mask_secrets value [] = value
mask_secrets value (none ∷ secrets) = mask_secrets value secrets
mask_secrets value (some secret ∷ secrets) =
    mask_secrets (if is_empty secret then value else replace_all secret (codes "***") value) secrets

abbrev is_control : ℕ → Bool
is_control c = leb c 0x1f || (leb 0x7f c && leb c 0x9f)

unfoldable pub blank_controls : Text → Text
blank_controls [] = []
blank_controls (c ∷ t) = (if is_control c then b' ' else c) ∷ blank_controls t

-- A run of white space becomes one space. `inside` says whether the unit before was white space.
unfoldable pub collapse_spaces : (inside : Bool) → Text → Text
collapse_spaces inside [] = []
collapse_spaces inside (c ∷ t) =
    let rest = collapse_spaces (is_space c) t in
    if not (is_space c) then c ∷ rest else if inside then rest else b' ' ∷ rest

unfoldable pub mask_pmak_diagnostic : Text → List (Option Text) → Text
mask_pmak_diagnostic message secrets =
    trim (collapse_spaces false (blank_controls (mask_secrets message secrets)))

unfoldable pub format_rejected_mint : Text → PmakDiagnosticKind → Text
format_rejected_mint original personal =
    original ++ codes " Personal API key detected, cannot mint a service-account access token."
format_rejected_mint original service_account =
    original
    ++ codes
        " postman-api-key authenticates (GET /me OK) but was rejected by POST /service-account-tokens and lacks permission to mint access tokens."
format_rejected_mint original invalid =
    original ++ codes " postman-api-key is invalid, disabled, or expired."
format_rejected_mint original inconclusive = original

-- The value is a string that is not empty.
unfoldable pub names_someone : Option Json → Bool
names_someone (some (str t)) = not (is_empty t)
names_someone _ = false

-- The field is there, and is null or the empty string.
unfoldable pub is_blank : Option Json → Bool
is_blank (some null) = true
is_blank (some (str t)) = is_empty t
is_blank _ = false

unfoldable pub result_of : PmakDiagnosticKind → PmakDiagnosticResult
result_of kind = record { kind = kind; status = none }

-- No user is named: a service account before a mint, and no diagnosis behind one.
unfoldable pub unnamed : Mode → PmakDiagnosticResult
unnamed preflight = result_of service_account
unnamed diagnostic = result_of inconclusive

unfoldable pub user_identity : Mode → Fields → PmakDiagnosticResult
user_identity mode user =
    if names_someone (get user (codes "username")) || names_someone (get user (codes "email"))
    then result_of personal
    else if is_blank (get user (codes "username")) && is_blank (get user (codes "email"))
    then result_of service_account
    else unnamed mode

-- The answer's JSON, `none` where it is none.
unfoldable pub payload_identity : Mode → Option Json → PmakDiagnosticResult
payload_identity mode none = result_of inconclusive
payload_identity mode (some null) = result_of inconclusive
payload_identity mode (some parsed) = elim (get_field parsed (codes "user")) [
  | some (obj user) ↦ user_identity mode user
  | _ ↦ unnamed mode
]

-- `JSON.parse`, which may throw.
module _ (parse_json : Text → Option Json) where
  unfoldable pub read_json : Option Text → Option Json
  read_json none = none
  read_json (some body) = parse_json body

  -- What GET /me comes to; `none` where the request fails.
  unfoldable pub identity_of : Mode → Option Response → PmakDiagnosticResult
  identity_of mode none = result_of inconclusive
  identity_of mode (some response) =
      if is_rejection response.status
      then record { kind = invalid; status = some response.status }
      else if not (is_ok response)
      then record { kind = inconclusive; status = some response.status }
      else payload_identity mode (read_json response.body)
