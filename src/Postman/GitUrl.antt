-- ===== src/Postman/GitUrl.antt =====
-- src/lib/postman/git-url.ts: the canonical form of the URL of a git remote.
use postman_bootstrap_action.Base.{
  ℕ, Bool, ◌||◌, Option, none, some, List, [], ◌∷◌, ◌++◌, Text, codes, ◌==◌, is_empty, is_upper,
  ◌+◌, trim, cut, split_on, strip_prefix, drop_while, drop_last_while, reverse, map, any,
  if◌then◌else◌,
}

-- A URL that was parsed: its host and its path.
pub record ParsedUrl : Type 0 where
  pub hostname : Text
  pub pathname : Text

-- The case of ASCII letters, as a pattern with the flag `i` ignores it.
unfoldable pub ascii_lower : Text → Text
ascii_lower = map (λ c. if is_upper c then c + 32 else c)

abbrev is_slash : ℕ → Bool
is_slash c = c == b'/'

-- `replace(/\.git$/i, '')`
unfoldable pub drop_git : Text → Text
drop_git t = elim (strip_prefix (codes "tig.") (ascii_lower (reverse t))) [
  | none ↦ t
  | some rest ↦ reverse (dropped (reverse t))
]
  where
    dropped : Text → Text
    dropped (g ∷ (i ∷ (h ∷ (d ∷ rest)))) = rest
    dropped t = t

unfoldable pub drop_slashes : Text → Text
drop_slashes t = drop_last_while is_slash t

unfoldable pub nonempty_parts : List Text → List Text
nonempty_parts [] = []
nonempty_parts (p ∷ ps) = let rest = nonempty_parts ps in if is_empty p then rest else p ∷ rest

unfoldable pub path_parts : Text → List Text
path_parts pathname =
    nonempty_parts (split_on b'/' (drop_git (drop_slashes (drop_while is_slash pathname))))

abbrev is_line_end : ℕ → Bool
is_line_end c = c == 10 || c == 13 || c == 0x2028 || c == 0x2029

-- `/^git@([^:]+):(.+)$/i`: the host and the path behind the first colon.
unfoldable pub ssh_parts : Text → Option (Text × Text)
ssh_parts raw = elim (strip_prefix (codes "git@") (ascii_lower raw)) [
  | none ↦ none
  | some _ ↦ matched (cut b':' (behind raw))
]
  where
    behind : Text → Text
    behind (g ∷ (i ∷ (t ∷ (at ∷ rest)))) = rest
    behind t = t

    matched : Option (Text × Text) → Option (Text × Text)
    matched none = none
    matched (some (host, path)) =
        if is_empty host || is_empty path || any is_line_end path then none else some (host, path)

-- `new URL(raw)`, which may throw, and the lower case of a text are the runtime's.
module _ (to_lower : Text → Text) (parse_url : Text → Option ParsedUrl) where
  unfoldable pub plain_form : Text → Text
  plain_form raw = to_lower (drop_slashes (drop_git raw))

  abbrev two_parts : Text → ParsedUrl → List Text → Text
  two_parts raw url (owner ∷ (repo ∷ rest)) =
      codes "https://"
      ++ (to_lower url.hostname ++ (codes "/" ++ (to_lower owner ++ (codes "/" ++ to_lower repo))))
  two_parts raw url _ = plain_form raw

  unfoldable pub normalize_url : Text → Text
  normalize_url raw = elim (parse_url raw) [
    | none ↦ plain_form raw
    | some url ↦ two_parts raw url (path_parts url.pathname)
  ]

  abbrev https_form : Text → Option (Text × Text) → Text
  https_form raw none = raw
  https_form raw (some (host, path)) = codes "https://" ++ (host ++ (codes "/" ++ path))

  -- The call for the rewritten URL is the last: what it is given is trimmed and begins with `https://`.
  unfoldable pub normalize_git_repo_url : Option Text → Text
  normalize_git_repo_url none = []
  normalize_git_repo_url (some url) =
      let raw = trim url in
      if is_empty raw then [] else normalize_url (https_form raw (ssh_parts raw))
