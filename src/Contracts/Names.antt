-- ===== src/Contracts/Names.antt =====
-- contracts/src/openroad_platform_contracts/version.py: the validators of names, digests and paths.
-- A validator that raises ContractError is the test that fails.
pub mod Paths
use chip_evolve.Base.{
  ℕ, suc, Bool, true, false, ◌&&◌, ◌||◌, not, Option, none, some, List, [], ◌∷◌, leb, ◌==◌,
  if◌then◌else◌, String, codes,
}

abbrev pub schema_version : ℕ
schema_version = 3

abbrev pub between : ℕ → ℕ → ℕ → Bool
between lo hi c = leb lo c && leb c hi

-- [A-Za-z0-9]
unfoldable pub is_alnum : ℕ → Bool
is_alnum c = between b'A' b'Z' c || between b'a' b'z' c || between b'0' b'9' c

-- [A-Za-z0-9_.:-]
unfoldable pub is_name_char : ℕ → Bool
unfolding is_alnum
is_name_char c = is_alnum c || c == b'_' || c == b'.' || c == b':' || c == b'-'

unfoldable pub all_codes : (ℕ → Bool) → List ℕ → Bool
all_codes p [] = true
all_codes p (c ∷ cs) = p c && all_codes p cs

abbrev pub length {ℓ} : {A : Type ℓ} → List A → ℕ
length [] = 0
length (x ∷ xs) = suc (length xs)

-- IDENTIFIER.fullmatch
pub matches_identifier : List ℕ → Bool
matches_identifier [] = false
matches_identifier (c ∷ cs) = is_alnum c && leb (length cs) 127 && all_codes is_name_char cs

-- validate_identifier(name, value)
unfoldable pub is_identifier : String → Bool
unfolding matches_identifier is_alnum is_name_char all_codes
is_identifier s = matches_identifier (codes s)

-- validate_identifier(name, value, required=False)
unfoldable pub is_optional_identifier : Option String → Bool
unfolding is_identifier
is_optional_identifier none = true
is_optional_identifier (some s) = is_identifier s

-- SHA256_HEX.fullmatch, of validate_sha256
unfoldable pub is_sha256 : String → Bool
unfolding all_codes
is_sha256 s =
    length (codes s) == 64 && all_codes (λ c. between b'0' b'9' c || between b'a' b'f' c) (codes s)

unfoldable pub is_optional_sha256 : Option String → Bool
unfolding is_sha256
is_optional_sha256 none = true
is_optional_sha256 (some s) = is_sha256 s

push_char : ℕ → List (List ℕ) → List (List ℕ)
push_char c [] = (c ∷ []) ∷ []
push_char c (w ∷ ws) = (c ∷ w) ∷ ws

-- `value.split("/")`
unfoldable pub split_slash : List ℕ → List (List ℕ)
unfolding push_char
split_slash [] = [] ∷ []
split_slash (c ∷ cs) =
    let rest = split_slash cs in if c == b'/' then [] ∷ rest else push_char c rest

-- The part `..`
unfoldable pub is_parent : List ℕ → Bool
is_parent (a ∷ b ∷ []) = a == b'.' && b == b'.'
is_parent _ = false

unfoldable pub has_parent : List (List ℕ) → Bool
unfolding is_parent
has_parent [] = false
has_parent (p ∷ ps) = is_parent p || has_parent ps

starts_with_slash : List ℕ → Bool
starts_with_slash [] = false
starts_with_slash (c ∷ cs) = c == b'/'

is_empty : List ℕ → Bool
is_empty [] = true
is_empty (c ∷ cs) = false

-- validate_relative_path(name, value), over the code points of the value
unfoldable pub is_relative_path : List ℕ → Bool
unfolding is_empty starts_with_slash has_parent split_slash
is_relative_path value =
    not (is_empty value) && not (starts_with_slash value || has_parent (split_slash value))

-- `text.startswith(prefix)`, over code points
prefix_of : List ℕ → List ℕ → Bool
prefix_of [] s = true
prefix_of (p ∷ ps) [] = false
prefix_of (p ∷ ps) (c ∷ cs) = p == c && prefix_of ps cs

unfoldable pub starts_with : String → String → Bool
unfolding prefix_of
starts_with text prefix = prefix_of (codes prefix) (codes text)
