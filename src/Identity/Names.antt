-- ===== src/Identity/Names.antt =====
-- The checks of user names, passwords and resource types in
-- core/identity/src/openroad_platform_identity/auth.py, over code points.
use chip_evolve.Base.{
  ℕ, ◌+◌, Bool, false, ◌&&◌, ◌||◌, Option, none, some, List, [], ◌∷◌, leb, ◌==◌, if◌then◌else◌,
  String, codes, list_eq,
}
use chip_evolve.Contracts.Names.{length, between, is_alnum, all_codes}

-- str.isspace, of one character
unfoldable pub is_space : ℕ → Bool
is_space c =
    between 9 13 c
    || between 28 32 c
    || c == 133
    || c == 160
    || c == 5760
    || between 8192 8202 c
    || c == 8232
    || c == 8233
    || c == 8239
    || c == 8287
    || c == 12288

-- str.lstrip
strip_left : List ℕ → List ℕ
strip_left [] = []
strip_left (c ∷ cs) = if is_space c then strip_left cs else c ∷ cs

-- str.rstrip
strip_right : List ℕ → List ℕ
strip_right [] = []
strip_right (c ∷ cs) = elim (strip_right cs) [
  | [] ↦ (if is_space c then [] else c ∷ [])
  | d ∷ ds ↦ c ∷ d ∷ ds
]

-- str.strip
unfoldable pub strip : List ℕ → List ℕ
unfolding strip_left strip_right is_space
strip s = strip_right (strip_left s)

-- [A-Za-z0-9_.-]
unfoldable pub is_username_char : ℕ → Bool
unfolding is_alnum
is_username_char c = is_alnum c || c == b'_' || c == b'.' || c == b'-'

-- USERNAME.fullmatch
unfoldable pub matches_username : List ℕ → Bool
unfolding is_alnum all_codes is_username_char
matches_username [] = false
matches_username (c ∷ cs) =
    is_alnum c && leb 2 (length cs) && leb (length cs) 31 && all_codes is_username_char cs

-- _username: the name without the spaces round it, or none where ValueError is raised
unfoldable pub valid_username : String → Option (List ℕ)
unfolding strip matches_username
valid_username value =
    let name = strip (codes value) in if matches_username name then some name else none

-- _password
unfoldable pub is_valid_password : String → Bool
is_valid_password value = leb 8 (length (codes value)) && leb (length (codes value)) 256

-- _resource_type
unfoldable pub is_resource_type : String → Bool
is_resource_type value = leb 1 (length (codes value)) && leb (length (codes value)) 64

-- COLLATE NOCASE folds the 26 letters of ASCII.
unfoldable pub fold_case : ℕ → ℕ
fold_case c = if between b'A' b'Z' c then c + 32 else c

unfoldable pub same_name : List ℕ → List ℕ → Bool
unfolding list_eq fold_case
same_name a b = list_eq (λ x y. fold_case x == fold_case y) a b

-- The name of the identity that is used without authentication.
abbrev pub local_user : List ℕ
local_user = codes "local-user"
