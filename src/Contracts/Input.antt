-- ===== src/Contracts/Input.antt =====
-- contracts/src/openroad_platform_contracts/input.py: the files that a task asks the platform to
-- place in the attempt workspace, and the record of those that it placed.
pub mod Laws
use chip_evolve.Base.{
  ℕ, ◌+◌, Bool, true, false, ◌&&◌, ◌||◌, not, Option, none, some, List, [], ◌∷◌, String, codes,
  ◌==◌, leb, is_some, if◌then◌else◌,
}
use chip_evolve.Contracts.Names.{is_relative_path, is_identifier, is_optional_identifier, is_sha256}

pub record InputFile : Type 0 where
  pub destination : String
  pub source : Option String
  pub artifact_id : Option String
  pub input_id : Option String
  pub required : Bool

-- How many of the optional texts are given.
abbrev pub given : List (Option String) → ℕ
given [] = 0
given (none ∷ rest) = given rest
given (some s ∷ rest) = given rest + 1

-- A source is absolute: non-empty, and its first character is a slash.
pub is_absolute : List ℕ → Bool
is_absolute [] = false
is_absolute (c ∷ cs) = c == b'/'

source_ok : Option String → Bool
unfolding is_absolute
source_ok none = true
source_ok (some s) = is_absolute (codes s)

-- InputFile.validate
unfoldable pub is_valid_input : InputFile → Bool
unfolding source_ok
is_valid_input f =
    is_relative_path (codes f.destination)
    && given (f.source ∷ f.artifact_id ∷ f.input_id ∷ []) == 1
    && source_ok f.source
    && is_optional_identifier f.artifact_id
    && is_optional_identifier f.input_id

pub record StagedInput : Type 0 where
  pub destination : String
  pub present : Bool
  pub size_bytes : ℕ
  pub sha256 : Option String
  pub source : Option String
  pub source_artifact_id : Option String
  pub source_input_id : Option String

-- The two tests of where the bytes came from.
provenance_ok : StagedInput → Bool
provenance_ok s =
    let sources = given (s.source_artifact_id ∷ s.source_input_id ∷ []) in
    if is_some s.source then leb sources 1 else sources == 1

digest_ok : Bool → Option String → Bool
digest_ok true none = false
digest_ok true (some d) = is_sha256 d
digest_ok false d = not (is_some d)

-- StagedInput.validate
unfoldable pub is_valid_staged : StagedInput → Bool
unfolding provenance_ok digest_ok
is_valid_staged s =
    is_relative_path (codes s.destination)
    && provenance_ok s
    && is_optional_identifier s.source_input_id
    && digest_ok s.present s.sha256
