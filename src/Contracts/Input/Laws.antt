-- ===== src/Contracts/Input/Laws.antt =====
-- What a valid input declaration and a valid staging record say.
use chip_evolve.Base.{◌≡◌, ◌⊎◌, true, false, none, some, arith, String, codes}
use chip_evolve.Contracts.Names.{is_sha256}
use chip_evolve.Contracts.Input.{
  InputFile, StagedInput, is_valid_input, is_valid_staged, is_absolute,
}

-- A valid input declaration names exactly one place for its bytes: an absolute host path, an
-- artifact or an upload, and then neither of the other two.
pub is_valid_input-source :
    (f : InputFile)
    → is_valid_input f ≡ true
    → ((s : String) × (f.source ≡ some s)
        × (is_absolute (codes s) ≡ true)
        × (f.artifact_id ≡ none)
        × (f.input_id ≡ none))
      ⊎ (((a : String) × (f.artifact_id ≡ some a) × (f.source ≡ none) × (f.input_id ≡ none))
          ⊎ ((i : String) × (f.input_id ≡ some i) × (f.source ≡ none) × (f.artifact_id ≡ none)))
unfolding is_valid_input
is_valid_input-source f h = ground arith

-- A valid staging record has a digest exactly when its bytes are present.
pub is_valid_staged-digest :
    (s : StagedInput)
    → is_valid_staged s ≡ true
    → ((s.present ≡ true) × ((d : String) × (s.sha256 ≡ some d) × (is_sha256 d ≡ true)))
      ⊎ ((s.present ≡ false) × (s.sha256 ≡ none))
unfolding is_valid_staged
is_valid_staged-digest s h = ground arith
