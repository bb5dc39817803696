-- ===== src/Contracts/Tests.antt =====
-- The contracts at concrete statuses, paths and inputs.
use chip_evolve.Base.{◌≡◌, refl, true, false, none, some}
use chip_evolve.Contracts.Names.{is_optional_identifier, is_relative_path}
use chip_evolve.Contracts.Input.{InputFile, StagedInput, is_valid_input, is_valid_staged}

-- A netlist that another run has produced, and its staging record.
abbrev netlist : InputFile
netlist = record {
  destination = "in/netlist.v";
  source = none;
  artifact_id = some "art-1";
  input_id = none;
  required = true;
}

abbrev missing : StagedInput
missing = record {
  destination = "in/netlist.v";
  present = false;
  size_bytes = 0;
  sha256 = none;
  source = none;
  source_artifact_id = some "art-1";
  source_input_id = none;
}

netlist_is_valid : is_valid_input netlist ≡ true
unfolding is_valid_input is_relative_path is_optional_identifier
netlist_is_valid = refl

missing_is_valid : is_valid_staged missing ≡ true
unfolding is_valid_staged is_relative_path is_optional_identifier
missing_is_valid = refl
