-- ===== src/Custody/Tests.antt =====
-- Tests of the custody of files on a run with one attempt, and the theorems at work on it.
mod Reports
use chip_evolve.Base.{
  ◌≡◌, refl, ◌==◌, true, if◌then◌else◌, Option, none, some, [], ◌∷◌, String, str_eq, first,
  some_row, arith, update_where,
}
use chip_evolve.Contracts.Names.{length, is_sha256, is_identifier, is_relative_path, all_codes}
use chip_evolve.Contracts.Status.{queued}
use chip_evolve.Contracts.Input.{InputFile}
use chip_evolve.Contracts.Artifact.{is_valid_artifact}
use chip_evolve.Runtime.State.{empty}
use chip_evolve.Runtime.Result.{ok, err, escapes_workspace}
use chip_evolve.Runtime.Attempts.{last_number, reserved_cpu, reserved_memory}
use chip_evolve.Runtime.Step.{submit, claim, granted}
use chip_evolve.Runtime.Tests.{run_row, stage_row, attempt_row, held, submitted, claimed_once}
use chip_evolve.Custody.Objects.{Bytes, Store, Reading, is_intact, stored, publish}
use chip_evolve.Custody.Artifacts.{
  Found, outside, absent, file, Declared, take_custody, insert_artifact, register_each,
  register_artifacts,
}
use chip_evolve.Custody.Inputs.{ingest_input}
use chip_evolve.Custody.Freezing.{freeze_inputs}
use chip_evolve.Custody.Steps.{Steps, here, next, lifecycle, registering, ingesting, IsSound}
use chip_evolve.Custody.Guarantees.{empty_store, custody-IsSound, Returned, materialize-register}

-- A stand-in for SHA-256 that tells the bytes of the tests apart.
abbrev pub digest : Bytes → String
digest content =
    if length content == 3
    then "aaaaaaaaaaaaaaaaaaaaaaaaaaaaaaaaaaaaaaaaaaaaaaaaaaaaaaaaaaaaaaaa"
    else "bbbbbbbbbbbbbbbbbbbbbbbbbbbbbbbbbbbbbbbbbbbbbbbbbbbbbbbbbbbbbbbb"

abbrev three : String
three = "aaaaaaaaaaaaaaaaaaaaaaaaaaaaaaaaaaaaaaaaaaaaaaaaaaaaaaaaaaaaaaaa"

abbrev pub netlist : Bytes
netlist = 1 ∷ 2 ∷ 3 ∷ []

abbrev steady : Bytes → Reading
steady content = record { hashed = content; size = length content; copied = content }

-- The workspace holds a file, and a link that leads out of it.
abbrev pub workspace : String → Found
workspace key =
    if str_eq key "out.v"
    then file (steady netlist)
    else if str_eq key "link"
    then outside
    else absent

abbrev pub declaration : String → String → Declared
declaration id key = record {
  artifact_id = id;
  kind = "netlist";
  store_key = key;
  media_type = some "text/plain";
  metadata = [];
}

abbrev pub claimed_store : Store
claimed_store = record empty_store { db = claimed_once }

pub to_claimed : Steps digest 4 2000 empty_store claimed_store
unfolding first last_number reserved_cpu reserved_memory update_where
to_claimed =
    next
      (lifecycle empty_store submitted (
        submit empty (run_row queued none none none) (stage_row queued none) refl refl refl refl
          refl (λ key h. refl)))
      (next
        (lifecycle (record empty_store { db = submitted }) claimed_once
          (claim submitted (stage_row queued none) (attempt_row 3 1 20) (held 3 ∷ []) 20 refl refl
            refl refl refl (record { running = refl; lease = refl })
            (granted (held 3) refl (omega arith) (omega arith))))
        (here claimed_store))

-- The attempt's file is registered.
abbrev pub registered_store : Store
registered_store =
    (register_artifacts digest workspace 3 40 (declaration "art_1" "out.v" ∷ []) claimed_store).1

to_registered : Steps digest 4 2000 claimed_store registered_store
to_registered =
    next (registering workspace 3 40 (declaration "art_1" "out.v" ∷ []) claimed_store)
      (here registered_store)

pub register_works :
    (register_artifacts digest workspace 3 40 (declaration "art_1" "out.v" ∷ []) claimed_store).0
    ≡ ok ("art_1" ∷ [])
unfolding register_artifacts register_each take_custody insert_artifact publish stored is_intact
    first some_row is_valid_artifact is_identifier is_relative_path is_sha256 all_codes
register_works = refl

abbrev uploaded_store : Store
uploaded_store = (ingest_input digest (1 ∷ []) "input_1" 50 registered_store).1

-- An artifact of a run that still goes on can be read, after an upload.
materialize-register_example :
    Returned digest 4 2000
      (λ w key. absent)
      workspace
      uploaded_store
      (declaration "art_1" "out.v" ∷ [])
      ("art_1" ∷ [])
materialize-register_example =
    materialize-register digest 4 2000 (λ w key. absent) workspace 3 40
      (declaration "art_1" "out.v" ∷ []) claimed_store uploaded_store ("art_1" ∷ []) to_claimed
      register_works (next (ingesting (1 ∷ []) "input_1" 50 registered_store) (here uploaded_store))

custody-IsSound_example : IsSound digest 4 2000 claimed_store
custody-IsSound_example = custody-IsSound digest 4 2000 claimed_store to_claimed

-- A task that reads a host file.
abbrev host : String → Option Reading
host path = if str_eq path "/data/in.v" then some (steady netlist) else none

abbrev declared_input : InputFile
declared_input = record {
  destination = "in.v";
  source = some "/data/in.v";
  artifact_id = none;
  input_id = none;
  required = true;
}

abbrev frozen_input : InputFile
frozen_input = record declared_input { source = none; input_id = some "input_2" }

abbrev accepted_store : Store
accepted_store =
    (freeze_inputs digest (λ w key. absent) host 60 (λ index. "input_2") 0 (declared_input ∷ [])
      claimed_store).1

-- A declaration of a link out of the workspace fails as a whole: the tables are as before, and the
-- object of the file before it stays.
register_rolls_back :
    register_artifacts digest workspace 3 40
      (declaration "art_1" "out.v" ∷ declaration "art_2" "link" ∷ [])
      claimed_store
    ≡ (
      err escapes_workspace,
      record claimed_store { objects = record { name = three; content = netlist } ∷ [] },
    )
unfolding register_artifacts register_each take_custody insert_artifact publish stored is_intact
    first some_row is_valid_artifact is_identifier is_relative_path is_sha256 all_codes
register_rolls_back = refl
