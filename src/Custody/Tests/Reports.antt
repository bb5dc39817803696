-- ===== src/Custody/Tests/Reports.antt =====
-- Tests of what an adapter reports (adapter.py and runtime.py under
-- core/runtime/src/openroad_platform_runtime).
use chip_evolve.Base.{
  ◌≡◌, refl, true, false, none, some, List, [], ◌∷◌, String, str_eq, if◌then◌else◌, All, first,
  some_row, pos,
}
use chip_evolve.Contracts.Names.{is_identifier, is_relative_path, is_sha256, all_codes}
use chip_evolve.Contracts.Artifact.{
  Artifact, Metric, is_valid_declaration, is_valid_artifact, one_of, has_value, whole,
}
use chip_evolve.Runtime.Result.{ok, err, protocol_error}
use chip_evolve.Custody.Objects.{publish, stored, is_intact}
use chip_evolve.Custody.Artifacts.{
  Found, Declared, get_artifact, take_custody, insert_artifact, register_each, register_artifacts,
}
use chip_evolve.Custody.Artifacts
use chip_evolve.Custody.Steps.{here}
use chip_evolve.Custody.Tests.{
  digest, workspace, claimed_store, to_claimed, declaration, registered_store, register_works,
}
use chip_evolve.Custody.Reports.{
  Reported, Resolved, outside, at, Normalized, Rule, normalize, normalize_each, allowed_kinds,
  all_produced, required_kinds, validate_declarations, named, RawMetric, by_store_key, attach,
}
use chip_evolve.Custody.Reports.Traced.{IsUnreserved, reported-IsUnreserved, metric_traced}

abbrev paths : String → Resolved
paths path = if str_eq path "./out.v" then at "out.v" else outside

abbrev report : String → Reported
report kind = record { kind = some kind; path = some "./out.v"; media_type = none; metadata = [] }

abbrev netlist_rule : Rule
netlist_rule = record { kind = some "netlist"; required = true }

abbrev accepted : List Normalized
accepted = record { kind = "netlist"; store_key = "out.v"; media_type = none; metadata = [] } ∷ []

accepts :
    validate_declarations paths (netlist_rule ∷ []) [] true false (report "netlist" ∷ [])
    ≡ ok accepted
unfolding validate_declarations normalize_each normalize allowed_kinds all_produced required_kinds
    is_valid_declaration one_of has_value is_identifier is_relative_path all_codes
accepts = refl

-- Without the platform's authority a reserved kind is refused.
refuses_reserved :
    validate_declarations paths [] [] true false (report "protected_evaluation" ∷ [])
    ≡ err protocol_error
unfolding validate_declarations normalize_each normalize allowed_kinds is_valid_declaration one_of
    has_value is_identifier is_relative_path all_codes
refuses_reserved = refl

accepted_registers :
    (register_artifacts digest workspace 3 40 (named (λ index. "art_1") 0 accepted) claimed_store).0
    ≡ ok ("art_1" ∷ [])
unfolding named register_artifacts register_each take_custody insert_artifact publish stored
    is_intact first some_row is_valid_artifact is_identifier is_relative_path is_sha256 all_codes
accepted_registers = refl

reported-IsUnreserved_example :
    All
      (IsUnreserved digest 4 2000
        (λ w key. Artifacts.absent)
        (register_artifacts digest workspace 3 40
          (named (λ index. "art_1") 0 accepted)
          claimed_store).1)
      ("art_1" ∷ [])
reported-IsUnreserved_example =
    reported-IsUnreserved digest 4 2000 (λ w key. Artifacts.absent) paths (netlist_rule ∷ []) []
      true (report "netlist" ∷ []) accepted workspace (λ index. "art_1") 3 40 claimed_store
      (register_artifacts digest workspace 3 40 (named (λ index. "art_1") 0 accepted)
        claimed_store).1
      ("art_1" ∷ []) to_claimed accepts accepted_registers
      (here
        (register_artifacts digest workspace 3 40 (named (λ index. "art_1") 0 accepted)
          claimed_store).1)

-- The metric of the evaluator of src/tests/fixtures: it names its parser outside of its context.
abbrev area : RawMetric
area = record {
  name = "area_um2";
  value = whole (pos 7);
  unit = some "um2";
  source_artifact_id = none;
  parser_id = some "fake-evaluator";
  parser_version = some "1.0.0";
  source_key = some "out.v";
  context_parser_id = none;
  context_parser_version = none;
  context = [];
}

abbrev area_metric : Metric
area_metric = record {
  name = "area_um2";
  value = whole (pos 7);
  unit = some "um2";
  source_artifact_id = some "art_1";
  parser_id = none;
  parser_version = none;
  context = [];
  schema_version = 3;
}

-- The metric that is stored names no parser.
parser_is_dropped : attach (declaration "art_1" "out.v" ∷ []) ("art_1" ∷ []) area ≡ ok area_metric
unfolding attach by_store_key
parser_is_dropped = refl

metric_traced_example :
    (id : String) × (area_metric.source_artifact_id ≡ some id)
    × ((a : Artifact) × (get_artifact registered_store id ≡ ok a) × (a.store_key ≡ "out.v"))
metric_traced_example =
    metric_traced digest 4 2000 (λ w key. Artifacts.absent) workspace 3 40
      (declaration "art_1" "out.v" ∷ []) claimed_store registered_store ("art_1" ∷ []) area
      area_metric "out.v" to_claimed register_works (here registered_store) refl parser_is_dropped
