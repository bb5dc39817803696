-- ===== src/Provenance/Tests.antt =====
-- The evidence index (index.py) on a run of the store.
use chip_evolve.Base.{◌≡◌, none, some}
use chip_evolve.Contracts.Status.{running}
use chip_evolve.Runtime.Tests.{claimed_once}
use chip_evolve.Provenance.Runs.{Filters, count_runs}
use chip_evolve.Provenance.Runs.Count.{matching, count_runs-matching}

abbrev of_project : Filters
of_project = record {
  project_id = some "project";
  design_id = none;
  plugin_id = none;
  status = some running;
  owners = none;
}

count_runs-matching_example :
    count_runs of_project claimed_once ≡ some (matching of_project claimed_once.runs)
count_runs-matching_example = count_runs-matching of_project claimed_once
