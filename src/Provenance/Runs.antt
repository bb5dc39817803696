-- ===== src/Provenance/Runs.antt =====
-- EvidenceIndex.runs and count_runs in core/provenance/src/openroad_platform_provenance/index.py, on the runs
-- of the store. A summary stands for its run: the counts that it adds are left out.
pub mod Count
use chip_evolve.Base.{
  ℕ, zero, suc, ◌+◌, Bool, true, false, ◌&&◌, ◌||◌, not, Option, none, some, List, [], ◌∷◌, ltb,
  leb, String, str_eq, opt_str_eq, if◌then◌else◌,
}
use chip_evolve.Contracts.Names.{length}
use chip_evolve.Contracts.Status.{RuntimeStatus, same}
use chip_evolve.Runtime.State.{Run, Db}

-- The filters; `owners` is membership in owner_run_ids.
pub record Filters : Type 0 where
  pub project_id : Option String
  pub design_id : Option String
  pub plugin_id : Option String
  pub status : Option RuntimeStatus
  pub owners : Option (ℕ → Bool)

-- `not filter or filter == value`
abbrev pub passes : Option String → Option String → Bool
passes none value = true
passes (some wanted) value = str_eq wanted "" || opt_str_eq (some wanted) value

abbrev pub has_status : Option RuntimeStatus → RuntimeStatus → Bool
has_status none s = true
has_status (some wanted) s = same s wanted

abbrev pub owned : Option (ℕ → Bool) → ℕ → Bool
owned none id = true
owned (some ids) id = ids id

-- Whether a row passes all the filters
unfoldable pub matches : Filters → Run → Bool
matches f r =
    owned f.owners r.run_id
    && passes f.project_id (some r.task_spec.project_id)
    && passes f.design_id (some r.task_spec.design_id)
    && passes f.plugin_id r.task_spec.plugin_id
    && has_status f.status r.status

put_newest : Run → List Run → List Run
put_newest r [] = r ∷ []
put_newest r (s ∷ rest) =
    let later = put_newest r rest in
    if leb s.created_at r.created_at then r ∷ s ∷ rest else s ∷ later

-- ORDER BY created_at DESC
unfoldable pub newest_first : List Run → List Run
unfolding put_newest
newest_first [] = []
newest_first (r ∷ rest) = put_newest r (newest_first rest)

-- The loop over the rows, with `matched` and the number of summaries so far
unfoldable pub page_loop : Filters → ℕ → ℕ → ℕ → ℕ → List Run → List Run
page_loop f limit offset matched made [] = []
page_loop f limit offset matched made (r ∷ rows) = elim (matches f r) [
  | false ↦ page_loop f limit offset matched made rows
  | true ↦ elim (ltb matched offset) [
    | true ↦ page_loop f limit offset (suc matched) made rows
    | false ↦ r ∷ elim (leb limit (suc made)) [
      | true ↦ []
      | false ↦ page_loop f limit offset matched (suc made) rows
    ]
  ]
]

abbrev pub max_run_limit : ℕ
max_run_limit = 500

-- EvidenceIndex.runs, at an offset that is not negative; none is the ValueError of a bad limit
unfoldable pub runs : Filters → ℕ → ℕ → Db → Option (List Run)
unfolding page_loop newest_first
runs f limit offset db =
    if leb 1 limit && leb limit max_run_limit
    then some (page_loop f limit offset 0 0 (newest_first db.runs))
    else none

-- The `while True` of count_runs, with the number of its passes bounded by `fuel`
unfoldable pub count_pages : Filters → Db → ℕ → ℕ → ℕ → Option ℕ
unfolding runs
count_pages f db zero total offset = none
count_pages f db (suc fuel) total offset = elim (runs f max_run_limit offset db) [
  | none ↦ none
  | some page ↦ elim (ltb (length page) max_run_limit) [
    | true ↦ some (total + length page)
    | false ↦ count_pages f db fuel (total + length page) (offset + length page)
  ]
]

-- count_runs: a pass that does not return has counted at least one run
unfoldable pub count_runs : Filters → Db → Option ℕ
unfolding count_pages
count_runs f db = count_pages f db (suc (length db.runs)) 0 0
