-- ===== src/Provenance/Runs/Count.antt =====
-- The count of runs in core/provenance/src/openroad_platform_provenance/index.py ends, and is exact.
use chip_evolve.Base.{
  ℕ, zero, suc, ◌+◌, ◌-◌, ◌≤◌, ◌<◌, ◌≡◌, refl, subst, sym, ap, ◌∙◌, true, false, Bool-cases, inl,
  inr, some, List, [], ◌∷◌, arith, ltb, leb, if◌then◌else◌,
}
use chip_evolve.Contracts.Names.{length}
use chip_evolve.Runtime.State.{Run, Db}
use chip_evolve.Provenance.Runs.{
  Filters, matches, put_newest, newest_first, page_loop, max_run_limit, runs, count_pages,
  count_runs,
}

-- How many rows match.
unfoldable pub matching : Filters → List Run → ℕ
matching f [] = 0
matching f (r ∷ rows) = let rest = matching f rows in if matches f r then suc rest else rest

-- At most `limit` of what is left after `offset`.
page_size : ℕ → ℕ → ℕ → ℕ
page_size limit offset count = elim (leb limit (count - offset)) [
  | true ↦ limit
  | false ↦ count - offset
]

length-page_loop :
    (f : Filters) (limit offset matched made : ℕ) (rows : List Run)
    → matched ≤ offset
    → made < limit
    → length (page_loop f limit offset matched made rows)
      ≡ page_size (limit - made) (offset - matched) (matching f rows)
unfolding page_loop page_size matching
length-page_loop f limit offset matched made [] low few = ground arith
length-page_loop f limit offset matched made (r ∷ rows) low few = elim (Bool-cases (matches f r)) [
  | inr skipped ↦
      rw (page_loop, matching, skipped) (length-page_loop f limit offset matched made rows low few)
  | inl fits ↦ elim (Bool-cases (ltb matched offset)) [
    | inl before ↦
        let rest = length-page_loop f limit offset (suc matched) made rows (ground arith) few in
        rw (page_loop, matching, fits, before) (ground (arith, rest))
    | inr reached ↦ elim (Bool-cases (leb limit (suc made))) [
      | inl full ↦ rw (page_loop, matching, fits, reached, full) (ground arith)
      | inr room ↦
          let rest = length-page_loop f limit offset matched (suc made) rows low (ground arith) in
          rw (page_loop, matching, fits, reached, room) (ground (arith, rest))
    ]
  ]
]

-- The order of the rows does not change how many match.
matching-put_newest :
    (f : Filters) (r : Run) (rows : List Run)
    → matching f (put_newest r rows) ≡ matching f (r ∷ rows)
unfolding matching put_newest
matching-put_newest f r [] = refl
matching-put_newest f r (s ∷ rows) = ground (arith, matching-put_newest f r rows)

matching-cons :
    (f : Filters) (r : Run) (rows others : List Run)
    → matching f rows ≡ matching f others
    → matching f (r ∷ rows) ≡ matching f (r ∷ others)
unfolding matching
matching-cons f r rows others same = ground (arith, same)

matching-newest_first :
    (f : Filters) (rows : List Run) → matching f (newest_first rows) ≡ matching f rows
unfolding newest_first
matching-newest_first f [] = refl
matching-newest_first f (r ∷ rows) =
    matching-put_newest f r (newest_first rows)
    ∙ matching-cons f r (newest_first rows) rows (matching-newest_first f rows)

matching_few : (f : Filters) (rows : List Run) → matching f rows ≤ length rows
unfolding matching
matching_few f [] = omega arith
matching_few f (r ∷ rows) = ground (arith, matching_few f rows)

from_start : (offset : ℕ) → offset - 0 ≡ offset
from_start offset = omega arith

last_page :
    (offset all size : ℕ)
    → offset ≤ all
    → size ≡ page_size max_run_limit offset all
    → ltb size max_run_limit ≡ true
    → offset + size ≡ all
unfolding page_size
last_page offset all size low is last = ground arith

full_page :
    (offset all size fuel : ℕ)
    → offset ≤ all
    → all - offset < suc fuel
    → size ≡ page_size max_run_limit offset all
    → ltb size max_run_limit ≡ false
    → (offset + size ≤ all) × (all - (offset + size) < fuel)
unfolding page_size
full_page offset all size fuel low enough is full = (ground arith, ground arith)

counted_pages :
    (f : Filters) (db : Db) (fuel offset : ℕ)
    → offset ≤ matching f (newest_first db.runs)
    → matching f (newest_first db.runs) - offset < fuel
    → count_pages f db fuel offset offset ≡ some (matching f (newest_first db.runs))
unfolding count_pages runs
counted_pages f db zero offset low enough = absurd (omega arith)
counted_pages f db (suc fuel) offset low enough =
    let all : ℕ = matching f (newest_first db.runs) in
    let page : List Run = page_loop f max_run_limit offset 0 0 (newest_first db.runs) in
    let size : length page ≡ page_size max_run_limit offset all =
      length-page_loop f max_run_limit offset 0 0 (newest_first db.runs) (omega arith) (omega arith)
      ∙ ap (λ k. page_size max_run_limit k all) (from_start offset) in
    elim (Bool-cases (ltb (length page) max_run_limit)) [
      | inl last ↦
          rw (count_pages, runs, last) (ap some (last_page offset all (length page) low size last))
      | inr full ↦
          let (moved, shorter) = full_page offset all (length page) fuel low enough size full in
          rw (count_pages, runs, full)
            (counted_pages f db fuel (offset + length page) moved shorter)
    ]

-- Whatever the filters, the count of runs ends within its fuel, and is the number of the runs that the
-- filters let pass, however many pages they fill.
pub count_runs-matching : (f : Filters) (db : Db) → count_runs f db ≡ some (matching f db.runs)
unfolding count_runs
count_runs-matching f db =
    let same : matching f (newest_first db.runs) ≡ matching f db.runs =
      matching-newest_first f db.runs in
    let few : matching f db.runs ≤ length db.runs = matching_few f db.runs in
    counted_pages f db (suc (length db.runs)) 0 (omega arith)
      (subst (λ n. n - 0 < suc (length db.runs)) (sym same) (omega arith))
    ∙ ap some same
