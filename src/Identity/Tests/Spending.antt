-- ===== src/Identity/Tests/Spending.antt =====
-- Allowances of core/identity/src/openroad_platform_identity/auth.py at a run.
use chip_evolve.Base.{
  ◌+◌, ◌≤◌, ◌≡◌, refl, true, List, [], ◌∷◌, arith, first, some_row, update_where, All,
  if◌then◌else◌, leb,
}
use chip_evolve.Identity.Accounts.{has_user}
use chip_evolve.Identity.Allowance.{used_in, upsert_use, consume_allowance, window_of}
use chip_evolve.Identity.Requests.{Request, consumes, after_request}
use chip_evolve.Identity.Spending.Totals.{keeps_limit, granted, asked, granted_exactly}
use chip_evolve.Identity.Tests.{plain, spelled, joined}

-- Three questions where two are allowed.
abbrev questions : List Request
questions =
    consumes 2 "query" 2 60 1
    ∷ consumes 2 "query" 2 60 2
    ∷ consumes 1 "query" 5 60 2
    ∷ consumes 2 "query" 2 60 3
    ∷ []

bob_is_known : has_user 2 joined ≡ true
unfolding some_row
bob_is_known = refl

none_used : used_in 2 "query" 0 joined.usage ≤ 2
unfolding used_in first
none_used = omega arith

fair_questions : All (λ r. keeps_limit plain spelled 2 "query" 0 2 r ≡ true) questions
unfolding window_of
fair_questions = (refl, (refl, (refl, (refl, tt))))

granted_exactly_example :
    used_in 2 "query" 0 joined.usage + granted plain spelled 2 "query" 0 questions joined ≡ (
      if leb (used_in 2 "query" 0 joined.usage + asked plain spelled 2 "query" 0 questions) 2
      then used_in 2 "query" 0 joined.usage + asked plain spelled 2 "query" 0 questions
      else 2)
granted_exactly_example =
    granted_exactly plain spelled 2 "query" 0 2 questions joined refl fair_questions bob_is_known
      none_used

two_granted : granted plain spelled 2 "query" 0 questions joined ≡ 2
unfolding granted after_request consume_allowance used_in upsert_use window_of some_row first
    update_where
two_granted = refl
