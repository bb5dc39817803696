-- ===== src/Contracts/Status/Laws.antt =====
-- The tables of contracts/src/openroad_platform_contracts/runtime.py against what they mean.
use chip_evolve.Base.{◌≡◌, refl, ◌↔◌, ◌⊎◌, ◌≢◌, true, false, some, arith}
use chip_evolve.Contracts.Status.{
  RuntimeStatus, queued, running, retry_wait, failed, value, of_value, tag, same, is_terminal,
  run_transition_allowed, AttemptStatus, same_attempt, attempt_transition_allowed,
}

pub tag-injective : (a b : RuntimeStatus) → tag a ≡ tag b → a ≡ b
tag-injective a b h = ground arith

pub same_iff : (a b : RuntimeStatus) → (same a b ≡ true) ↔ (a ≡ b)
same_iff a b = ground arith

pub same_attempt_iff : (a b : AttemptStatus) → (same_attempt a b ≡ true) ↔ (a ≡ b)
same_attempt_iff a b = ground arith

-- Every status is read back from the text that the store writes for it.
pub of_value-value : (s : RuntimeStatus) → of_value (value s) ≡ some s
unfolding of_value value
of_value-value queued = refl
of_value-value _ = refl

-- A run's status is terminal exactly when the table permits no transition out of it: no active
-- status is a dead end, and no terminal one can be left.
pub is_terminal_iff :
    (s : RuntimeStatus)
    → (is_terminal s ≡ true) ↔ ((t : RuntimeStatus) → run_transition_allowed s t ≡ false)
unfolding is_terminal run_transition_allowed
is_terminal_iff s = (λ h t. ground arith, λ h. ground (arith, h failed))

-- An attempt may move exactly when it is pending or running, and it never moves back to pending.
pub attempt_transition_allowed_iff :
    (s t : AttemptStatus)
    → (attempt_transition_allowed s t ≡ true) ↔ (
        (s ≡ AttemptStatus.pending) × ((t ≡ AttemptStatus.running) ⊎ (t ≡ AttemptStatus.lost))
        ⊎ (s ≡ AttemptStatus.running) × (t ≢ AttemptStatus.pending) × (t ≢ AttemptStatus.running))
unfolding attempt_transition_allowed
attempt_transition_allowed_iff s t = ground arith

-- What a settled attempt may become: nothing.
pub attempt_settled :
    (s t : AttemptStatus)
    → attempt_transition_allowed s t ≡ true
    → s ≢ AttemptStatus.running
    → s ≡ AttemptStatus.pending
unfolding attempt_transition_allowed
attempt_settled s t h k = ground arith

pub allowed-is_terminal :
    (s t : RuntimeStatus) → run_transition_allowed s t ≡ true → is_terminal s ≡ false
unfolding run_transition_allowed is_terminal
allowed-is_terminal s t h = ground arith

pub allowed_retry_wait :
    (s : RuntimeStatus) → run_transition_allowed s retry_wait ≡ true → s ≡ running
unfolding run_transition_allowed
allowed_retry_wait s h = ground arith
