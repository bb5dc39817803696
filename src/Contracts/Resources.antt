-- ===== src/Contracts/Resources.antt =====
-- contracts/src/openroad_platform_contracts/resources.py: what a task asks the platform to bound.
use chip_evolve.Base.{Bool, true, ◌&&◌, ◌||◌, Option, none, some, is_some, ℤ, is_positive}

-- The number of CPU seconds, a float, is held in whole units of a fine enough scale; it is compared
-- with zero and otherwise passed on.
pub record ResourceRequest : Type 0 where
  pub cpu_seconds : Option ℤ
  pub cpu_cores : Option ℤ
  pub memory_bytes : Option ℤ
  pub processes : Option ℤ

-- ResourceRequest.declared
unfoldable pub declared : ResourceRequest → Bool
declared r =
    is_some r.cpu_seconds || is_some r.cpu_cores || is_some r.memory_bytes || is_some r.processes

unfoldable pub absent_or_positive : Option ℤ → Bool
absent_or_positive none = true
absent_or_positive (some z) = is_positive z

-- ResourceRequest.validate
unfoldable pub is_valid_request : ResourceRequest → Bool
unfolding absent_or_positive
is_valid_request r =
    absent_or_positive r.cpu_seconds
    && absent_or_positive r.cpu_cores
    && absent_or_positive r.memory_bytes
    && absent_or_positive r.processes
