-- ===== src/Custody/Submission.antt =====
-- From the submission of a task's inputs to their staging (runtime.py), with any operations in between.
use chip_evolve.Base.{ℕ, ◌≡◌, Option, some, List, map, String, All}
use chip_evolve.Contracts.Input.{InputFile}
use chip_evolve.Runtime.Result.{Result, ok}
use chip_evolve.Custody.Objects.{Bytes, Store, Reading}
use chip_evolve.Custody.Artifacts.{Found}
use chip_evolve.Custody.Staging.{Entry, Placed, entry_of, stage_from, verify_manifest}
use chip_evolve.Custody.Steps.{Steps}
use chip_evolve.Custody.Submitted.{IsResolved, IsCopied}

module _ (digest : Bytes → String) (cpu memory : ℕ) (files : String → String → Found)
    (host : String → Option Reading) where
  -- All the frozen declarations name what the store holds in the end.
  record AllFrozen (s : Store) (gs : List InputFile) (after : Store) : Type 0 where
    pub steps : Steps digest cpu memory s after
    pub resolved : All (IsResolved after) gs

  -- A staging of the inputs that agrees with the submission's entries: the digest of its manifest is the
  -- one that the task holds, and each input's record is true of the bytes that were copied.
  pub record StagedAs (t : Store) (label : ℕ → Option String) (gs : List InputFile)
      (entries : List Entry) : Type 0 where
    pub placed : List Placed
    pub staged : stage_from digest files host t label 0 gs ≡ ok placed
    pub agree : map (λ (p : Placed). entry_of p.staged) placed ≡ entries
    pub verified :
        (dumps : List Entry → Bytes)
        → verify_manifest digest dumps
            (some (digest (dumps entries)))
            (map (λ (p : Placed). entry_of p.staged) placed)
          ≡ ok tt
    pub all_copied : All (IsCopied digest cpu memory files host) placed
