-- ===== src/Runtime/Refines/Attempts.antt =====
-- start_attempt, heartbeat, attach_process, finish_attempt and release_resources as steps.
use chip_evolve.Base.{
  ℕ, zero, suc, ◌+◌, ◌≤◌, ◌++◌, ◌≡◌, refl, sym, ap, subst, ◌⊎◌, inl, inr, Bool, true, false, ◌||◌,
  not, Option, none, some, List, [], ◌∷◌, ==_iff, arith, first, some_row, first-none, first_holds,
  Bool-cases, Option-cases, ℤ, pos, negsuc, is_positive, if◌then◌else◌,
}
use chip_evolve.Contracts.Status.{queued, retry_wait, contains}
use chip_evolve.Contracts.Resources.{ResourceRequest, declared}
use chip_evolve.Runtime.State.{Stage, Attempt, Reservation, Db}
use chip_evolve.Runtime.Result.{Result, ok, err, Post-ok, Result-cases, StoreError, memory_missing}
use chip_evolve.Runtime.Runs.{is_stage}
use chip_evolve.Runtime.Attempts.{
  Claim, Room, unbounded, full, reserved, is_attempt, last_number, reserved_cpu, reserved_memory,
  insert_attempt, attempt_clashes, insert_reservation, exceeds, number_or, budget, reserve_within,
  reserve, new_attempt, settle_claim, start_body, start_attempt,
}
use chip_evolve.Runtime.Step.{Steps, here, claim, unreserved, granted, IsLeased, Steps-one}
use chip_evolve.Runtime.Refines.Runs.{Refines, transaction-Steps}

-- The decision of the reservation step, in terms of the budgets.
data Allows (cpu memory attempt_id : ℕ) (rows : List Reservation) : Room → Type 0 where
  free : Allows cpu memory attempt_id rows unbounded
  refused : Allows cpu memory attempt_id rows full
  fits :
      (r : Reservation)
      → r.attempt_id ≡ attempt_id
      → reserved_cpu rows + r.cpu_cores ≤ cpu
      → reserved_memory rows + r.memory_bytes ≤ memory
      → Allows cpu memory attempt_id rows (reserved r)

insert_reservation-fits :
    (budget_cpu budget_memory attempt_id : ℕ) (cpu memory : ℤ) (rows : List Reservation)
    (room : Room)
    → exceeds budget_cpu (reserved_cpu rows) cpu ≡ false
    → exceeds budget_memory (reserved_memory rows) memory ≡ false
    → insert_reservation attempt_id cpu memory rows ≡ ok room
    → Allows budget_cpu budget_memory attempt_id rows room
unfolding insert_reservation
insert_reservation-fits bc bm id (pos (suc c)) (pos (suc m)) rows room hc hm h =
    let made : room
        ≡ reserved (record { attempt_id = id; cpu_cores = suc c; memory_bytes = suc m }) =
      ground arith in
    rw made (
      fits (record { attempt_id = id; cpu_cores = suc c; memory_bytes = suc m }) refl (ground arith)
        (ground arith))
insert_reservation-fits bc bm id (pos zero) m rows room hc hm h = cc
insert_reservation-fits bc bm id (negsuc c) m rows room hc hm h = cc
insert_reservation-fits bc bm id (pos (suc c)) (pos zero) rows room hc hm h = cc
insert_reservation-fits bc bm id (pos (suc c)) (negsuc m) rows room hc hm h = cc

-- The capacities that a claim states give budgets no greater than the platform's.
pub record IsBudgeted (ceil_fraction : ℕ → ℕ) (cpu memory : ℕ) (c : Claim) : Type 0 where
  pub cpu_capacity : (n : ℕ) → c.capacity_cpu_cores ≡ some n → budget ceil_fraction n ≤ cpu
  pub memory_capacity : (n : ℕ) → c.capacity_memory_bytes ≡ some n → budget ceil_fraction n ≤ memory

Allows-mono :
    {bc bm cpu memory id : ℕ} {rows : List Reservation} {room : Room}
    → bc ≤ cpu
    → bm ≤ memory
    → Allows bc bm id rows room
    → Allows cpu memory id rows room
Allows-mono hc hm free = free
Allows-mono hc hm refused = refused
Allows-mono hc hm (fits r own c m) = fits r own (omega arith) (omega arith)

-- The tests of the reservation step, with the amounts and budgets as variables.
within_ok :
    (room : Room) (is_pos over_cpu over_memory : Bool) (e : StoreError) (inserted : Result Room)
    → (if not is_pos then err e else if over_cpu || over_memory then ok full else inserted)
      ≡ ok room
    → (room ≡ full) ⊎ ((over_cpu ≡ false) × (over_memory ≡ false) × (inserted ≡ ok room))
within_ok room is_pos over_cpu over_memory e inserted h = ground arith

module _ (ceil_fraction : ℕ → ℕ) where
  reserve_within-fits :
      (request : ResourceRequest) (capacity_cpu capacity_memory attempt_id : ℕ)
      (rows : List Reservation) (room : Room)
      → reserve_within ceil_fraction request capacity_cpu capacity_memory attempt_id rows ≡ ok room
      → Allows
          (budget ceil_fraction capacity_cpu)
          (budget ceil_fraction capacity_memory)
          attempt_id
          rows
          room
  unfolding reserve_within
  reserve_within-fits request capacity_cpu capacity_memory id rows room h =
      let cpu = number_or (pos 1) request.cpu_cores in
      let memory = number_or (pos 0) request.memory_bytes in
      elim (within_ok room (is_positive memory)
        (exceeds (budget ceil_fraction capacity_cpu) (reserved_cpu rows) cpu)
        (exceeds (budget ceil_fraction capacity_memory) (reserved_memory rows) memory)
        memory_missing (insert_reservation id cpu memory rows) h) [
          | inl none_left ↦ rw none_left refused
          | inr (c, m, inserted) ↦
              insert_reservation-fits (budget ceil_fraction capacity_cpu)
                (budget ceil_fraction capacity_memory) id cpu memory rows room c m inserted
        ]

  reserve-Allows :
      {cpu memory : ℕ} (who : Claim) (attempt_id : ℕ) (rows : List Reservation) (room : Room)
      → IsBudgeted ceil_fraction cpu memory who
      → reserve ceil_fraction who attempt_id rows ≡ ok room
      → Allows cpu memory attempt_id rows room
  unfolding reserve
  reserve-Allows who id rows room b h = elim (Option-cases who.resources) [
    | inl absent ↦ let same : room ≡ unbounded = ground arith in rw same free
    | inr (request, asked) ↦ elim (Bool-cases (declared request)) [
      | inr undeclared ↦ let same : room ≡ unbounded = ground arith in rw same free
      | inl wanted ↦ elim (Option-cases who.capacity_cpu_cores) [
        | inl absent ↦ let same : room ≡ unbounded = ground arith in rw same free
        | inr (c, given) ↦ elim (Option-cases who.capacity_memory_bytes) [
          | inl absent ↦ let same : room ≡ unbounded = ground arith in rw same free
          | inr (m, given') ↦
              Allows-mono (b.cpu_capacity c given) (b.memory_capacity m given')
                (reserve_within-fits request c m id rows room (ground arith))
        ]
      ]
    ]
  ]

  -- What a who that got through has read and written.
  pub start_body-made :
      (stage_run_id : ℕ) (who : Claim) (attempt_id now : ℕ) (db : Db) (stage : Stage) (room : Room)
      (out : Option Attempt × Db)
      → first (is_stage stage_run_id) db.stages ≡ some stage
      → reserve ceil_fraction who attempt_id db.reservations ≡ ok room
      → start_body ceil_fraction stage_run_id who attempt_id now db ≡ ok out
      → let attempt =
          new_attempt who stage_run_id attempt_id
            (suc (last_number stage_run_id db.attempts))
            now in
        (contains (queued ∷ retry_wait ∷ []) stage.status ≡ true)
        × (some_row (attempt_clashes attempt) db.attempts ≡ false)
        × (out ≡ settle_claim room stage attempt (db.attempts ++ attempt ∷ []) now db)
  unfolding start_body insert_attempt
  start_body-made stage_run_id who id now db stage room out found room_found h = ground arith

pub found_stage_id :
    (stages : List Stage) (i : ℕ) {s : Stage}
    → first (is_stage i) stages ≡ some s
    → s.stage_run_id ≡ i
found_stage_id stages i {s} h = (==_iff s.stage_run_id i).0 (first_holds (is_stage i) stages h)

settle_claim-Steps :
    (cpu memory : ℕ) (db : Db) (stage : Stage) (a : Attempt) (now : ℕ) (room : Room)
    → Allows cpu memory a.attempt_id db.reservations room
    → first (is_stage stage.stage_run_id) db.stages ≡ some stage
    → contains (queued ∷ retry_wait ∷ []) stage.status ≡ true
    → first (is_attempt a.attempt_id) db.attempts ≡ none
    → a.stage_run_id ≡ stage.stage_run_id
    → a.attempt_number ≡ suc (last_number stage.stage_run_id db.attempts)
    → IsLeased a
    → Steps cpu memory db (settle_claim room stage a (db.attempts ++ a ∷ []) now db).1
settle_claim-Steps cpu memory db stage a now _ free found ready fresh of number leased =
    Steps-one (claim db stage a db.reservations now found ready fresh of number leased unreserved)
settle_claim-Steps cpu memory db stage a now _ refused found ready fresh of number leased = here db
settle_claim-Steps cpu memory db stage a now _ (fits r own c m) found ready fresh of number leased =
    Steps-one (
      claim db stage a (db.reservations ++ r ∷ []) now found ready fresh of number leased
        (granted r own c m))

fresh_attempt :
    (a : Attempt) (attempts : List Attempt)
    → some_row (attempt_clashes a) attempts ≡ false
    → first (is_attempt a.attempt_id) attempts ≡ none
unfolding attempt_clashes
fresh_attempt a attempts =
    first-none (attempt_clashes a) (is_attempt a.attempt_id) attempts (λ x e. ground arith)

module _ (ceil_fraction : ℕ → ℕ) (cpu memory : ℕ) where
  start_body-Steps :
      (stage_run_id : ℕ) (who : Claim) (attempt_id now : ℕ) (db : Db)
      → IsBudgeted ceil_fraction cpu memory who
      → (out : Option Attempt × Db)
      → start_body ceil_fraction stage_run_id who attempt_id now db ≡ ok out
      → Steps cpu memory db out.1
  start_body-Steps stage_run_id who id now db b out h =
      elim (Option-cases (first (is_stage stage_run_id) db.stages)) [
        | inl absent ↦ absurd (unfold start_body in ground arith)
        | inr (stage, found) ↦ elim (Result-cases (reserve ceil_fraction who id db.reservations)) [
          | inr (e, refusal) ↦ absurd (unfold start_body insert_attempt in ground arith)
          | inl (room, decided) ↦
              let (ready, fresh, made) =
                start_body-made ceil_fraction stage_run_id who id now db stage room out found
                  decided h in
              let own : stage.stage_run_id ≡ stage_run_id =
                found_stage_id db.stages stage_run_id found in
              let attempt =
                new_attempt who stage_run_id id (suc (last_number stage_run_id db.attempts)) now in
              rw made (
                settle_claim-Steps cpu memory db stage attempt now room
                  (reserve-Allows ceil_fraction who id db.reservations room b decided)
                  (subst (λ i. first (is_stage i) db.stages ≡ some stage) (sym own) found) ready
                  (fresh_attempt attempt db.attempts fresh) (sym own)
                  (ap (λ i. suc (last_number i db.attempts)) (sym own))
                  (record { running = refl; lease = refl }))
        ]
      ]

  pub start_attempt-Steps :
      (stage_run_id : ℕ) (who : Claim) (attempt_id now : ℕ) (db : Db)
      → IsBudgeted ceil_fraction cpu memory who
      → Steps cpu memory db (start_attempt ceil_fraction stage_run_id who attempt_id now db).1
  unfolding start_attempt
  start_attempt-Steps stage_run_id who id now db b =
      elim (Bool-cases (is_positive who.lease_seconds)) [
        | inr bad ↦ rw bad (here db)
        | inl good ↦ rw good (
            transaction-Steps cpu memory (start_body ceil_fraction stage_run_id who id now) db (
              Post-ok (Refines cpu memory db) (start_body ceil_fraction stage_run_id who id now db)
                (λ out e. start_body-Steps stage_run_id who id now db b out e)))
      ]
