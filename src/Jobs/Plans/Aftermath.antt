-- ===== src/Jobs/Plans/Aftermath.antt =====
-- What lifecycle.py's `plan_optimization_failure` writes.
use pashupatastra_sih.Prelude.{
  ◌≡◌, refl, ap, String, Bool, true, false, Option, none, some, List, [], ◌∷◌, ◌++◌, keep, All, ◌⊎◌,
  inl, inr, arith, if◌then◌else◌,
}
use pashupatastra_sih.Prelude.Dict.{Dict, get}
use pashupatastra_sih.Result.{ok, err, ◌>>=◌, ok_injective, key_error, Holds, Holds-ok, Holds->>=}
use pashupatastra_sih.Jobs.State.{
  JobStatus, reported, scheduled, Job, JobMutation, JobEvent, unchanged,
}
use pashupatastra_sih.Jobs.Guards.{
  is_terminal, committed_state_problems, assert_committed_state_consistent, gate_release_transition,
  gate_execution_transition, required_kind,
}
use pashupatastra_sih.Jobs.Validation.{
  is_scheduled, protect_committed_and_terminal_state, assert_placement_invariants,
  validate_mutation,
}
use pashupatastra_sih.Jobs.Protection.{IsWellFormed}
use pashupatastra_sih.Jobs.Plans.Blocks.{lookup, withdrawn}
use pashupatastra_sih.Jobs.Plans.Kept.{validate-kept}
use pashupatastra_sih.Jobs.Events.{make_events}
use pashupatastra_sih.Jobs.Plans.Optimization.{OptimizationAttempt, requested_event}
use pashupatastra_sih.Jobs.Plans.Failure.{
  failure_base, failure_mutation, failure_events, failure_of, plan_optimization_failure,
}

-- The mutation keeps a job's status, block and schedule.
pub record Untouched {F : Type 0} (j : Job F) (m : JobMutation F) : Type 0 where
  pub same_status : m.status ≡ j.status
  pub same_block : m.block_candidate ≡ j.block_candidate
  pub same_start : m.schedule_start_minute ≡ j.schedule_start_minute
  pub same_end : m.schedule_end_minute ≡ j.schedule_end_minute

-- The mutation withdraws a proposal that is not committed.
pub record Unproposed {F : Type 0} (j : Job F) (m : JobMutation F) : Type 0 where
  pub was_proposed : j.status ≡ scheduled
  pub now_reported : m.status ≡ reported
  pub no_start : m.schedule_start_minute ≡ none
  pub no_end : m.schedule_end_minute ≡ none

-- A mutation of one of the rows, which the row's checks accept.
pub record Harmless {F : Type 0} (rows : Dict (Job F)) (m : JobMutation F) : Type 0 where
  pub key : String
  pub job : Job F
  pub read : get key rows ≡ some job
  pub active : is_terminal job.status ≡ false
  pub accepted : validate_mutation job m ≡ ok tt
  pub effect : Untouched job m ⊎ Unproposed job m

scheduled-eq : (s : JobStatus) → is_scheduled s ≡ true → s ≡ scheduled
scheduled-eq s h = ground arith

validate-withdrawn :
    {F : Type 0} (j : Job F) (failed_at reason label : String)
    → j.status ≡ scheduled
    → validate_mutation j (withdrawn (failure_base j failed_at reason label) j reason) ≡ ok tt
unfolding validate_mutation protect_committed_and_terminal_state assert_committed_state_consistent
    gate_execution_transition gate_release_transition required_kind committed_state_problems
    assert_placement_invariants withdrawn unchanged keep
validate-withdrawn j failed_at reason label s = rw s refl

failure-Harmless :
    {F : Type 0} (rows : Dict (Job F)) (k : String) (j : Job F) (failed_at reason label : String)
    (b : Bool)
    → is_scheduled j.status ≡ b
    → get k rows ≡ some j
    → is_terminal j.status ≡ false
    → IsWellFormed j
    → Harmless rows (
        if b
        then withdrawn (failure_base j failed_at reason label) j reason
        else failure_base j failed_at reason label)
unfolding withdrawn unchanged
failure-Harmless rows k j failed_at reason label true s g t w = record {
  key = k;
  job = j;
  read = g;
  active = t;
  accepted = validate-withdrawn j failed_at reason label (scheduled-eq j.status s);
  effect = inr (record {
    was_proposed = scheduled-eq j.status s;
    now_reported = refl;
    no_start = refl;
    no_end = refl;
  });
}
failure-Harmless rows k j failed_at reason label false s g t w = record {
  key = k;
  job = j;
  read = g;
  active = t;
  accepted = validate-kept j (some failed_at) (some label) (some reason) w t;
  effect =
      inl (record { same_status = refl; same_block = refl; same_start = refl; same_end = refl });
}

abbrev AllHarmless : {F : Type 0} → Dict (Job F) → List (JobMutation F) × List JobEvent → Type 0
AllHarmless rows planned = All (Harmless rows) planned.0

round-AllHarmless :
    {F : Type 0} (rows : Dict (Job F)) (k : String) (j : Job F) (attempt : OptimizationAttempt)
    (failed_at reason label : String) (b : Bool)
    → is_terminal j.status ≡ b
    → get k rows ≡ some j
    → IsWellFormed j
    → Holds (AllHarmless rows) (
        if b then ok ([], []) else do
          now ← requested_event j attempt
          failed ← make_events (failure_events j attempt failed_at reason label)
          ok (failure_mutation j failed_at reason label ∷ [], now ∷ failed))
unfolding failure_mutation
round-AllHarmless rows k j attempt failed_at reason label true t g w = tt
round-AllHarmless rows k j attempt failed_at reason label false t g w =
    let Q = AllHarmless rows in
    Holds->>= Q (requested_event j attempt) _ λ now _.
      Holds->>= Q (make_events (failure_events j attempt failed_at reason label)) _ λ failed _.
        (failure-Harmless rows k j failed_at reason label (is_scheduled j.status) refl g t w, tt)

All-append_both :
    {A : Type 0} (Q : A → Type 0) (xs ys : List A) → All Q xs → All Q ys → All Q (xs ++ ys)
All-append_both Q [] ys a b = b
All-append_both Q (x ∷ xs) ys a b = (a.0, All-append_both Q xs ys a.1 b)

lookup-get :
    {F : Type 0} (k : String) (rows : Dict (Job F)) {j : Job F}
    → lookup k rows ≡ ok j
    → get k rows ≡ some j
lookup-get {F} k rows {j = j} h = found (get k rows) h
  where
    found :
        (o : Option (Job F)) → (elim o [ none ↦ err key_error | some x ↦ ok x ]) ≡ ok j → o ≡ some j
    found none e = cc
    found (some x) e = ap some (ok_injective e)

rounds-AllHarmless :
    {F : Type 0} (ks : List String) (attempt : OptimizationAttempt)
    (failed_at reason label : String) (rows : Dict (Job F))
    → ((k : String) (j : Job F) → get k rows ≡ some j → IsWellFormed j)
    → Holds (AllHarmless rows) (plan_optimization_failure ks attempt failed_at reason label rows)
unfolding plan_optimization_failure failure_of
rounds-AllHarmless [] attempt failed_at reason label rows w = tt
rounds-AllHarmless (k ∷ ks) attempt failed_at reason label rows w =
    let Q = AllHarmless rows in
    Holds->>= Q (lookup k rows) _ λ j h.
      Holds->>= Q (failure_of attempt failed_at reason label j) _ λ now e.
        Holds->>= Q (plan_optimization_failure ks attempt failed_at reason label rows) _ λ rest f.
          let g = lookup-get k rows h in
          All-append_both (Harmless rows) now.0 rest.0
            (Holds-ok Q (failure_of attempt failed_at reason label j)
              (round-AllHarmless rows k j attempt failed_at reason label (is_terminal j.status) refl
                g (w k j g))
              e)
            (Holds-ok Q (plan_optimization_failure ks attempt failed_at reason label rows)
              (rounds-AllHarmless ks attempt failed_at reason label rows w) f)

-- Where the rows are well-formed, every mutation that a failed optimization plans is accepted for
-- the row that it was read from, which is not completed: it either keeps the job's status, block and
-- schedule, or withdraws a proposal that was not committed.
pub plan_optimization_failure-Harmless :
    {F : Type 0} (ks : List String) (attempt : OptimizationAttempt)
    (failed_at reason label : String) (rows : Dict (Job F)) {ms : List (JobMutation F)}
    {es : List JobEvent}
    → ((k : String) (j : Job F) → get k rows ≡ some j → IsWellFormed j)
    → plan_optimization_failure ks attempt failed_at reason label rows ≡ ok (ms, es)
    → All (Harmless rows) ms
plan_optimization_failure-Harmless ks attempt failed_at reason label rows w h =
    Holds-ok (AllHarmless rows) (plan_optimization_failure ks attempt failed_at reason label rows)
      (rounds-AllHarmless ks attempt failed_at reason label rows w) h
