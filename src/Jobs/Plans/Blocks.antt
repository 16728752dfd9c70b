-- ===== src/Jobs/Plans/Blocks.antt =====
-- backend/app/jobs/lifecycle.py: the block helpers and the checks that the plans share.
use pashupatastra_sih.Prelude.{
  ℤ, max_ℤ, String, Bool, true, false, not, ◌||◌, Option, none, some, [], ◌∷◌, if◌then◌else◌,
}
use pashupatastra_sih.Prelude.Blank.{is_blank}
use pashupatastra_sih.Prelude.Dict.{Dict, get, put, pop}
use pashupatastra_sih.Result.{Result, ok, err, raise_if, key_error, invalid_transition}
use pashupatastra_sih.Contracts.{BlockCandidate, Value, null, num, text}
use pashupatastra_sih.Contracts
use pashupatastra_sih.Jobs.State.{
  ActorRole, unidentified, ActorKind, human, system_kind, Actor, kind_of, reported, Job,
  JobMutation, committed_start_key, committed_end_key, proposal_run_id_key, execution_id_key,
  proposal_run_id_of,
}

-- `_with_placement`
unfoldable pub with_placement :
    {F : Type 0} → BlockCandidate F → ℤ → ℤ → Option String → BlockCandidate F
with_placement block start end run =
    let metadata =
      put committed_end_key (num end) (put committed_start_key (num start) block.metadata) in
    record block {
      metadata = elim run [
        | none ↦ pop proposal_run_id_key metadata
        | some r ↦ put proposal_run_id_key (text r) metadata
      ];
      status = Contracts.scheduled;
      is_committed = false;
    }

-- `_without_placement`
unfoldable pub without_placement : {F : Type 0} → BlockCandidate F → BlockCandidate F
without_placement block = record block {
  metadata =
      pop execution_id_key
        (pop proposal_run_id_key (pop committed_end_key (pop committed_start_key block.metadata)));
  status = Contracts.planned;
  is_committed = false;
}

-- `_committed`
unfoldable pub committed_block : {F : Type 0} → BlockCandidate F → BlockCandidate F
committed_block block = record block { status = Contracts.committed; is_committed = true }

-- `_withdrawn`
unfoldable pub withdrawn : {F : Type 0} → JobMutation F → Job F → String → JobMutation F
withdrawn base job reason = record base {
  status = reported;
  schedule_start_minute = none;
  schedule_end_minute = none;
  last_refusal_reason = some reason;
  block_candidate = without_placement job.block_candidate;
}

-- `_raise_not_before`: the block, its earliest start, and its latest end before and after.
unfoldable pub raise_not_before :
    {F : Type 0} → BlockCandidate F → ℤ → ℤ → Bool → BlockCandidate F × ℤ × ℤ × ℤ
raise_not_before block not_before horizon never_lower =
    let earliest =
      (if never_lower then max_ℤ block.earliest_start_minute not_before else not_before) in
    let widened = max_ℤ block.latest_end_minute horizon in
    (
      record block { earliest_start_minute = earliest; latest_end_minute = widened },
      earliest,
      block.latest_end_minute,
      widened,
    )

-- A minute of a row as a metadata value.
abbrev pub minute_value : Option ℤ → Value
minute_value none = null
minute_value (some n) = num n

abbrev pub text_value : Option String → Value
text_value none = null
text_value (some s) = text s

-- `{**a, **b}`
unfoldable pub merge : Dict Value → Dict Value → Dict Value
merge a [] = a
merge a ((k, v) ∷ b) = merge (put k v a) b

-- `_withdrawn_metadata`
unfoldable pub withdrawn_metadata : {F : Type 0} → Job F → Dict Value
withdrawn_metadata job =
    ("withdrawn_start_minute", minute_value job.schedule_start_minute)
    ∷ ("withdrawn_end_minute", minute_value job.schedule_end_minute)
    ∷ ("withdrawn_proposal_run_id", proposal_run_id_of job)
    ∷ []

-- `_require_nonblank`
abbrev pub require_nonblank : String → Result (Unit {0})
require_nonblank s = raise_if (is_blank s) invalid_transition

abbrev pub is_human : ActorKind → Bool
is_human human = true
is_human system_kind = false

abbrev pub is_unidentified : ActorRole → Bool
is_unidentified unidentified = true
is_unidentified _ = false

-- `_require_identified_human`
unfoldable pub require_identified_human : Actor → Result (Unit {0})
require_identified_human actor =
    raise_if (not (is_human (kind_of actor.role)) || is_unidentified actor.role) invalid_transition

-- `rows[job_id]`
abbrev pub lookup : {F : Type 0} → String → Dict (Job F) → Result (Job F)
lookup k rows = elim (get k rows) [ none ↦ err key_error | some j ↦ ok j ]
