-- ===== src/Jobs/Obligations/Allowance.antt =====
-- The allowances of the obligations on a clock.
use pashupatastra_sih.Prelude.{pos, ◌<ℤ◌, not, ◌&&◌, Option, List, ◌≡◌, ◌==◌, any}
use pashupatastra_sih.Result.{ok, Holds, Holds-ok, Holds->>=, Holds->>, obligation_integrity}
use pashupatastra_sih.Contracts.{text}
use pashupatastra_sih.Python.{Platform, Durations}
use pashupatastra_sih.Jobs.State.{
  Job, JobStatus, reported, scheduled, notified, in_progress, completed, get_value, value_eq,
  execution_id_key, proposal_run_id_of,
}
use pashupatastra_sih.Jobs.Execution.Records.{ExecutionRecord, open_records}
use pashupatastra_sih.Jobs.SlaPolicy.{SlaPolicy}
use pashupatastra_sih.Jobs.SlaPolicy.Ladder.{Numbers}
use pashupatastra_sih.Jobs.Obligations.{
  StoredJobEvent, last_of, events_after, is_placement, is_block_committed, is_execution_start,
}
use pashupatastra_sih.Jobs.Obligations.Derive.{
  Owed, clocked, unclocked, is_null, of_run, present, settles, only, approval, execution_start,
  completion, records_of, reported_obligation, owed_by,
}
use pashupatastra_sih.Jobs.Obligations.Clock.{Due}

module _ {F G : Type 0} {D : Durations F} {p : SlaPolicy F} (numbers : Numbers D p) (job : Job G)
    (events : List StoredJobEvent) where
  approval-positive : {due : Due} → approval p job events ≡ ok due → pos 0 <ℤ due.sla
  unfolding approval
  approval-positive h =
      let run = proposal_run_id_of job in
      let latest = last_of (λ e. of_run run e && is_placement e.event_type) events in
      let Q : Due → Type 0 = λ due. pos 0 <ℤ due.sla in
      Holds-ok Q (approval p job events)
        (Holds->> Q (is_null run) obligation_integrity _ λ _. Holds->>= Q (present latest) _ λ s _.
          Holds->>= Q (events_after s.event_id events) _ λ after _.
            Holds->> Q (any (λ t. settles run t.event) after) obligation_integrity _
              λ _. numbers.approval)
        h

  execution_start-positive : {due : Due} → execution_start p job events ≡ ok due → pos 0 <ℤ due.sla
  unfolding execution_start
  execution_start-positive h =
      let run = proposal_run_id_of job in
      let latest = last_of (λ e. of_run run e && is_block_committed e.event_type) events in
      let Q : Due → Type 0 = λ due. pos 0 <ℤ due.sla in
      Holds-ok Q (execution_start p job events)
        (Holds->> Q (is_null run) obligation_integrity _
          λ _. Holds->>= Q (present latest) _ λ s _. numbers.execution)
        h

  completion-positive :
      (records : List ExecutionRecord) {due : Due}
      → completion p events records ≡ ok due
      → pos 0 <ℤ due.sla
  unfolding completion
  completion-positive records h =
      let Q : Due → Type 0 = λ due. pos 0 <ℤ due.sla in
      Holds-ok Q (completion p events records)
        (Holds->>= Q (only (open_records records)) _ λ r _.
          Holds->>= Q
            (present (
              last_of
                (λ e.
                  is_execution_start e.event_type
                  && value_eq (get_value execution_id_key e.metadata) (text r.execution_id))
                events))
            _
            λ a _.
              Holds->> Q (not (a.event.occurred_at == r.started_recorded_at)) obligation_integrity _
                λ _. numbers.completion)
        h

  -- The allowance of an obligation on a clock is one of the policy's.
  unfoldable pub HasAllowance : Owed → Type 0
  HasAllowance (clocked due) = pos 0 <ℤ due.sla
  HasAllowance (unclocked s) = Unit

  pub owed_by-HasAllowance :
      (P : Platform) (records : Option (List ExecutionRecord)) (status : JobStatus)
      → Holds HasAllowance (owed_by P p job events records status)
  unfolding owed_by HasAllowance
  owed_by-HasAllowance P records scheduled =
      Holds->>= HasAllowance (approval p job events) _ λ due h. approval-positive h
  owed_by-HasAllowance P records notified =
      Holds->>= HasAllowance (execution_start p job events) _ λ due h. execution_start-positive h
  owed_by-HasAllowance P records in_progress =
      Holds->>= HasAllowance (records_of P job events records) _
        λ rs _. Holds->>= HasAllowance (completion p events rs) _ λ due h. completion-positive rs h
  owed_by-HasAllowance P records reported =
      Holds->>= HasAllowance (reported_obligation events) _ λ s _. tt
  owed_by-HasAllowance P records completed = tt
