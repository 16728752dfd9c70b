-- ===== src/Jobs/Execution/Coherent/Rounds.antt =====
-- One start and one outcome of execution.py's `build_execution_records`.
use pashupatastra_sih.Prelude.{
  suc, ℤ, pos, ◌<ℤ◌, leb_ℤ, ltb_ℤ, eqb_ℤ, eqb_ℤ_sound, String, Bool, true, false, not, ◌||◌, List,
  [], ◌∷◌, some, ◌≡◌, refl, ==_iff, ◌==◌, any, length, All, arith, inl, inr, Bool-cases,
  not-eq_false,
}
use pashupatastra_sih.Result.{ok, execution_integrity, Holds, Holds-ok, Holds->>=, Holds->>}
use pashupatastra_sih.Python.{Platform}
use pashupatastra_sih.Jobs.State.{JobEvent}
use pashupatastra_sih.Jobs.Guards.{is_empty}
use pashupatastra_sih.Jobs.Execution.Evidence.{
  before_work, after_work, work_not_completed, captured_moment,
}
use pashupatastra_sih.Jobs.Execution.Records.{
  ExecutionRecord, ExecutionStatus, started, ended_complete, ended_not_complete, is_open,
  is_ended_complete, blocks_start, read_text, read_int, read_timestamp, read_evidence,
  read_optional_text, read_deviation, started_record, given_reason, outcome_record, ended_record,
  is_completed_event,
}
use pashupatastra_sih.Jobs.Execution.Coherent.{Follows, Sound, SameExecution}

-- The checks of a start that passed, and what they say of the record.
pub record Begun (job_id run : String) (order : List ExecutionRecord) (r : ExecutionRecord)
    : Type 0 where
  pub after : All (λ x. Follows x r) order
  pub attempt : r.attempt_number ≡ pos (suc (length order))
  pub is_sound : Sound job_id r
  pub is_started : r.status ≡ started

pub not_blocking :
    (run : String) (x : ExecutionRecord)
    → blocks_start run x ≡ false
    → (x.status ≡ ended_not_complete) × ((x.optimization_run_id == run) ≡ false)
not_blocking run x h = by_status x.status h
  where
    by_status :
        (s : ExecutionStatus)
        → (is_open s || (is_ended_complete s || x.optimization_run_id == run)) ≡ false
        → (s ≡ ended_not_complete) × ((x.optimization_run_id == run) ≡ false)
    by_status started q = cc
    by_status ended_complete q = cc
    by_status ended_not_complete q = (refl, q)

pub All-before :
    (order : List ExecutionRecord) (s : ExecutionRecord)
    → any (λ r. r.execution_id == s.execution_id) order ≡ false
    → any (blocks_start s.optimization_run_id) order ≡ false
    → All (λ x. Follows x s) order
unfolding any
All-before [] s h b = tt
All-before (x ∷ order) s h b = elim (Bool-cases (x.execution_id == s.execution_id)) [
  | inl t ↦ cc (rw (t, any) at h)
  | inr f ↦ elim (Bool-cases (blocks_start s.optimization_run_id x)) [
    | inl t ↦ cc (rw (t, any) at b)
    | inr g ↦
        let (ended, unlike) = not_blocking s.optimization_run_id x g in
        (
          record {
            gave_up = ended;
            new_id = λ e. cc ((==_iff x.execution_id s.execution_id).1 e, f);
            new_run = λ e. cc ((==_iff x.optimization_run_id s.optimization_run_id).1 e, unlike);
          },
          All-before order s (rw f at h) (rw g at b),
        )
  ]
]

pub started-Begun :
    (P : Platform) (job_id : String) (e : JobEvent) (execution_id run : String)
    (order : List ExecutionRecord) {r : ExecutionRecord}
    → started_record P job_id e execution_id run order ≡ ok r
    → Begun job_id run order r
unfolding started_record
started-Begun P job_id e execution_id run order h =
    let Q = Begun job_id run order in
    Holds-ok Q (started_record P job_id e execution_id run order)
      (Holds->> Q (any (λ r. r.execution_id == execution_id) order) execution_integrity _ λ a.
        Holds->> Q (any (blocks_start run) order) execution_integrity _ λ b.
          Holds->>= Q (read_int "attempt_number" e) _ λ n _.
            Holds->> Q (not (eqb_ℤ n (pos (suc (length order))))) execution_integrity _ λ c.
              Holds->>= Q (read_int "planned_start_minute" e) _ λ ps _.
                Holds->>= Q (read_int "planned_end_minute" e) _ λ pe _.
                  Holds->> Q (leb_ℤ pe ps) execution_integrity _ λ w.
                    Holds->>= Q (read_text "committed_block_digest" e) _ λ digest _.
                      Holds->>= Q (read_timestamp P "actual_start_at" e) _ λ at _.
                        Holds->>= Q (read_int "actual_start_minute" e) _ λ m _.
                          Holds->>= Q (read_evidence P "before_work_evidence" before_work e) _
                            λ before _. Holds->> Q (is_empty before) execution_integrity _ λ shown.
                              Holds->>= Q (read_text "proposal_id" e) _ λ proposal _.
                                Holds->>= Q (read_text "track_id" e) _ λ track _.
                                  Holds->>= Q (read_optional_text "section_id" e) _ λ section _.
                                    Holds->>= Q (read_deviation "started_before_planned_start" e) _
                                      λ early _. record {
                                        after = All-before order _ a b;
                                        attempt =
                                            eqb_ℤ_sound n (pos (suc (length order)))
                                              (not-eq_false _ c);
                                        is_sound = record {
                                          of_job = refl;
                                          window = in_order ps pe w;
                                          shown = shown;
                                          proved = λ q. cc q;
                                        };
                                        is_started = refl;
                                      })
      h
  where
    in_order : (a b : ℤ) → leb_ℤ b a ≡ false → a <ℤ b
    in_order a b q = ground arith

-- What an outcome keeps of the record of its execution.
pub record Ended (job_id : String) (r new : ExecutionRecord) : Type 0 where
  pub same : SameExecution r new
  pub still_sound : Sound job_id r → Sound job_id new

pub outcome-Ended :
    (P : Platform) (job_id : String) (e : JobEvent) (r : ExecutionRecord) (completes : Bool)
    (x : ExecutionRecord)
    → SameExecution r x
    → (Sound job_id r → Sound job_id x)
    → Holds (Ended job_id r) (outcome_record P e x completes)
unfolding outcome_record
outcome-Ended P job_id e r true x same sound =
    let Q = Ended job_id r in
    Holds->>= Q (read_evidence P "after_work_evidence" after_work e) _ λ after _.
      Holds->> Q (is_empty after) execution_integrity _ λ shown. record {
        same = record {
          same_id = same.same_id;
          same_run = same.same_run;
          same_attempt = same.same_attempt;
        };
        still_sound = λ s.
            let t = sound s in
            record { of_job = t.of_job; window = t.window; shown = t.shown; proved = λ _. shown };
      }
outcome-Ended P job_id e r false x same sound =
    let Q = Ended job_id r in
    Holds->>= Q (given_reason e.reason) _ λ reason _.
      Holds->>= Q (read_evidence P "failure_evidence" work_not_completed e) _ λ failure _. record {
        same = record {
          same_id = same.same_id;
          same_run = same.same_run;
          same_attempt = same.same_attempt;
        };
        still_sound = λ s.
            let t = sound s in
            record { of_job = t.of_job; window = t.window; shown = t.shown; proved = λ q. cc q };
      }

pub ended_record-Ended :
    (P : Platform) (job_id : String) (e : JobEvent) (r : ExecutionRecord) {new : ExecutionRecord}
    → ended_record P e r ≡ ok new
    → Ended job_id r new
unfolding ended_record
ended_record-Ended P job_id e r h =
    let Q = Ended job_id r in
    Holds-ok Q (ended_record P e r)
      (Holds->>= Q (read_text "committed_block_digest" e) _ λ digest _.
        Holds->> Q (not (digest == r.committed_block_digest)) execution_integrity _ λ _.
          Holds->>= Q (read_timestamp P "actual_end_at" e) _ λ at _.
            Holds->>= Q (captured_moment P at) _ λ ended _.
              Holds->>= Q (captured_moment P r.actual_start_at) _ λ began _.
                Holds->> Q (ltb_ℤ ended began) execution_integrity _ λ _.
                  Holds->>= Q (read_int "actual_end_minute" e) _ λ minute _.
                    Holds->>= Q (read_deviation "ended_after_planned_end" e) _ λ late _.
                      outcome-Ended P job_id e r (is_completed_event e.event_type)
                        (record r {
                          actual_end_at = some at;
                          actual_end_minute = some minute;
                          ended_by = some e.actor;
                          ended_recorded_at = some e.occurred_at;
                          ended_after_planned_end = some late;
                        })
                        (record { same_id = refl; same_run = refl; same_attempt = refl })
                        (λ s. record {
                          of_job = s.of_job;
                          window = s.window;
                          shown = s.shown;
                          proved = s.proved;
                        }))
      h
