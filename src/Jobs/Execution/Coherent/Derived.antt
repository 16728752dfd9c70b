-- ===== src/Jobs/Execution/Coherent/Derived.antt =====
-- The records that execution.py's `build_execution_records` derives.
use pashupatastra_sih.Prelude.{
  pos, String, Bool, true, false, not, List, [], ◌∷◌, Option, none, some, ◌≡◌, refl, ap, ◌∙◌,
  ==_iff, ◌==◌, find, find-some, arith, inl, inr, Bool-cases, not-eq_false,
}
use pashupatastra_sih.Result.{ok, execution_integrity, Holds, Holds-ok, Holds->>=, Holds->>}
use pashupatastra_sih.Contracts.{Value, text}
use pashupatastra_sih.Python.{Platform}
use pashupatastra_sih.Jobs.State.{Job, JobEvent, execution_id_of, execution_id_key}
use pashupatastra_sih.Jobs.Values.{value_eq_sound}
use pashupatastra_sih.Jobs.Guards.{is_in_progress}
use pashupatastra_sih.Jobs.Validation.{is_execution_event}
use pashupatastra_sih.Jobs.Execution.Ids.{is_execution_id, proposal_id_for}
use pashupatastra_sih.Jobs.Execution.Records.{
  ExecutionRecord, is_open, read_text, started_record, close_record, ended_record, read_run, follow,
  read_event, read_events, open_records, row_agrees, build_execution_records, is_started_event,
}
use pashupatastra_sih.Jobs.Execution.Coherent.{Sound, Coherent}
use pashupatastra_sih.Jobs.Execution.Coherent.Put.{
  All-snoc, Ordered-append, Numbered-append, Ordered-put, Numbered-put, All-put,
}
use pashupatastra_sih.Jobs.Execution.Coherent.Rounds.{started-Begun, ended_record-Ended}

close-Coherent :
    (P : Platform) (job_id : String) (e : JobEvent) (execution_id run : String)
    (order : List ExecutionRecord) (found : Option ExecutionRecord)
    → find (λ r. r.execution_id == execution_id) order ≡ found
    → Coherent job_id order
    → Holds (Coherent job_id) (close_record P e run order found)
unfolding close_record
close-Coherent P job_id e execution_id run order none q c = tt
close-Coherent P job_id e execution_id run order (some r) q c =
    let Q = Coherent job_id in
    Holds->> Q (not (is_open r.status)) execution_integrity _ λ o.
      Holds->> Q (not (run == r.optimization_run_id)) execution_integrity _ λ _.
        Holds->>= Q (ended_record P e r) _ λ new h.
          let end = ended_record-Ended P job_id e r h in
          let (i, named) = find-some (λ r. r.execution_id == execution_id) order q in
          let name = (==_iff r.execution_id execution_id).0 named in
          record {
            ordered =
                Ordered-put execution_id r new end.same name order q
                  (not-eq_false (is_open r.status) o) c.ordered;
            numbered = Numbered-put execution_id r new end.same name 1 order q c.numbered;
            sound =
                All-put execution_id r new end.same name (Sound job_id) order q end.still_sound
                  c.sound;
          }

follow-Coherent :
    (P : Platform) (job_id : String) (e : JobEvent) (execution_id run : String)
    (order : List ExecutionRecord) (starts : Bool)
    → Coherent job_id order
    → Holds (Coherent job_id) (follow P job_id e execution_id run order starts)
unfolding follow
follow-Coherent P job_id e execution_id run order true c =
    Holds->>= (Coherent job_id) (started_record P job_id e execution_id run order) _ λ r h.
      let b = started-Begun P job_id e execution_id run order h in
      record {
        ordered = Ordered-append order r c.ordered b.after;
        numbered = Numbered-append 1 order r c.numbered (b.attempt ∙ ap pos (omega arith));
        sound = All-snoc (Sound job_id) order r c.sound b.is_sound;
      }
follow-Coherent P job_id e execution_id run order false c =
    close-Coherent P job_id e execution_id run order
      (find (λ r. r.execution_id == execution_id) order) refl c

event-Coherent :
    (P : Platform) (job_id : String) (e : JobEvent) (order : List ExecutionRecord)
    → Coherent job_id order
    → Holds (Coherent job_id) (read_event P job_id e order)
unfolding read_event
event-Coherent P job_id e order c = elim (Bool-cases (is_execution_event e.event_type)) [
  | inl t ↦
      let Q = Coherent job_id in
      rw t (
        Holds->> Q (not (e.job_id == job_id)) execution_integrity _ λ _.
          Holds->>= Q (read_text execution_id_key e) _ λ execution_id _.
            Holds->> Q (not (is_execution_id execution_id)) execution_integrity _ λ _.
              Holds->>= Q (read_run e) _ λ run _.
                Holds->>= Q (read_text "proposal_id" e) _ λ proposal _.
                  Holds->> Q (not (proposal == proposal_id_for run job_id)) execution_integrity _
                    λ _.
                      follow-Coherent P job_id e execution_id run order
                        (is_started_event e.event_type) c)
  | inr f ↦ rw f c
]

events-Coherent :
    (P : Platform) (job_id : String) (order : List ExecutionRecord) (es : List JobEvent)
    → Coherent job_id order
    → Holds (Coherent job_id) (read_events P job_id order es)
unfolding read_events
events-Coherent P job_id order [] c = c
events-Coherent P job_id order (e ∷ es) c =
    Holds->>= (Coherent job_id) (read_event P job_id e order) _ λ next h.
      events-Coherent P job_id next es (
        Holds-ok (Coherent job_id) (read_event P job_id e order) (event-Coherent P job_id e order c)
          h)

-- The open executions are the one that the row names, if field work is in progress, or none.
abbrev pub Agreed : Bool → Value → List ExecutionRecord → Type 0
Agreed true named rs =
    (r : ExecutionRecord) × (open_records rs ≡ r ∷ []) × (text r.execution_id ≡ named)
Agreed false named rs = open_records rs ≡ []

agreed :
    (running : Bool) (named : Value) (rs os : List ExecutionRecord)
    → open_records rs ≡ os
    → row_agrees running named os ≡ true
    → Agreed running named rs
agreed true named rs [] e h = cc
agreed true named rs (r ∷ []) e h = (r, e, value_eq_sound (text r.execution_id) named h)
agreed true named rs (r ∷ s ∷ os) e h = cc
agreed false named rs [] e h = e
agreed false named rs (r ∷ os) e h = cc

-- The records of a history that is accepted are coherent, and they agree with the row: the attempts
-- are numbered from 1, all have different ids and different optimization runs, all but the last
-- ended without completing the work, each has evidence from before the work and, if completed,
-- after it, and an execution is open exactly where the job is in progress, with the row's id.
pub build_execution_records-Coherent :
    {F : Type 0} (P : Platform) (j : Job F) (history : List JobEvent) {rs : List ExecutionRecord}
    → build_execution_records P j history ≡ ok rs
    → Coherent j.job_id rs × Agreed (is_in_progress j.status) (execution_id_of j) rs
unfolding build_execution_records
build_execution_records-Coherent P j history {rs} h =
    let Q = λ (rs : List ExecutionRecord).
      Coherent j.job_id rs × Agreed (is_in_progress j.status) (execution_id_of j) rs in
    Holds-ok Q (build_execution_records P j history)
      (Holds->>= Q (read_events P j.job_id [] history) _ λ records e.
        Holds->> Q
          (not (row_agrees (is_in_progress j.status) (execution_id_of j) (open_records records)))
          execution_integrity _
          λ a. (
            Holds-ok (Coherent j.job_id) (read_events P j.job_id [] history)
                (events-Coherent P j.job_id [] history none_yet) e,
            agreed (is_in_progress j.status) (execution_id_of j) records (open_records records) refl
                (not-eq_false _ a),
          ))
      h
  where
    none_yet : Coherent j.job_id []
    none_yet = record { ordered = tt; numbered = tt; sound = tt }
