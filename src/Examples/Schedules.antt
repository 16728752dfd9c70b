-- ===== src/Examples/Schedules.antt =====
-- The theorems about `solve` at one corridor.
use pashupatastra_sih.Prelude.{
  ℤ, pos, ◌+ℤ◌, ◌-ℤ◌, max_ℤ, min_ℤ, keep, any, ◌≤ℤ◌, ◌≡◌, refl, true, some, ◌⊎◌, inl, In, here,
  there, arith,
}
use pashupatastra_sih.Prelude.Dict.{get}
use pashupatastra_sih.Result.{ok}
use pashupatastra_sih.Contracts.{BlockCandidate, ScheduledBlock, no_possession_covers, committed}
use pashupatastra_sih.Optimizer.Solver.{
  horizon_of, committed_by_id, committed_placement, possession_window_covers_block, does_not_fit,
  clamp_window,
}
use pashupatastra_sih.Optimizer.Model.{headway_of}
use pashupatastra_sih.Optimizer.Feasible.{InWindow}
use pashupatastra_sih.Optimizer.Possession.{Covered, scheduled_possession}
use pashupatastra_sih.Optimizer.Schedule.{scheduled-InWindow}
use pashupatastra_sih.Optimizer.Clearance.{HasDuration, scheduled_headway, scheduled_mutex}
use pashupatastra_sih.Optimizer.Commitment.{scheduled_dependency, solve-keeps_committed}
use pashupatastra_sih.Optimizer.Accounting.{Accounted, solve-Accounted}
use pashupatastra_sih.Optimizer.Refusal.{uncovered_refused}
use pashupatastra_sih.Examples.Checker.{checking, checking-IsSound}
use pashupatastra_sih.Examples.Requests.{
  python, in_order, request, timetable, result, solved-ok, request-UniqueIds, ids_differ, placed,
  first_work, second_work, promised_work, promise, open_line_work,
}

request-HasDuration : HasDuration request
request-HasDuration = (ground arith, (ground arith, (ground arith, (ground arith, tt))))

scheduled-InWindow_example :
    (b : BlockCandidate ℤ) × In b request.candidates
    × ("B2" ≡ b.block_id)
    × ("T1" ≡ b.track_id)
    × InWindow (horizon_of request) b (pos 70) (pos 100)
scheduled-InWindow_example =
    scheduled-InWindow python in_order request (checking timetable) {res = result}
      {s = placed second_work (pos 70) (pos 100)} (checking-IsSound timetable) request-UniqueIds
      solved-ok (there (here refl))

scheduled_possession_example :
    (b : BlockCandidate ℤ) × In b request.candidates
    × ("B2" ≡ b.block_id)
    × ("T1" ≡ b.track_id)
    × Covered request b (pos 70) (pos 100)
scheduled_possession_example =
    scheduled_possession python in_order request (checking timetable) {res = result}
      {s = placed second_work (pos 70) (pos 100)} (checking-IsSound timetable) request-UniqueIds
      solved-ok (there (here refl)) (λ q. cc)

scheduled_headway_example :
    (pos 60 +ℤ headway_of request ≤ℤ pos 70) ⊎ (pos 100 +ℤ headway_of request ≤ℤ pos 0)
scheduled_headway_example =
    scheduled_headway python in_order request (checking timetable) {res = result}
      {s = placed first_work (pos 0) (pos 60)} {t = placed second_work (pos 70) (pos 100)}
      (checking-IsSound timetable) request-UniqueIds request-HasDuration solved-ok (here refl)
      (there (here refl)) (ids_differ "B1" "B2" refl) refl refl

scheduled_mutex_example : (pos 60 ≤ℤ pos 70) ⊎ (pos 100 ≤ℤ pos 0)
scheduled_mutex_example =
    scheduled_mutex python in_order request (checking timetable) {res = result}
      {s = placed first_work (pos 0) (pos 60)} {t = placed second_work (pos 70) (pos 100)}
      (checking-IsSound timetable) request-UniqueIds request-HasDuration solved-ok (here refl)
      (there (here refl)) (ids_differ "B1" "B2" refl) {b = first_work} {c = second_work}
      {g = "CREW"} (here refl) (there (here refl)) refl refl refl refl (ids_differ "CREW" "" refl)

scheduled_dependency_example :
    (t : ScheduledBlock ℤ) × In t result.scheduled_blocks
    × (t.block_id ≡ "B1")
    × (t.end_minute ≤ℤ pos 70)
scheduled_dependency_example =
    scheduled_dependency python in_order request (checking timetable) {res = result}
      {s = placed second_work (pos 70) (pos 100)} {b = second_work} {c = first_work}
      (checking-IsSound timetable) request-UniqueIds solved-ok (there (here refl))
      (there (here refl)) refl (here refl) (here refl)

solve-keeps_committed_example :
    (p : ℤ × ℤ) × (s : ScheduledBlock ℤ) × (committed_placement python promise ≡ ok p)
    × In s result.scheduled_blocks
    × (s.block_id ≡ "B4")
    × (s.start_minute ≡ p.0)
    × (s.end_minute ≡ p.1)
    × (s.is_committed ≡ true)
    × (s.status ≡ committed)
unfolding committed_by_id keep any possession_window_covers_block
solve-keeps_committed_example =
    solve-keeps_committed python in_order request (checking timetable) {res = result}
      {b = promised_work} {c = promise} (checking-IsSound timetable) request-UniqueIds solved-ok
      (inl refl) (there (there (there (here refl)))) refl refl

solve-Accounted_example : Accounted result open_line_work
solve-Accounted_example =
    solve-Accounted python in_order request request-UniqueIds (checking timetable) {res = result}
      {b = open_line_work} solved-ok (there (there (here refl)))

uncovered_refused_example :
    In open_line_work result.unscheduled_blocks
    × (get "B3" result.rejection_reasons ≡ some (no_possession_covers "T2"))
unfolding possession_window_covers_block any does_not_fit clamp_window max_ℤ min_ℤ ◌-ℤ◌
uncovered_refused_example =
    uncovered_refused python in_order request (checking timetable) {res = result}
      {b = open_line_work} (checking-IsSound timetable) request-UniqueIds solved-ok (inl refl)
      (λ q. cc) (there (there (here refl))) refl refl
