-- ===== src/Optimizer/Accounting.antt =====
-- The books of a result of solver.py's `solve`: its schedule, its unscheduled blocks and their reasons.
use pashupatastra_sih.Prelude.{
  ◌≡◌, refl, sym, ap, ◌∙◌, subst, ◌≢◌, ◌⊎◌, inl, inr, Bool, true, false, not, none, some, String,
  List, [], ◌∷◌, map, keep, ==_iff, All, In, here, there, keep-In, In-keep, Bool-cases, arith,
  All-keep, All-intro,
}
use pashupatastra_sih.Prelude.Dict.{Dict, get, put, get-put}
use pashupatastra_sih.Result.{ok, >>=-eq-ok, ok_injective}
use pashupatastra_sih.Contracts.{
  BlockCandidate, OptimizationRequest, OptimizationResult, ScheduledBlock, Reason,
  no_feasible_solution,
}
use pashupatastra_sih.Python.{Builtins, SetOrder}
use pashupatastra_sih.Optimizer.Cp.{Assignment, CpSolver, CpOutcome, CpStatus, has_solution}
use pashupatastra_sih.Optimizer.Solver.{member}
use pashupatastra_sih.Optimizer.Model.{build_model}
use pashupatastra_sih.Optimizer.Solve.{
  solve, result_of, solved_result, unsolved_result, scheduled_block, present_entries, scheduled_ids,
  left_out, reasons_from, rejection_reason, status_of,
}
use pashupatastra_sih.Optimizer.Unique.{UniqueIds, member-In, In-member}
use pashupatastra_sih.Optimizer.Schedule.{map-In, In-map}
use pashupatastra_sih.Optimizer.Commitment.{IsSolved}

module _ {F : Type 0} (py : Builtins F) (order : SetOrder) (r : OptimizationRequest F) where
  -- A key that no block of the list has keeps its value.
  reasons_from-other :
      (f : BlockCandidate F → Reason) (k : String) (d : Dict Reason) (bs : List (BlockCandidate F))
      → All (λ b. b.block_id ≢ k) bs
      → get k (reasons_from py order r f d bs) ≡ get k d
  unfolding reasons_from
  reasons_from-other f k d [] h = refl
  reasons_from-other f k d (b ∷ bs) h =
      reasons_from-other f k (put b.block_id (f b) d) bs h.1
      ∙ get-put k b.block_id (f b) d
      ∙ ground (arith, ==_iff b.block_id k, h.0)

  reasons_from-own :
      (f : BlockCandidate F → Reason) (bs : List (BlockCandidate F)) (d : Dict Reason)
      {b : BlockCandidate F}
      → UniqueIds bs
      → In b bs
      → get b.block_id (reasons_from py order r f d bs) ≡ some (f b)
  unfolding reasons_from
  reasons_from-own f [] d u i = elim i [ ]
  reasons_from-own f (c ∷ bs) d {b} u (here e) =
      subst
        (λ x. get x.block_id (reasons_from py order r f (put c.block_id (f c) d) bs) ≡ some (f x))
        (sym e)
        (reasons_from-other f c.block_id (put c.block_id (f c) d) bs u.0
          ∙ get-put c.block_id c.block_id (f c) d
          ∙ rw ((==_iff c.block_id c.block_id).1 refl) refl)
  reasons_from-own f (c ∷ bs) d u (there i) = reasons_from-own f bs (put c.block_id (f c) d) u.1 i

pub UniqueIds-keep :
    {F : Type 0} (p : BlockCandidate F → Bool) (bs : List (BlockCandidate F))
    → UniqueIds bs
    → UniqueIds (keep p bs)
unfolding keep
UniqueIds-keep p [] u = tt
UniqueIds-keep p (b ∷ bs) u = elim (Bool-cases (p b)) [
  | inl t ↦ rw t (All-keep (λ c. c.block_id ≢ b.block_id) p bs u.0, UniqueIds-keep p bs u.1)
  | inr f ↦ rw f (UniqueIds-keep p bs u.1)
]

-- How a result accounts for a candidate: it is scheduled and has no rejection reason, or it is left
-- out, has a reason, and no scheduled block has its id.
abbrev pub Accounted : {F : Type 0} → OptimizationResult F → BlockCandidate F → Type 0
Accounted {F} res b =
    ((s : ScheduledBlock F) × In s res.scheduled_blocks
      × (s.block_id ≡ b.block_id)
      × (get b.block_id res.rejection_reasons ≡ none))
    ⊎ (In b res.unscheduled_blocks
        × ((w : Reason) × (get b.block_id res.rejection_reasons ≡ some w))
        × ((s : ScheduledBlock F) → In s res.scheduled_blocks → s.block_id ≢ b.block_id))

scheduled_ids-In :
    {F : Type 0} (v : Assignment) (r : OptimizationRequest F) {k : String}
    → In k (scheduled_ids v r)
    → (s : ScheduledBlock F) × In s (map (scheduled_block v r) (present_entries v r))
      × (s.block_id ≡ k)
unfolding scheduled_ids scheduled_block
scheduled_ids-In v r i =
    let (e, j, q) = map-In (λ e. e.1.block_id) (present_entries v r) i in
    (scheduled_block v r e, In-map (scheduled_block v r) (present_entries v r) j, sym q)

In-scheduled_ids :
    {F : Type 0} (v : Assignment) (r : OptimizationRequest F) {s : ScheduledBlock F}
    → In s (map (scheduled_block v r) (present_entries v r))
    → In s.block_id (scheduled_ids v r)
unfolding scheduled_ids scheduled_block
In-scheduled_ids v r i =
    let (e, j, q) = map-In (scheduled_block v r) (present_entries v r) i in
    subst (λ k. In k (scheduled_ids v r)) (sym (ap (λ s. s.block_id) q))
      (In-map (λ e. e.1.block_id) (present_entries v r) j)

module _ {F : Type 0} (py : Builtins F) (order : SetOrder) (r : OptimizationRequest F)
    (u : UniqueIds r.candidates) where
  solved-Accounted :
      (out : CpOutcome) {b : BlockCandidate F}
      → In b r.candidates
      → Accounted (solved_result py order r (status_of out.status) out.value) b
  unfolding solved_result left_out get
  solved-Accounted out {b} i =
      let v = out.value in
      let done = scheduled_ids v r in
      let out_of = λ (c : BlockCandidate F). not (member c.block_id done) in
      elim (Bool-cases (member b.block_id done)) [
        | inl t ↦
            let (s, j, e) = scheduled_ids-In v r (member-In b.block_id done t) in
            inl (
              s,
              j,
              e,
              reasons_from-other py order r (rejection_reason py order r done) b.block_id []
                  (keep out_of r.candidates)
                  (All-intro (λ c. c.block_id ≢ b.block_id) (keep out_of r.candidates)
                    (λ c k q.
                      clash (keep-In out_of r.candidates k).1
                        (subst (λ x. member x done ≡ true) (sym q) t))),
            )
        | inr f ↦
            let k = In-keep out_of r.candidates i (rw f refl) in
            inr (
              k,
              (
                rejection_reason py order r done b,
                reasons_from-own py order r (rejection_reason py order r done)
                    (keep out_of r.candidates) [] (UniqueIds-keep out_of r.candidates u) k,
              ),
              λ s j e. clash (rw f refl) (
                  subst (λ x. member x done ≡ true) e
                    (In-member s.block_id done (In-scheduled_ids v r j))),
            )
      ]
    where
      clash : {x : Bool} → not x ≡ true → x ≡ true → ⊥
      clash p q = cc (rw q at p)

  unsolved-Accounted :
      (out : CpOutcome) {b : BlockCandidate F}
      → In b r.candidates
      → Accounted (unsolved_result py order r (status_of out.status)) b
  unfolding unsolved_result
  unsolved-Accounted out i = inr (
    i,
    (
      no_feasible_solution,
      reasons_from-own py order r (λ c. no_feasible_solution) r.candidates [] u i,
    ),
    λ s j e. elim j [ ],
  )

  -- Whatever the solver answers, a result of `solve` accounts for every candidate: it is either
  -- scheduled and has no rejection reason, or it is left out, has a rejection reason, and no
  -- scheduled block carries its id. The ids are assumed to be distinct.
  pub solve-Accounted :
      (cp : CpSolver) {res : OptimizationResult F} {b : BlockCandidate F}
      → solve py order r cp ≡ ok res
      → In b r.candidates
      → Accounted res b
  unfolding solve result_of
  solve-Accounted cp {res} {b} e i =
      let (m, em, e1) = >>=-eq-ok (build_model py r) _ e in
      subst (λ x. Accounted x b) (ok_injective e1)
        (elim (Bool-cases (has_solution (cp m).status)) [
          | inl t ↦ rw (t, result_of) (solved-Accounted (cp m) i)
          | inr f ↦ rw (f, result_of) (unsolved-Accounted (cp m) i)
        ])

  -- With a solution, the reason of a block that is left out is the one that the last loop computes.
  pub solved-reason :
      (cp : CpSolver) {res : OptimizationResult F} {b : BlockCandidate F}
      → solve py order r cp ≡ ok res
      → IsSolved res.status
      → In b res.unscheduled_blocks
      → (done : List String) × (get b.block_id res.rejection_reasons
          ≡ some (rejection_reason py order r done b))
  unfolding solve result_of solved_result unsolved_result left_out
  solved-reason cp {res} {b} e solved i =
      let (m, em, e1) = >>=-eq-ok (build_model py r) _ e in
      let done = scheduled_ids (cp m).value r in
      let out_of = λ (c : BlockCandidate F). not (member c.block_id done) in
      elim (Bool-cases (has_solution (cp m).status)) [
        | inl t ↦
            let q = ok_injective (rw (t, result_of) at e1) in
            (
              done,
              subst
                  (λ x.
                    get b.block_id x.rejection_reasons ≡ some (rejection_reason py order r done b))
                  q
                  (reasons_from-own py order r (rejection_reason py order r done)
                    (keep out_of r.candidates) [] (UniqueIds-keep out_of r.candidates u)
                    (subst (λ x. In b x.unscheduled_blocks) (sym q) i)),
            )
        | inr f ↦
            let q = ok_injective (rw (f, result_of) at e1) in
            absurd (unsolved (cp m).status f (subst (λ x. IsSolved x.status) (sym q) solved))
      ]
    where
      unsolved : (c : CpStatus) → has_solution c ≡ false → IsSolved (status_of c) → ⊥
      unsolved c f h = ground arith
