-- ===== src/Jobs/Protection.antt =====
-- The well-formed rows of the table of jobs, and repository.py's `mutate_jobs` over them.
use pashupatastra_sih.Prelude.{
  ◌≡◌, sym, ◌∙◌, subst, String, Bool, true, Option, none, some, inl, inr, List, Option-cases,
}
use pashupatastra_sih.Result.{ok}
use pashupatastra_sih.Jobs.State.{Job, JobMutation, as_job}
use pashupatastra_sih.Jobs.Guards.{schedule_of, is_consistent}
use pashupatastra_sih.Jobs.Store.{Store, row, Plan, mutate_jobs}
use pashupatastra_sih.Jobs.Accepted.{PlacementAgrees}
use pashupatastra_sih.Jobs.Rows.{Written, last_mutation, mutate_jobs-Ran}

-- A row is well formed: its committed state has no problem, and its status and its placement agree.
pub record IsWellFormed {F : Type 0} (j : Job F) : Type 0 where
  pub consistent : is_consistent j ≡ true
  pub placed : PlacementAgrees j.status (schedule_of j)

abbrev pub AllWellFormed : {F : Type 0} → Store F → Type 0
AllWellFormed {F} store = (k : String) (j : Job F) → row k store.rows ≡ some j → IsWellFormed j

Written-IsWellFormed :
    {F : Type 0} (j : Job F) (o : Option (JobMutation F)) (j' : Job F)
    → IsWellFormed j
    → Written j o j'
    → IsWellFormed j'
unfolding as_job
Written-IsWellFormed j none j' h w = subst IsWellFormed (sym w) h
Written-IsWellFormed j (some m) j' h w =
    subst IsWellFormed (sym w.1)
      (record { consistent = w.0.accepted.stays_consistent; placed = w.0.agrees })

-- Whatever the plan, a successful `mutate_jobs` keeps every row of the table well formed.
pub mutate_jobs-AllWellFormed :
    {F : Type 0} (ks : List String) (plan : Plan F) (reject_terminal : Bool)
    (store store' : Store F)
    → AllWellFormed store
    → mutate_jobs ks plan reject_terminal store ≡ ok store'
    → AllWellFormed store'
mutate_jobs-AllWellFormed {F} ks plan reject_terminal store store' h e k j' r =
    let ran = mutate_jobs-Ran ks plan reject_terminal store e in
    elim (Option-cases (row k store.rows)) [
      | inl n ↦ cc (ran.absent k n)
      | inr (j, q) ↦
          let (x, rx, w) = ran.written k j q in
          subst IsWellFormed (some_eq (sym rx ∙ r))
            (Written-IsWellFormed j (last_mutation k none ran.mutations) x (h k j q) w)
    ]
  where
    some_eq : {a b : Job F} → some a ≡ some b → a ≡ b
    some_eq q = cc
