-- ===== src/Optimizer/Cp.antt =====
-- The part of OR-Tools CP-SAT that backend/app/optimizer/solver.py calls: the kinds of constraint
-- it posts, what each of them means, and the solver as a parameter. CP-SAT itself is not modelled.
use pashupatastra_sih.Prelude.{
  ℤ, pos, ◌+ℤ◌, ◌≤ℤ◌, ◌<ℤ◌, ℕ, ◌≡◌, ◌⊎◌, Bool, true, false, List, [], ◌∷◌, All,
}

-- Variables are named by the position of the candidate that they were created for, a selection
-- variable also by the position of its window.
pub data Var : Type 0 where
  presence : ℕ → Var
  start : ℕ → Var
  end_of : ℕ → Var
  buffered_end : ℕ → Var
  selection : ℕ → ℕ → Var

-- `NewOptionalIntervalVar(start, size, end, presence, name)`
pub record Interval : Type 0 where
  pub start_var : Var
  pub size : ℤ
  pub end_var : Var
  pub presence_var : Var

pub data Constraint : Type 0 where
  -- `NewIntVar(lo, hi)`
  domain : Var → ℤ → ℤ → Constraint
  -- `NewBoolVar`
  boolean : Var → Constraint
  -- `x == c`
  eq_const : Var → ℤ → Constraint
  -- `x == y + c`
  eq_offset : Var → Var → ℤ → Constraint
  -- `(x >= c).OnlyEnforceIf(b)`
  ge_const_if : Var → ℤ → Var → Constraint
  -- `(x <= c).OnlyEnforceIf(b)`
  le_const_if : Var → ℤ → Var → Constraint
  -- `(x >= y).OnlyEnforceIf(b)`
  ge_var_if : Var → Var → Var → Constraint
  -- `x <= y`
  le_var : Var → Var → Constraint
  -- `sum(xs) == y`
  sum_eq : List Var → Var → Constraint
  -- `AddNoOverlap(intervals)`
  no_overlap : List Interval → Constraint

abbrev pub Assignment : Type 0
Assignment = Var → ℤ

abbrev pub sum_vars : Assignment → List Var → ℤ
sum_vars v [] = pos 0
sum_vars v (x ∷ xs) = v x +ℤ sum_vars v xs

-- Two intervals that are both present and not empty do not overlap.
abbrev pub Apart : Assignment → Interval → Interval → Type 0
Apart v i j =
    v i.presence_var ≡ pos 1
    → v j.presence_var ≡ pos 1
    → pos 0 <ℤ i.size
    → pos 0 <ℤ j.size
    → (v i.end_var ≤ℤ v j.start_var) ⊎ (v j.end_var ≤ℤ v i.start_var)

abbrev pub NoOverlap : Assignment → List Interval → Type 0
NoOverlap v [] = Unit
NoOverlap v (i ∷ is) = All (Apart v i) is × NoOverlap v is

-- What each constraint says of an assignment, as OR-Tools documents it.
abbrev pub Holds : Assignment → Constraint → Type 0
Holds v (domain x lo hi) = (lo ≤ℤ v x) × (v x ≤ℤ hi)
Holds v (boolean x) = (v x ≡ pos 0) ⊎ (v x ≡ pos 1)
Holds v (eq_const x c) = v x ≡ c
Holds v (eq_offset x y c) = v x ≡ v y +ℤ c
Holds v (ge_const_if x c b) = v b ≡ pos 1 → c ≤ℤ v x
Holds v (le_const_if x c b) = v b ≡ pos 1 → v x ≤ℤ c
Holds v (ge_var_if x y b) = v b ≡ pos 1 → v y ≤ℤ v x
Holds v (le_var x y) = v x ≤ℤ v y
Holds v (sum_eq xs y) = sum_vars v xs ≡ v y
Holds v (no_overlap is) = NoOverlap v is

-- The model handed to the solver: its constraints, and the objective's coefficients.
pub record CpModel : Type 0 where
  pub constraints : List Constraint
  pub objective : List (ℤ × Var)

-- The status codes of `CpSolver.Solve`.
pub data CpStatus : Type 0 where
  cp_optimal cp_feasible cp_infeasible cp_unknown cp_model_invalid : CpStatus

pub record CpOutcome : Type 0 where
  pub status : CpStatus
  pub value : Assignment

abbrev pub CpSolver : Type 0
CpSolver = CpModel → CpOutcome

abbrev pub has_solution : CpStatus → Bool
has_solution cp_optimal = true
has_solution cp_feasible = true
has_solution cp_infeasible = false
has_solution cp_unknown = false
has_solution cp_model_invalid = false

-- What the code relies on: a solution that is reported satisfies every constraint of the model.
pub record IsSound (cp : CpSolver) : Type 0 where
  pub satisfies :
      (m : CpModel) → has_solution (cp m).status ≡ true → All (Holds (cp m).value) m.constraints
