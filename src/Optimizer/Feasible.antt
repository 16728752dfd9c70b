-- ===== src/Optimizer/Feasible.antt =====
-- What an assignment that satisfies the model of solver.py's `solve` says of each candidate, one
-- lemma for each of its loops.
use pashupatastra_sih.Prelude.{
  ℤ, pos, ◌+ℤ◌, ◌≤ℤ◌, ◌≡◌, sym, ◌∙◌, subst, ◌≢◌, ◌⊎◌, inl, inr, false, some, List, [], ◌∷◌, ◌++◌,
  flat_map, All, All-append, All-In, In, here, there, In-flat_map, Bool-cases, arith, le-max_left,
  le-max_right, min-le_left, min-le_right,
}
use pashupatastra_sih.Result.{ok, collect, >>=-eq-ok, ok_injective}
use pashupatastra_sih.Contracts.{BlockCandidate, OptimizationRequest}
use pashupatastra_sih.Python.{Builtins}
use pashupatastra_sih.Optimizer.Cp.{
  presence, start, end_of, Assignment, Constraint, Holds, NoOverlap, Apart, Interval, CpModel,
}
use pashupatastra_sih.Optimizer.Solver.{
  Entry, entries, horizon_of, clamp_window, does_not_fit, pinned_by, committed_placement,
  variable_constraints, pin_constraints,
}
use pashupatastra_sih.Optimizer.Model.{
  possession_constraints, resource_constraints, by_resource, dependency_constraints,
  mutex_constraints, by_mutex_group, build_model,
}

-- The constraints, loop by loop.
pub record Feasible {F : Type 0} (py : Builtins F) (r : OptimizationRequest F) (v : Assignment)
    : Type 0 where
  pub variables :
      All (Holds v) (flat_map (variable_constraints (horizon_of r)) (entries r.candidates))
  pub pins : List Constraint
  pub collected : collect (pin_constraints py r) (entries r.candidates) ≡ ok pins
  pub pinned : All (Holds v) pins
  pub possessions : All (Holds v) (flat_map (possession_constraints r) (entries r.candidates))
  pub resources :
      All (Holds v) (flat_map (resource_constraints r) (by_resource (entries r.candidates)))
  pub dependencies : All (Holds v) (flat_map (dependency_constraints r) (entries r.candidates))
  pub mutexes :
      All (Holds v) (flat_map (mutex_constraints r) (by_mutex_group (entries r.candidates)))

pub build_model-Feasible :
    {F : Type 0} (py : Builtins F) (r : OptimizationRequest F) (v : Assignment) {m : CpModel}
    → build_model py r ≡ ok m
    → All (Holds v) m.constraints
    → Feasible py r v
unfolding build_model
build_model-Feasible py r v e h =
    let (pins, q, e1) = >>=-eq-ok (collect (pin_constraints py r) (entries r.candidates)) _ e in
    let h' = subst (λ m. All (Holds v) m.constraints) (sym (ok_injective e1)) h in
    let a = All-append (Holds v) _ _ h' in
    let b = All-append (Holds v) pins _ a.1 in
    let c = All-append (Holds v) _ _ b.1 in
    let d = All-append (Holds v) _ _ c.1 in
    let f = All-append (Holds v) _ _ d.1 in
    record {
      variables = a.0;
      pins = pins;
      collected = q;
      pinned = b.0;
      possessions = c.0;
      resources = d.0;
      dependencies = f.0;
      mutexes = f.1;
    }

-- Lines 225-271: a presence variable is 0 or 1, and a present candidate lies in its own window for
-- its whole duration.
pub record InWindow {F : Type 0} (horizon : ℤ) (b : BlockCandidate F) (s e : ℤ) : Type 0 where
  pub fits : does_not_fit horizon b ≡ false
  pub not_before_zero : pos 0 ≤ℤ s
  pub not_before_earliest : b.earliest_start_minute ≤ℤ s
  pub lasts : e ≡ s +ℤ b.duration_minutes
  pub not_after_latest : e ≤ℤ b.latest_end_minute
  pub within_horizon : e ≤ℤ horizon

pub variable-presence :
    {F : Type 0} (horizon : ℤ) (v : Assignment) (e : Entry F)
    → All (Holds v) (variable_constraints horizon e)
    → (v (presence e.0) ≡ pos 0) ⊎ (v (presence e.0) ≡ pos 1)
unfolding variable_constraints
variable-presence horizon v (n, b) h = h.0

window_of :
    {F : Type 0} (horizon : ℤ) (b : BlockCandidate F) (s e : ℤ)
    → does_not_fit horizon b ≡ false
    → (clamp_window b horizon).earliest ≤ℤ s
    → e ≤ℤ (clamp_window b horizon).latest_end
    → e ≡ s +ℤ b.duration_minutes
    → InWindow horizon b s e
unfolding clamp_window
window_of horizon b s e fits lo hi lasts = record {
  fits = fits;
  not_before_zero = omega (arith, lo, le-max_left (pos 0) b.earliest_start_minute);
  not_before_earliest = omega (arith, lo, le-max_right (pos 0) b.earliest_start_minute);
  lasts = lasts;
  not_after_latest = omega (arith, hi, min-le_right horizon b.latest_end_minute);
  within_horizon = omega (arith, hi, min-le_left horizon b.latest_end_minute);
}

pub variable-InWindow :
    {F : Type 0} (horizon : ℤ) (v : Assignment) (e : Entry F)
    → All (Holds v) (variable_constraints horizon e)
    → v (presence e.0) ≡ pos 1
    → InWindow horizon e.1 (v (start e.0)) (v (end_of e.0))
unfolding variable_constraints
variable-InWindow horizon v (n, b) h p = elim (Bool-cases (does_not_fit horizon b)) [
  | inl t ↦ cc ((rw (t, variable_constraints) at h.1).0)
  | inr f ↦
      let k = rw (f, variable_constraints) at h.1 in
      window_of horizon b (v (start n)) (v (end_of n)) f k.0.0 k.1.0.1 k.1.1.0
]

-- Lines 273-314: a candidate that is pinned is present, at the committed placement.
pub pin-placed :
    {F : Type 0} (py : Builtins F) (r : OptimizationRequest F) (v : Assignment) (e : Entry F)
    {c : BlockCandidate F} {ys : List Constraint}
    → pinned_by r e.1 ≡ some c
    → pin_constraints py r e ≡ ok ys
    → All (Holds v) ys
    → (p : ℤ × ℤ) × (committed_placement py c ≡ ok p)
      × (v (presence e.0) ≡ pos 1)
      × (v (start e.0) ≡ p.0)
      × (v (end_of e.0) ≡ p.1)
unfolding pin_constraints
pin-placed py r v (n, b) {c} {ys} q e h =
    let (p, ep, e1) = >>=-eq-ok (committed_placement py c) _ (rw (q, pin_constraints) at e) in
    let k = subst (All (Holds v)) (sym (ok_injective e1)) h in (p, ep, k.0, k.1.0, k.1.1.0)

-- Two members of one `AddNoOverlap` do not overlap.
NoOverlap-append :
    (v : Assignment) (is js : List Interval)
    → NoOverlap v (is ++ js)
    → NoOverlap v is × NoOverlap v js × ((i j : Interval) → In i is → In j js → Apart v i j)
NoOverlap-append v [] js h = (tt, h, λ i j p q. elim p [ ])
NoOverlap-append v (x ∷ is) js h =
    let (a, b, c) = NoOverlap-append v is js h.1 in
    let split = All-append (Apart v x) is js h.0 in
    ((split.0, a), b, λ i j p q. cross split.1 c p q)
  where
    cross :
        {i j : Interval}
        → All (Apart v x) js
        → ((i j : Interval) → In i is → In j js → Apart v i j)
        → In i (x ∷ is)
        → In j js
        → Apart v i j
    cross {i} {j} all rec (here e) q =
        subst (λ k. Apart v k j) (sym e) (All-In (Apart v x) js all q)
    cross {i} {j} all rec (there p) q = rec i j p q

pub NoOverlap-pair :
    {A : Type 0} (v : Assignment) (f : A → List Interval) {x y : A} {i j : Interval} (xs : List A)
    → In x xs
    → In y xs
    → x ≢ y
    → In i (f x)
    → In j (f y)
    → NoOverlap v (flat_map f xs)
    → Apart v i j ⊎ Apart v j i
unfolding flat_map
NoOverlap-pair v f [] p q ne a b h = elim p [ ]
NoOverlap-pair v f {x} {y} {i} {j} (z ∷ xs) p q ne a b h =
    pick p q (NoOverlap-append v (f z) (flat_map f xs) h)
      (λ p' q' h'. NoOverlap-pair v f xs p' q' ne a b h')
  where
    pick :
        In x (z ∷ xs)
        → In y (z ∷ xs)
        → NoOverlap v (f z)
          × NoOverlap v (flat_map f xs)
          × ((i j : Interval) → In i (f z) → In j (flat_map f xs) → Apart v i j)
        → (In x xs → In y xs → NoOverlap v (flat_map f xs) → Apart v i j ⊎ Apart v j i)
        → Apart v i j ⊎ Apart v j i
    pick (here e) (here g) k rec = absurd (ne (e ∙ sym g))
    pick (here e) (there q') k rec =
        inl (k.2 i j (subst (λ w. In i (f w)) e a) (In-flat_map f xs q' b))
    pick (there p') (here g) k rec =
        inr (k.2 j i (subst (λ w. In j (f w)) g b) (In-flat_map f xs p' a))
    pick (there p') (there q') k rec = rec p' q' k.1
