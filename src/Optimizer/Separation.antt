-- ===== src/Optimizer/Separation.antt =====
-- The no-overlap constraints of solver.py: a track's with headway, and a mutual-exclusion group's.
use pashupatastra_sih.Prelude.{
  pos, ◌+ℤ◌, ◌≤ℤ◌, ◌<ℤ◌, ◌≡◌, refl, sym, ap, ◌∙◌, subst, ◌≢◌, ◌⊎◌, inl, inr, true, false, some,
  String, List, [], ◌∷◌, flat_map, ◌==◌, ==_iff, option_eq_sound, option_eq_refl, All, All-flat_map,
  In, here, arith, int_laws, le-max_left,
}
use pashupatastra_sih.Contracts.{OptimizationRequest}
use pashupatastra_sih.Optimizer.Cp.{
  presence, start, end_of, buffered_end, Assignment, Holds, NoOverlap, Apart, Interval,
}
use pashupatastra_sih.Optimizer.Solver.{
  Entry, entries, ResourceKey, resource_key, resource_key_eq, horizon_of, window_infeasible, member,
  does_not_fit,
}
use pashupatastra_sih.Optimizer.Groups.{members, members-In, group_from-In}
use pashupatastra_sih.Optimizer.Model.{
  resource_constraints, by_resource, buffered_intervals, buffer_constraints, buffered_size,
  mutex_constraints, by_mutex_group, mutex_group, mutex_interval,
}
use pashupatastra_sih.Optimizer.Unique.{UniqueIds, resolve_self, entries-In, member-keep}
use pashupatastra_sih.Optimizer.Feasible.{NoOverlap-pair}

resource_key_eq_sound : (j k : ResourceKey) → resource_key_eq j k ≡ true → j ≡ k
resource_key_eq_sound (s, x) (t, y) h = ground (arith, ==_iff s t, option_eq_sound x y)

resource_key_eq_refl : (k : ResourceKey) → resource_key_eq k k ≡ true
resource_key_eq_refl (s, x) = ground (arith, ==_iff s s, option_eq_refl x)

-- A candidate that fits its window is not in `window_infeasible`.
pub fits-member :
    {F : Type 0} (r : OptimizationRequest F) {e : Entry F}
    → UniqueIds r.candidates
    → In e (entries r.candidates)
    → does_not_fit (horizon_of r) e.1 ≡ false
    → member e.1.block_id (window_infeasible r) ≡ false
fits-member r u i h =
    member-keep (does_not_fit (horizon_of r)) r.candidates u (entries-In 0 r.candidates i) ∙ h

-- Two present intervals of positive length that are apart, one way or the other.
Apart_either :
    (v : Assignment) (i j : Interval)
    → Apart v i j ⊎ Apart v j i
    → v i.presence_var ≡ pos 1
    → v j.presence_var ≡ pos 1
    → pos 0 <ℤ i.size
    → pos 0 <ℤ j.size
    → (v i.end_var ≤ℤ v j.start_var) ⊎ (v j.end_var ≤ℤ v i.start_var)
Apart_either v i j (inl a) p q m n = a p q m n
Apart_either v i j (inr a) p q m n = elim (a q p n m) [ inl x ↦ inr x | inr y ↦ inl y ]

module _ {F : Type 0} (r : OptimizationRequest F) (v : Assignment) (x y : Entry F)
    (u : UniqueIds r.candidates) (ix : In x (entries r.candidates))
    (iy : In y (entries r.candidates)) (px : v (presence x.0) ≡ pos 1)
    (py : v (presence y.0) ≡ pos 1) (ne : x ≢ y) where
  resource_pair :
      {k : ResourceKey}
      → resource_key x.1 ≡ k
      → resource_key y.1 ≡ k
      → All (Holds v) (flat_map (resource_constraints r) (by_resource (entries r.candidates)))
      → (es : List (Entry F)) × In x es
        × In y es
        × NoOverlap v (flat_map (buffered_intervals r) es)
        × All (Holds v) (flat_map (buffer_constraints r) es)
  unfolding by_resource resource_constraints
  resource_pair {k} kx ky h =
      let gs = by_resource (entries r.candidates) in
      let mx =
        group_from-In resource_key_eq resource_key_eq_sound resource_key_eq_refl
          (λ e. some (resource_key e.1)) k (entries r.candidates) [] ix (ap some kx) in
      let my =
        group_from-In resource_key_eq resource_key_eq_sound resource_key_eq_refl
          (λ e. some (resource_key e.1)) k (entries r.candidates) [] iy (ap some ky) in
      let (j, g) = members-In resource_key_eq k gs mx in
      let c = All-flat_map (Holds v) (resource_constraints r) gs h g in
      (members resource_key_eq k gs, mx, my, c.0, c.1)

  -- The interval of a candidate, over its own variables.
  buffered : Entry F → Interval
  buffered e = record {
    start_var = start e.0;
    size = buffered_size r e.1;
    end_var = buffered_end e.0;
    presence_var = presence e.0;
  }

  buffered_intervals-own :
      (e : Entry F)
      → In e (entries r.candidates)
      → does_not_fit (horizon_of r) e.1 ≡ false
      → buffered_intervals r e ≡ buffered e ∷ []
  unfolding buffered_intervals buffered
  buffered_intervals-own e i fit = rw (fits-member r u i fit) (
      ap
        (λ (f : Entry F).
          record {
            start_var = start f.0;
            size = buffered_size r f.1;
            end_var = buffered_end e.0;
            presence_var = presence f.0;
          }
          ∷ [])
        (resolve_self r.candidates u i))

  buffer-value :
      (e : Entry F)
      → In e (entries r.candidates)
      → does_not_fit (horizon_of r) e.1 ≡ false
      → All (Holds v) (buffer_constraints r e)
      → v (buffered_end e.0) ≡ v (start e.0) +ℤ buffered_size r e.1
  unfolding buffer_constraints
  buffer-value e i fit h =
      (rw (fits-member r u i fit, buffer_constraints) at h).1.0
      ∙ ap (λ (f : Entry F). v (start f.0) +ℤ buffered_size r f.1) (resolve_self r.candidates u i)

  -- Two present candidates on one resource.
  pub headway_apart :
      {k : ResourceKey}
      → resource_key x.1 ≡ k
      → resource_key y.1 ≡ k
      → does_not_fit (horizon_of r) x.1 ≡ false
      → does_not_fit (horizon_of r) y.1 ≡ false
      → pos 0 <ℤ x.1.duration_minutes
      → pos 0 <ℤ y.1.duration_minutes
      → All (Holds v) (flat_map (resource_constraints r) (by_resource (entries r.candidates)))
      → (v (start x.0) +ℤ buffered_size r x.1 ≤ℤ v (start y.0))
        ⊎ (v (start y.0) +ℤ buffered_size r y.1 ≤ℤ v (start x.0))
  unfolding buffered
  headway_apart kx ky fx fy dx dy h =
      let (es, mx, my, apart, bufs) = resource_pair kx ky h in
      let ax = subst (In (buffered x)) (sym (buffered_intervals-own x ix fx)) (here refl) in
      let ay = subst (In (buffered y)) (sym (buffered_intervals-own y iy fy)) (here refl) in
      let ex = buffer-value x ix fx (All-flat_map (Holds v) (buffer_constraints r) es bufs mx) in
      let ey = buffer-value y iy fy (All-flat_map (Holds v) (buffer_constraints r) es bufs my) in
      let sx = size_pos x dx in
      let sy = size_pos y dy in
      let either =
        Apart_either v (buffered x) (buffered y)
          (NoOverlap-pair v (buffered_intervals r) es mx my ne ax ay apart) px py sx sy in
      elim either [
        | inl a ↦ inl (subst (λ t. t ≤ℤ v (start y.0)) ex a)
        | inr a ↦ inr (subst (λ t. t ≤ℤ v (start x.0)) ey a)
      ]
    where
      size_pos : (e : Entry F) → pos 0 <ℤ e.1.duration_minutes → pos 0 <ℤ buffered_size r e.1
      size_pos e d = omega (int_laws, le-max_left (pos 0) r.min_headway_minutes)

  -- Two present candidates of one mutual-exclusion group.
  pub mutex_apart :
      {g : String}
      → mutex_group x ≡ some g
      → mutex_group y ≡ some g
      → pos 0 <ℤ x.1.duration_minutes
      → pos 0 <ℤ y.1.duration_minutes
      → All (Holds v) (flat_map (mutex_constraints r) (by_mutex_group (entries r.candidates)))
      → (v (end_of x.0) ≤ℤ v (start y.0)) ⊎ (v (end_of y.0) ≤ℤ v (start x.0))
  unfolding by_mutex_group mutex_constraints
  mutex_apart {g} gx gy dx dy h =
      let gs = by_mutex_group (entries r.candidates) in
      let mx = group_from-In ◌==◌ eq_sound eq_refl mutex_group g (entries r.candidates) [] ix gx in
      let my = group_from-In ◌==◌ eq_sound eq_refl mutex_group g (entries r.candidates) [] iy gy in
      let (j, i) = members-In ◌==◌ g gs mx in
      let c = All-flat_map (Holds v) (mutex_constraints r) gs h i in
      Apart_either v (own x) (own y)
        (NoOverlap-pair v (λ e. mutex_interval r e ∷ []) (members ◌==◌ g gs) mx my ne
          (here (sym (own-eq x ix))) (here (sym (own-eq y iy))) c.0)
        px py dx dy
    where
      eq_sound : (a b : String) → (a == b) ≡ true → a ≡ b
      eq_sound a b = (==_iff a b).0

      eq_refl : (a : String) → (a == a) ≡ true
      eq_refl a = (==_iff a a).1 refl

      own : Entry F → Interval
      own e = record {
        start_var = start e.0;
        size = e.1.duration_minutes;
        end_var = end_of e.0;
        presence_var = presence e.0;
      }

      own-eq : (e : Entry F) → In e (entries r.candidates) → mutex_interval r e ≡ own e
      own-eq e i = ap own (resolve_self r.candidates u i)
