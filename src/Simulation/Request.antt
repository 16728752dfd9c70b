-- ===== src/Simulation/Request.antt =====
-- The candidates and the possession windows of a request that
-- backend/app/simulation/disruptions.py has changed.
use pashupatastra_sih.Prelude.{
  ◌≡◌, ◌≢◌, refl, sym, ◌∙◌, subst, Bool, false, not, ◌&&◌, Option, none, some, List, [], ◌∷◌, ◌++◌,
  All, any, ◌==◌, ==_iff, String, inl, inr, Bool-cases, arith,
}
use pashupatastra_sih.Result.{ok, raise_if, >>-eq-ok, ok_injective, value_error}
use pashupatastra_sih.Contracts.{
  BlockCandidate, planned, OptimizationRequest, DisruptionEvent, DisruptionType, track_unavailable,
  emergency_work, possession_curtailment, asset_breakdown, unsupported, PossessionWindow,
}
use pashupatastra_sih.Optimizer.Unique.{UniqueIds}
use pashupatastra_sih.Optimizer.Accounting.{UniqueIds-keep}
use pashupatastra_sih.Simulation.{
  without, apply_asset_breakdown, apply_track_unavailable, apply_emergency_work, is_nonempty,
  without_asset, without_track, with_candidate, apply_possession_curtailment, apply_kind,
  apply_disruption,
}

UniqueIds-snoc :
    {F : Type 0} (bs : List (BlockCandidate F)) (c : BlockCandidate F)
    → UniqueIds bs
    → any (λ b. b.block_id == c.block_id) bs ≡ false
    → UniqueIds (bs ++ (c ∷ []))
unfolding any
UniqueIds-snoc [] c u h = (tt, tt)
UniqueIds-snoc {F} (b ∷ bs) c u h = (fresh bs u.0, UniqueIds-snoc bs c u.1 (ground arith))
  where
    differs : c.block_id ≢ b.block_id
    differs q = cc ((==_iff b.block_id c.block_id).1 (sym q))

    fresh :
        (xs : List (BlockCandidate F))
        → All (λ x. x.block_id ≢ b.block_id) xs
        → All (λ x. x.block_id ≢ b.block_id) (xs ++ (c ∷ []))
    fresh [] a = (differs, tt)
    fresh (x ∷ xs) a = (a.0, fresh xs a.1)

without-UniqueIds :
    {F : Type 0} (hit : BlockCandidate F → Bool) (r : OptimizationRequest F)
    → UniqueIds r.candidates
    → UniqueIds (without hit r).candidates
unfolding without
without-UniqueIds hit r u = UniqueIds-keep (λ b. not (hit b)) r.candidates u

without_asset-UniqueIds :
    {F : Type 0} (asset : Option String) (r : OptimizationRequest F)
    → UniqueIds r.candidates
    → UniqueIds (without_asset asset r).candidates
without_asset-UniqueIds none r u = u
without_asset-UniqueIds (some asset) r u = elim (Bool-cases (asset == "")) [
  | inl t ↦ rw t u
  | inr f ↦ rw f (without-UniqueIds (λ b. b.asset_id == asset) r u)
]

without_track-UniqueIds :
    {F : Type 0} (track : Option String) (r : OptimizationRequest F)
    → UniqueIds r.candidates
    → UniqueIds (without_track track r).candidates
without_track-UniqueIds none r u = u
without_track-UniqueIds (some track) r u = elim (Bool-cases (track == "")) [
  | inl t ↦ rw t u
  | inr f ↦ rw f (without-UniqueIds (λ b. b.track_id == track) r u)
]

with_candidate-UniqueIds :
    {F : Type 0} (c : Option (BlockCandidate F)) (r : OptimizationRequest F)
    → UniqueIds r.candidates
    → UniqueIds (with_candidate c r).candidates
with_candidate-UniqueIds none r u = u
with_candidate-UniqueIds (some c) r u =
    elim (Bool-cases (any (λ b. b.block_id == c.block_id) r.candidates)) [
      | inl t ↦ rw t u
      | inr f ↦ rw f (UniqueIds-snoc r.candidates (record c { status = planned }) u f)
    ]

-- A disruption never makes two candidates share an id: if the ids of the request's candidates are
-- distinct, so are those of the disrupted request.
pub apply_disruption-UniqueIds :
    {F : Type 0} (r : OptimizationRequest F) (e : DisruptionEvent F) (r' : OptimizationRequest F)
    → UniqueIds r.candidates
    → apply_disruption r e ≡ ok r'
    → UniqueIds r'.candidates
unfolding apply_kind apply_possession_curtailment apply_asset_breakdown apply_track_unavailable
    apply_emergency_work
apply_disruption-UniqueIds {F} r e r' u = go e.disruption_type
  where
    same :
        (x : OptimizationRequest F)
        → UniqueIds x.candidates
        → ok x ≡ ok r'
        → UniqueIds r'.candidates
    same x v h = subst (λ (y : OptimizationRequest F). UniqueIds y.candidates) (ok_injective h) v

    go : (kind : DisruptionType) → apply_kind kind r e ≡ ok r' → UniqueIds r'.candidates
    go asset_breakdown h =
        same (apply_asset_breakdown r e) (without_asset-UniqueIds e.affected_asset_id r u) h
    go track_unavailable h =
        same (apply_track_unavailable r e) (without_track-UniqueIds e.track_id r u) h
    go emergency_work h =
        same (apply_emergency_work r e) (with_candidate-UniqueIds e.new_candidate r u) h
    go possession_curtailment h = same _ u (>>-eq-ok (raise_if _ value_error) _ h).1
    go (unsupported kind) h = cc

-- A disruption never turns possession protection off: a request with possession windows keeps some,
-- or the disruption is refused.
pub apply_disruption-keeps_protection :
    {F : Type 0} (r : OptimizationRequest F) (e : DisruptionEvent F) (r' : OptimizationRequest F)
    → r.possession_windows ≢ []
    → apply_disruption r e ≡ ok r'
    → r'.possession_windows ≢ []
unfolding apply_kind apply_possession_curtailment apply_asset_breakdown apply_track_unavailable
    apply_emergency_work without
apply_disruption-keeps_protection {F} r e r' n = go e.disruption_type
  where
    same :
        (x : OptimizationRequest F)
        → x.possession_windows ≡ r.possession_windows
        → ok x ≡ ok r'
        → r'.possession_windows ≢ []
    same x q h =
        subst (λ (y : OptimizationRequest F). y.possession_windows ≢ []) (ok_injective h)
          (λ z. n (sym q ∙ z))

    asset : (o : Option String) → (without_asset o r).possession_windows ≡ r.possession_windows
    asset none = refl
    asset (some a) = ground arith

    track : (o : Option String) → (without_track o r).possession_windows ≡ r.possession_windows
    track none = refl
    track (some t) = ground arith

    added :
        (o : Option (BlockCandidate F))
        → (with_candidate o r).possession_windows ≡ r.possession_windows
    added none = refl
    added (some c) = ground arith

    kept :
        (vs ws : List PossessionWindow)
        → vs ≢ []
        → raise_if (is_nonempty vs && not (is_nonempty ws)) value_error ≡ ok tt
        → ws ≢ []
    kept [] ws m h q = m refl
    kept (v ∷ vs) [] m h q = cc
    kept (v ∷ vs) (w ∷ ws) m h q = cc

    go : (kind : DisruptionType) → apply_kind kind r e ≡ ok r' → r'.possession_windows ≢ []
    go asset_breakdown h = same (apply_asset_breakdown r e) (asset e.affected_asset_id) h
    go track_unavailable h = same (apply_track_unavailable r e) (track e.track_id) h
    go emergency_work h = same (apply_emergency_work r e) (added e.new_candidate) h
    go possession_curtailment h =
        let (a, b) = >>-eq-ok (raise_if _ value_error) _ h in
        subst (λ (y : OptimizationRequest F). y.possession_windows ≢ []) (ok_injective b)
          (kept r.possession_windows _ n a)
    go (unsupported kind) h = cc
