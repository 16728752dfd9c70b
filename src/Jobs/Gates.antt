-- ===== src/Jobs/Gates.antt =====
-- The token gates of lifecycle.py read backwards: what a gated move that passed must have carried.
use pashupatastra_sih.Prelude.{
  ℤ, ◌≡◌, refl, sym, ap, ◌∙◌, true, not, ◌&&◌, Option, none, some, is_some, inl, inr, arith,
  Bool-cases, Option-cases, not-eq_false, eqb_ℤ_sound,
}
use pashupatastra_sih.Result.{ok, err, >>-eq-ok, raise_if, raise_if-ok, release_token}
use pashupatastra_sih.Contracts.{BlockCandidate, text}
use pashupatastra_sih.Jobs.State.{
  JobStatus, notified, Job, ExecutionTransitionKind, start, complete, not_completed,
  ExecutionTransition, AuthorityRelease, value_eq, proposal_run_id_of,
}
use pashupatastra_sih.Jobs.Values.{value_eq_sound}
use pashupatastra_sih.Jobs.Guards.{
  is_reported, minute_eq, gate_release_transition, gate_execution_transition, required_kind,
  kind_eq, named_execution, check_execution_token,
}

pub minute_eq_sound : (a b : Option ℤ) → minute_eq a b ≡ true → a ≡ b
minute_eq_sound none none h = refl
minute_eq_sound none (some n) h = cc
minute_eq_sound (some m) none h = cc
minute_eq_sound (some m) (some n) h = ap some (eqb_ℤ_sound m n h)

kind_eq_sound : (a b : ExecutionTransitionKind) → kind_eq a b ≡ true → a ≡ b
kind_eq_sound start b h = ground arith
kind_eq_sound complete b h = ground arith
kind_eq_sound not_completed b h = ground arith

-- A move that requires an execution token carried one of that kind, naming the execution that the
-- block names.
pub gate-execution :
    {F : Type 0} (current : Job F) (status : JobStatus) (block : BlockCandidate F)
    (execution : Option ExecutionTransition) (release : Option AuthorityRelease)
    {kind : ExecutionTransitionKind}
    → gate_execution_transition current status block execution release ≡ ok tt
    → required_kind current.status status ≡ some kind
    → (t : ExecutionTransition) × (execution ≡ some t)
      × (t.kind ≡ kind)
      × (named_execution kind current block ≡ some (text t.execution_id))
unfolding gate_execution_transition check_execution_token
gate-execution current status block execution release {kind} h q =
    let (a, h1) = >>-eq-ok (raise_if (is_some execution && is_some release) release_token) _ h in
    let (b, h2) = >>-eq-ok (gate_release_transition current status release) _ h1 in
    token execution (rw q at h2)
  where
    token :
        (x : Option ExecutionTransition)
        → check_execution_token current block kind x ≡ ok tt
        → (t : ExecutionTransition) × (x ≡ some t)
          × (t.kind ≡ kind)
          × (named_execution kind current block ≡ some (text t.execution_id))
    token none e = cc
    token (some t) e = elim (Bool-cases (kind_eq t.kind kind)) [
      | inr f ↦ cc (rw f at e)
      | inl k ↦ elim (Option-cases (named_execution kind current block)) [
        | inl n ↦ cc (rw (k, n) at e)
        | inr (v, n) ↦ (
          t,
          refl,
          kind_eq_sound t.kind kind k,
          n
              ∙ ap some (
                  value_eq_sound v (text t.execution_id) (
                    not-eq_false (value_eq v (text t.execution_id))
                      (raise_if-ok _ _ (rw (k, n) at e)))),
        )
      ]
    ]

-- A released job carried a release token that names its proposal run.
pub gate-release :
    {F : Type 0} (current : Job F) (status : JobStatus) (block : BlockCandidate F)
    (execution : Option ExecutionTransition) (release : Option AuthorityRelease)
    → gate_execution_transition current status block execution release ≡ ok tt
    → current.status ≡ notified
    → is_reported status ≡ true
    → (t : AuthorityRelease) × (release ≡ some t)
      × (proposal_run_id_of current ≡ text t.proposal_run_id)
unfolding gate_execution_transition gate_release_transition
gate-release current status block execution release h n r =
    let (a, h1) = >>-eq-ok (raise_if (is_some execution && is_some release) release_token) _ h in
    let (b, h2) = >>-eq-ok (gate_release_transition current status release) _ h1 in
    token release (rw (n, r) at b)
  where
    token :
        (x : Option AuthorityRelease)
        → elim x [
          | none ↦ err release_token
          | some t ↦
              raise_if
                (not (value_eq (text t.proposal_run_id) (proposal_run_id_of current)))
                release_token
        ]
          ≡ ok tt
        → (t : AuthorityRelease) × (x ≡ some t)
          × (proposal_run_id_of current ≡ text t.proposal_run_id)
    token none e = cc
    token (some t) e = (
      t,
      refl,
      sym (
          value_eq_sound (text t.proposal_run_id) (proposal_run_id_of current) (
            not-eq_false (value_eq (text t.proposal_run_id) (proposal_run_id_of current))
              (raise_if-ok _ _ e))),
    )
