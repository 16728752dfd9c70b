-- ===== src/Jobs/Tokens.antt =====
-- The tokens of a plan's mutations and its events (lifecycle.py, `validate_execution_events` and
-- `validate_release_events`).
use pashupatastra_sih.Prelude.{
  ◌≡◌, refl, sym, ◌∙◌, subst, String, Bool, true, false, not, ◌&&◌, Option, none, some, inl, inr,
  List, [], ◌∷◌, keep, any, any-false, keep-In, In, here, there, ◌==◌, ==_iff, arith, Bool-cases,
  if◌then◌else◌, some_injective, not-eq_false,
}
use pashupatastra_sih.Prelude.Dict.{Dict, get, put, get-put}
use pashupatastra_sih.Result.{ok, >>-eq-ok, raise_if, raise_if-ok, execution_token, release_token}
use pashupatastra_sih.Contracts.{truthy}
use pashupatastra_sih.Jobs.State.{
  JobMutation, JobEvent, JobEventType, ExecutionTransitionKind, ExecutionTransition,
  AuthorityRelease, get_value, execution_id_key, released_run_id_key,
}
use pashupatastra_sih.Jobs.Validation.{
  tokens_from, check_tokens, is_single, execution_matches, release_matches, is_event_of,
  is_job_completed, is_execution_completed, is_block_released, execution_event_backed,
  validate_execution_events, validate_release_events, names,
}
use pashupatastra_sih.Jobs.Rows.{last_mutation}

-- The tokens' dict has the token of the last mutation of a job.
tokens_from-last :
    {F T : Type 0} (token : JobMutation F → Option T) (k : String) (ms : List (JobMutation F))
    (o : Option (JobMutation F)) (d : Dict T) {m : JobMutation F} {t : T}
    → ((n : JobMutation F) (s : T) → o ≡ some n → token n ≡ some s → get k d ≡ some s)
    → last_mutation k o ms ≡ some m
    → token m ≡ some t
    → get k (tokens_from token d ms) ≡ some t
unfolding tokens_from last_mutation
tokens_from-last token k [] o d inv l q = inv _ _ l q
tokens_from-last {F} {T} token k (n ∷ ms) o d inv l q =
    tokens_from-last token k ms (if n.job_id == k then some n else o) (grown (token n)) step l q
  where
    grown : Option T → Dict T
    grown s = elim s [ none ↦ d | some t ↦ put n.job_id t d ]

    other : (s : Option T) → (n.job_id == k) ≡ false → get k (grown s) ≡ get k d
    other none f = refl
    other (some t) f = get-put k n.job_id t d ∙ rw f refl

    step :
        (x : JobMutation F) (s : T)
        → (if n.job_id == k then some n else o) ≡ some x
        → token x ≡ some s
        → get k (grown (token n)) ≡ some s
    step x s p r = elim (Bool-cases (n.job_id == k)) [
      | inl t ↦
          let same = some_injective (rw t at p) in
          rw (subst (λ y. token y ≡ some s) (sym same) r) (get-put k n.job_id s d ∙ rw t refl)
      | inr f ↦ other (token n) f ∙ inv x s (rw f at p) r
    ]

get-In : {T : Type 0} (k : String) (d : Dict T) {t : T} → get k d ≡ some t → In (k, t) d
unfolding get
get-In k [] h = cc
get-In k ((j, s) ∷ d) {t} h = elim (Bool-cases (j == k)) [
  | inl e ↦ here (ground (arith, ==_iff j k, some_injective {a = s} {b = t} (rw (e, get) at h)))
  | inr f ↦ there (get-In k d (rw (f, get) at h))
]

single-In : {A : Type 0} (xs : List A) → is_single xs ≡ true → (a : A) × In a xs
single-In [] h = cc
single-In (x ∷ []) h = (x, here refl)
single-In (x ∷ y ∷ xs) h = cc

check_tokens-event :
    {T : Type 0} (matches : String × T → JobEvent → Bool) (events : List JobEvent) (d : Dict T)
    {kt : String × T}
    → check_tokens matches events d ≡ true
    → In kt d
    → (e : JobEvent) × In e events × (matches kt e ≡ true)
unfolding check_tokens
check_tokens-event matches events [] h i = elim i [ ]
check_tokens-event matches events (t ∷ d) h (here q) =
    let (e, i) = single-In (keep (matches t) events) (ground arith) in
    let (j, p) = keep-In (matches t) events i in (e, j, subst (λ x. matches x e ≡ true) (sym q) p)
check_tokens-event matches events (t ∷ d) h (there i) =
    check_tokens-event matches events d (ground arith) i

-- A plan whose last mutation of a job carries an execution token has an event of the token's type
-- that names the job and the execution; if it reports completion, it has after-work evidence.
pub execution-event :
    {F : Type 0} (k : String) (ms : List (JobMutation F)) (events : List JobEvent)
    {m : JobMutation F} {t : ExecutionTransition}
    → validate_execution_events ms events ≡ ok tt
    → last_mutation k none ms ≡ some m
    → m.execution ≡ some t
    → (e : JobEvent) × In e events
      × (e.job_id ≡ k)
      × (is_event_of t.kind e.event_type ≡ true)
      × (names execution_id_key t.execution_id e ≡ true)
      × (is_execution_completed e.event_type ≡ true
          → truthy (get_value "after_work_evidence" e.metadata) ≡ true)
unfolding validate_execution_events
execution-event {F} k ms events {m} {t} h l q =
    let tokens = tokens_from {F = F} (λ n. n.execution) [] ms in
    let (a, h1) =
      >>-eq-ok (raise_if (any (λ e. is_job_completed e.event_type) events) execution_token) _ h in
    let (b, h2) =
      >>-eq-ok (raise_if (not (check_tokens execution_matches events tokens)) execution_token) _
        h1 in
    let found =
      tokens_from-last (λ (n : JobMutation F). n.execution) k ms none [] (λ n s p r. cc) l q in
    let (e, i, p) =
      check_tokens-event execution_matches events tokens
        (not-eq_false (check_tokens execution_matches events tokens) (raise_if-ok _ _ b))
        (get-In k tokens found) in
    let backed =
      any-false (λ x. not (execution_event_backed tokens x)) events (raise_if-ok _ _ h2) i in
    let parts = split e.event_type (e.job_id == k) (is_event_of t.kind e.event_type) _ p in
    (
      e,
      i,
      (==_iff e.job_id k).0 parts.0,
      parts.1,
      parts.2,
      evidence e t.kind tokens parts.1
          (subst (λ x. get x tokens ≡ some t) (sym ((==_iff e.job_id k).0 parts.0)) found) backed,
    )
  where
    split :
        (ty : JobEventType) (a b c : Bool)
        → (a && (b && c)) ≡ true
        → (a ≡ true) × (b ≡ true) × (c ≡ true)
    split ty a b c h = ground arith

    evidence :
        (e : JobEvent) (kd : ExecutionTransitionKind) (tokens : Dict ExecutionTransition)
        → is_event_of kd e.event_type ≡ true
        → get e.job_id tokens ≡ some t
        → not (execution_event_backed tokens e) ≡ false
        → is_execution_completed e.event_type ≡ true
        → truthy (get_value "after_work_evidence" e.metadata) ≡ true
    evidence e kd tokens ty g backed c = ground arith

-- The same of an authority release.
pub release-event :
    {F : Type 0} (k : String) (ms : List (JobMutation F)) (events : List JobEvent)
    {m : JobMutation F} {t : AuthorityRelease}
    → validate_release_events ms events ≡ ok tt
    → last_mutation k none ms ≡ some m
    → m.release ≡ some t
    → (e : JobEvent) × In e events
      × (e.job_id ≡ k)
      × (is_block_released e.event_type ≡ true)
      × (names released_run_id_key t.proposal_run_id e ≡ true)
unfolding validate_release_events
release-event {F} k ms events {m} {t} h l q =
    let tokens = tokens_from {F = F} (λ n. n.release) [] ms in
    let (b, h2) =
      >>-eq-ok (raise_if (not (check_tokens release_matches events tokens)) release_token) _ h in
    let found =
      tokens_from-last (λ (n : JobMutation F). n.release) k ms none [] (λ n s p r. cc) l q in
    let (e, i, p) =
      check_tokens-event release_matches events tokens
        (not-eq_false (check_tokens release_matches events tokens) (raise_if-ok _ _ b))
        (get-In k tokens found) in
    let parts = split (e.job_id == k) (is_block_released e.event_type) _ p in
    (e, i, (==_iff e.job_id k).0 parts.0, parts.1, parts.2)
  where
    split : (a b c : Bool) → (a && (b && c)) ≡ true → (a ≡ true) × (b ≡ true) × (c ≡ true)
    split a b c h = ground arith
