-- ===== src/Jobs/Rows.antt =====
-- What one call of `mutate_jobs` (repository.py) does to each row of the table, whatever the plan.
use pashupatastra_sih.Prelude.{
  ◌≡◌, refl, sym, ap, ◌∙◌, subst, String, Bool, ◌&&◌, Option, none, some, inl, inr, List, [], ◌∷◌,
  ◌++◌, any, ◌==◌, ==_iff, arith, Bool-cases, Option-cases, if◌then◌else◌, some_injective,
}
use pashupatastra_sih.Prelude.Dict.{Dict, get, put, get-put}
use pashupatastra_sih.Result.{ok, terminal_job, >>-eq-ok, >>=-eq-ok, raise_if, ok_injective}
use pashupatastra_sih.Jobs.State.{Job, JobMutation, JobEvent, as_job}
use pashupatastra_sih.Jobs.Guards.{is_terminal}
use pashupatastra_sih.Jobs.Validation.{
  validate_mutation, validate_execution_events, validate_release_events,
}
use pashupatastra_sih.Jobs.Store.{Store, row, update, Plan, read_rows, write_mutations, mutate_jobs}
use pashupatastra_sih.Jobs.Accepted.{Valid, validate-Valid}

pub row-id :
    {F : Type 0} (k : String) (js : List (Job F)) {j : Job F} → row k js ≡ some j → j.job_id ≡ k
unfolding row
row-id k [] h = cc
row-id k (x ∷ js) h = elim (Bool-cases (x.job_id == k)) [
  | inl t ↦ subst (λ y. y.job_id ≡ k) (some_injective (rw (t, row) at h)) ((==_iff x.job_id k).0 t)
  | inr f ↦ row-id k js (rw (f, row) at h)
]

-- A write that keeps the id changes the rows of its own id only.
pub row-update :
    {F : Type 0} (k : String) (f : Job F → Job F) (i : String) (js : List (Job F))
    → ((j : Job F) → (f j).job_id ≡ j.job_id)
    → row k (update i f js)
      ≡ (if i == k then elim (row k js) [ none ↦ none | some j ↦ some (f j) ] else row k js)
unfolding row update
row-update k f i [] h = ground arith
row-update k f i (j ∷ js) h =
    ground (arith, ==_iff i k, ==_iff j.job_id i, ==_iff j.job_id k, h j, row-update k f i js h)

as_job-id : {F : Type 0} (m : JobMutation F) (j : Job F) → (as_job m j).job_id ≡ j.job_id
unfolding as_job
as_job-id m j = refl

-- The rows that `mutate_jobs` hands to the plan are rows of the table.
abbrev Reads : {F : Type 0} → List (Job F) → Dict (Job F) → Type 0
Reads {F} table rows = (k : String) (j : Job F) → get k rows ≡ some j → row k table ≡ some j

read_rows-Reads :
    {F : Type 0} (table : List (Job F)) (rows : Dict (Job F)) (ks : List String)
    {rows' : Dict (Job F)}
    → Reads table rows
    → read_rows table rows ks ≡ ok rows'
    → Reads table rows'
unfolding read_rows
read_rows-Reads table rows [] h e = subst (Reads table) (ok_injective e) h
read_rows-Reads {F} table rows (k ∷ ks) h e = elim (Option-cases (row k table)) [
  | inl n ↦ cc (rw (n, read_rows) at e)
  | inr (j, q) ↦
      read_rows-Reads table (put k j rows) ks (λ i x g. pick i x j q (get-put i k j rows) g)
        (rw (q, read_rows) at e)
]
  where
    pick :
        (i : String) (x j : Job F)
        → row k table ≡ some j
        → get i (put k j rows) ≡ (if k == i then some j else get i rows)
        → get i (put k j rows) ≡ some x
        → row i table ≡ some x
    pick i x j q p g = elim (Bool-cases (k == i)) [
      | inl t ↦ subst (λ z. row z table ≡ some x) ((==_iff k i).0 t) (q ∙ sym (rw t at p) ∙ g)
      | inr f ↦ h i x (sym (rw f at p) ∙ g)
    ]

-- The last mutation of a job in a plan, whose values are the ones that stay.
unfoldable pub last_mutation :
    {F : Type 0} → String → Option (JobMutation F) → List (JobMutation F) → Option (JobMutation F)
last_mutation k o [] = o
last_mutation k o (m ∷ ms) = last_mutation k (if m.job_id == k then some m else o) ms

-- How a row stands after a plan: as it was, if the plan has no mutation of it, else as its last
-- mutation says, which was validated against the row.
abbrev pub Written : {F : Type 0} → Job F → Option (JobMutation F) → Job F → Type 0
Written j none j' = j' ≡ j
Written j (some m) j' = Valid j m × (j' ≡ as_job m j)

-- Writing over a written row gives the row of the later mutation.
Written-again :
    {F : Type 0} (j : Job F) (o : Option (JobMutation F)) (j' : Job F) (m : JobMutation F)
    → Written j o j'
    → Valid j m
    → Written j (some m) (as_job m j')
unfolding as_job
Written-again j none j' m w v = (v, ap (as_job m) w)
Written-again j (some n) j' m w v = (v, ap (as_job m) w.1)

module _ {F : Type 0} (table : List (Job F)) (rows : Dict (Job F)) (k : String) (j : Job F)
    (reads : Reads table rows) (stored : row k table ≡ some j) where
  write-Written :
      (ms : List (JobMutation F)) (o : Option (JobMutation F)) (t : List (Job F)) (j1 : Job F)
      {t' : List (Job F)}
      → row k t ≡ some j1
      → Written j o j1
      → write_mutations rows ms t ≡ ok t'
      → (j' : Job F) × (row k t' ≡ some j') × Written j (last_mutation k o ms) j'
  unfolding write_mutations last_mutation
  write-Written [] o t j1 r w e = (j1, subst (λ x. row k x ≡ some j1) (ok_injective e) r, w)
  write-Written (m ∷ ms) o t j1 r w e = elim (Option-cases (get m.job_id rows)) [
    | inl n ↦ cc (rw (n, write_mutations) at e)
    | inr (current, q) ↦
        let (valid, e1) = >>-eq-ok (validate_mutation current m) _ (rw (q, write_mutations) at e) in
        let v = validate-Valid current m valid in
        let next = row-update k (as_job m) m.job_id t (as_job-id m) in
        elim (Bool-cases (m.job_id == k)) [
          | inl here_k ↦
              let same = some_injective (
                sym (
                  subst (λ i. row i table ≡ some current) ((==_iff m.job_id k).0 here_k)
                    (reads m.job_id current q))
                ∙ stored) in
              write-Written ms (if m.job_id == k then some m else o) (update m.job_id (as_job m) t)
                (as_job m j1) (rw (here_k, r) at next)
                (rw here_k (Written-again j o j1 m w (subst (λ x. Valid x m) same v))) e1
          | inr other ↦
              write-Written ms (if m.job_id == k then some m else o) (update m.job_id (as_job m) t)
                j1 (rw other at next ∙ r) (rw other w) e1
        ]
  ]

-- A row that is not there stays away.
write-absent :
    {F : Type 0} (rows : Dict (Job F)) (k : String) (ms : List (JobMutation F)) (t : List (Job F))
    {t' : List (Job F)}
    → row k t ≡ none
    → write_mutations rows ms t ≡ ok t'
    → row k t' ≡ none
unfolding write_mutations
write-absent rows k [] t r e = subst (λ x. row k x ≡ none) (ok_injective e) r
write-absent {F} rows k (m ∷ ms) t r e = elim (Option-cases (get m.job_id rows)) [
  | inl n ↦ cc (rw (n, write_mutations) at e)
  | inr (current, q) ↦
      let (valid, e1) = >>-eq-ok (validate_mutation current m) _ (rw (q, write_mutations) at e) in
      write-absent rows k ms (update m.job_id (as_job m) t)
        (row-update k (as_job m) m.job_id t (as_job-id m) ∙ still m (m.job_id == k)) e1
]
  where
    still :
        (n : JobMutation F) (b : Bool)
        → (if b then elim (row k t) [ none ↦ none | some j ↦ some (as_job n j) ] else row k t)
          ≡ none
    still n b = ground arith

-- A successful `mutate_jobs`: the plan that it ran, with the facts about the rows and the events.
pub record Ran {F : Type 0} (plan : Plan F) (store store' : Store F) : Type 0 where
  pub read : Dict (Job F)
  pub mutations : List (JobMutation F)
  pub new_events : List JobEvent
  pub planned : plan read ≡ ok (mutations, new_events)
  pub reads : Reads store.rows read
  pub log : store'.events ≡ store.events ++ new_events
  pub executions : validate_execution_events mutations new_events ≡ ok tt
  pub releases : validate_release_events mutations new_events ≡ ok tt
  pub written :
      (k : String) (j : Job F)
      → row k store.rows ≡ some j
      → (j' : Job F) × (row k store'.rows ≡ some j') × Written j (last_mutation k none mutations) j'
  pub absent : (k : String) → row k store.rows ≡ none → row k store'.rows ≡ none

pub mutate_jobs-Ran :
    {F : Type 0} (ks : List String) (plan : Plan F) (reject_terminal : Bool) (store : Store F)
    {store' : Store F}
    → mutate_jobs ks plan reject_terminal store ≡ ok store'
    → Ran plan store store'
unfolding mutate_jobs get
mutate_jobs-Ran ks plan reject_terminal store e =
    let (rows, er, e1) = >>=-eq-ok (read_rows store.rows [] ks) _ e in
    let (et, e2) =
      >>-eq-ok (raise_if (reject_terminal && any (λ r. is_terminal r.1.status) rows) terminal_job) _
        e1 in
    let (p, ep, e3) = >>=-eq-ok (plan rows) _ e2 in
    let (table, ew, e4) = >>=-eq-ok (write_mutations rows p.0 store.rows) _ e3 in
    let (ex, e5) = >>-eq-ok (validate_execution_events p.0 p.1) _ e4 in
    let (rl, e6) = >>-eq-ok (validate_release_events p.0 p.1) _ e5 in
    let reads = read_rows-Reads store.rows [] ks (λ i x g. cc) er in
    let done = ok_injective e6 in
    record {
      read = rows;
      mutations = p.0;
      new_events = p.1;
      planned = ep;
      reads = reads;
      log = sym (ap (λ s. s.events) done);
      executions = ex;
      releases = rl;
      written = λ k j r.
          let (j', r', w) =
            write-Written store.rows rows k j reads r p.0 none store.rows j r refl ew in
          (j', subst (λ s. row k s.rows ≡ some j') done r', w);
      absent =
          λ k r. subst (λ s. row k s.rows ≡ none) done (write-absent rows k p.0 store.rows r ew);
    }
