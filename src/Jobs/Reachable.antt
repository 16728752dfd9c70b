-- ===== src/Jobs/Reachable.antt =====
-- Sequences of successful writes of repository.py, in the order in which SQLite's write lock puts
-- them.
use pashupatastra_sih.Prelude.{◌≡◌, sym, subst, ◌∙◌, String, some, ap, false}
use pashupatastra_sih.Jobs.State.{reported, completed, Job, execution_id_of}
use pashupatastra_sih.Jobs.Guards.{is_terminal}
use pashupatastra_sih.Jobs.Store.{Store, row}
use pashupatastra_sih.Jobs.Steps.{Step, Change, unmoved, refused, moved}
use pashupatastra_sih.Jobs.Effects.{Step-Stepped}
use pashupatastra_sih.Jobs.History.{AllBacked, Backed, Step-AllBacked}

pub data Reaches {F : Type 0} : Store F → Store F → Type 0 where
  arrived : (s : Store F) → Reaches s s
  step : (s t u : Store F) → Step s t → Reaches t u → Reaches s u

-- Every row of the store is reported, as `create` inserts it.
abbrev pub AllReported : {F : Type 0} → Store F → Type 0
AllReported {F} store = (k : String) (j : Job F) → row k store.rows ≡ some j → j.status ≡ reported

Reaches-keeps_backed : {F : Type 0} (s t : Store F) → AllBacked s → Reaches s t → AllBacked t
Reaches-keeps_backed s t h (arrived _) = h
Reaches-keeps_backed s t h (step _ m _ w r) = Reaches-keeps_backed m t (Step-AllBacked s m h w) r

-- After any sequence of writes to a store of reported jobs, a job that is in progress has its start
-- event in the log, and a completed one also has its completion event with after-work evidence, all
-- of them naming the execution that the row names.
pub Reaches-AllBacked : {F : Type 0} (s t : Store F) → AllReported s → Reaches s t → AllBacked t
Reaches-AllBacked s t h r =
    Reaches-keeps_backed s t
      (λ k j q. subst (λ x. Backed k x (execution_id_of j) s.events) (sym (h k j q)) tt) r

Step-keeps_completed :
    {F : Type 0} (s t : Store F) (k : String) (j : Job F)
    → Step s t
    → row k s.rows ≡ some j
    → j.status ≡ completed
    → row k t.rows ≡ some j
Step-keeps_completed {F} s t k j w q done =
    let stepped = Step-Stepped k j s q w in
    stepped.stored ∙ ap some (same stepped.after stepped.change)
  where
    same : (x : Job F) {new_events : _} → Change k j x new_events → x ≡ j
    same x (unmoved e) = e
    same x (refused n c e) = cc (subst (λ y. is_terminal y ≡ false) done n)
    same x (moved ex rel accepted l f) =
        cc (subst (λ y. is_terminal y ≡ false) done accepted.not_terminal)

-- No sequence of writes changes the row of a completed job.
pub Reaches-keeps_completed :
    {F : Type 0} (s t : Store F) (k : String) (j : Job F)
    → Reaches s t
    → row k s.rows ≡ some j
    → j.status ≡ completed
    → row k t.rows ≡ some j
Reaches-keeps_completed s t k j (arrived _) q done = q
Reaches-keeps_completed s t k j (step _ m _ w r) q done =
    Reaches-keeps_completed m t k j r (Step-keeps_completed s m k j w q done) done
