-- ===== src/Runtime/RunStates/Moves.antt =====
-- Tables of runs whose runs have each made one step of the machine, or none.
use mathlib.Core.Path.{subst}
use intelligent_agent_platfo.Base.{
  ◌≡◌, ◌⊎◌, refl, sym, ◌∙◌, inl, inr, Bool, true, false, Option, none, some, List, arith, map,
  Bool-cases,
}
use intelligent_agent_platfo.Database.{Text, Store, AgentRun, RunStatus, is_terminal}
use intelligent_agent_platfo.Runtime.Lifecycle.{with_status}
use intelligent_agent_platfo.Runtime.Lifecycle.Rows.{find_run, updated, find_run-map, find_run-id}
use intelligent_agent_platfo.Runtime.RunStates.{Step, Reachable}

abbrev pub Moves : Option AgentRun → Option AgentRun → Type 0
Moves none none = Unit
Moves (some r) (some t) = (t.status ≡ r.status) ⊎ Step r.status t.status
Moves _ _ = ⊥

abbrev pub Moved : Store → Store → Type 0
Moved s t = (id : Text) → Moves (find_run id s.runs) (find_run id t.runs)

pub Moves-refl : (o : Option AgentRun) → Moves o o
Moves-refl none = tt
Moves-refl (some r) = inl refl

pub Moved-same : (s t : Store) → t.runs ≡ s.runs → Moved s t
Moved-same s t same id = rw same (Moves-refl (find_run id s.runs))

Moves-updated :
    (p : AgentRun → Bool) (status : RunStatus) (o : Option AgentRun)
    → ((r : AgentRun) → o ≡ some r → p r ≡ true → Step r.status status)
    → Moves o (updated p status o)
unfolding updated
Moves-updated p status none steps = tt
Moves-updated p status (some r) steps = elim (Bool-cases (p r)) [
  | inl hit ↦ rw hit (inr (steps r refl hit))
  | inr miss ↦ rw miss (inl refl)
]

-- An update of statuses by which every run that it reaches makes a step.
pub Moved-updated :
    (p : AgentRun → Bool) (status : RunStatus) (s t : Store)
    → ((id : Text) (r : AgentRun) → find_run id s.runs ≡ some r → p r ≡ true → Step r.status status)
    → t.runs ≡ map (with_status p status) s.runs
    → Moved s t
Moved-updated p status s t steps same id =
    rw (same, find_run-map p status id s.runs)
      (Moves-updated p status (find_run id s.runs) (steps id))

-- The runs under one identifier are one.
pub same_run :
    (run_id id : Text) (run r : AgentRun) (runs : List AgentRun)
    → find_run run_id runs ≡ some run
    → find_run id runs ≡ some r
    → r.id ≡ run_id
    → run ≡ r
same_run run_id id run r runs found found_r named =
    let this : find_run run_id runs ≡ some r =
      subst (λ i. find_run i runs ≡ some r) (sym (find_run-id id runs r found_r) ∙ named) found_r in
    ground (arith, found, this)

-- An update that reaches one run.
pub Moved-one :
    (run_id : Text) (run : AgentRun) (p : AgentRun → Bool) (status : RunStatus) (s t : Store)
    → find_run run_id s.runs ≡ some run
    → ((r : AgentRun) → p r ≡ true → r.id ≡ run_id)
    → Step run.status status
    → t.runs ≡ map (with_status p status) s.runs
    → Moved s t
Moved-one run_id run p status s t found only step same =
    Moved-updated p status s t
      (λ id r found_r hit.
        let is = same_run run_id id run r s.runs found found_r (only r hit) in
        subst (λ (x : AgentRun). Step x.status status) is step)
      same

pub step_live : {a b : RunStatus} → Step a b → is_terminal a ≡ false
step_live Step.launched = refl
step_live Step.released = refl
step_live (Step.paused live) = live
step_live (Step.ended live final) = live

-- A run that has ended stays as it is.
pub Reachable-ended : {a b : RunStatus} → Reachable a b → is_terminal a ≡ true → b ≡ a
Reachable-ended Reachable.here ended = refl
Reachable-ended (Reachable.there step rest) ended =
    let live = step_live step in absurd (ground arith)
