-- ===== src/Runtime/TeamGraph.antt =====
-- backend/app/runtime/team_graph.py: which tasks of a team plan may run next. The identifiers are
-- numbers in the order of the texts; the objective and the output contract of a task are not read.
-- A set is a list.
pub mod Ready
pub mod Schedule
pub mod Plan
use intelligent_agent_platfo.Base.{
  ℕ, zero, suc, ◌+◌, max, Bool, true, false, ◌&&◌, ◌||◌, not, List, [], ◌∷◌, all, filterb, elem,
  length, leb, ltb, ◌==◌, if◌then◌else◌, map, ◌++◌,
}
use intelligent_agent_platfo.Effects.{Result, ok, err}
use intelligent_agent_platfo.Database.{Text}

pub record TeamTask : Type 0 where
  pub id : Text
  pub member_id : Text
  pub depends_on : List Text
  pub position : ℕ

pub record TeamPlan : Type 0 where
  pub tasks : List TeamTask

pub data TeamError : Type 0 where
  team_plan_error team_limit_error : TeamError

-- `set(task.depends_on) <= completed`
abbrev pub subset : List Text → List Text → Bool
subset xs ys = all (λ x. elem x ys) xs

abbrev pub ids : TeamPlan → List Text
ids plan = map (λ t. t.id) plan.tasks

abbrev pub is_ready : List Text → List Text → TeamTask → Bool
is_ready settled completed task = not (elem task.id settled) && subset task.depends_on completed

-- The order of the keys `(task.position, task.id)`.
abbrev pub precedes : TeamTask → TeamTask → Bool
precedes a b = ltb a.position b.position || ((a.position == b.position) && ltb a.id b.id)

-- `ready.sort(…)`: tasks with equal keys keep their order.
unfoldable pub insert_task : TeamTask → List TeamTask → List TeamTask
insert_task t [] = t ∷ []
insert_task t (u ∷ us) =
    let rest = insert_task t us in if precedes u t then u ∷ rest else t ∷ u ∷ us

unfoldable pub sort_tasks : List TeamTask → List TeamTask
unfolding insert_task
sort_tasks [] = []
sort_tasks (t ∷ ts) = insert_task t (sort_tasks ts)

-- The loop over the sorted tasks: `chosen` is `len(selected)`, `members` the members chosen.
unfoldable pub select : ℕ → ℕ → List Text → List TeamTask → List TeamTask
select limit chosen members [] = []
select limit chosen members (t ∷ ts) =
    let skip = select limit chosen members ts in
    let more = select limit (chosen + 1) (t.member_id ∷ members) ts in
    if elem t.member_id members then skip else t ∷ (if leb limit (chosen + 1) then [] else more)

unfoldable pub ready_tasks : TeamPlan → List Text → List Text → List TeamTask
unfolding sort_tasks
ready_tasks plan completed failed =
    sort_tasks (filterb (is_ready (completed ++ failed) completed) plan.tasks)

unfoldable pub schedule_ready_tasks :
    TeamPlan → List Text → List Text → ℕ → Result TeamError (List TeamTask)
unfolding ready_tasks select
schedule_ready_tasks plan completed failed max_parallel_members =
    if leb max_parallel_members 0
    then err TeamError.team_limit_error
    else if not (subset completed (ids plan)) || not (subset failed (ids plan))
    then err TeamError.team_plan_error
    else ok (select max_parallel_members 0 [] (ready_tasks plan completed failed))
