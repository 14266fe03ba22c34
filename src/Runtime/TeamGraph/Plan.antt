-- ===== src/Runtime/TeamGraph/Plan.antt =====
-- `validate_team_plan` and `parallel_width` of backend/app/runtime/team_graph.py. The dictionary of
-- the indegrees is a list of pairs in the order of the tasks, whose identifiers are distinct when
-- it is made. Of a degree that is 0 or has been lowered below it only that is kept, as 0: such a
-- degree never becomes 0 again.
pub mod Rounds
use intelligent_agent_platfo.Base.{
  ℕ, zero, suc, ◌+◌, ◌-◌, max, Bool, false, ◌&&◌, ◌||◌, not, Option, none, some, List, [], ◌∷◌,
  ◌++◌, map, all, elem, filterb, length, ltb, leb, ◌==◌, if◌then◌else◌,
}
use intelligent_agent_platfo.Effects.{Result, ok, err}
use intelligent_agent_platfo.Database.{Text}
use intelligent_agent_platfo.Runtime.TeamGraph.{TeamTask, TeamPlan, TeamError, subset, ids}

-- What the validation reads of `PublishedTeamSnapshot`.
pub record TeamSnapshot : Type 0 where
  pub supervisor : Text
  pub members : List Text
  pub max_steps : ℕ

-- `len(xs) != len(set(xs))`
unfoldable pub has_duplicates : List ℕ → Bool
has_duplicates [] = false
has_duplicates (x ∷ xs) = elem x xs || has_duplicates xs

-- `graph[id]`: one entry for each dependency on the task.
unfoldable pub successors : Text → List TeamTask → List Text
successors id [] = []
successors id (t ∷ ts) = map (λ _. t.id) (filterb (λ d. d == id) t.depends_on) ++ successors id ts

abbrev pub Indegrees : Type 0
Indegrees = List (Text × ℕ)

unfoldable pub lower : Text → Indegrees → Indegrees
lower id [] = []
lower id ((key, degree) ∷ rest) =
    (if key == id then (key, degree - 1) else (key, degree)) ∷ lower id rest

-- The degree of a task becomes 0 by being lowered.
unfoldable pub is_freed : Text → Indegrees → Bool
is_freed id [] = false
is_freed id ((key, degree) ∷ rest) = ((key == id) && (degree == 1)) || is_freed id rest

-- The inner loop, over the successors of the task that is visited.
unfoldable pub relax : List Text → Indegrees → List Text → Indegrees × List Text
unfolding lower is_freed
relax [] degrees queue = (degrees, queue)
relax (successor ∷ rest) degrees queue =
    relax rest (lower successor degrees)
      (if is_freed successor degrees then queue ++ successor ∷ [] else queue)

unfoldable pub visit : ℕ → List TeamTask → Indegrees → List Text → ℕ → ℕ
unfolding successors relax
visit zero tasks degrees queue visited = visited
visit (suc fuel) tasks degrees [] visited = visited
visit (suc fuel) tasks degrees (current ∷ queue) visited =
    let (lowered, grown) = relax (successors current tasks) degrees queue in
    visit fuel tasks lowered grown (visited + 1)

unfoldable pub visited_tasks : List TeamTask → ℕ
unfolding visit
visited_tasks tasks =
    visit (length tasks) tasks (map (λ t. (t.id, length t.depends_on)) tasks)
      (map (λ t. t.id) (filterb (λ t. length t.depends_on == 0) tasks)) 0

abbrev pub limits_subagents : List TeamTask → Option ℕ → Bool
limits_subagents [] limit = false
limits_subagents (t ∷ ts) none = false
limits_subagents (t ∷ ts) (some limit) = leb limit 0

abbrev pub check : Bool → TeamError → Result TeamError (Unit {0}) → Result TeamError (Unit {0})
check refused e rest = if refused then err e else rest

-- `runner_max_subagents` is 0 also for a negative number.
unfoldable pub validate_team_plan : TeamPlan → TeamSnapshot → Option ℕ → Result TeamError (Unit {0})
unfolding has_duplicates visited_tasks
validate_team_plan plan snapshot runner_max_subagents =
    let allowed = snapshot.supervisor ∷ snapshot.members in
    let tasks = plan.tasks in
    check (ltb snapshot.max_steps (length tasks)) TeamError.team_limit_error (
      check (limits_subagents tasks runner_max_subagents) TeamError.team_limit_error (
        check (has_duplicates (ids plan)) TeamError.team_plan_error (
          check (not (all (λ t. elem t.member_id allowed) tasks)) TeamError.team_plan_error (
            check (not (all (λ t. subset t.depends_on (ids plan)) tasks)) TeamError.team_plan_error
              (check (not (all (λ t. not (has_duplicates t.depends_on)) tasks))
                TeamError.team_plan_error
                (check (not (visited_tasks tasks == length tasks)) TeamError.team_plan_error (
                  check (has_duplicates (map (λ t. t.position) tasks)) TeamError.team_plan_error
                    (ok tt))))))))

-- The ready tasks of a round of `parallel_width`, and the number of their members.
unfoldable pub unsettled_ready : List TeamTask → List Text → List TeamTask
unsettled_ready tasks settled =
    filterb (λ t. not (elem t.id settled) && subset t.depends_on settled) tasks

unfoldable pub count_distinct : List ℕ → ℕ
count_distinct [] = 0
count_distinct (x ∷ xs) = let rest = count_distinct xs in if elem x xs then rest else suc rest

unfoldable pub widen : ℕ → List TeamTask → List Text → ℕ → ℕ
unfolding unsettled_ready count_distinct
widen zero tasks settled maximum = maximum
widen (suc fuel) tasks settled maximum =
    let ready = unsettled_ready tasks settled in
    let wider = max maximum (count_distinct (map (λ t. t.member_id) ready)) in
    let rest = widen fuel tasks (map (λ t. t.id) ready ++ settled) wider in
    if length ready == 0 then maximum else rest

unfoldable pub parallel_width : TeamPlan → ℕ
unfolding widen
parallel_width plan = widen (length plan.tasks) plan.tasks [] 0
