-- ===== src/Tests/TeamGraph.antt =====
-- A team plan of four tasks, of which the first is complete.
use intelligent_agent_platfo.Base.{◌≡◌, ◌≢◌, refl, List, [], ◌∷◌, some, arith}
use mathlib.Core.List.{Memᴰ}
use intelligent_agent_platfo.Effects.{ok, err}
use intelligent_agent_platfo.Runtime.TeamGraph.{
  TeamTask, TeamPlan, TeamError, schedule_ready_tasks, select, sort_tasks, ready_tasks, insert_task,
}
use intelligent_agent_platfo.Runtime.TeamGraph.Ready.{Ready}
use intelligent_agent_platfo.Runtime.TeamGraph.Plan.{
  TeamSnapshot, validate_team_plan, parallel_width,
}
use intelligent_agent_platfo.Runtime.TeamGraph.Schedule.{
  IsBatch, schedule_ready_tasks_lem, schedule_progress,
}

abbrev gather : TeamTask
gather = record { id = 1; member_id = 10; depends_on = []; position = 0 }

abbrev draft : TeamTask
draft = record { id = 2; member_id = 11; depends_on = 1 ∷ []; position = 2 }

abbrev check : TeamTask
check = record { id = 3; member_id = 12; depends_on = 1 ∷ []; position = 1 }

abbrev publish : TeamTask
publish = record { id = 4; member_id = 11; depends_on = 2 ∷ 3 ∷ []; position = 3 }

abbrev plan : TeamPlan
plan = record { tasks = gather ∷ draft ∷ check ∷ publish ∷ [] }

scheduled : schedule_ready_tasks plan (1 ∷ []) [] 2 ≡ ok (check ∷ draft ∷ [])
unfolding schedule_ready_tasks select sort_tasks ready_tasks insert_task
scheduled = refl

draft-Ready : Ready plan (1 ∷ []) [] draft
draft-Ready = (Memᴰ.tail (Memᴰ.head refl), refl)

schedule_ready_tasks_lem_example :
    (batch : List TeamTask) × (schedule_ready_tasks plan (1 ∷ []) [] 2 ≡ ok batch)
    × IsBatch plan (1 ∷ []) [] 2 batch
schedule_ready_tasks_lem_example =
    schedule_ready_tasks_lem plan (1 ∷ []) [] 2 (omega arith) refl refl

schedule_progress_example : check ∷ draft ∷ [] ≢ []
schedule_progress_example =
    schedule_progress plan (1 ∷ []) [] 2 (check ∷ draft ∷ []) draft scheduled draft-Ready

abbrev snapshot : TeamSnapshot
snapshot = record { supervisor = 9; members = 10 ∷ 11 ∷ 12 ∷ []; max_steps = 4 }

accepted : validate_team_plan plan snapshot (some 2) ≡ ok tt
unfolding validate_team_plan
accepted = refl

width : parallel_width plan ≡ 2
unfolding parallel_width
width = refl

-- The first task waits for the last one.
rejected :
    validate_team_plan
      (record { tasks = record gather { depends_on = 4 ∷ [] } ∷ draft ∷ check ∷ publish ∷ [] })
      snapshot
      (some 2)
    ≡ err TeamError.team_plan_error
unfolding validate_team_plan
rejected = refl
