-- ===== src/Runtime/TeamGraph/Plan/Rounds.antt =====
-- The loops of `validate_team_plan` and `parallel_width` end within as many rounds as there are
-- tasks.
use intelligent_agent_platfo.Base.{
  ℕ, sym, ap, ◌∙◌, max, zero, suc, ◌+◌, ◌≤◌, ◌≡◌, refl, inl, inr, Bool, true, ◌&&◌, not, List, [],
  ◌∷◌, ◌++◌, map, filterb, count, length, elem, ◌==◌, arith, if◌then◌else◌, Bool-cases,
}
use intelligent_agent_platfo.Database.{Text}
use intelligent_agent_platfo.Runtime.TeamGraph.{TeamTask, TeamPlan, subset}
use intelligent_agent_platfo.Runtime.TeamGraph.Plan.{
  Indegrees, lower, is_freed, relax, successors, visit, visited_tasks, unsettled_ready,
  count_distinct, widen, parallel_width,
}

-- The tasks that still wait for a dependency.
abbrev waiting : Indegrees → ℕ
waiting = count (λ (key, degree). not (degree == 0))

length-snoc : (queue : List Text) (x : Text) → length (queue ++ x ∷ []) ≡ suc (length queue)
length-snoc [] x = refl
length-snoc (y ∷ ys) x = ground (arith, length-snoc ys x)

-- Lowering a degree leaves no more tasks waiting, and one less if it frees the task.
waiting-lower :
    (id : Text) (degrees : Indegrees)
    → (if is_freed id degrees then 1 else 0) + waiting (lower id degrees) ≤ waiting degrees
unfolding lower is_freed
waiting-lower id [] = omega arith
waiting-lower id ((key, degree) ∷ rest) = ground (arith, waiting-lower id rest)

abbrev pending : Indegrees × List Text → ℕ
pending (degrees, queue) = length queue + waiting degrees

relax-pending :
    (next : List Text) (degrees : Indegrees) (queue : List Text)
    → pending (relax next degrees queue) ≤ length queue + waiting degrees
unfolding relax
relax-pending [] degrees queue = omega arith
relax-pending (x ∷ xs) degrees queue =
    let less = waiting-lower x degrees in
    elim (Bool-cases (is_freed x degrees)) [
      | inl freed ↦
          let rest = relax-pending xs (lower x degrees) (queue ++ x ∷ []) in
          let longer = length-snoc queue x in ground arith
      | inr kept ↦ let rest = relax-pending xs (lower x degrees) queue in ground arith
    ]

visit-empty :
    (fuel : ℕ) (tasks : List TeamTask) (degrees : Indegrees) (visited : ℕ)
    → visit fuel tasks degrees [] visited ≡ visited
unfolding visit
visit-empty zero tasks degrees visited = refl
visit-empty (suc fuel) tasks degrees visited = refl

suc-plus : (n m : ℕ) → suc n + m ≡ suc (n + m)
suc-plus n m = omega arith

-- The fuel is enough if it covers the tasks in the queue and those that wait.
visit-enough :
    (fuel extra : ℕ) (tasks : List TeamTask) (degrees : Indegrees) (queue : List Text) (visited : ℕ)
    → length queue + waiting degrees ≤ fuel
    → visit (fuel + extra) tasks degrees queue visited ≡ visit fuel tasks degrees queue visited
unfolding visit
visit-enough fuel extra tasks degrees [] visited h =
    visit-empty (fuel + extra) tasks degrees visited ∙ sym (visit-empty fuel tasks degrees visited)
visit-enough zero extra tasks degrees (current ∷ queue) visited h = absurd (ground arith)
visit-enough (suc fuel) extra tasks degrees (current ∷ queue) visited h =
    let less = relax-pending (successors current tasks) degrees queue in
    let next = relax (successors current tasks) degrees queue in
    ap (λ n. visit n tasks degrees (current ∷ queue) visited) (suc-plus fuel extra)
    ∙ visit-enough fuel extra tasks (next.0) (next.1) (visited + 1) (ground arith)

-- At first every task is in the queue or waits.
first-pending :
    (tasks : List TeamTask)
    → length (map (λ (t : TeamTask). t.id) (filterb (λ t. length t.depends_on == 0) tasks))
        + waiting (map (λ (t : TeamTask). (t.id, length t.depends_on)) tasks)
      ≡ length tasks
first-pending [] = refl
first-pending (t ∷ ts) = ground (arith, first-pending ts)

-- The loop of the visits has ended within as many rounds as there are tasks: more rounds visit no
-- more tasks.
pub visited_tasks_enough :
    (tasks : List TeamTask) (extra : ℕ)
    → visit
        (length tasks + extra)
        tasks
        (map (λ t. (t.id, length t.depends_on)) tasks)
        (map (λ t. t.id) (filterb (λ t. length t.depends_on == 0) tasks))
        0
      ≡ visited_tasks tasks
unfolding visited_tasks
visited_tasks_enough tasks extra =
    let all_there = first-pending tasks in
    visit-enough (length tasks) extra tasks (map (λ t. (t.id, length t.depends_on)) tasks)
      (map (λ t. t.id) (filterb (λ t. length t.depends_on == 0) tasks)) 0 (omega arith)

elem-front : (x : Text) (xs ys : List Text) → elem x xs ≡ true → elem x (xs ++ ys) ≡ true
elem-front x [] ys h = cc
elem-front x (z ∷ xs) ys h = elim (Bool-cases (elem x xs)) [
  | inl later ↦ ground (arith, elem-front x xs ys later)
  | inr not_later ↦ ground arith
]

elem-back : (x : Text) (xs ys : List Text) → elem x ys ≡ true → elem x (xs ++ ys) ≡ true
elem-back x [] ys h = h
elem-back x (z ∷ xs) ys h = ground (arith, elem-back x xs ys h)

abbrev unsettled : List Text → List TeamTask → ℕ
unsettled settled = count (λ t. not (elem t.id settled))

-- The ready tasks were not settled, and are settled after the round.
unsettled-less :
    (old new : List Text) (tasks : List TeamTask)
    → ((x : Text) → elem x old ≡ true → elem x new ≡ true)
    → ((x : Text) → elem x (map (λ t. t.id) (unsettled_ready tasks old)) ≡ true → elem x new ≡ true)
    → unsettled new tasks + length (unsettled_ready tasks old) ≤ unsettled old tasks
unfolding unsettled_ready
unsettled-less old new [] kept settled = omega arith
unsettled-less old new (t ∷ ts) kept settled =
    elim (Bool-cases (not (elem t.id old) && subset t.depends_on old)) [
      | inl ready ↦
          let rest =
            unsettled-less old new ts kept (λ x there. settled x (rw ready (ground arith))) in
          let this : elem t.id new ≡ true = settled t.id (rw ready (ground arith)) in ground arith
      | inr not_ready ↦
          let rest = unsettled-less old new ts kept (λ x there. settled x (rw not_ready there)) in
          let keep = kept t.id in ground arith
    ]

widen-done :
    (fuel : ℕ) (tasks : List TeamTask) (settled : List Text) (maximum : ℕ)
    → length (unsettled_ready tasks settled) ≡ 0
    → widen fuel tasks settled maximum ≡ maximum
unfolding widen
widen-done zero tasks settled maximum none_ready = refl
widen-done (suc fuel) tasks settled maximum none_ready = rw none_ready refl

round-less :
    (tasks : List TeamTask) (settled : List Text)
    → unsettled (map (λ t. t.id) (unsettled_ready tasks settled) ++ settled) tasks
        + length (unsettled_ready tasks settled)
      ≤ unsettled settled tasks
round-less tasks settled =
    let ready = map (λ (t : TeamTask). t.id) (unsettled_ready tasks settled) in
    unsettled-less settled (ready ++ settled) tasks (λ x. elem-back x ready settled)
      (λ x. elem-front x ready settled)

-- The fuel is enough if it covers the tasks that are not settled.
widen-enough :
    (fuel extra : ℕ) (tasks : List TeamTask) (settled : List Text) (maximum : ℕ)
    → unsettled settled tasks ≤ fuel
    → widen (fuel + extra) tasks settled maximum ≡ widen fuel tasks settled maximum
unfolding widen
widen-enough zero extra tasks settled maximum h =
    let less = round-less tasks settled in
    widen-done (zero + extra) tasks settled maximum (omega arith)
widen-enough (suc fuel) extra tasks settled maximum h =
    let less = round-less tasks settled in
    elim (Bool-cases (length (unsettled_ready tasks settled) == 0)) [
      | inl none_ready ↦
          let over : length (unsettled_ready tasks settled) ≡ 0 = ground arith in
          widen-done (suc fuel + extra) tasks settled maximum over
          ∙ sym (widen-done (suc fuel) tasks settled maximum over)
      | inr some_ready ↦
          let ready = unsettled_ready tasks settled in
          ap (λ n. widen n tasks settled maximum) (suc-plus fuel extra)
          ∙ rw some_ready (
              widen-enough fuel extra tasks (map (λ t. t.id) ready ++ settled)
                (max maximum (count_distinct (map (λ t. t.member_id) ready))) (ground arith))
    ]

count-le-length : (p : TeamTask → Bool) (tasks : List TeamTask) → count p tasks ≤ length tasks
count-le-length p [] = omega arith
count-le-length p (t ∷ ts) = ground (arith, count-le-length p ts)

-- The loop of the widths has ended within as many rounds as there are tasks: more rounds find no
-- greater width.
pub parallel_width_enough :
    (plan : TeamPlan) (extra : ℕ)
    → widen (length plan.tasks + extra) plan.tasks [] 0 ≡ parallel_width plan
unfolding parallel_width
parallel_width_enough plan extra =
    widen-enough (length plan.tasks) extra plan.tasks [] 0
      (count-le-length (λ t. not (elem t.id [])) plan.tasks)
