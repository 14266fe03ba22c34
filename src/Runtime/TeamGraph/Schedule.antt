-- ===== src/Runtime/TeamGraph/Schedule.antt =====
-- The batch that `schedule_ready_tasks` selects.
use mathlib.Core.List.{Memᴰ}
use intelligent_agent_platfo.Base.{
  ℕ, ◌+◌, ◌≡◌, ◌≢◌, ◌≤◌, ◌<◌, ◌⊎◌, inl, inr, Bool, true, false, List, [], ◌∷◌, All, any, elem,
  length, leb, ◌==◌, arith, Bool-cases,
}
use intelligent_agent_platfo.Effects.{ok}
use intelligent_agent_platfo.Database.{Text}
use intelligent_agent_platfo.Runtime.TeamGraph.{
  TeamTask, TeamPlan, subset, ids, precedes, select, ready_tasks, schedule_ready_tasks,
}
use intelligent_agent_platfo.Runtime.TeamGraph.Ready.{
  All-implies, IsOrdered, Ready, ready_tasks-Ready, Ready-ready_tasks, ready_tasks-IsOrdered,
}

-- No two tasks of a batch are of the same member.
abbrev pub IsDistinct : List TeamTask → Type 0
IsDistinct [] = Unit
IsDistinct (t ∷ ts) = All (λ u. u.member_id ≢ t.member_id) ts × IsDistinct ts

-- A task of the member is in the batch.
abbrev pub is_taken : Text → List TeamTask → Bool
is_taken member = any (λ u. u.member_id == member)

abbrev Fresh : List Text → TeamTask → Type 0
Fresh members u = elem u.member_id members ≡ false

module _ (limit : ℕ) where
  All-select :
      (P : TeamTask → Type 0) (chosen : ℕ) (members : List Text) (ts : List TeamTask)
      → All P ts
      → All P (select limit chosen members ts)
  unfolding select
  All-select P chosen members [] h = tt
  All-select P chosen members (t ∷ ts) (h, hs) = elim (Bool-cases (elem t.member_id members)) [
    | inl old ↦ rw old (All-select P chosen members ts hs)
    | inr new ↦ elim (Bool-cases (leb limit (chosen + 1))) [
      | inl full ↦ rw (new, full) (h, tt)
      | inr room ↦ rw (new, room) (h, All-select P (chosen + 1) (t.member_id ∷ members) ts hs)
    ]
  ]

  select-Fresh :
      (chosen : ℕ) (members : List Text) (ts : List TeamTask)
      → All (Fresh members) (select limit chosen members ts)
  unfolding select
  select-Fresh chosen members [] = tt
  select-Fresh chosen members (t ∷ ts) = elim (Bool-cases (elem t.member_id members)) [
    | inl old ↦ rw old (select-Fresh chosen members ts)
    | inr new ↦ elim (Bool-cases (leb limit (chosen + 1))) [
      | inl full ↦ rw (new, full) (new, tt)
      | inr room ↦
          rw (new, room)
            (
              new,
              All-implies (select limit (chosen + 1) (t.member_id ∷ members) ts)
                  (λ u h. ground arith) (select-Fresh (chosen + 1) (t.member_id ∷ members) ts),
            )
    ]
  ]

  select-IsDistinct :
      (chosen : ℕ) (members : List Text) (ts : List TeamTask)
      → IsDistinct (select limit chosen members ts)
  unfolding select
  select-IsDistinct chosen members [] = tt
  select-IsDistinct chosen members (t ∷ ts) = elim (Bool-cases (elem t.member_id members)) [
    | inl old ↦ rw old (select-IsDistinct chosen members ts)
    | inr new ↦ elim (Bool-cases (leb limit (chosen + 1))) [
      | inl full ↦ rw (new, full) (tt, tt)
      | inr room ↦
          rw (new, room)
            (
              All-implies (select limit (chosen + 1) (t.member_id ∷ members) ts)
                  (λ u (h : Fresh (t.member_id ∷ members) u). ground arith)
                  (select-Fresh (chosen + 1) (t.member_id ∷ members) ts),
              select-IsDistinct (chosen + 1) (t.member_id ∷ members) ts,
            )
    ]
  ]

  select-IsOrdered :
      (chosen : ℕ) (members : List Text) (ts : List TeamTask)
      → IsOrdered ts
      → IsOrdered (select limit chosen members ts)
  unfolding select
  select-IsOrdered chosen members [] h = tt
  select-IsOrdered chosen members (t ∷ ts) (least, ordered) =
      elim (Bool-cases (elem t.member_id members)) [
        | inl old ↦ rw old (select-IsOrdered chosen members ts ordered)
        | inr new ↦ elim (Bool-cases (leb limit (chosen + 1))) [
          | inl full ↦ rw (new, full) (tt, tt)
          | inr room ↦
              rw (new, room)
                (
                  All-select (λ u. precedes u t ≡ false) (chosen + 1) (t.member_id ∷ members) ts
                      least,
                  select-IsOrdered (chosen + 1) (t.member_id ∷ members) ts ordered,
                )
        ]
      ]

  length-select :
      (chosen : ℕ) (members : List Text) (ts : List TeamTask)
      → chosen < limit
      → chosen + length (select limit chosen members ts) ≤ limit
  unfolding select
  length-select chosen members [] h = omega arith
  length-select chosen members (t ∷ ts) h = elim (Bool-cases (elem t.member_id members)) [
    | inl old ↦ rw old (length-select chosen members ts h)
    | inr new ↦ elim (Bool-cases (leb limit (chosen + 1))) [
      | inl full ↦ rw (new, full) (omega arith)
      | inr room ↦
          rw (new, room)
            (let more : chosen + 1 < limit = ground arith in
              omega (arith, length-select (chosen + 1) (t.member_id ∷ members) ts more))
    ]
  ]

  -- Every task is covered: its member was chosen before, is in the batch, or the batch is full.
  select-covers :
      (chosen : ℕ) (members : List Text) (ts : List TeamTask) (x : TeamTask)
      → chosen < limit
      → Memᴰ x ts
      → (elem x.member_id members ≡ true)
        ⊎ ((is_taken x.member_id (select limit chosen members ts) ≡ true)
            ⊎ (chosen + length (select limit chosen members ts) ≡ limit))
  unfolding select
  select-covers chosen members [] x h d = elim d [ ]
  select-covers chosen members (t ∷ ts) x h (Memᴰ.head e) =
      elim (Bool-cases (elem t.member_id members)) [
        | inl old ↦ rw e (inl old)
        | inr new ↦ rw (new, e) (inr (inl (ground arith)))
      ]
  select-covers chosen members (t ∷ ts) x h (Memᴰ.tail d) =
      elim (Bool-cases (elem t.member_id members)) [
        | inl old ↦ rw old (select-covers chosen members ts x h d)
        | inr new ↦ elim (Bool-cases (leb limit (chosen + 1))) [
          | inl full ↦ rw (new, full) (inr (inr (ground arith)))
          | inr room ↦
              rw (new, room)
                (let more : chosen + 1 < limit = ground arith in
                  let rest = select-covers (chosen + 1) (t.member_id ∷ members) ts x more d in
                  elim rest [
                    | inl old ↦ elim (Bool-cases (x.member_id == t.member_id)) [
                      | inl same ↦ inr (inl (ground arith))
                      | inr apart ↦ inl (ground arith)
                    ]
                    | inr (inl taken) ↦ inr (inl (ground arith))
                    | inr (inr full) ↦ inr (inr (omega arith))
                  ])
        ]
      ]

-- What a batch of the scheduler is: ready tasks of the plan, no two of one member, in the order of
-- positions and identifiers, no more than the limit, and as many as possible.
pub record IsBatch (plan : TeamPlan) (completed failed : List Text) (limit : ℕ)
    (batch : List TeamTask) : Type 0 where
  pub ready : All (Ready plan completed failed) batch
  pub distinct : IsDistinct batch
  pub ordered : IsOrdered batch
  pub bounded : length batch ≤ limit
  pub maximal :
      (t : TeamTask)
      → Ready plan completed failed t
      → (is_taken t.member_id batch ≡ true) ⊎ (length batch ≡ limit)

select-IsBatch :
    (plan : TeamPlan) (completed failed : List Text) (limit : ℕ)
    → 0 < limit
    → IsBatch plan completed failed limit (select limit 0 [] (ready_tasks plan completed failed))
select-IsBatch plan completed failed limit positive =
    let ready = ready_tasks plan completed failed in
    record {
      ready =
          All-select limit (Ready plan completed failed) 0 [] ready
            (ready_tasks-Ready plan completed failed);
      distinct = select-IsDistinct limit 0 [] ready;
      ordered = select-IsOrdered limit 0 [] ready (ready_tasks-IsOrdered plan completed failed);
      bounded = omega (arith, length-select limit 0 [] ready positive);
      maximal = λ t is_ready.
          elim (select-covers limit 0 [] ready t positive
            (Ready-ready_tasks plan completed failed t is_ready)) [
              | inl old ↦ ground arith
              | inr (inl taken) ↦ inl taken
              | inr (inr full) ↦ inr (omega arith)
            ];
    }

-- With a positive limit and settled tasks of the plan, the scheduler returns a batch: tasks of the
-- plan that are not settled and depend on completed tasks only, no two of one member, in the order
-- of their positions and identifiers, and no more than the limit; every other ready task is of a
-- member in the batch, or the batch has reached the limit.
pub schedule_ready_tasks_lem :
    (plan : TeamPlan) (completed failed : List Text) (limit : ℕ)
    → 0 < limit
    → subset completed (ids plan) ≡ true
    → subset failed (ids plan) ≡ true
    → (batch : List TeamTask) × (schedule_ready_tasks plan completed failed limit ≡ ok batch)
      × IsBatch plan completed failed limit batch
unfolding schedule_ready_tasks
schedule_ready_tasks_lem plan completed failed limit positive known known_failed = (
  select limit 0 [] (ready_tasks plan completed failed),
  ground arith,
  select-IsBatch plan completed failed limit positive,
)

-- The scheduler makes progress: a batch that it returns for a plan with a ready task is not empty.
pub schedule_progress :
    (plan : TeamPlan) (completed failed : List Text) (limit : ℕ) (batch : List TeamTask)
    (t : TeamTask)
    → schedule_ready_tasks plan completed failed limit ≡ ok batch
    → Ready plan completed failed t
    → batch ≢ []
unfolding schedule_ready_tasks
schedule_progress plan completed failed limit batch t returned ready empty =
    let positive : 0 < limit = ground arith in
    let same : select limit 0 [] (ready_tasks plan completed failed) ≡ [] = ground arith in
    let batch_is = select-IsBatch plan completed failed limit positive in
    elim (batch_is.maximal t ready) [
      | inl taken ↦ ground (arith, taken, same)
      | inr full ↦ ground (arith, full, same)
    ]
