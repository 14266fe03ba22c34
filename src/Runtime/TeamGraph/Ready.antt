-- ===== src/Runtime/TeamGraph/Ready.antt =====
-- The ready tasks of a plan, sorted: the first half of `schedule_ready_tasks`.
use mathlib.Core.List.{Memᴰ}
use intelligent_agent_platfo.Base.{
  ◌≡◌, inl, inr, refl, Bool, true, false, List, [], ◌∷◌, All, filterb, arith, Bool-cases, ◌++◌,
}
use intelligent_agent_platfo.Database.{Text}
use intelligent_agent_platfo.Runtime.TeamGraph.{
  TeamTask, TeamPlan, is_ready, precedes, insert_task, sort_tasks, ready_tasks,
}

module _ {A : Type 0} where
  pub All-implies : {P Q : A → Type 0} (xs : List A) → ((x : A) → P x → Q x) → All P xs → All Q xs
  All-implies [] f tt = tt
  All-implies (x ∷ xs) f (h, hs) = (f x h, All-implies xs f hs)

  pub All-Mem : (xs : List A) → All (λ x. Memᴰ x xs) xs
  All-Mem [] = tt
  All-Mem (x ∷ xs) = (Memᴰ.head refl, All-implies xs (λ y d. Memᴰ.tail d) (All-Mem xs))

  pub Mem-filterb :
      (p : A → Bool) (xs : List A) (x : A) → Memᴰ x xs → p x ≡ true → Memᴰ x (filterb p xs)
  Mem-filterb p [] x d h = elim d [ ]
  Mem-filterb p (y ∷ ys) x (Memᴰ.head e) h = elim (Bool-cases (p y)) [
    | inl hit ↦ rw hit (Memᴰ.head e)
    | inr miss ↦ ground arith
  ]
  Mem-filterb p (y ∷ ys) x (Memᴰ.tail d) h = elim (Bool-cases (p y)) [
    | inl hit ↦ rw hit (Memᴰ.tail (Mem-filterb p ys x d h))
    | inr miss ↦ rw miss (Mem-filterb p ys x d h)
  ]

  pub All-filterb :
      (P : A → Type 0) (p : A → Bool) (xs : List A)
      → All P xs
      → All (λ x. P x × (p x ≡ true)) (filterb p xs)
  All-filterb P p [] h = tt
  All-filterb P p (x ∷ xs) (h, hs) = elim (Bool-cases (p x)) [
    | inl hit ↦ rw hit ((h, hit), All-filterb P p xs hs)
    | inr miss ↦ rw miss (All-filterb P p xs hs)
  ]

All-insert_task :
    (P : TeamTask → Type 0) (t : TeamTask) (us : List TeamTask)
    → P t
    → All P us
    → All P (insert_task t us)
unfolding insert_task
All-insert_task P t [] h hs = (h, tt)
All-insert_task P t (u ∷ us) h (k, ks) = elim (Bool-cases (precedes u t)) [
  | inl before ↦ rw before (k, All-insert_task P t us h ks)
  | inr after ↦ rw after (h, (k, ks))
]

All-sort_tasks : (P : TeamTask → Type 0) (ts : List TeamTask) → All P ts → All P (sort_tasks ts)
unfolding sort_tasks
All-sort_tasks P [] h = tt
All-sort_tasks P (t ∷ ts) (h, hs) = All-insert_task P t (sort_tasks ts) h (All-sort_tasks P ts hs)

Mem-insert_task :
    (t : TeamTask) (us : List TeamTask) (x : TeamTask) → Memᴰ x (t ∷ us) → Memᴰ x (insert_task t us)
unfolding insert_task
Mem-insert_task t [] x d = d
Mem-insert_task t (u ∷ us) x (Memᴰ.head e) = elim (Bool-cases (precedes u t)) [
  | inl before ↦ rw before (Memᴰ.tail (Mem-insert_task t us x (Memᴰ.head e)))
  | inr after ↦ rw after (Memᴰ.head e)
]
Mem-insert_task t (u ∷ us) x (Memᴰ.tail (Memᴰ.head e)) = elim (Bool-cases (precedes u t)) [
  | inl before ↦ rw before (Memᴰ.head e)
  | inr after ↦ rw after (Memᴰ.tail (Memᴰ.head e))
]
Mem-insert_task t (u ∷ us) x (Memᴰ.tail (Memᴰ.tail d)) = elim (Bool-cases (precedes u t)) [
  | inl before ↦ rw before (Memᴰ.tail (Mem-insert_task t us x (Memᴰ.tail d)))
  | inr after ↦ rw after (Memᴰ.tail (Memᴰ.tail d))
]

Mem-sort_tasks : (ts : List TeamTask) (x : TeamTask) → Memᴰ x ts → Memᴰ x (sort_tasks ts)
unfolding sort_tasks
Mem-sort_tasks [] x d = elim d [ ]
Mem-sort_tasks (t ∷ ts) x (Memᴰ.head e) = Mem-insert_task t (sort_tasks ts) x (Memᴰ.head e)
Mem-sort_tasks (t ∷ ts) x (Memᴰ.tail d) =
    Mem-insert_task t (sort_tasks ts) x (Memᴰ.tail (Mem-sort_tasks ts x d))

-- In the order of positions and identifiers.
abbrev pub IsOrdered : List TeamTask → Type 0
IsOrdered [] = Unit
IsOrdered (t ∷ ts) = All (λ u. precedes u t ≡ false) ts × IsOrdered ts

precedes-asymmetric : (t u : TeamTask) → precedes u t ≡ true → precedes t u ≡ false
precedes-asymmetric t u h = ground arith

precedes-transitive :
    (t u v : TeamTask) → precedes u t ≡ false → precedes v u ≡ false → precedes v t ≡ false
precedes-transitive t u v h k = ground arith

insert_task-IsOrdered :
    (t : TeamTask) (us : List TeamTask) → IsOrdered us → IsOrdered (insert_task t us)
unfolding insert_task
insert_task-IsOrdered t [] h = (tt, tt)
insert_task-IsOrdered t (u ∷ us) (least, ordered) = elim (Bool-cases (precedes u t)) [
  | inl before ↦ rw before (
    All-insert_task (λ v. precedes v u ≡ false) t us (precedes-asymmetric t u before) least,
    insert_task-IsOrdered t us ordered,
  )
  | inr after ↦
      rw after
        ((after, All-implies us (λ v. precedes-transitive t u v after) least), (least, ordered))
]

sort_tasks-IsOrdered : (ts : List TeamTask) → IsOrdered (sort_tasks ts)
unfolding sort_tasks
sort_tasks-IsOrdered [] = tt
sort_tasks-IsOrdered (t ∷ ts) = insert_task-IsOrdered t (sort_tasks ts) (sort_tasks-IsOrdered ts)

module _ (plan : TeamPlan) (completed failed : List Text) where
  abbrev pub Ready : TeamTask → Type 0
  Ready t = Memᴰ t plan.tasks × (is_ready (completed ++ failed) completed t ≡ true)

  pub ready_tasks-Ready : All Ready (ready_tasks plan completed failed)
  unfolding ready_tasks
  ready_tasks-Ready =
      All-sort_tasks Ready (filterb (is_ready (completed ++ failed) completed) plan.tasks) (
        All-filterb (λ t. Memᴰ t plan.tasks) (is_ready (completed ++ failed) completed) plan.tasks
          (All-Mem plan.tasks))

  pub Ready-ready_tasks : (t : TeamTask) → Ready t → Memᴰ t (ready_tasks plan completed failed)
  unfolding ready_tasks
  Ready-ready_tasks t (member, ready) =
      Mem-sort_tasks (filterb (is_ready (completed ++ failed) completed) plan.tasks) t
        (Mem-filterb (is_ready (completed ++ failed) completed) plan.tasks t member ready)

  pub ready_tasks-IsOrdered : IsOrdered (ready_tasks plan completed failed)
  unfolding ready_tasks
  ready_tasks-IsOrdered =
      sort_tasks-IsOrdered (filterb (is_ready (completed ++ failed) completed) plan.tasks)
