-- ===== src/Conversations/Repository/Resume.antt =====
-- Resuming an event stream: `list_events` after a sequence number.
use intelligent_agent_platfo.Base.{
  ℕ, zero, suc, ◌+◌, ◌-◌, ◌≤◌, ◌≡◌, refl, inl, inr, List, [], ◌∷◌, ◌++◌, map, arith, filterb, ltb,
  ◌==◌, ◌&&◌, Bool-cases, true, false,
}
use intelligent_agent_platfo.Database.{Store, RunEvent}
use intelligent_agent_platfo.Conversations.Repository.{
  insert_by_sequence, order_by_sequence, list_events,
}
use intelligent_agent_platfo.Conversations.Repository.Log.{
  sequences, countdown, event_count, IsDense,
}

-- a, a + 1, …, n numbers in all.
abbrev pub range_from : ℕ → ℕ → List ℕ
range_from a zero = []
range_from a (suc n) = a ∷ range_from (suc a) n

abbrev pub numbers : List RunEvent → List ℕ
numbers = map (λ e. e.sequence)

range_from_last : (a n : ℕ) → range_from a (suc n) ≡ range_from a n ++ (a + n) ∷ []
range_from_last a zero = ground arith
range_from_last a (suc n) = ground (arith, range_from_last (suc a) n)

insert-last :
    (e : RunEvent) (es : List RunEvent) (a n : ℕ)
    → numbers es ≡ range_from a n
    → a + n ≤ e.sequence
    → numbers (insert_by_sequence e es) ≡ range_from a n ++ e.sequence ∷ []
unfolding insert_by_sequence
insert-last e [] a zero h le = refl
insert-last e [] a (suc n) h le = cc
insert-last e (x ∷ xs) a zero h le = cc
insert-last e (x ∷ xs) a (suc n) h le = ground (arith, insert-last e xs (suc a) n)

module _ (run_id after : ℕ) where
  selected : List RunEvent → List RunEvent
  selected = filterb (λ e. (e.run_id == run_id) && ltb after e.sequence)

  selected-cons_new :
      (e : RunEvent) (es : List RunEvent)
      → (e.run_id == run_id) ≡ true
      → ltb after e.sequence ≡ true
      → selected (e ∷ es) ≡ e ∷ selected es
  unfolding selected
  selected-cons_new e es mine new = ground arith

  selected-cons_old :
      (e : RunEvent) (es : List RunEvent)
      → ltb after e.sequence ≡ false
      → selected (e ∷ es) ≡ selected es
  unfolding selected
  selected-cons_old e es old = ground arith

  selected-cons_other :
      (e : RunEvent) (es : List RunEvent)
      → (e.run_id == run_id) ≡ false
      → selected (e ∷ es) ≡ selected es
  unfolding selected
  selected-cons_other e es theirs = ground arith

  selected_step :
      (e : RunEvent) (es : List RunEvent) (m : ℕ)
      → (e.run_id == run_id) ≡ true
      → e.sequence ≡ suc m
      → numbers (order_by_sequence (selected es)) ≡ range_from (after + 1) (m - after)
      → numbers (order_by_sequence (selected (e ∷ es))) ≡ range_from (after + 1) (suc m - after)
  unfolding order_by_sequence
  selected_step e es m mine top ih = elim (Bool-cases (ltb after e.sequence)) [
    | inl new ↦
        let longer : suc m - after ≡ suc (m - after) = ground arith in
        rw (selected-cons_new e es mine new, longer)
          (ground (
            arith,
            insert-last e (order_by_sequence (selected es)) (after + 1) (m - after),
            range_from_last (after + 1) (m - after),
          ))
    | inr old ↦
        let full : suc m - after ≡ m - after = ground arith in
        rw (selected-cons_old e es old, full) ih
  ]

  order-selected :
      (es : List RunEvent) (n : ℕ)
      → sequences run_id es ≡ countdown n
      → numbers (order_by_sequence (selected es)) ≡ range_from (after + 1) (n - after)
  unfolding order_by_sequence
  order-selected [] zero h = unfold selected in ground arith
  order-selected [] (suc n) h = cc
  order-selected (e ∷ es) zero h = elim (Bool-cases (e.run_id == run_id)) [
    | inl mine ↦ ground arith
    | inr theirs ↦ rw (selected-cons_other e es theirs) (order-selected es zero (ground arith))
  ]
  order-selected (e ∷ es) (suc m) h = elim (Bool-cases (e.run_id == run_id)) [
    | inl mine ↦ selected_step e es m mine (ground arith) (order-selected es m (ground arith))
    | inr theirs ↦ rw (selected-cons_other e es theirs) (order-selected es (suc m) (ground arith))
  ]

-- A reader that has seen the events of a run up to `after` gets exactly the later ones, each
-- once, in order, as long as the log is dense.
pub list_events_resumes :
    (run_id after : ℕ) (s : Store)
    → IsDense s.events
    → numbers (list_events run_id after s)
      ≡ range_from (after + 1) (event_count run_id s.events - after)
unfolding list_events selected
list_events_resumes run_id after s h = order-selected run_id after s.events _ (h run_id)
