-- ===== src/Conversations/Repository/Log.antt =====
-- The numbers of the events of a run, as `append_event` gives them.
use intelligent_agent_platfo.Base.{
  ℕ, zero, suc, ◌+◌, ◌≡◌, refl, inl, inr, none, some, List, [], ◌∷◌, arith, length, ◌==◌,
  if◌then◌else◌, Bool-cases, Option-cases,
}
use intelligent_agent_platfo.Effects.{ok, err}
use intelligent_agent_platfo.Database.{Text, Store, RunEvent, Event, AgentRun, key_error}
use intelligent_agent_platfo.Conversations.Repository.{get_run_by_id, max_sequence, append_event}

-- The numbers of the events of a run, in the order of the table.
abbrev pub sequences : Text → List RunEvent → List ℕ
sequences run_id [] = []
sequences run_id (e ∷ es) =
    let rest = sequences run_id es in if e.run_id == run_id then e.sequence ∷ rest else rest

abbrev pub countdown : ℕ → List ℕ
countdown zero = []
countdown (suc n) = suc n ∷ countdown n

-- How many events a run has.
abbrev pub event_count : Text → List RunEvent → ℕ
event_count run_id es = length (sequences run_id es)

-- The log of every run is numbered without gaps and without repetition.
abbrev pub IsDense : List RunEvent → Type 0
IsDense es = (run_id : Text) → sequences run_id es ≡ countdown (event_count run_id es)

length-countdown : (n : ℕ) → length (countdown n) ≡ n
length-countdown zero = refl
length-countdown (suc n) = omega (arith, length-countdown n)

pub max_sequence-countdown :
    (run_id : Text) (es : List RunEvent) (n : ℕ)
    → sequences run_id es ≡ countdown n
    → max_sequence run_id es ≡ n
unfolding max_sequence
max_sequence-countdown run_id [] zero h = refl
max_sequence-countdown run_id [] (suc n) h = cc
max_sequence-countdown run_id (e ∷ es) zero h = elim (Bool-cases (e.run_id == run_id)) [
  | inl mine ↦ ground arith
  | inr theirs ↦ ground (arith, max_sequence-countdown run_id es zero)
]
max_sequence-countdown run_id (e ∷ es) (suc n) h = elim (Bool-cases (e.run_id == run_id)) [
  | inl mine ↦ ground (arith, max_sequence-countdown run_id es n)
  | inr theirs ↦ ground (arith, max_sequence-countdown run_id es (suc n))
]

-- In a dense log the greatest number of a run is how many events it has.
pub max_sequence-event_count :
    (run_id : Text) (es : List RunEvent)
    → IsDense es
    → max_sequence run_id es ≡ event_count run_id es
max_sequence-event_count run_id es h = max_sequence-countdown run_id es _ (h run_id)

-- What `append_event` does to a run that exists.
abbrev pub appended : Text → Event → Store → Store
appended run_id event s = record s {
  events =
      record { run_id = run_id; sequence = max_sequence run_id s.events + 1; event = event }
      ∷ s.events;
}

pub append_event_of_run :
    (run_id : Text) (event : Event) (s : Store) (r : AgentRun)
    → get_run_by_id run_id s ≡ some r
    → append_event run_id event s ≡ (ok tt, appended run_id event s)
unfolding append_event
append_event_of_run run_id event s r h = ground arith

pub append_event_no_run :
    (run_id : Text) (event : Event) (s : Store)
    → get_run_by_id run_id s ≡ none
    → append_event run_id event s ≡ (err (key_error run_id), s)
unfolding append_event
append_event_no_run run_id event s h = ground arith

pub appended-IsDense :
    (run_id : Text) (event : Event) (s : Store)
    → IsDense s.events
    → IsDense (appended run_id event s).events
appended-IsDense run_id event s h other_id = elim (Bool-cases (run_id == other_id)) [
  | inl same ↦ ground (arith, max_sequence-event_count run_id s.events h, h other_id)
  | inr differ ↦ ground (arith, h other_id)
]

-- An event that is appended goes to the event table only.
pub append_event_ok :
    (run_id : Text) (event : Event) (s t : Store) (v : Unit {0})
    → append_event run_id event s ≡ (ok v, t)
    → t ≡ appended run_id event s
unfolding append_event
append_event_ok run_id event s t v h = elim (Option-cases (get_run_by_id run_id s)) [
  | inl absent ↦ ground arith
  | inr (r, found) ↦ ground arith
]
