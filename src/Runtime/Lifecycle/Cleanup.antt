-- ===== src/Runtime/Lifecycle/Cleanup.antt =====
-- When a sandbox is cleaned up, and which runs are retried at startup.
use intelligent_agent_platfo.Base.{
  ◌+◌, ◌≡◌, ◌≤◌, refl, inl, inr, Bool, true, false, ◌&&◌, not, Option, none, some, List, [], ◌∷◌,
  arith, ==-self, Option-cases, ap, is_some,
}
use intelligent_agent_platfo.Effects.{ok, when}
use intelligent_agent_platfo.Effects.Total.{transaction_of_ok}
use intelligent_agent_platfo.Database.{Text, Store, AgentRun, RunEvent, Event, CleanupStatus, Db}
use intelligent_agent_platfo.Conversations.Repository.{
  append_event, get_run_by_id, max_sequence, latest_event,
}
use intelligent_agent_platfo.Conversations.Repository.Log.{appended, append_event_of_run}
use intelligent_agent_platfo.Runtime.Lifecycle.{
  is_cleanup_event, is_cleaned_event, is_failed_event, is_started_event, cleanup_is_due,
  record_cleanup,
}

latest-le-max :
    (run_id : Text) (p : Event → Bool) (es : List RunEvent) (f : RunEvent)
    → latest_event run_id p es ≡ some f
    → f.sequence ≤ max_sequence run_id es
unfolding latest_event max_sequence
latest-le-max run_id p [] f h = cc
latest-le-max run_id p (e ∷ es) f h = elim (Option-cases (latest_event run_id p es)) [
  | inl nothing ↦ ground arith
  | inr (g, found) ↦ ground (arith, latest-le-max run_id p es g found)
]

-- The event that was appended last is the latest of those that pass a test, if it passes, and
-- else the latest stays.
latest-appended :
    (run_id : Text) (p : Event → Bool) (event : Event) (s : Store)
    → p event ≡ true
    → latest_event run_id p (appended run_id event s).events
      ≡ some
          (record { run_id = run_id; sequence = max_sequence run_id s.events + 1; event = event })
unfolding latest_event
latest-appended run_id p event s hit = elim (Option-cases (latest_event run_id p s.events)) [
  | inl nothing ↦ rw (==-self run_id, hit, nothing) refl
  | inr (g, found) ↦
      rw (==-self run_id, hit, found) (ground (arith, latest-le-max run_id p s.events g found))
]

latest-appended_other :
    (run_id : Text) (p : Event → Bool) (event : Event) (s : Store)
    → p event ≡ false
    → latest_event run_id p (appended run_id event s).events ≡ latest_event run_id p s.events
unfolding latest_event
latest-appended_other run_id p event s miss = rw (==-self run_id, miss) refl

record_cleanup_of_run :
    (run_id : Text) (outcome : CleanupStatus) (s : Store) (r : AgentRun)
    → get_run_by_id run_id s ≡ some r
    → (record_cleanup run_id outcome s).1 ≡ appended run_id (Event.sandbox_cleanup outcome) s
unfolding record_cleanup
record_cleanup_of_run run_id outcome s r found = ap (λ x. x.1) (transaction_of_ok session s done)
  where
    session : Db (Unit {0})
    session t =
        when (is_some (get_run_by_id run_id t))
          (append_event run_id (Event.sandbox_cleanup outcome)) t

    done : session s ≡ (ok tt, appended run_id (Event.sandbox_cleanup outcome) s)
    done = rw found (append_event_of_run run_id (Event.sandbox_cleanup outcome) s r found)

-- With a successful cleanup as the last event no cleanup is due.
pub cleanup_appended :
    (run_id : Text) (s : Store)
    → cleanup_is_due run_id (appended run_id (Event.sandbox_cleanup CleanupStatus.cleaned) s)
      ≡ false
unfolding cleanup_is_due
cleanup_appended run_id s =
    rw
      (
        latest-appended run_id is_cleanup_event (Event.sandbox_cleanup CleanupStatus.cleaned) s
            refl,
        latest-appended_other run_id is_started_event (Event.sandbox_cleanup CleanupStatus.cleaned)
            s refl,
      )
      (elim (Option-cases (latest_event run_id is_started_event s.events)) [
        | inl never ↦ rw never refl
        | inr (g, e) ↦ rw e (ground (arith, latest-le-max run_id is_started_event s.events g e))
      ])

-- After a successful cleanup was recorded, another cleanup returns at once.
pub cleanup_once :
    (run_id : Text) (s : Store) (r : AgentRun)
    → get_run_by_id run_id s ≡ some r
    → cleanup_is_due run_id (record_cleanup run_id CleanupStatus.cleaned s).1 ≡ false
cleanup_once run_id s r found =
    rw (record_cleanup_of_run run_id CleanupStatus.cleaned s r found) (cleanup_appended run_id s)

-- The last cleanup has a status that is neither "cleaned" nor "failed".
abbrev pub has_foreign_status : Option RunEvent → Bool
has_foreign_status none = false
has_foreign_status (some cleanup) =
    not (is_cleaned_event cleanup.event) && not (is_failed_event cleanup.event)
