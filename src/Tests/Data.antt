-- ===== src/Tests/Data.antt =====
-- A small database: a run that waits in the queue, one that runs, and one that has ended.
use intelligent_agent_platfo.Base.{[], ◌∷◌}
use intelligent_agent_platfo.Database.{Store, Conversation, AgentRun, RunStatus, Event, ActorType}

abbrev pub talk : Conversation
talk = record { id = 7; unit_id = 1; project_id = 2; owner_id = 3 }

abbrev pub queued_run : AgentRun
queued_run = record {
  id = 10;
  conversation_id = 7;
  actor_type = ActorType.agent;
  actor_id = 5;
  actor_roles = [];
  status = RunStatus.queued;
}

abbrev pub running_run : AgentRun
running_run = record queued_run { id = 11; status = RunStatus.running }

abbrev pub ended_run : AgentRun
ended_run = record queued_run { id = 12; status = RunStatus.completed }

abbrev pub base : Store
base = record {
  conversations = talk ∷ [];
  runs = queued_run ∷ running_run ∷ ended_run ∷ [];
  events =
      record { run_id = 12; sequence = 2; event = Event.run_status RunStatus.completed }
      ∷ record { run_id = 11; sequence = 1; event = Event.sandbox_started }
      ∷ record { run_id = 12; sequence = 1; event = Event.sandbox_started }
      ∷ [];
  invocations = [];
  approvals = [];
  revocations = [];
  audits = [];
  messages = [];
  checkpoints = [];
  requests = [];
}
