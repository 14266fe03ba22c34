-- ===== src/Tests/CheckpointStore.antt =====
-- Two checkpoints of a run, and one of the runner gateway.
use intelligent_agent_platfo.Base.{
  ℕ, ◌≡◌, ◌+◌, refl, none, some, Option, List, [], ◌∷◌, arith, if◌then◌else◌,
}
use intelligent_agent_platfo.Effects.{ok}
use intelligent_agent_platfo.Database.{Text, CheckpointKey, StoredCheckpoint, RuntimeCheckpoint}
use intelligent_agent_platfo.Runtime.CheckpointStore.{
  is_like_reserved, latest, put, load_latest_record, load_reserved, save, save_reserved, save_any,
}
use intelligent_agent_platfo.Runtime.CheckpointStore.Namespaces.{
  save_reserved_lem, save-load_reserved,
}
use intelligent_agent_platfo.Runtime.CheckpointStore.Latest.{WrittenBefore, load_latest_record-save}

abbrev encoded : Text → Option ℕ
encoded t = some (t + 2)

abbrev stored : StoredCheckpoint
stored = record {
  checkpoint_key = CheckpointKey.plain 1;
  state = 50;
  snapshot_digest = some 9;
  idempotency_key = some 4;
}

abbrev rows : List RuntimeCheckpoint
rows =
    record { id = 1; run_id = 11; stored = record stored { state = 7 }; updated_at = 3 }
    ∷ record {
      id = 2;
      run_id = 11;
      stored = record stored { checkpoint_key = CheckpointKey.runner_gateway 1 };
      updated_at = 4;
    }
    ∷ record {
      id = 3;
      run_id = 11;
      stored = record stored { checkpoint_key = CheckpointKey.plain 2 };
      updated_at = 5;
    }
    ∷ []

rows-WrittenBefore : WrittenBefore 8 rows
rows-WrittenBefore = (omega arith, (omega arith, (omega arith, tt)))

abbrev saved_rows : List RuntimeCheckpoint
saved_rows = (save encoded 60 11 stored 8 rows).1

saved : save encoded 60 11 stored 8 rows ≡ (ok stored, saved_rows)
unfolding save save_any put
saved = refl

load_latest_record-save_example :
    load_latest_record 11 saved_rows
    ≡ (if is_like_reserved stored.checkpoint_key then load_latest_record 11 rows else some stored)
load_latest_record-save_example =
    load_latest_record-save encoded 60 11 stored 8 rows saved_rows stored rows-WrittenBefore saved

-- A key that the store does not reserve, but that the query of the latest checkpoint hides.
abbrev hidden : StoredCheckpoint
hidden = record stored { checkpoint_key = CheckpointKey.lookalike 6 }

abbrev hidden_rows : List RuntimeCheckpoint
hidden_rows = (save encoded 60 11 hidden 8 rows).1

hidden_saved : save encoded 60 11 hidden 8 rows ≡ (ok hidden, hidden_rows)
unfolding save save_any put
hidden_saved = refl

hidden_missed : load_latest_record 11 hidden_rows ≡ load_latest_record 11 rows
unfolding save save_any put load_latest_record latest
hidden_missed = refl

save-load_reserved_example :
    (load_reserved 11 (CheckpointKey.runner_gateway 1) saved_rows).0
    ≡ (load_reserved 11 (CheckpointKey.runner_gateway 1) rows).0
save-load_reserved_example =
    save-load_reserved encoded 60 11 stored 8 rows saved_rows stored 11
      (CheckpointKey.runner_gateway 1) saved refl

abbrev gateway : StoredCheckpoint
gateway = record {
  checkpoint_key = CheckpointKey.runner_gateway 1;
  state = 20;
  snapshot_digest = none;
  idempotency_key = none;
}

abbrev gateway_rows : List RuntimeCheckpoint
gateway_rows = (save_reserved encoded 60 11 (CheckpointKey.runner_gateway 1) 20 none 8 rows).1

reserved_saved :
    save_reserved encoded 60 11 (CheckpointKey.runner_gateway 1) 20 none 8 rows
    ≡ (ok gateway, gateway_rows)
unfolding save_reserved save_any put
reserved_saved = refl

save_reserved_lem_example :
    (load_reserved 11 (CheckpointKey.runner_gateway 1) gateway_rows
      ≡ (ok (some gateway), gateway_rows))
    × ((other_run : Text)
        → load_latest_record other_run gateway_rows ≡ load_latest_record other_run rows)
save_reserved_lem_example =
    save_reserved_lem encoded 60 11 (CheckpointKey.runner_gateway 1) 20 none 8 rows gateway_rows
      gateway reserved_saved
