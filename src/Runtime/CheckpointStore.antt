-- ===== src/Runtime/CheckpointStore.antt =====
-- backend/app/runtime/checkpoint_store.py: the table of checkpoints and its two namespaces.
-- `encoded` is the number of bytes of the JSON of a state, if it has one; the fresh identifier of a
-- row is the next one.
pub mod Namespaces
pub mod Latest
use intelligent_agent_platfo.Base.{
  ℕ, suc, max, Bool, true, false, ◌&&◌, ◌||◌, not, Option, none, some, List, [], ◌∷◌, find, ltb,
  ◌==◌, if◌then◌else◌,
}
use intelligent_agent_platfo.Effects.{
  Action, ◌>>=◌, ◌>>◌, gets, modify, pure, raise, or_raise, raise_if,
}
use intelligent_agent_platfo.Database.{
  Text, Time, Exception, value_error, size_limit_error, CheckpointKey, StoredCheckpoint,
  RuntimeCheckpoint,
}
use intelligent_agent_platfo.Database.Requests.{runner_gateway, lookalike, plain}

-- `is_runner_gateway_reserved_checkpoint`
abbrev pub is_reserved : CheckpointKey → Bool
is_reserved (runner_gateway _) = true
is_reserved (lookalike _) = false
is_reserved (plain _) = false

-- `RuntimeCheckpoint.checkpoint_key.startswith(…)`, as the query tests it
abbrev pub is_like_reserved : CheckpointKey → Bool
is_like_reserved (runner_gateway _) = true
is_like_reserved (lookalike _) = true
is_like_reserved (plain _) = false

abbrev pub same_key : CheckpointKey → CheckpointKey → Bool
same_key (runner_gateway a) (runner_gateway b) = a == b
same_key (lookalike a) (lookalike b) = a == b
same_key (plain a) (plain b) = a == b
same_key _ _ = false

abbrev pub Checkpoints : Type 0 → Type 0
Checkpoints = Action (List RuntimeCheckpoint) Exception

abbrev pub is_at : Text → CheckpointKey → RuntimeCheckpoint → Bool
is_at run_id key r = (r.run_id == run_id) && same_key r.stored.checkpoint_key key

abbrev pub next_id : List RuntimeCheckpoint → ℕ
next_id [] = 1
next_id (r ∷ rs) = max (suc r.id) (next_id rs)

-- The row that is there is overwritten, or one is added.
unfoldable pub put :
    Text → StoredCheckpoint → Time → ℕ → List RuntimeCheckpoint → List RuntimeCheckpoint
put run_id stored now fresh [] =
    record { id = fresh; run_id = run_id; stored = stored; updated_at = now } ∷ []
put run_id stored now fresh (r ∷ rs) =
    let rest = put run_id stored now fresh rs in
    if is_at run_id stored.checkpoint_key r
    then record r { stored = stored; updated_at = now } ∷ rs
    else r ∷ rest

abbrev pub is_live : Text → RuntimeCheckpoint → Bool
is_live run_id r = (r.run_id == run_id) && not (is_like_reserved r.stored.checkpoint_key)

-- `updated_at.desc(), id.desc()`
abbrev pub is_newer : RuntimeCheckpoint → RuntimeCheckpoint → Bool
is_newer a b = ltb b.updated_at a.updated_at || ((a.updated_at == b.updated_at) && ltb b.id a.id)

abbrev pub newer_of : RuntimeCheckpoint → Option RuntimeCheckpoint → RuntimeCheckpoint
newer_of a none = a
newer_of a (some b) = if is_newer b a then b else a

unfoldable pub latest : Text → List RuntimeCheckpoint → Option RuntimeCheckpoint
latest run_id [] = none
latest run_id (r ∷ rs) =
    let rest = latest run_id rs in if is_live run_id r then some (newer_of r rest) else rest

-- `_stored_checkpoint`
abbrev pub stored_checkpoint : Option RuntimeCheckpoint → Option StoredCheckpoint
stored_checkpoint none = none
stored_checkpoint (some r) = some r.stored

unfoldable pub load_latest_record : Text → List RuntimeCheckpoint → Option StoredCheckpoint
unfolding latest
load_latest_record run_id rows = stored_checkpoint (latest run_id rows)

unfoldable pub load_reserved : Text → CheckpointKey → Checkpoints (Option StoredCheckpoint)
load_reserved run_id key = do
  raise_if (not (is_reserved key)) value_error
  gets (λ rows. stored_checkpoint (find (is_at run_id key) rows))

module _ (encoded : Text → Option ℕ) (max_bytes : ℕ) where
  -- `_save`, with the reading of the clock.
  unfoldable pub save_any : Text → StoredCheckpoint → Time → Checkpoints StoredCheckpoint
  unfolding put
  save_any run_id stored now = do
    size ← or_raise (encoded stored.state) value_error
    raise_if (ltb max_bytes size) size_limit_error
    modify (λ rows. put run_id stored now (next_id rows) rows)
    pure stored

  unfoldable pub save : Text → StoredCheckpoint → Time → Checkpoints StoredCheckpoint
  unfolding save_any
  save run_id stored now = do
    raise_if (is_reserved stored.checkpoint_key) value_error
    save_any run_id stored now

  unfoldable pub save_reserved :
      Text → CheckpointKey → Text → Option Text → Time → Checkpoints StoredCheckpoint
  unfolding save_any
  save_reserved run_id key state snapshot_digest now = do
    raise_if (not (is_reserved key)) value_error
    save_any run_id
        (record {
          checkpoint_key = key;
          state = state;
          snapshot_digest = snapshot_digest;
          idempotency_key = none;
        })
        now
