-- ===== src/Runtime/CheckpointStore/Latest.antt =====
-- `CheckpointStore.load_latest_record`, the checkpoint that a run resumes from.
use mathlib.Core.Path.{subst}
use intelligent_agent_platfo.Base.{
  ℕ, ◌≡◌, ◌<◌, ◌∙◌, ap, inl, inr, refl, true, false, Option, none, some, List, [], ◌∷◌, All, arith,
  Bool-cases, if◌then◌else◌,
}
use intelligent_agent_platfo.Effects.{ok, raise_if}
use intelligent_agent_platfo.Effects.Inversion.{bind_ok, raise_if_ok}
use intelligent_agent_platfo.Database.{Text, Time, value_error, StoredCheckpoint, RuntimeCheckpoint}
use intelligent_agent_platfo.Runtime.CheckpointStore.{
  is_reserved, is_like_reserved, is_at, next_id, put, is_live, is_newer, newer_of, latest,
  load_latest_record, save_any, save,
}
use intelligent_agent_platfo.Runtime.CheckpointStore.Namespaces.{save_any_ok, latest-put_hidden}

-- Every row was written before the time.
abbrev pub WrittenBefore : Time → List RuntimeCheckpoint → Type 0
WrittenBefore now = All (λ r. r.updated_at < now)

-- What `put` makes the latest row.
abbrev IsSaved : StoredCheckpoint → Time → Option RuntimeCheckpoint → Type 0
IsSaved stored now found =
    (x : RuntimeCheckpoint) × (found ≡ some x) × (x.stored ≡ stored) × (x.updated_at ≡ now)

newer_of-newer : (r x : RuntimeCheckpoint) → r.updated_at < x.updated_at → newer_of r (some x) ≡ x
newer_of-newer r x h = ground arith

newer_of-older :
    (r : RuntimeCheckpoint) (o : Option RuntimeCheckpoint)
    → ((y : RuntimeCheckpoint) → o ≡ some y → y.updated_at < r.updated_at)
    → newer_of r o ≡ r
newer_of-older r none older = refl
newer_of-older r (some y) older = let before = older y refl in ground arith

newer_of-before :
    (now : Time) (r : RuntimeCheckpoint) (o : Option RuntimeCheckpoint)
    → r.updated_at < now
    → ((y : RuntimeCheckpoint) → o ≡ some y → y.updated_at < now)
    → (newer_of r o).updated_at < now
newer_of-before now r none h older = h
newer_of-before now r (some y) h older = elim (Bool-cases (is_newer y r)) [
  | inl newer ↦ rw newer (older y refl)
  | inr not_newer ↦ rw not_newer h
]

some-injective : (a b : RuntimeCheckpoint) → some a ≡ some b → a ≡ b
some-injective a b h = cc

latest-before :
    (run_id : Text) (now : Time) (rows : List RuntimeCheckpoint) (x : RuntimeCheckpoint)
    → WrittenBefore now rows
    → latest run_id rows ≡ some x
    → x.updated_at < now
unfolding latest
latest-before run_id now [] x h e = cc
latest-before run_id now (r ∷ rs) x (early, earlier) e =
    let before =
      newer_of-before now r (latest run_id rs) early
        (λ y p. latest-before run_id now rs y earlier p) in
    elim (Bool-cases (is_live run_id r)) [
      | inl live ↦
          let same : newer_of r (latest run_id rs) ≡ x =
            some-injective _ _ (ground (arith, live)) in
          subst (λ (z : RuntimeCheckpoint). z.updated_at < now) same before
      | inr hidden ↦ latest-before run_id now rs x earlier (ground (arith, hidden))
    ]

latest-put :
    (run_id : Text) (stored : StoredCheckpoint) (now fresh : ℕ) (rows : List RuntimeCheckpoint)
    → is_like_reserved stored.checkpoint_key ≡ false
    → WrittenBefore now rows
    → IsSaved stored now (latest run_id (put run_id stored now fresh rows))
unfolding put latest
latest-put run_id stored now fresh [] plain h =
    let row : RuntimeCheckpoint = record {
      id = fresh;
      run_id = run_id;
      stored = stored;
      updated_at = now;
    } in
    (row, ground arith, refl, refl)
latest-put run_id stored now fresh (r ∷ rs) plain (early, earlier) =
    elim (Bool-cases (is_at run_id stored.checkpoint_key r)) [
      | inl there ↦
          let row : RuntimeCheckpoint = record r { stored = stored; updated_at = now } in
          let live : is_live run_id row ≡ true = ground arith in
          let top =
            newer_of-older row (latest run_id rs)
              (λ y p. latest-before run_id now rs y earlier p) in
          rw (there, live, top) (row, refl, refl, refl)
      | inr away ↦
          let (x, found, stored_is, at_now) = latest-put run_id stored now fresh rs plain earlier in
          let later : r.updated_at < x.updated_at = rw at_now early in
          elim (Bool-cases (is_live run_id r)) [
            | inl live ↦
                rw (away, live, found, newer_of-newer r x later) (x, refl, stored_is, at_now)
            | inr hidden ↦ rw (away, hidden, found) (x, refl, stored_is, at_now)
          ]
    ]

-- What a save that succeeds has written.
save_ok :
    (encoded : Text → Option ℕ) (max_bytes : ℕ) (run_id : Text) (stored out : StoredCheckpoint)
    (now : Time) (rows after : List RuntimeCheckpoint)
    → save encoded max_bytes run_id stored now rows ≡ (ok out, after)
    → after ≡ put run_id stored now (next_id rows) rows
unfolding save
save_ok encoded max_bytes run_id stored out now rows after h =
    let (v, u, passed, saved) =
      bind_ok (raise_if (is_reserved stored.checkpoint_key) value_error)
        (λ _. save_any encoded max_bytes run_id stored now) rows h in
    let (plain, same) = raise_if_ok (is_reserved stored.checkpoint_key) value_error rows passed in
    (save_any_ok encoded max_bytes run_id stored out now u after saved).1
    ∙ ap (λ r. put run_id stored now (next_id r) r) same

-- After a save, from a clock past every earlier write, the latest checkpoint of the run is the one
-- that was saved, if the query of the latest one does not hide its key, and else the one before.
pub load_latest_record-save :
    (encoded : Text → Option ℕ) (max_bytes : ℕ) (run_id : Text) (stored : StoredCheckpoint)
    (now : Time) (rows after : List RuntimeCheckpoint) (out : StoredCheckpoint)
    → WrittenBefore now rows
    → save encoded max_bytes run_id stored now rows ≡ (ok out, after)
    → load_latest_record run_id after ≡ (
        if is_like_reserved stored.checkpoint_key
        then load_latest_record run_id rows
        else some stored)
unfolding load_latest_record
load_latest_record-save encoded max_bytes run_id stored now rows after out before h =
    let wrote = save_ok encoded max_bytes run_id stored out now rows after h in
    elim (Bool-cases (is_like_reserved stored.checkpoint_key)) [
      | inl hidden ↦
          rw (hidden, wrote, latest-put_hidden run_id run_id stored now (next_id rows) rows hidden)
            refl
      | inr shown ↦
          let (x, found, stored_is, at_now) =
            latest-put run_id stored now (next_id rows) rows shown before in
          rw (shown, wrote, found, stored_is) refl
    ]
