-- ===== src/Runtime/CheckpointStore/Namespaces.antt =====
-- The two namespaces of `CheckpointStore`, reserved and not.
use intelligent_agent_platfo.Base.{
  ℕ, ◌≡◌, ◌∙◌, ap, inl, inr, refl, Bool, true, false, not, Option, none, some, List, [], ◌∷◌, find,
  ltb, arith, Bool-cases,
}
use intelligent_agent_platfo.Effects.{ok, or_raise, raise_if, ◌>>◌, modify, pure}
use intelligent_agent_platfo.Effects.Inversion.{bind_ok, or_raise_ok, raise_if_ok}
use intelligent_agent_platfo.Database.{
  Text, Time, value_error, CheckpointKey, StoredCheckpoint, RuntimeCheckpoint, size_limit_error,
}
use intelligent_agent_platfo.Database.Requests.{runner_gateway, lookalike, plain}
use intelligent_agent_platfo.Runtime.CheckpointStore.{
  is_reserved, is_like_reserved, same_key, is_at, next_id, put, is_live, latest, stored_checkpoint,
  load_latest_record, load_reserved, save_any, save, save_reserved,
}

same_key-same : (p : CheckpointKey → Bool) (a b : CheckpointKey) → same_key a b ≡ true → p a ≡ p b
same_key-same p (runner_gateway a) (runner_gateway b) h =
    ap (λ x. p (runner_gateway x)) (ground (arith, h))
same_key-same p (lookalike a) (lookalike b) h = ap (λ x. p (lookalike x)) (ground (arith, h))
same_key-same p (plain a) (plain b) h = ap (λ x. p (plain x)) (ground (arith, h))
same_key-same p (runner_gateway a) (lookalike b) h = cc
same_key-same p (runner_gateway a) (plain b) h = cc
same_key-same p (lookalike a) (runner_gateway b) h = cc
same_key-same p (lookalike a) (plain b) h = cc
same_key-same p (plain a) (runner_gateway b) h = cc
same_key-same p (plain a) (lookalike b) h = cc

pub reserved-like : (a : CheckpointKey) → is_reserved a ≡ true → is_like_reserved a ≡ true
reserved-like (runner_gateway a) h = refl
reserved-like (lookalike a) h = cc
reserved-like (plain a) h = cc

same_key_self : (a : CheckpointKey) → same_key a a ≡ true
same_key_self (runner_gateway a) = ground arith
same_key_self (lookalike a) = ground arith
same_key_self (plain a) = ground arith

is_at-same :
    (p : CheckpointKey → Bool) (run_id : Text) (key : CheckpointKey) (r : RuntimeCheckpoint)
    → is_at run_id key r ≡ true
    → p r.stored.checkpoint_key ≡ p key
is_at-same p run_id key r h = same_key-same p r.stored.checkpoint_key key (ground arith)

is_at-other :
    (run_id : Text) (key : CheckpointKey) (r : RuntimeCheckpoint)
    → is_reserved key ≡ true
    → is_reserved r.stored.checkpoint_key ≡ false
    → is_at run_id key r ≡ false
is_at-other run_id key r h k = elim (Bool-cases (is_at run_id key r)) [
  | inl there ↦ cc (is_at-same is_reserved run_id key r there)
  | inr away ↦ away
]

is_live-hidden :
    (run_id : Text) (r : RuntimeCheckpoint)
    → is_like_reserved r.stored.checkpoint_key ≡ true
    → is_live run_id r ≡ false
is_live-hidden run_id r h = ground arith

is_at_self :
    (run_id : Text) (r : RuntimeCheckpoint)
    → r.run_id ≡ run_id
    → is_at run_id r.stored.checkpoint_key r ≡ true
is_at_self run_id r h = ground (arith, same_key_self r.stored.checkpoint_key)

-- What a write under one key leaves to a look-up under a key of the other namespace.
find-put_others :
    (run_id other_run : Text) (key : CheckpointKey) (stored : StoredCheckpoint) (now fresh : ℕ)
    (rows : List RuntimeCheckpoint)
    → is_reserved key ≡ true
    → is_reserved stored.checkpoint_key ≡ false
    → find (is_at other_run key) (put run_id stored now fresh rows)
      ≡ find (is_at other_run key) rows
unfolding put
find-put_others run_id other_run key stored now fresh [] h k =
    rw
      (is_at-other other_run key
        (record { id = fresh; run_id = run_id; stored = stored; updated_at = now }) h k)
      refl
find-put_others run_id other_run key stored now fresh (r ∷ rs) h k =
    elim (Bool-cases (is_at run_id stored.checkpoint_key r)) [
      | inl there ↦
          let plain_row = is_at-same is_reserved run_id stored.checkpoint_key r there ∙ k in
          rw
            (
              there,
              is_at-other other_run key (record r { stored = stored; updated_at = now }) h k,
              is_at-other other_run key r h plain_row,
            )
            refl
      | inr away ↦ rw (away, find-put_others run_id other_run key stored now fresh rs h k) refl
    ]

-- A row whose key the query hides changes no latest checkpoint.
pub latest-put_hidden :
    (run_id other_run : Text) (stored : StoredCheckpoint) (now fresh : ℕ)
    (rows : List RuntimeCheckpoint)
    → is_like_reserved stored.checkpoint_key ≡ true
    → latest other_run (put run_id stored now fresh rows) ≡ latest other_run rows
unfolding put latest
latest-put_hidden run_id other_run stored now fresh [] h =
    rw
      (is_live-hidden other_run
        (record { id = fresh; run_id = run_id; stored = stored; updated_at = now }) h)
      refl
latest-put_hidden run_id other_run stored now fresh (r ∷ rs) h =
    elim (Bool-cases (is_at run_id stored.checkpoint_key r)) [
      | inl there ↦
          let hidden = is_at-same is_like_reserved run_id stored.checkpoint_key r there ∙ h in
          rw
            (
              there,
              is_live-hidden other_run (record r { stored = stored; updated_at = now }) h,
              is_live-hidden other_run r hidden,
            )
            refl
      | inr away ↦ rw (away, latest-put_hidden run_id other_run stored now fresh rs h) refl
    ]

find-put :
    (run_id : Text) (stored : StoredCheckpoint) (now fresh : ℕ) (rows : List RuntimeCheckpoint)
    → stored_checkpoint
        (find (is_at run_id stored.checkpoint_key) (put run_id stored now fresh rows))
      ≡ some stored
unfolding put
find-put run_id stored now fresh [] =
    rw
      (is_at_self run_id (record { id = fresh; run_id = run_id; stored = stored; updated_at = now })
        refl)
      refl
find-put run_id stored now fresh (r ∷ rs) =
    elim (Bool-cases (is_at run_id stored.checkpoint_key r)) [
      | inl there ↦
          rw
            (
              there,
              is_at_self run_id (record r { stored = stored; updated_at = now }) (ground arith),
            )
            refl
      | inr away ↦ rw (away, away, find-put run_id stored now fresh rs) refl
    ]

module _ (encoded : Text → Option ℕ) (max_bytes : ℕ) where
  pub save_any_ok :
      (run_id : Text) (stored out : StoredCheckpoint) (now : Time)
      (rows after : List RuntimeCheckpoint)
      → save_any encoded max_bytes run_id stored now rows ≡ (ok out, after)
      → (out ≡ stored) × (after ≡ put run_id stored now (next_id rows) rows)
  unfolding save_any
  save_any_ok run_id stored out now rows after h =
      let write = modify (λ rows. put run_id stored now (next_id rows) rows) >> pure stored in
      let (size, u, got, rest) =
        bind_ok (or_raise (encoded stored.state) value_error)
          (λ size. raise_if (ltb max_bytes size) size_limit_error >> write) rows h in
      let (fits, same) = or_raise_ok (encoded stored.state) value_error rows got in
      let (v, u2, passed, last) =
        bind_ok (raise_if (ltb max_bytes size) size_limit_error) (λ _. write) u rest in
      let (small, same2) = raise_if_ok (ltb max_bytes size) size_limit_error u passed in
      let all_same : u2 ≡ rows = same2 ∙ same in rw (← all_same) (ground (arith, last))

  -- Saving a checkpoint of the runner gateway returns what later loads under its key give, and
  -- leaves the latest checkpoint of every run as it was.
  pub save_reserved_lem :
      (run_id : Text) (key : CheckpointKey) (state : Text) (snapshot_digest : Option Text)
      (now : Time) (rows after : List RuntimeCheckpoint) (out : StoredCheckpoint)
      → save_reserved encoded max_bytes run_id key state snapshot_digest now rows ≡ (ok out, after)
      → (load_reserved run_id key after ≡ (ok (some out), after))
        × ((other_run : Text)
            → load_latest_record other_run after ≡ load_latest_record other_run rows)
  unfolding save_reserved load_reserved load_latest_record
  save_reserved_lem run_id key state snapshot_digest now rows after out h =
      let stored : StoredCheckpoint = record {
        checkpoint_key = key;
        state = state;
        snapshot_digest = snapshot_digest;
        idempotency_key = none;
      } in
      let (v, u, passed, saved) =
        bind_ok (raise_if (not (is_reserved key)) value_error)
          (λ _. save_any encoded max_bytes run_id stored now) rows h in
      let (guarded, same) = raise_if_ok (not (is_reserved key)) value_error rows passed in
      let (out_is, after_is) = save_any_ok run_id stored out now u after saved in
      let reserved : is_reserved key ≡ true = ground arith in
      let wrote : after ≡ put run_id stored now (next_id u) u = after_is in
      let there = find-put run_id stored now (next_id u) u in
      (
        rw (reserved, wrote, there, out_is) refl,
        λ other_run.
            rw
              (
                wrote,
                latest-put_hidden run_id other_run stored now (next_id u) u
                    (reserved-like key reserved),
                same,
              )
              refl,
      )

  -- Saving any other checkpoint changes no checkpoint of the runner gateway, of whatever run.
  pub save-load_reserved :
      (run_id : Text) (stored : StoredCheckpoint) (now : Time) (rows after : List RuntimeCheckpoint)
      (out : StoredCheckpoint) (other_run : Text) (key : CheckpointKey)
      → save encoded max_bytes run_id stored now rows ≡ (ok out, after)
      → is_reserved key ≡ true
      → (load_reserved other_run key after).0 ≡ (load_reserved other_run key rows).0
  unfolding save load_reserved
  save-load_reserved run_id stored now rows after out other_run key h reserved =
      let (v, u, passed, saved) =
        bind_ok (raise_if (is_reserved stored.checkpoint_key) value_error)
          (λ _. save_any encoded max_bytes run_id stored now) rows h in
      let (guarded, same) =
        raise_if_ok (is_reserved stored.checkpoint_key) value_error rows passed in
      let (out_is, after_is) = save_any_ok run_id stored out now u after saved in
      rw
        (
          reserved,
          after_is,
          find-put_others run_id other_run key stored now (next_id u) u reserved guarded,
          same,
        )
        refl
