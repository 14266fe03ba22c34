-- ===== src/Runtime/Lifecycle/Rows.antt =====
-- The table of runs under an update of statuses.
use intelligent_agent_platfo.Base.{
  ℕ, ◌≤◌, ◌≡◌, refl, Bool, ◌&&◌, Option, none, some, List, [], ◌∷◌, arith, count, find, map, ◌==◌,
  if◌then◌else◌, Bool-cases, inl, inr,
}
use intelligent_agent_platfo.Database.{Text, RunStatus, AgentRun}
use intelligent_agent_platfo.Runtime.Lifecycle.{with_status}

abbrev pub has_id : Text → AgentRun → Bool
has_id id r = r.id == id

abbrev pub find_run : Text → List AgentRun → Option AgentRun
find_run id = find (has_id id)

-- `AgentRun.id` is the primary key.
abbrev pub IsKeyed : List AgentRun → Type 0
IsKeyed runs = (id : Text) → count (has_id id) runs ≤ 1

abbrev pub count_of {ℓ} : {A : Type ℓ} → (A → Bool) → Option A → ℕ
count_of q none = 0
count_of q (some r) = if q r then 1 else 0

module _ {ℓ} {A : Type ℓ} (p q : A → Bool) where
  count_and_zero : (rs : List A) → count p rs ≡ 0 → count (λ r. p r && q r) rs ≡ 0
  count_and_zero [] h = refl
  count_and_zero (x ∷ xs) h = ground (arith, count_and_zero xs)

  pub count_and :
      (rs : List A) → count p rs ≤ 1 → count (λ r. p r && q r) rs ≡ count_of q (find p rs)
  count_and [] h = refl
  count_and (x ∷ xs) h = elim (Bool-cases (p x)) [
    | inl hit ↦ rw hit (ground (arith, count_and_zero xs))
    | inr miss ↦ rw miss (ground (arith, count_and xs))
  ]

module _ (p : AgentRun → Bool) (status : RunStatus) where
  pub map-with_status_none :
      (rs : List AgentRun) → count p rs ≡ 0 → map (with_status p status) rs ≡ rs
  map-with_status_none [] h = refl
  map-with_status_none (x ∷ xs) h = ground (arith, map-with_status_none xs)

  unfoldable pub updated : Option AgentRun → Option AgentRun
  updated none = none
  updated (some r) = some (with_status p status r)

  pub find_run-map :
      (id : Text) (rs : List AgentRun)
      → find_run id (map (with_status p status) rs) ≡ updated (find_run id rs)
  unfolding updated
  find_run-map id [] = refl
  find_run-map id (x ∷ xs) = ground (arith, find_run-map id xs)

  pub count-has_id-map :
      (id : Text) (rs : List AgentRun)
      → count (has_id id) (map (with_status p status) rs) ≡ count (has_id id) rs
  count-has_id-map id [] = refl
  count-has_id-map id (x ∷ xs) = ground (arith, count-has_id-map id xs)

-- A run that is found has the identifier that was looked for.
pub find_run-id :
    (id : Text) (rs : List AgentRun) (r : AgentRun) → find_run id rs ≡ some r → r.id ≡ id
find_run-id id [] r h = cc
find_run-id id (x ∷ xs) r h = ground (arith, find_run-id id xs r)
