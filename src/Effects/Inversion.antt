-- ===== src/Effects/Inversion.antt =====
-- What a successful call of a method has done: inversion of each way to build methods.
use intelligent_agent_platfo.Base.{Bool, true, false, Option, none, some, ◌≡◌, refl, arith}
use intelligent_agent_platfo.Effects.Hoare.{Outcome}
use intelligent_agent_platfo.Effects.{
  Result, ok, err, Action, ◌>>=◌, or_raise, raise_if, transaction,
}

module _ {S E : Type 0} where
  bound_ok :
      {A B : Type 0} (f : A → Action S E B) (x : Result E A × S) {b : B} {t : S}
      → (let (r, u) = x in elim r as (λ _. Result E B × S) [ ok a ↦ f a u | err e ↦ (err e, u) ])
        ≡ (ok b, t)
      → (a : A) × (u : S) × (x ≡ (ok a, u)) × (f a u ≡ (ok b, t))
  bound_ok f (ok a, u) h = (a, u, refl, h)
  bound_ok f (err e, u) h = cc

  pub bind_ok :
      {A B : Type 0} (m : Action S E A) (f : A → Action S E B) (s : S) {b : B} {t : S}
      → (m >>= f) s ≡ (ok b, t)
      → (a : A) × (u : S) × (m s ≡ (ok a, u)) × (f a u ≡ (ok b, t))
  bind_ok m f s h = bound_ok f (m s) h

  pub or_raise_ok :
      {A : Type 0} (o : Option A) (e : E) (s : S) {a : A} {t : S}
      → or_raise o e s ≡ (ok a, t)
      → (o ≡ some a) × (t ≡ s)
  or_raise_ok none e s h = cc
  or_raise_ok (some a) e s h = ground arith

  pub raise_if_ok :
      (b : Bool) (e : E) (s : S) {u : Unit {0}} {t : S}
      → raise_if b e s ≡ (ok u, t)
      → (b ≡ false) × (t ≡ s)
  raise_if_ok true e s h = cc
  raise_if_ok false e s h = ground arith

  committed :
      {A : Type 0} (s : S) (x : Result E A × S) {a : A} {t : S}
      → (let (r, u) = x in
          elim r as (λ _. Result E A × S) [ ok a ↦ (ok a, u) | err e ↦ (err e, s) ])
        ≡ (ok a, t)
      → x ≡ (ok a, t)
  committed s (ok a, u) h = h
  committed s (err e, u) h = cc

  -- What a transaction that returns has done, its body has.
  pub transaction_ok :
      {A : Type 0} (m : Action S E A) (s : S) {a : A} {t : S}
      → transaction m s ≡ (ok a, t)
      → m s ≡ (ok a, t)
  transaction_ok m s h = committed s (m s) h

  rolled_back :
      {A : Type 0} (s : S) (x : Result E A × S)
      → ((a : A) (t : S) → x ≡ (ok a, t) → ⊥)
      → (let (r, u) = x in
          elim r as (λ _. Result E A × S) [ ok a ↦ (ok a, u) | err e ↦ (err e, s) ]).1
        ≡ s
  rolled_back s (ok a, u) never = absurd (never a u refl)
  rolled_back s (err e, u) never = refl

  -- A transaction whose body cannot return changes nothing.
  pub transaction_never :
      {A : Type 0} (m : Action S E A) (s : S)
      → ((a : A) (t : S) → m s ≡ (ok a, t) → ⊥)
      → (transaction m s).1 ≡ s
  transaction_never m s never = rolled_back s (m s) never

  -- A postcondition from what every success says.
  pub Outcome-of_ok :
      {A : Type 0} (Q : A → S → Type 0) (x : Result E A × S)
      → ((a : A) (t : S) → x ≡ (ok a, t) → Q a t)
      → Outcome Q x
  Outcome-of_ok Q (ok a, t) h = h a t refl
  Outcome-of_ok Q (err e, t) h = tt
