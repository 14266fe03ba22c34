-- ===== src/Effects/Hoare.antt =====
-- Postconditions of methods. What holds after a raise is not claimed: a transaction undoes it.
use intelligent_agent_platfo.Base.{Bool, true, false, Option, none, some, if◌then◌else◌}
use intelligent_agent_platfo.Effects.{Result, ok, err, Action, ◌>>=◌, or_raise, when, transaction}

module _ {S E : Type 0} where
  -- What holds of a returned value and the state, if the method returned.
  abbrev pub Outcome : {A : Type 0} → (A → S → Type 0) → Result E A × S → Type 0
  Outcome Q (ok a, s) = Q a s
  Outcome Q (err e, s) = Unit

  -- From a state with P the method raises, or returns a value and a state with Q.
  abbrev pub Meets : {A : Type 0} → (S → Type 0) → Action S E A → (A → S → Type 0) → Type 0
  Meets P m Q = (s : S) → P s → Outcome Q (m s)

  -- The method keeps P.
  abbrev pub Keeps : {A : Type 0} → (S → Type 0) → Action S E A → Type 0
  Keeps P m = Meets P m (λ _ s. P s)

  Outcome-bind :
      {A B : Type 0} (Q : A → S → Type 0) (R : B → S → Type 0) (f : A → Action S E B)
      (x : Result E A × S)
      → Outcome Q x
      → ((a : A) → Meets (Q a) (f a) R)
      → Outcome R (let (r, t) = x in elim r [ ok a ↦ f a t | err e ↦ (err e, t) ])
  Outcome-bind Q R f (ok a, s) h k = k a s h
  Outcome-bind Q R f (err e, s) h k = tt

  pub meets_bind :
      {A B : Type 0} (P : S → Type 0) (Q : A → S → Type 0) (R : B → S → Type 0) (m : Action S E A)
      (f : A → Action S E B)
      → Meets P m Q
      → ((a : A) → Meets (Q a) (f a) R)
      → Meets P (m >>= f) R
  meets_bind P Q R m f h k s p = Outcome-bind Q R f (m s) (h s p) k

  -- A chain in which each step keeps P.
  pub Keeps-bind :
      {A B : Type 0} (P : S → Type 0) (m : Action S E A) (f : A → Action S E B)
      → Keeps P m
      → ((a : A) → Keeps P (f a))
      → Keeps P (m >>= f)
  Keeps-bind P m f h k = meets_bind P (λ _ s. P s) (λ _ s. P s) m f h k

  pub Keeps-or_raise : {A : Type 0} (P : S → Type 0) (o : Option A) (e : E) → Keeps P (or_raise o e)
  Keeps-or_raise P none e s p = tt
  Keeps-or_raise P (some a) e s p = p

  pub Keeps-if :
      {A : Type 0} (P : S → Type 0) (b : Bool) (m n : Action S E A)
      → Keeps P m
      → Keeps P n
      → Keeps P (if b then m else n)
  Keeps-if P true m n h k = h
  Keeps-if P false m n h k = k

  pub Keeps-when :
      (P : S → Type 0) (b : Bool) (m : Action S E (Unit {0})) → Keeps P m → Keeps P (when b m)
  Keeps-when P true m h s p = h s p
  Keeps-when P false m h s p = p

  transaction_outcome :
      {A : Type 0} (P : S → Type 0) (s : S) (x : Result E A × S)
      → P s
      → Outcome (λ _ t. P t) x
      → P
          (let (r, t) = x in
            elim r as (λ _. Result E A × S) [ ok a ↦ (ok a, t) | err e ↦ (err e, s) ]).1
  transaction_outcome P s (ok a, t) p h = h
  transaction_outcome P s (err e, t) p h = p

  -- A transaction whose body keeps P leaves a state with P, whether it returns or raises.
  pub keeps_transaction :
      {A : Type 0} (P : S → Type 0) (m : Action S E A)
      → Keeps P m
      → (s : S) → P s
      → P (transaction m s).1
  keeps_transaction P m h s p = transaction_outcome P s (m s) p (h s p)

  pub Outcome-map :
      {A : Type 0} (Q R : A → S → Type 0) (x : Result E A × S)
      → ((a : A) (s : S) → Q a s → R a s)
      → Outcome Q x
      → Outcome R x
  Outcome-map Q R (ok a, s) f h = f a s h
  Outcome-map Q R (err e, s) f h = tt

  -- From one state: a transaction leaves a state with P if the state had it and the body, where
  -- it returns, leaves one.
  pub transaction_keeps :
      {A : Type 0} (P : S → Type 0) (m : Action S E A) (s : S)
      → P s
      → Outcome (λ _ t. P t) (m s)
      → P (transaction m s).1
  transaction_keeps P m s p h = transaction_outcome P s (m s) p h
