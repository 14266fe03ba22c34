-- ===== src/Effects/Total.antt =====
-- Total correctness of methods: the method returns, and the postcondition holds.
use intelligent_agent_platfo.Base.{◌≡◌, ap}
use intelligent_agent_platfo.Effects.{Result, ok, err, Action, ◌>>=◌, transaction}

module _ {S E : Type 0} where
  abbrev pub Returned : {A : Type 0} → (S → Type 0) → Result E A × S → Type 0
  Returned Q (ok a, s) = Q s
  Returned Q (err e, s) = ⊥

  -- From a state with P the method returns, in a state with Q.
  abbrev pub Returns : {A : Type 0} → (S → Type 0) → Action S E A → (S → Type 0) → Type 0
  Returns P m Q = (s : S) → P s → Returned Q (m s)

  Returned-bind :
      {A B : Type 0} (Q R : S → Type 0) (f : A → Action S E B) (x : Result E A × S)
      → Returned Q x
      → ((a : A) → Returns Q (f a) R)
      → Returned {A = B} R (let (r, t) = x in elim r [ ok a ↦ f a t | err e ↦ (err e, t) ])
  Returned-bind Q R f (ok a, s) h k = k a s h
  Returned-bind Q R f (err e, s) h k = h

  pub returns_bind :
      {A B : Type 0} (P Q R : S → Type 0) (m : Action S E A) (f : A → Action S E B)
      → Returns P m Q
      → ((a : A) → Returns Q (f a) R)
      → Returns P (m >>= f) R
  returns_bind P Q R m f h k s p = Returned-bind Q R f (m s) (h s p) k

  pub Returned-transaction :
      {A : Type 0} (Q : S → Type 0) (m : Action S E A) (s : S)
      → Returned Q (m s)
      → Returned Q (transaction m s)
  Returned-transaction {A} Q m s h = go (m s) h
    where
      go :
          (x : Result E A × S)
          → Returned Q x
          → Returned {A = A} Q (
              let (r, t) = x in
              elim r as (λ _. Result E A × S) [ ok a ↦ (ok a, t) | err e ↦ (err e, s) ])
      go (ok a, t) g = g
      go (err e, t) g = g

  pub Returned-map :
      {A : Type 0} (Q R : S → Type 0) (x : Result E A × S)
      → ((s : S) → Q s → R s)
      → Returned Q x
      → Returned R x
  Returned-map Q R (ok a, s) f h = f s h
  Returned-map Q R (err e, s) f h = h

  -- A transaction whose body returns is its body.
  pub transaction_of_ok :
      {A : Type 0} (m : Action S E A) (s : S) {a : A} {t : S}
      → m s ≡ (ok a, t)
      → transaction m s ≡ (ok a, t)
  transaction_of_ok {A} m s h =
      ap
        (λ (x : Result E A × S).
          let (r, t) = x in
          elim r as (λ _. Result E A × S) [ ok a ↦ (ok a, t) | err e ↦ (err e, s) ])
        h

  -- A transaction whose body raises changes nothing.
  pub transaction_of_err :
      {A : Type 0} (m : Action S E A) (s : S) {e : E} {t : S}
      → m s ≡ (err e, t)
      → transaction m s ≡ (err e, s)
  transaction_of_err {A} m s h =
      ap
        (λ (x : Result E A × S).
          let (r, t) = x in
          elim r as (λ _. Result E A × S) [ ok a ↦ (ok a, t) | err e ↦ (err e, s) ])
        h
