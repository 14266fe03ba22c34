-- ===== src/Effects/Stays.antt =====
-- What a method keeps whether it returns or raises, where nothing undoes its writes.
use intelligent_agent_platfo.Base.{Bool, true, false, if◌then◌else◌}
use intelligent_agent_platfo.Effects.{Result, ok, err, Action, ◌>>=◌, when}

module _ {S E : Type 0} (P : S → Type 0) where
  abbrev pub Stays : {A : Type 0} → Action S E A → Type 0
  Stays m = (s : S) → P s → P (m s).1

  Stays-of :
      {A B : Type 0} (f : A → Action S E B) (x : Result E A × S)
      → P x.1
      → ((a : A) → Stays (f a))
      → P
          (let (r, t) = x in
            elim r as (λ _. Result E B × S) [ ok a ↦ f a t | err e ↦ (err e, t) ]).1
  Stays-of f (ok a, s) p k = k a s p
  Stays-of f (err e, s) p k = p

  pub Stays-bind :
      {A B : Type 0} (m : Action S E A) (f : A → Action S E B)
      → Stays m
      → ((a : A) → Stays (f a))
      → Stays (m >>= f)
  Stays-bind m f h k s p = Stays-of f (m s) (h s p) k

  pub Stays-if :
      {A : Type 0} (b : Bool) (m n : Action S E A) → Stays m → Stays n → Stays (if b then m else n)
  Stays-if true m n h k = h
  Stays-if false m n h k = k

  pub Stays-when : (b : Bool) (m : Action S E (Unit {0})) → Stays m → Stays (when b m)
  Stays-when true m h s p = h s p
  Stays-when false m h s p = p
