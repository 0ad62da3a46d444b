-- ===== src/Model/Paths.antt =====
-- The ways through a program of model/deque_model.c that fail no assertion, with the accesses it makes
-- on them.
use lock_free_deque.Prelude.{◌≡◌, refl, ap, List, [], ◌∷◌, ◌++◌}
use lock_free_deque.Model.Program.{Access, Answer, Program, returns, fails, access, ◌>>=◌}

-- An access and what it gave.
abbrev pub Event : Type 0
Event = (a : Access) × Answer a

module _ {X : Type 0} where
  -- What the accesses of a program give, up to its end.
  abbrev pub PathOf : Program X → Type 0
  PathOf (returns x) = Unit
  PathOf fails = ⊥
  PathOf (access a k) = (r : Answer a) × PathOf (k r)

  abbrev pub outcome : (program : Program X) → PathOf program → X
  outcome (returns x) way = x
  outcome fails way = absurd way
  outcome (access a k) (r, way) = outcome (k r) way

  abbrev pub events : (program : Program X) → PathOf program → List Event
  events (returns x) way = []
  events fails way = absurd way
  events (access a k) (r, way) = (a, r) ∷ events (k r) way

module _ {X Y : Type 0} (f : X → Program Y) where
  -- A way through one program and then another.
  abbrev pub Parts : (m : Program X) → PathOf (m >>= f) → Type 0
  Parts m way =
      (before : PathOf m) × (after : PathOf (f (outcome m before))) × (outcome (m >>= f) way
        ≡ outcome (f (outcome m before)) after)
      × (events (m >>= f) way ≡ events m before ++ events (f (outcome m before)) after)

  pub split : (m : Program X) (way : PathOf (m >>= f)) → Parts m way
  split (returns x) way = (tt, way, refl, refl)
  split fails way = absurd way
  split (access a k) (r, way) =
      let (before, after, same, made) = split (k r) way in
      ((r, before), after, same, ap (λ (es : List Event). (a, r) ∷ es) made)
