-- ===== src/MutexDeque/RoundTrip.antt =====
-- What is pushed to the deque of src/mutex/work_stealing_deque.h comes back.
use native.Mathlib.Nat.{one-le-pow}
use mathlib.Core.Path.{ap₂}
use mathlib.Core.List.{
  reverse, reverse-append, reverse-cons, append_assoc, append-nil, head-eq_of_cons-eq,
  tail-eq_of_cons-eq, cons≢nil,
}
use lock_free_deque.Prelude.{
  ℕ, zero, suc, ◌+◌, ◌/◌, ◌^◌, ◌≤◌, ◌<◌, ◌≡◌, refl, ap, sym, ◌∙◌, subst, Option, none, some, List,
  [], ◌∷◌, ◌++◌, map, inl, inr, length, length-window, window_empty, arith,
}
use lock_free_deque.StealResult.{StealState, StealResult, of_state, of_value}
use lock_free_deque.MutexDeque.{MutexDeque, index, new_mutex_deque, push_bottom, pop_bottom, steal}
use lock_free_deque.MutexDeque.Index.{WellFormed, contents}
use lock_free_deque.MutexDeque.Refine.{Holding, Pushed, push_bottom-Pushed}
use lock_free_deque.MutexDeque.Take.{Popped, Stolen, pop_bottom-Popped, steal-Stolen}

module _ {A : Type 0} where
  length-append : (xs ys : List A) → length (xs ++ ys) ≡ length xs + length ys
  length-append [] ys = omega arith
  length-append (x ∷ xs) ys = omega (arith, length-append xs ys)

  length-reverse : (xs : List A) → length (reverse xs) ≡ length xs
  length-reverse [] = refl
  length-reverse (x ∷ xs) =
      ap length (reverse-cons x xs)
      ∙ length-append (reverse xs) (x ∷ [])
      ∙ omega (arith, length-reverse xs)

  -- The results of steals one after another.
  abbrev pub steals : ℕ → MutexDeque A → List (StealResult A)
  steals zero d = []
  steals (suc n) d = (steal d).0 ∷ steals n (steal d).1

  -- The results of pops one after another.
  abbrev pub pops : A → ℕ → MutexDeque A → List (Option A)
  pops zero_value zero d = []
  pops zero_value (suc n) d =
      (pop_bottom zero_value d).0 ∷ pops zero_value n (pop_bottom zero_value d).1

  -- The deque after pushes one after another, or nothing where one throws.
  abbrev pub push_all : A → ℕ → MutexDeque A → List A → Option (MutexDeque A)
  push_all zero_value max_size d [] = some d
  push_all zero_value max_size d (x ∷ xs) = elim (push_bottom zero_value max_size d x) [
    | none ↦ none
    | some d' ↦ push_all zero_value max_size d' xs
  ]

  -- A new deque after pushes.
  abbrev pub filled : A → ℕ → ℕ → List A → Option (MutexDeque A)
  filled zero_value max_size log_size values = elim (new_mutex_deque zero_value max_size log_size) [
    | none ↦ none
    | some d ↦ push_all zero_value max_size d values
  ]

  steals-contents :
      (values : List A) (d : MutexDeque A)
      → WellFormed d
      → contents d ≡ values
      → steals (suc (length values)) d ≡ map of_value values ++ (of_state StealState.empty ∷ [])
  steals-contents [] d wf e = elim (steal-Stolen d wf) [
    | inl (result, same, nothing) ↦ ap (λ (r : StealResult A). r ∷ []) result
    | inr (x, result, wf', taken) ↦ absurd (cons≢nil (sym taken ∙ e))
  ]
  steals-contents (x ∷ xs) d wf e = go (steals-contents xs (steal d).1) (steal-Stolen d wf)
    where
      go :
          (WellFormed (steal d).1
            → contents (steal d).1 ≡ xs
            → steals (suc (length xs)) (steal d).1
              ≡ map of_value xs ++ (of_state StealState.empty ∷ []))
          → Stolen d (steal d)
          → (steal d).0 ∷ steals (suc (length xs)) (steal d).1
            ≡ of_value x ∷ (map of_value xs ++ (of_state StealState.empty ∷ []))
      go rest (inl (result, same, nothing)) = absurd (cons≢nil (sym e ∙ nothing))
      go rest (inr (y, result, wf', taken)) =
          let both : y ∷ contents (steal d).1 ≡ x ∷ xs = sym taken ∙ e in
          ap₂ ◌∷◌ (result ∙ ap of_value (head-eq_of_cons-eq both))
            (rest wf' (tail-eq_of_cons-eq both))

  pops-contents :
      (zero_value : A) (values : List A) (d : MutexDeque A)
      → WellFormed d
      → reverse (contents d) ≡ values
      → pops zero_value (suc (length values)) d ≡ map some values ++ (none ∷ [])
  pops-contents zero_value [] d wf e =
      go (pop_bottom zero_value d) (pop_bottom-Popped zero_value d wf)
    where
      go : (r : Option A × MutexDeque A) → Popped d r → r.0 ∷ [] ≡ none ∷ []
      go (none, d') popped = refl
      go (some x, d') (wf', taken) =
          absurd
            (cons≢nil (sym (reverse-append (contents d') (x ∷ [])) ∙ sym (ap reverse taken) ∙ e))
  pops-contents zero_value (x ∷ xs) d wf e =
      go (pops-contents zero_value xs) (pop_bottom zero_value d) (pop_bottom-Popped zero_value d wf)
    where
      go :
          ((d' : MutexDeque A)
            → WellFormed d'
            → reverse (contents d') ≡ xs
            → pops zero_value (suc (length xs)) d' ≡ map some xs ++ (none ∷ []))
          → (r : Option A × MutexDeque A) → Popped d r
          → r.0 ∷ pops zero_value (suc (length xs)) r.1 ≡ some x ∷ (map some xs ++ (none ∷ []))
      go rest (none, d') (same, nothing) = absurd (cons≢nil (sym e ∙ ap reverse nothing))
      go rest (some y, d') (wf', taken) =
          let both : y ∷ reverse (contents d') ≡ x ∷ xs =
            sym (reverse-append (contents d') (y ∷ [])) ∙ sym (ap reverse taken) ∙ e in
          ap₂ ◌∷◌ (ap some (head-eq_of_cons-eq both)) (rest d' wf' (tail-eq_of_cons-eq both))

  -- Some deque that holds the values.
  abbrev pub SomeHolding : Option (MutexDeque A) → List A → Type 0
  SomeHolding none values = ⊥
  SomeHolding (some d) values = Holding d values

  size-contents : (d : MutexDeque A) → length (contents d) ≡ d.size
  size-contents d = length-window (λ i. d.buffer (index d i)) 0 d.size

  push_all-Holding :
      (zero_value : A) (max_size : ℕ) (values : List A) (d : MutexDeque A)
      → max_size ≤ 2 ^ 63
      → WellFormed d
      → d.size + length values ≤ max_size / 2
      → SomeHolding (push_all zero_value max_size d values) (contents d ++ values)
  push_all-Holding zero_value max_size [] d limit wf room = (wf, sym (append-nil (contents d)))
  push_all-Holding zero_value max_size (x ∷ xs) d limit wf room =
      go (push_all-Holding zero_value max_size xs) (push_bottom zero_value max_size d x)
        (push_bottom-Pushed zero_value max_size d x limit wf)
    where
      go :
          ((d' : MutexDeque A)
            → max_size ≤ 2 ^ 63
            → WellFormed d'
            → d'.size + length xs ≤ max_size / 2
            → SomeHolding (push_all zero_value max_size d' xs) (contents d' ++ xs))
          → (pushed : Option (MutexDeque A)) → Pushed max_size d x pushed
          → SomeHolding
              (elim pushed [ none ↦ none | some d' ↦ push_all zero_value max_size d' xs ])
              (contents d ++ (x ∷ xs))
      go rest none (full, over) = absurd (omega arith)
      go rest (some d') (wf', held) =
          let longer : d'.size ≡ d.size + 1 =
            sym (size-contents d')
            ∙ ap length held
            ∙ length-append (contents d) (x ∷ [])
            ∙ ap (λ (n : ℕ). n + 1) (size-contents d) in
          subst (SomeHolding (push_all zero_value max_size d' xs))
            (ap (λ (ys : List A). ys ++ xs) held ∙ append_assoc (contents d) (x ∷ []) xs)
            (rest d' limit wf' (omega (arith, longer)))

  -- A new deque of the given capacity.
  abbrev fresh : A → ℕ → MutexDeque A
  fresh zero_value n = record {
    buffer = λ i. zero_value;
    capacity = n;
    min_capacity = n;
    top = 0;
    size = 0;
  }

  new_mutex_deque-fresh :
      (zero_value : A) (max_size log_size : ℕ)
      → log_size < 64
      → 2 ^ log_size ≤ max_size
      → new_mutex_deque zero_value max_size log_size ≡ some (fresh zero_value (2 ^ log_size))
  new_mutex_deque-fresh zero_value max_size log_size digits fits = ground arith

  fresh-WellFormed :
      (zero_value : A) (log_size : ℕ)
      → 2 ^ log_size ≤ 2 ^ 63
      → WellFormed (fresh zero_value (2 ^ log_size))
  fresh-WellFormed zero_value log_size word = record {
    log_capacity = log_size;
    power = refl;
    log_min = log_size;
    min_power = refl;
    least = omega arith;
    word = word;
    fits = one-le-pow log_size 2 (omega arith);
    top_fits = one-le-pow log_size 2 (omega arith);
  }

  filled-Holding :
      (zero_value : A) (max_size log_size : ℕ) (values : List A)
      → max_size ≤ 2 ^ 63
      → log_size < 64
      → 2 ^ log_size ≤ max_size
      → length values ≤ max_size / 2
      → SomeHolding (filled zero_value max_size log_size values) values
  filled-Holding zero_value max_size log_size values limit digits fits room =
      let d = fresh zero_value (2 ^ log_size) in
      subst
        (λ (made : Option (MutexDeque A)).
          SomeHolding (elim made [ none ↦ none | some d' ↦ push_all zero_value max_size d' values ])
            values)
        (sym (new_mutex_deque-fresh zero_value max_size log_size digits fits))
        (subst (SomeHolding (push_all zero_value max_size d values))
          (ap (λ (xs : List A). xs ++ values) (window_empty (λ i. d.buffer (index d i)) 0 0 refl))
          (push_all-Holding zero_value max_size values d limit
            (fresh-WellFormed zero_value log_size (omega arith)) (omega arith)))

  -- Steals give the values in order and then EMPTY; pops give them in reverse and then nothing.
  abbrev pub ReadBack : A → List A → Option (MutexDeque A) → Type 0
  ReadBack zero_value values none = ⊥
  ReadBack zero_value values (some d) =
      (steals (suc (length values)) d ≡ map of_value values ++ (of_state StealState.empty ∷ []))
      × (pops zero_value (suc (length values)) d ≡ map some (reverse values) ++ (none ∷ []))

  -- Where a new deque of the given size is within what a vector can have, and there are at most half
  -- as many values as the longest vector has elements, then the constructor and the push of each value
  -- succeed. From there, steals give the values in the order of the pushes and then EMPTY, and pops
  -- give them in the reverse order and then nothing, however often the buffer grew and shrinks.
  pub filled-ReadBack :
      (zero_value : A) (max_size log_size : ℕ) (values : List A)
      → max_size ≤ 2 ^ 63
      → log_size < 64
      → 2 ^ log_size ≤ max_size
      → length values ≤ max_size / 2
      → ReadBack zero_value values (filled zero_value max_size log_size values)
  filled-ReadBack zero_value max_size log_size values limit digits fits room =
      go (filled zero_value max_size log_size values)
        (filled-Holding zero_value max_size log_size values limit digits fits room)
    where
      go :
          (made : Option (MutexDeque A)) → SomeHolding made values → ReadBack zero_value values made
      go none held = held
      go (some d) (wf, held) = (
        steals-contents values d wf held,
        subst (λ (n : ℕ). pops zero_value (suc n) d ≡ map some (reverse values) ++ (none ∷ []))
            (length-reverse values)
            (pops-contents zero_value (reverse values) d wf (ap reverse held)),
      )
