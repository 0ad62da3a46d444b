-- ===== src/MutexDeque/Refine.antt =====
-- The operations of src/mutex/work_stealing_deque.h implement a list.
use native.Mathlib.Nat.{pow-suc, mod-eq_of_lt}
use lock_free_deque.Prelude.{
  ℕ, suc, ◌+◌, ◌-◌, ◌*◌, ◌/◌, ◌%◌, ◌^◌, ◌≤◌, ◌<◌, ◌≡◌, ◌≢◌, refl, ap, ◌∙◌, subst, Option, none,
  some, Bool, true, false, ltb, ◌==◌, ==_iff, if◌then◌else◌, List, [], ◌∷◌, ◌++◌, update,
  update_self, update_ne, window, window-snoc, window_congr, arith,
}
use lock_free_deque.MutexDeque.{
  MutexDeque, index, copied_slots, resize, grown, placed_bottom, push_bottom,
}
use lock_free_deque.MutexDeque.Index.{
  WellFormed, index-eq_mod, index-apart, copied_slots_lem, contents,
}

module _ {A : Type 0} where
  -- The well-formed deque `d'` holds `values`.
  abbrev pub Holding : MutexDeque A → List A → Type 0
  Holding d' values = WellFormed d' × (contents d' ≡ values)

  pub resize-Holding :
      (zero_value : A) (d : MutexDeque A) (wf : WellFormed d) (k : ℕ)
      → wf.log_min ≤ k
      → 2 ^ k ≤ 2 ^ 63
      → d.size < 2 ^ k
      → Holding (resize zero_value d (2 ^ k)) (contents d)
  unfolding resize
  resize-Holding zero_value d wf k least word fits = (wf', same)
    where
      d' : MutexDeque A
      d' = record d { buffer = copied_slots zero_value d d.size; capacity = 2 ^ k; top = 0 }

      wf' : WellFormed d'
      wf' = record {
        log_capacity = k;
        power = refl;
        log_min = wf.log_min;
        min_power = wf.min_power;
        least = least;
        word = word;
        fits = fits;
        top_fits = omega arith;
      }

      at : (i : ℕ) → i < d.size → d'.buffer (index d' i) ≡ d.buffer (index d i)
      at i lt =
          let from_zero : (0 + i) % 2 ^ k ≡ i =
            mod-eq_of_lt {n = 0 + i} (omega arith) ∙ omega arith in
          ap (copied_slots zero_value d d.size) (index-eq_mod d' wf' i (omega arith) ∙ from_zero)
          ∙ copied_slots_lem zero_value d d.size i lt

      same : contents d' ≡ contents d
      same =
          window_congr (λ i. d'.buffer (index d' i)) (λ i. d.buffer (index d i)) 0 0 d.size
            (λ i lt. at (0 + i) (omega arith))

  placed_bottom-Holding :
      (d : MutexDeque A) (wf : WellFormed d) (value : A)
      → d.size + 1 < d.capacity
      → Holding (placed_bottom d value) (contents d ++ (value ∷ []))
  unfolding placed_bottom
  placed_bottom-Holding d wf value room = (wf', same)
    where
      d' : MutexDeque A
      d' = record d { buffer = update d.buffer (index d d.size) value; size = d.size + 1 }

      wf' : WellFormed d'
      wf' = record {
        log_capacity = wf.log_capacity;
        power = wf.power;
        log_min = wf.log_min;
        min_power = wf.min_power;
        least = wf.least;
        word = wf.word;
        fits = room;
        top_fits = wf.top_fits;
      }

      same : contents d' ≡ contents d ++ (value ∷ [])
      same =
          ap (window (λ i. d'.buffer (index d' i)) 0) (omega arith)
          ∙ window-snoc (λ i. d'.buffer (index d' i)) 0 d.size
          ∙ ap
              (λ (k : ℕ).
                window (λ i. d'.buffer (index d' i)) 0 d.size ++ (d'.buffer (index d k) ∷ []))
              (omega arith)
          ∙ ap (λ (xs : List A). xs ++ (d'.buffer (index d d.size) ∷ []))
              (window_congr (λ i. d'.buffer (index d' i)) (λ i. d.buffer (index d i)) 0 0 d.size
                (λ i lt.
                  update_ne d.buffer (index d d.size) (index d (0 + i)) value
                    (index-apart d wf (0 + i) d.size (omega arith) wf.fits)))
          ∙ ap (λ (x : A). contents d ++ (x ∷ [])) (update_self d.buffer (index d d.size) value)

  -- What `push_bottom` promises: a well-formed deque with the value at the end. It throws only where
  -- the buffer is full and twice its size is more than a vector can have.
  abbrev pub Pushed : ℕ → MutexDeque A → A → Option (MutexDeque A) → Type 0
  Pushed max_size d value none = (d.size ≡ d.capacity - 1) × (max_size / 2 < d.capacity)
  Pushed max_size d value (some d') = Holding d' (contents d ++ (value ∷ []))

  grown-Holding :
      (zero_value : A) (max_size : ℕ) (d : MutexDeque A)
      → WellFormed d
      → max_size ≤ 2 ^ 63
      → (value : A)
      → Pushed max_size d value (elim (grown zero_value max_size d) [
        | none ↦ none
        | some d' ↦ some (placed_bottom d' value)
      ])
  unfolding grown resize
  grown-Holding zero_value max_size d wf limit value = full (d.size == d.capacity - 1) refl
    where
      Goal : Option (MutexDeque A) → Type 0
      Goal g =
          Pushed max_size d value (elim g [ none ↦ none | some d' ↦ some (placed_bottom d' value) ])

      larger : d.capacity ≤ max_size / 2 → Goal (some (resize zero_value d (d.capacity * 2)))
      larger le =
          let r =
            resize-Holding zero_value d wf (suc wf.log_capacity) (omega (arith, wf.least))
              (omega (arith, twice)) (omega (arith, twice, wf.fits)) in
          let p =
            placed_bottom-Holding (resize zero_value d (2 ^ suc wf.log_capacity)) r.0 value
              (omega (arith, twice, wf.fits)) in
          subst
            (λ (n : ℕ).
              Holding (placed_bottom (resize zero_value d n) value) (contents d ++ (value ∷ [])))
            twice (p.0, p.1 ∙ ap (λ (xs : List A). xs ++ (value ∷ [])) r.1)
        where
          twice : 2 ^ suc wf.log_capacity ≡ d.capacity * 2
          twice = omega (arith, pow-suc 2 wf.log_capacity, wf.power)

      over :
          d.size ≡ d.capacity - 1
          → (over : Bool) → ltb (max_size / 2) d.capacity ≡ over
          → Goal (if over then none else some (resize zero_value d (d.capacity * 2)))
      over at true e = (at, ground arith)
      over at false e = larger (ground arith)

      full :
          (full : Bool)
          → (d.size == d.capacity - 1) ≡ full
          → Goal (
              if full
              then if ltb (max_size / 2) d.capacity
                then none
                else some (resize zero_value d (d.capacity * 2))
              else some d)
      full true e = over ((==_iff d.size (d.capacity - 1)).0 e) (ltb (max_size / 2) d.capacity) refl
      full false e =
          let apart : d.size ≢ d.capacity - 1 =
            λ at. absurd (cc ((==_iff d.size (d.capacity - 1)).1 at)) in
          placed_bottom-Holding d wf value (omega (arith, wf.fits))

  -- On a well-formed deque, where a vector has at most 2^63 elements, `push_bottom` appends its
  -- value to the contents, whether or not it grows the buffer, and keeps the deque well-formed; it
  -- throws only where the buffer is full and is longer than half the longest vector.
  pub push_bottom-Pushed :
      (zero_value : A) (max_size : ℕ) (d : MutexDeque A) (value : A)
      → max_size ≤ 2 ^ 63
      → WellFormed d
      → Pushed max_size d value (push_bottom zero_value max_size d value)
  unfolding push_bottom
  push_bottom-Pushed zero_value max_size d value limit wf =
      grown-Holding zero_value max_size d wf limit value
