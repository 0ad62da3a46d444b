-- ===== src/Deque/Construct.antt =====
-- The constructor of src/work_stealing_deque.h, on a pool that nobody uses at the moment.
use lock_free_deque.Prelude.{
  ℕ, ◌+◌, ◌≤◌, ◌<◌, ◌≡◌, refl, ap, sym, ◌∙◌, subst, [], Option, none, some, update_self, update_ne,
  arith, window_empty,
}
use native.Mathlib.Decide.{ℕ_discrete}
use lock_free_deque.Prelude.Int.{pos}
use lock_free_deque.CircularArray.{CircularArray, load, reset_for_reuse}
use lock_free_deque.CircularArray.Slots.{size-pos}
use lock_free_deque.BufferPool.{Pool, try_acquire}
use lock_free_deque.BufferPool.Acquire.{claimed, Acquires, try_acquire-Acquires}
use lock_free_deque.Deque.State.{owned, SizeClassRange, ThiefPc, Machine}
use lock_free_deque.Deque.State.OwnerPc.{idle}
use lock_free_deque.Deque.Owner.{find_range}
use lock_free_deque.Deque.View.{View, view}
use lock_free_deque.Deque.Invariant.Chain.{last}
use lock_free_deque.Deque.Invariant.Defs.{Inv}

some-injective : {A : Type 0} {x y : A} → some x ≡ some y → x ≡ y
some-injective e = cc

module _ {A : Type 0} where
  -- The members of a deque whose first buffer is record `r`.
  abbrev pub fresh_machine : ℕ → Pool A × ℕ → Machine A
  fresh_machine log_initial_size (pool, r) = record {
    ranges = pool.ranges;
    arrays = pool.arrays;
    flags = pool.flags;
    active = r;
    bottom = pos 0;
    top = 0;
    cached_top = 0;
    min_log_size = log_initial_size;
    owner = idle;
    thieves = λ i. ThiefPc.idle;
    trace = [];
  }

  -- `WorkStealingDeque(pool, log_initial_size)`, or nothing where it throws `std::bad_alloc`.
  unfoldable pub new_deque : Pool A → ℕ → Option (Machine A)
  unfolding try_acquire
  new_deque pool log_initial_size = elim (try_acquire pool log_initial_size) [
    | none ↦ none
    | some result ↦ some (fresh_machine log_initial_size result)
  ]

  -- Each size class of the pool has records of its size.
  abbrev pub Sized : Pool A → Type 0
  Sized pool =
      (log_size : ℕ) (range : SizeClassRange)
      → find_range pool.ranges log_size ≡ some range
      → (j : ℕ) → range.begin ≤ j
      → j < range.begin + range.count
      → (pool.arrays j).log_size ≡ log_size

  abbrev pub empty_view : View A
  empty_view = record { queue = []; pushed = []; popped = []; stolen = [] }

  claimed-Sized : (pool : Pool A) (r : ℕ) → Sized pool → Sized (claimed pool r)
  claimed-Sized pool r sized log_size range found j ge lt = elim (ℕ_discrete r j) [
    | yes e ↦
        subst (λ (q : ℕ). ((claimed pool r).arrays q).log_size ≡ (pool.arrays q).log_size) e
          (ap (λ (c : CircularArray A). c.log_size)
            (update_self pool.arrays r (reset_for_reuse (pool.arrays r))))
        ∙ sized log_size range found j ge lt
    | no ne ↦
        ap (λ (c : CircularArray A). c.log_size) (update_ne pool.arrays r j _ ne)
        ∙ sized log_size range found j ge lt
  ]

  fresh_machine-Inv :
      (pool : Pool A) (r l : ℕ)
      → Sized pool
      → Inv (fresh_machine l (claimed pool r, r)) (λ i. load ((claimed pool r).arrays r) i) 0 idle
  fresh_machine-Inv pool r l sized = record {
    le = omega arith;
    room = omega (arith, size-pos ((claimed pool r).arrays r));
    cached = omega arith;
    pool = λ log_size found j ge lt. claimed-Sized pool r sized log_size _ found j ge lt;
    held = (update_self pool.flags r owned, λ i ge lt. absurd (omega arith));
    owner_ok = (
      refl,
      last (
          ap (λ (c : CircularArray A). c.prev)
            (update_self pool.arrays r (reset_for_reuse (pool.arrays r)))),
    );
    thief_ok = λ i. tt;
  }

  abbrev pub Made : Machine A → Type 0
  Made s = (item : ℕ → A) × Inv s item 0 s.owner × (view s item 0 s.owner ≡ empty_view)

  -- A new deque is empty, and the invariant holds.
  pub new_deque-Made :
      (pool : Pool A) (l : ℕ) (s : Machine A) → Sized pool → new_deque pool l ≡ some s → Made s
  unfolding new_deque
  new_deque-Made pool l s sized e = made (try_acquire pool l) (try_acquire-Acquires pool l) e
    where
      nothing :
          (r : ℕ)
          → view
              (fresh_machine l (claimed pool r, r))
              (λ i. load ((claimed pool r).arrays r) i)
              0
              idle
            ≡ empty_view
      nothing r k = record {
        queue = window_empty (λ i. load ((claimed pool r).arrays r) i) 0 0 refl k;
        pushed = [];
        popped = [];
        stolen = [];
      }

      made :
          (result : Option (Pool A × ℕ))
          → Acquires pool l result
          → elim result [ none ↦ none | some result ↦ some (fresh_machine l result) ] ≡ some s
          → Made s
      made none acquires e = absurd (cc)
      made (some (p, r)) (range, found, first, same) e =
          subst Made (ap (λ (q : Pool A). fresh_machine l (q, r)) (sym same) ∙ some-injective e)
            (λ i. load ((claimed pool r).arrays r) i, fresh_machine-Inv pool r l sized, nothing r)
