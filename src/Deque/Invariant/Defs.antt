-- ===== src/Deque/Invariant/Defs.antt =====
-- The invariant of the machine. `item i` is the value at logical index `i`, and `hi` the index
-- after the last item that is not yet the owner's: the deque holds the items from `top` to `hi`.
use lock_free_deque.Prelude.{ℕ, suc, ◌+◌, ◌≤◌, ◌<◌, ◌≡◌, ◌⊎◌, false, none, some}
use lock_free_deque.Prelude.Int.{ℤ, pos, sub_ℕ, ◌-ℤ◌, is_positive}
use lock_free_deque.CircularArray.{size, load}
use lock_free_deque.Deque.State.{owned, SizeClassRange, OwnerPc, ThiefPc, Machine}
use lock_free_deque.Deque.State.OwnerPc.{
  idle, push_start, push_refresh, push_acquire, push_copy, push_publish, push_store, push_bottom,
  pop_start, pop_refresh, pop_empty, pop_load, pop_cas, pop_won, pop_lost, shrink_start,
  shrink_copy, shrink_publish, shrink_shift, shrink_snapshot, shrink_cas, shrink_restore,
  shrink_release, fault,
}
use lock_free_deque.Deque.State.ThiefPc.{
  start, got_top, got_array, got_bottom, recheck, reading, claiming,
}
use lock_free_deque.Deque.Owner.{find_range}
use lock_free_deque.Deque.Invariant.Chain.{Holds, Chain, Discard, Below}

module _ {A : Type 0} (s : Machine A) (item : ℕ → A) (hi : ℕ) where
  -- The arrays below `c`, where `c` itself has every item.
  abbrev pub Hangs : ℕ → Type 0
  Hangs c = Chain s.arrays s.flags item s.top hi c none

  -- The owner's record `d` has the items below index `i`.
  abbrev pub Copied : ℕ → ℕ → Type 0
  Copied d i = (j : ℕ) → s.top ≤ j → j < hi → j < i → load (s.arrays d) j ≡ item j

  -- The records that are left to scan have the size that is asked for.
  abbrev pub Scans : ℕ → ℕ → ℕ → Type 0
  Scans a i left =
      (j : ℕ) → i ≤ j → j < i + left → (s.arrays j).log_size ≡ suc (s.arrays a).log_size

  -- Record `d` is being filled to follow the active array.
  abbrev pub Grows : ℕ → Type 0
  Grows d =
      (s.flags d ≡ owned)
      × ((s.arrays d).log_size ≡ suc (s.arrays s.active).log_size)
      × ((s.arrays d).prev ≡ some s.active)
      × ((s.arrays d).low_water_mark ≡ none)

  -- Array `d`, somewhere below the active array `a`, is being filled to replace it.
  abbrev pub Shrinks : ℤ → ℕ → ℕ → Type 0
  Shrinks b a d =
      (s.bottom ≡ pos hi)
      × (b ≡ pos hi)
      × (a ≡ s.active)
      × (s.flags d ≡ owned)
      × ((s.arrays d).log_size < (s.arrays a).log_size)
      × (hi < s.top + size (s.arrays d))
      × (2 ≤ size (s.arrays d))
      × Discard s.arrays s.flags d a
      × Hangs d

  -- Array `d` is active, and those from `c` down to it are to be returned.
  abbrev pub Shifted : ℤ → ℕ → ℕ → Type 0
  Shifted b c d =
      (b ≡ pos hi)
      × (d ≡ s.active)
      × (2 ≤ size (s.arrays d))
      × Discard s.arrays s.flags d c
      × Hangs d

  -- What the owner's locals say about memory, at each place of its code.
  abbrev pub OwnerOk : OwnerPc A → Type 0
  OwnerOk idle = (s.bottom ≡ pos hi) × Hangs s.active
  OwnerOk (push_start x) = (s.bottom ≡ pos hi) × Hangs s.active
  OwnerOk (push_refresh x b a) =
      (s.bottom ≡ pos hi) × (b ≡ pos hi) × (a ≡ s.active) × Hangs s.active
  OwnerOk (push_acquire x b t a i left) =
      (s.bottom ≡ pos hi)
      × (b ≡ pos hi)
      × (a ≡ s.active)
      × (t ≤ s.top)
      × (hi < t + size (s.arrays a))
      × Scans a i left
      × Hangs s.active
  OwnerOk (push_copy x b a d i) =
      (s.bottom ≡ pos hi)
      × (b ≡ pos hi)
      × (a ≡ s.active)
      × (hi < i + size (s.arrays d))
      × Grows d
      × Copied d i
      × Hangs s.active
  OwnerOk (push_publish x b d) =
      (s.bottom ≡ pos hi) × (b ≡ pos hi) × Grows d × Copied d hi × Hangs s.active
  OwnerOk (push_store x b a) =
      (s.bottom ≡ pos hi)
      × (b ≡ pos hi)
      × (a ≡ s.active)
      × (hi + 1 < s.top + size (s.arrays a))
      × Hangs s.active
  OwnerOk (push_bottom x b) =
      (s.bottom ≡ pos hi)
      × (b ≡ pos hi)
      × (hi + 1 < s.top + size (s.arrays s.active))
      × (load (s.arrays s.active) hi ≡ x)
      × ((i : ℕ) → Below i (s.arrays s.active).low_water_mark → i < hi)
      × Hangs s.active
  OwnerOk pop_start = (s.bottom ≡ pos hi) × Hangs s.active
  OwnerOk (pop_refresh b a) = (s.bottom ≡ b) × (b ≡ sub_ℕ hi 1) × (a ≡ s.active) × Hangs s.active
  OwnerOk (pop_empty t) = (s.bottom ≡ sub_ℕ hi 1) × (t ≡ hi) × (s.top ≡ hi) × Hangs s.active
  OwnerOk (pop_load b t a) =
      (s.bottom ≡ b)
      × (a ≡ s.active)
      × (t ≤ s.top)
      × (((b ≡ pos hi) × (t < hi)) ⊎ ((b ≡ pos t) × (hi ≡ suc t)))
      × Hangs s.active
  OwnerOk (pop_cas x t) =
      (s.bottom ≡ pos t) × (hi ≡ suc t) × (t ≤ s.top) × (s.top ≡ t → x ≡ item t) × Hangs s.active
  OwnerOk (pop_won x t) = (s.bottom ≡ pos t) × (hi ≡ suc t) × (s.top ≡ hi) × Hangs s.active
  OwnerOk (pop_lost t) = (s.bottom ≡ pos t) × (hi ≡ suc t) × (s.top ≡ hi) × Hangs s.active
  OwnerOk (shrink_start x b t) =
      (s.bottom ≡ pos hi) × (b ≡ pos hi) × (t < hi) × (t ≤ s.top) × Hangs s.active
  OwnerOk (shrink_copy x b a d i) = Shrinks b a d × (hi < i + size (s.arrays d)) × Copied d i
  OwnerOk (shrink_publish x b a d) = Shrinks b a d × Copied d hi
  OwnerOk (shrink_shift x b a d) = (s.bottom ≡ pos hi) × Shifted b a d
  OwnerOk (shrink_snapshot x b a d) = (s.bottom ≡ pos (hi + size (s.arrays d))) × Shifted b a d
  OwnerOk (shrink_cas x b a d snapshot) =
      (s.bottom ≡ pos (hi + size (s.arrays d))) × (snapshot ≤ s.top) × Shifted b a d
  OwnerOk (shrink_restore x b a d) = (s.bottom ≡ pos (hi + size (s.arrays d))) × Shifted b a d
  OwnerOk (shrink_release x c d) =
      (s.bottom ≡ pos hi) × (d ≡ s.active) × Discard s.arrays s.flags d c × Hangs d
  OwnerOk fault = ⊥

-- The owner will not change the active array before the next load of `top_`.
abbrev pub Settled : {A : Type 0} → OwnerPc A → Type 0
Settled (push_acquire x b t a i left) = ⊥
Settled (push_copy x b a d i) = ⊥
Settled (push_publish x b d) = ⊥
Settled (pop_load b t a) = is_positive (b -ℤ pos t) ≡ false
Settled (shrink_start x b t) = ⊥
Settled (shrink_copy x b a d i) = ⊥
Settled (shrink_publish x b a d) = ⊥
Settled _ = Unit

-- What a thief that loaded `top_` as `t`, and that is not outdated, knows of its array `a`.
abbrev pub Recent : {A : Type 0} → OwnerPc A → ℕ → ℕ → ℕ → Type 0
Recent (shrink_cas x b c d snapshot) active t a = (t ≡ snapshot) ⊎ (a ≡ active)
Recent (shrink_restore x b c d) active t a = a ≡ active
Recent (shrink_release x c d) active t a = a ≡ active
Recent _ active t a = Unit

-- The owner stands at `pc`.
module _ {A : Type 0} (s : Machine A) (item : ℕ → A) (hi : ℕ) (pc : OwnerPc A) where
  -- The value of `bottom_` that a thief loaded during a shrink's shift. It is one size too large,
  -- and shows as a modulus of 0.
  abbrev pub Offset : ℕ → ℤ → Type 0
  Offset t b =
      (b ≡ pos (t + size (s.arrays s.active))) × (2 ≤ size (s.arrays s.active)) × Settled pc

  -- What a thief's locals say about memory, as long as `top_` is what it loaded.
  abbrev pub ThiefOk : ThiefPc A → Type 0
  ThiefOk ThiefPc.idle = Unit
  ThiefOk start = Unit
  ThiefOk (got_top t) = t ≤ s.top
  ThiefOk (got_array t old_array) = t ≤ s.top
  ThiefOk (got_bottom t old_array b) =
      (t ≤ s.top) × (s.top ≡ t → (is_positive (b -ℤ pos t) ≡ false) ⊎ ((t < hi) ⊎ Offset t b))
  ThiefOk (recheck t old_array a) = Unit
  ThiefOk (reading t a) =
      (t ≤ s.top)
      × (s.top ≡ t
          → (t < hi)
            × (s.flags a ≡ owned)
            × (load (s.arrays a) t ≡ item t)
            × Recent pc s.active t a)
  ThiefOk (claiming t x) = (t ≤ s.top) × (s.top ≡ t → (t < hi) × (x ≡ item t))

  pub record Inv : Type 0 where
    pub le : s.top ≤ hi
    pub room : hi < s.top + size (s.arrays s.active)
    pub cached : s.cached_top ≤ s.top
    pub pool :
        (log_size : ℕ) {range : SizeClassRange}
        → find_range s.ranges log_size ≡ some range
        → (j : ℕ) → range.begin ≤ j
        → j < range.begin + range.count
        → (s.arrays j).log_size ≡ log_size
    pub held : Holds s.arrays s.flags item s.top hi s.active none
    pub owner_ok : OwnerOk s item hi pc
    pub thief_ok : (i : ℕ) → ThiefOk (s.thieves i)
