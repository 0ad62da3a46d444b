-- ===== src/Deque/System.antt =====
-- Everything that can happen around one deque: its owner, any number of thieves, and the other
-- users of the pool, which only touch the buffers that they have claimed.
use lock_free_deque.Prelude.{ℕ, ◌≡◌, update}
use lock_free_deque.CircularArray.{CircularArray, reset_for_reuse}
use lock_free_deque.Deque.State.{available, lent, ThiefPc, Machine}
use lock_free_deque.Deque.State.OwnerPc.{idle, push_start, pop_start}
use lock_free_deque.Deque.Owner.{with_array, at_owner, owner_step}
use lock_free_deque.Deque.Thief.{at_thief, thief_step}

module _ {A : Type 0} where
  pub data Step (s : Machine A) : Machine A → Type 0 where
    owner_moves : Step s (owner_step s)
    push_called : (x : A) → s.owner ≡ idle → Step s (at_owner s (push_start x))
    pop_called : s.owner ≡ idle → Step s (at_owner s pop_start)
    thief_moves : (i : ℕ) → Step s (thief_step s i)
    steal_called : (i : ℕ) → s.thieves i ≡ ThiefPc.idle → Step s (at_thief s i ThiefPc.start)
    -- Another user claims a record, uses it in any way, and returns it.
    other_claims :
        (r : ℕ)
        → s.flags r ≡ available
        → Step s (record (with_array s r (reset_for_reuse (s.arrays r))) {
          flags = update s.flags r lent;
        })
    other_uses :
        (r : ℕ) (c : CircularArray A)
        → s.flags r ≡ lent
        → c.log_size ≡ (s.arrays r).log_size
        → Step s (with_array s r c)
    other_returns :
        (r : ℕ) → s.flags r ≡ lent → Step s (record s { flags = update s.flags r available })

  pub data Reach (s : Machine A) : Machine A → Type 0 where
    here : Reach s s
    next : {t u : Machine A} → Reach s t → Step t u → Reach s u
