-- ===== src/Deque/Invariant/Quiet.antt =====
-- Steps that leave the arrays, the flags and `top_` alone.
use lock_free_deque.Prelude.{ℕ, ◌+◌, ◌≤◌, ◌<◌, ◌≡◌, refl, ◌⊎◌, inl, inr, List, arith}
use lock_free_deque.Prelude.Int.{ℤ, pos}
use lock_free_deque.CircularArray.{size}
use lock_free_deque.Deque.State.{OwnerPc, Event, Machine}
use lock_free_deque.Deque.View.{View, Action, stays, view}
use lock_free_deque.Deque.Invariant.Defs.{OwnerOk, Recent, Settled, Inv}
use lock_free_deque.Deque.Invariant.Stable.{Stable, ThiefOk-Stable}

module _ {A : Type 0} where
  -- A step from view `v` led to `s`: the invariant holds there, and the view took one action.
  abbrev pub Outcome : View A → Machine A → Type 0
  Outcome v s =
      (item : ℕ → A) × (hi : ℕ) × Inv s item hi s.owner × Action v (view s item hi s.owner)

  abbrev pub quietly : Machine A → ℤ → ℕ → List (Event A) → OwnerPc A → Machine A
  quietly s bottom cached_top trace pc = record s {
    bottom = bottom;
    cached_top = cached_top;
    trace = trace;
    owner = pc;
  }

  pub Inv-quietly :
      {s : Machine A} {item : ℕ → A} {hi : ℕ} {pc : OwnerPc A}
      → Inv s item hi pc
      → (bottom : ℤ) (cached_top : ℕ) (trace : List (Event A)) (pc' : OwnerPc A)
      → cached_top ≤ s.top
      → OwnerOk (quietly s bottom cached_top trace pc') item hi pc'
      → ((t a : ℕ) → s.top ≡ t → t < hi → Recent pc s.active t a → Recent pc' s.active t a)
      → ((t : ℕ) → s.top ≡ t → 2 ≤ size (s.arrays s.active) → Settled pc → (t < hi) ⊎ Settled pc')
      → Inv (quietly s bottom cached_top trace pc') item hi pc'
  Inv-quietly {s} {item} {hi} {pc} inv bottom cached_top trace pc' c ok recent settled = record {
    le = inv.le;
    room = inv.room;
    cached = c;
    pool = inv.pool;
    held = inv.held;
    owner_ok = ok;
    thief_ok = λ i. ThiefOk-Stable s s' item item hi hi pc pc' st (s.thieves i) (inv.thief_ok i);
  }
    where
      s' : Machine A
      s' = quietly s bottom cached_top trace pc'

      st : Stable s s' item item hi hi pc pc'
      st = record {
        grows = omega arith;
        same_item = λ t now still lt. (lt, refl);
        same_slot = λ t a now still lt own slot r. (own, slot, recent t a now lt r);
        same_offset = λ t b now still off. settle t off.0 off.1 (settled t now off.1 off.2);
      }
        where
          settle :
              {b : ℤ} (t : ℕ)
              → b ≡ pos (t + size (s.arrays s.active))
              → 2 ≤ size (s.arrays s.active)
              → (t < hi) ⊎ Settled pc'
              → (t < hi)
                ⊎ ((b ≡ pos (t + size (s.arrays s.active)))
                    × (2 ≤ size (s.arrays s.active))
                    × Settled pc')
          settle t e two (inl lt) = inl lt
          settle t e two (inr k) = inr (e, two, k)

  pub quiet-Outcome :
      {s : Machine A} {item : ℕ → A} {hi : ℕ} {pc : OwnerPc A}
      → Inv s item hi pc
      → (bottom : ℤ) (cached_top : ℕ) (trace : List (Event A)) (pc' : OwnerPc A)
      → view (quietly s bottom cached_top trace pc') item hi pc' ≡ view s item hi pc
      → cached_top ≤ s.top
      → OwnerOk (quietly s bottom cached_top trace pc') item hi pc'
      → ((t a : ℕ) → s.top ≡ t → t < hi → Recent pc s.active t a → Recent pc' s.active t a)
      → ((t : ℕ) → s.top ≡ t → 2 ≤ size (s.arrays s.active) → Settled pc → (t < hi) ⊎ Settled pc')
      → Outcome (view s item hi pc) (quietly s bottom cached_top trace pc')
  quiet-Outcome {item} {hi} inv bottom cached_top trace pc' seen c ok recent settled =
      (item, hi, Inv-quietly inv bottom cached_top trace pc' c ok recent settled, stays seen)
