-- ===== src/Deque/Invariant/Steal/Raise.antt =====
-- What the owner knows survives a steal, and does not depend on where the thieves stand.
use lock_free_deque.Prelude.{ℕ, ◌+◌, ◌<◌, ◌≡◌, refl, inr, List, arith}
use lock_free_deque.Deque.State.{OwnerPc, ThiefPc, Event, Machine}
use lock_free_deque.Deque.State.OwnerPc.{
  idle, push_start, push_refresh, push_acquire, push_copy, push_publish, push_store, push_bottom,
  pop_start, pop_refresh, pop_empty, pop_load, pop_cas, pop_won, pop_lost, shrink_start,
  shrink_copy, shrink_publish, shrink_shift, shrink_snapshot, shrink_cas, shrink_restore,
  shrink_release, fault,
}
use lock_free_deque.Deque.View.{in_hand}
use lock_free_deque.Deque.Invariant.Defs.{Hangs, Recent, OwnerOk}
use lock_free_deque.Deque.Invariant.Moves.Pop.{Chain-narrow}

abbrev pub raised : {A : Type 0} → Machine A → Machine A
raised s = record s { top = s.top + 1 }

abbrev pub beside : {A : Type 0} → Machine A → (ℕ → ThiefPc A) → List (Event A) → Machine A
beside s thieves trace = record s { thieves = thieves; trace = trace }

module _ {A : Type 0} (s : Machine A) (item : ℕ → A) (hi : ℕ) where
  -- What the owner knows survives a steal.
  pub raised-OwnerOk :
      (lt : s.top < hi) (pc : OwnerPc A) → OwnerOk s item hi pc → OwnerOk (raised s) item hi pc
  raised-OwnerOk lt pc ok = go pc ok
    where
      hang : {c : ℕ} → Hangs s item hi c → Hangs (raised s) item hi c
      hang h = Chain-narrow s (s.top + 1) hi (omega arith) (omega arith) h

      go : (pc : OwnerPc A) → OwnerOk s item hi pc → OwnerOk (raised s) item hi pc
      go idle (b, h) = (b, hang h)
      go (push_start x) (b, h) = (b, hang h)
      go (push_refresh x b a) (p, q, r, h) = (p, q, r, hang h)
      go (push_acquire x b t a i left) (p, q, r, le, wide, scans, h) =
          (p, q, r, omega arith, wide, scans, hang h)
      go (push_copy x b a d i) (p, q, r, near, grows, copied, h) =
          (p, q, r, near, grows, λ j ge. copied j (omega arith), hang h)
      go (push_publish x b d) (p, q, grows, copied, h) =
          (p, q, grows, λ j ge. copied j (omega arith), hang h)
      go (push_store x b a) (p, q, r, wide, h) = (p, q, r, omega arith, hang h)
      go (push_bottom x b) (p, q, wide, slot, marked, h) = (p, q, omega arith, slot, marked, hang h)
      go pop_start (b, h) = (b, hang h)
      go (pop_refresh b a) (p, q, r, h) = (p, q, r, hang h)
      go (pop_empty t) (p, q, top_hi, h) = absurd (omega arith)
      go (pop_load b t a) (p, q, le, which, h) = (p, q, omega arith, which, hang h)
      go (pop_cas x t) (p, last, le, right, h) =
          (p, last, omega arith, λ e. absurd (omega arith), hang h)
      go (pop_won x t) (p, last, top_hi, h) = absurd (omega arith)
      go (pop_lost t) (p, last, top_hi, h) = absurd (omega arith)
      go (shrink_start x b t) (p, q, t_lt, le, h) = (p, q, t_lt, omega arith, hang h)
      go (shrink_copy x b a d i) ((p, q, r, own, smaller, fits, two, path, h), near, copied) = (
        (p, q, r, own, smaller, omega arith, two, path, hang h),
        near,
        λ j ge. copied j (omega arith),
      )
      go (shrink_publish x b a d) ((p, q, r, own, smaller, fits, two, path, h), copied) =
          ((p, q, r, own, smaller, omega arith, two, path, hang h), λ j ge. copied j (omega arith))
      go (shrink_shift x b a d) (p, (q, r, two, path, h)) = (p, (q, r, two, path, hang h))
      go (shrink_snapshot x b a d) (p, (q, r, two, path, h)) = (p, (q, r, two, path, hang h))
      go (shrink_cas x b a d snapshot) (p, le, (q, r, two, path, h)) =
          (p, omega arith, (q, r, two, path, hang h))
      go (shrink_restore x b a d) (p, (q, r, two, path, h)) = (p, (q, r, two, path, hang h))
      go (shrink_release x c d) (p, q, path, h) = (p, q, path, hang h)
      go fault ok = ok

  pub beside-OwnerOk :
      (thieves : ℕ → ThiefPc A) (trace : List (Event A)) (pc : OwnerPc A)
      → OwnerOk s item hi pc
      → OwnerOk (beside s thieves trace) item hi pc
  beside-OwnerOk thieves trace idle ok = ok
  beside-OwnerOk thieves trace _ ok = ok

module _ {A : Type 0} (s : Machine A) where
  pub beside-in_hand :
      (thieves : ℕ → ThiefPc A) (trace : List (Event A)) (pc : OwnerPc A)
      → in_hand (beside s thieves trace) pc ≡ in_hand s pc
  beside-in_hand thieves trace idle = refl
  beside-in_hand thieves trace _ = refl

  pub raised-in_hand : (pc : OwnerPc A) → in_hand (raised s) pc ≡ in_hand s pc
  raised-in_hand idle = refl
  raised-in_hand _ = refl

pub Recent-active : {A : Type 0} (pc : OwnerPc A) (active t : ℕ) → Recent pc active t active
Recent-active (shrink_cas x b c d snapshot) active t = inr refl
Recent-active (shrink_restore x b c d) active t = refl
Recent-active (shrink_release x c d) active t = refl
Recent-active _ active t = tt
