-- ===== src/Deque/Invariant/Stable.antt =====
-- What a thief knows survives a change of memory that keeps the item at `top_`.
use lock_free_deque.Prelude.{ℕ, ◌≤◌, ◌<◌, ◌≡◌, ◌⊎◌, inl, inr, sym, ◌∙◌, false, arith}
use lock_free_deque.Prelude.Int.{ℤ, pos, ◌-ℤ◌, is_positive}
use lock_free_deque.CircularArray.{load}
use lock_free_deque.Deque.State.{owned, OwnerPc, ThiefPc, Machine}
use lock_free_deque.Deque.State.ThiefPc.{
  start, got_top, got_array, got_bottom, recheck, reading, claiming,
}
use lock_free_deque.Deque.Invariant.Defs.{Recent, Offset, ThiefOk}

module _ {A : Type 0} (s s' : Machine A) (item item' : ℕ → A) (hi hi' : ℕ)
    (pc pc' : OwnerPc A) where
  pub record Stable : Type 0 where
    pub grows : s.top ≤ s'.top
    pub same_item : (t : ℕ) → s.top ≡ t → s'.top ≡ t → t < hi → (t < hi') × (item' t ≡ item t)
    pub same_slot :
        (t a : ℕ)
        → s.top ≡ t
        → s'.top ≡ t
        → t < hi
        → s.flags a ≡ owned
        → load (s.arrays a) t ≡ item t
        → Recent pc s.active t a
        → (s'.flags a ≡ owned) × (load (s'.arrays a) t ≡ item t) × Recent pc' s'.active t a
    pub same_offset :
        (t : ℕ) (b : ℤ)
        → s.top ≡ t
        → s'.top ≡ t
        → Offset s item hi pc t b
        → (t < hi') ⊎ Offset s' item' hi' pc' t b

  pub ThiefOk-Stable :
      Stable → (p : ThiefPc A) → ThiefOk s item hi pc p → ThiefOk s' item' hi' pc' p
  ThiefOk-Stable st ThiefPc.idle h = tt
  ThiefOk-Stable st start h = tt
  ThiefOk-Stable st (got_top t) h = omega (arith, st.grows)
  ThiefOk-Stable st (got_array t old_array) h = omega (arith, st.grows)
  ThiefOk-Stable st (got_bottom t old_array b) h =
      (omega (arith, st.grows), λ e. still e (h.1 (omega (arith, st.grows))))
    where
      still :
          s'.top ≡ t
          → (is_positive (b -ℤ pos t) ≡ false) ⊎ ((t < hi) ⊎ Offset s item hi pc t b)
          → (is_positive (b -ℤ pos t) ≡ false) ⊎ ((t < hi') ⊎ Offset s' item' hi' pc' t b)
      still e (inl none_left) = inl none_left
      still e (inr (inl lt)) = inr (inl (st.same_item t (omega (arith, st.grows)) e lt).0)
      still e (inr (inr off)) = inr (st.same_offset t b (omega (arith, st.grows)) e off)
  ThiefOk-Stable st (recheck t old_array a) h = tt
  ThiefOk-Stable st (reading t a) h =
      (omega (arith, st.grows), λ e. still e (h.1 (omega (arith, st.grows))))
    where
      still :
          s'.top ≡ t
          → (t < hi) × (s.flags a ≡ owned) × (load (s.arrays a) t ≡ item t) × Recent pc s.active t a
          → (t < hi')
            × (s'.flags a ≡ owned)
            × (load (s'.arrays a) t ≡ item' t)
            × Recent pc' s'.active t a
      still e (lt, own, slot, recent) =
          let now : s.top ≡ t = omega (arith, st.grows) in
          let (lt', same) = st.same_item t now e lt in
          let (own', slot', recent') = st.same_slot t a now e lt own slot recent in
          (lt', own', slot' ∙ sym same, recent')
  ThiefOk-Stable st (claiming t x) h =
      (omega (arith, st.grows), λ e. still e (h.1 (omega (arith, st.grows))))
    where
      still : s'.top ≡ t → (t < hi) × (x ≡ item t) → (t < hi') × (x ≡ item' t)
      still e (lt, same_x) =
          let (lt', same) = st.same_item t (omega (arith, st.grows)) e lt in
          (lt', same_x ∙ sym same)
