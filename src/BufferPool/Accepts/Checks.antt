-- ===== src/BufferPool/Accepts/Checks.antt =====
-- The first loop of the constructor of src/buffer_pool.h.
use Prim.Native.Nat.{max}
use lock_free_deque.Prelude.{
  ℕ, ◌+◌, ◌-◌, ◌≤◌, ◌<◌, ◌≡◌, ◌⊎◌, refl, inl, inr, List, [], ◌∷◌, Bool, true, false, ◌||◌, ltb,
  ltb→lt, ltb→le, ◌==◌, ==_iff, if◌then◌else◌, arith,
}
use lock_free_deque.BufferPool.{
  SizeClassConfig, PoolError, invalid_size_class, too_many_records, Result, error, ok, size_max,
  max_log_size, check_config,
}
use lock_free_deque.BufferPool.Accepts.{total_count, AllValid, SomeInvalid}

-- Each size class has an index below `n`.
abbrev pub AllBelow : ℕ → List SizeClassConfig → Type 0
AllBelow n [] = Unit
AllBelow n (entry ∷ config) = (entry.log_size < n) × AllBelow n config

-- What the loop has found out, which began with `total` and `largest`.
abbrev pub Checked : ℕ → ℕ → List SizeClassConfig → Result PoolError (ℕ × ℕ) → Type 0
Checked total largest config (ok (total', largest')) =
    AllValid config
    × (total' ≡ total + total_count config)
    × (total' ≤ size_max)
    × (largest ≤ largest')
    × AllBelow (largest' + 1) config
Checked total largest config (error e) =
    ((e ≡ invalid_size_class) × SomeInvalid config)
    ⊎ ((e ≡ too_many_records) × (size_max < total + total_count config))

Checked-more :
    (total largest : ℕ) (entry : SizeClassConfig) (config : List SizeClassConfig)
    (result : Result PoolError (ℕ × ℕ))
    → 0 < entry.count
    → entry.log_size ≤ max_log_size
    → Checked (total + entry.count) (max largest entry.log_size) config result
    → Checked total largest (entry ∷ config) result
Checked-more total largest entry config (ok (total', largest')) p q
      (valid, sum, fits, grows, below) =
    ((p, q, valid), omega arith, fits, omega arith, (omega arith, below))
Checked-more total largest entry config (error e) p q (inl (same, bad)) = inl (same, inr bad)
Checked-more total largest entry config (error e) p q (inr (same, over)) = inr (same, omega arith)

invalid-cases : (a b : Bool) → (a || b) ≡ true → (a ≡ true) ⊎ (b ≡ true)
invalid-cases true b e = inl refl
invalid-cases false b e = inr e

valid-both : (a b : Bool) → (a || b) ≡ false → (a ≡ false) × (b ≡ false)
valid-both true b e = absurd (cc)
valid-both false b e = (refl, e)

pub check_config-Checked :
    (total largest : ℕ) (config : List SizeClassConfig)
    → total ≤ size_max
    → Checked total largest config (check_config total largest config)
unfolding check_config
check_config-Checked total largest [] fits = (tt, omega arith, fits, omega arith, tt)
check_config-Checked total largest (entry ∷ config) fits =
    judged
      (λ fits'.
        check_config-Checked (total + entry.count) (max largest entry.log_size) config fits')
      (entry.count == 0 || ltb max_log_size entry.log_size) refl
      (ltb (size_max - total) entry.count) refl
  where
    Rest : Type 0
    Rest =
        total + entry.count ≤ size_max
        → Checked (total + entry.count) (max largest entry.log_size) config
            (check_config (total + entry.count) (max largest entry.log_size) config)

    judged :
        Rest
        → (bad : Bool) → (entry.count == 0 || ltb max_log_size entry.log_size) ≡ bad
        → (over : Bool) → ltb (size_max - total) entry.count ≡ over
        → Checked total largest (entry ∷ config) (
            if bad
            then error invalid_size_class
            else if over
            then error too_many_records
            else check_config (total + entry.count) (max largest entry.log_size) config)
    judged rest true e over o = inl (
      refl,
      inl (elim (invalid-cases (entry.count == 0) (ltb max_log_size entry.log_size) e) [
        | inl none ↦ inl ((==_iff entry.count 0).0 none)
        | inr large ↦ inr (ltb→lt max_log_size entry.log_size large)
      ]),
    )
    judged rest false e true o = inr (refl, omega (arith, ltb→lt (size_max - total) entry.count o))
    judged rest false e false o =
        let (some_record, small) =
          valid-both (entry.count == 0) (ltb max_log_size entry.log_size) e in
        Checked-more total largest entry config _ (ground (arith, some_record))
          (ltb→le max_log_size entry.log_size small)
          (rest (omega (arith, ltb→le (size_max - total) entry.count o)))
