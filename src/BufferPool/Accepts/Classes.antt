-- ===== src/BufferPool/Accepts/Classes.antt =====
-- The second loop of the constructor of src/buffer_pool.h: a size class that has records already is
-- a duplicate.
use lock_free_deque.Prelude.{
  ℕ, zero, suc, ◌+◌, ◌<◌, ◌≡◌, ◌≢◌, ◌⊎◌, refl, ap, sym, ◌∙◌, subst, inl, inr, List, [], ◌∷◌, Option,
  none, some, Bool, true, false, ◌==◌, ==_iff, if◌then◌else◌, length, arith,
}
use native.Mathlib.Decide.{ℕ_discrete}
use lock_free_deque.Deque.State.{SizeClassRange}
use lock_free_deque.Deque.Owner.{find_range}
use lock_free_deque.BufferPool.{
  SizeClassConfig, PoolError, duplicate_size_class, out_of_range, Result, error, ok, Pool,
  empty_ranges, set_range, emplace, add_size_class, add_size_classes,
}
use lock_free_deque.BufferPool.Emplaced.{
  find_range-set_range_self, find_range-set_range_ne, Emplaced, emplace-Emplaced,
}
use lock_free_deque.BufferPool.Accepts.{total_count, AllValid, Has, Distinct, Repeats}
use lock_free_deque.BufferPool.Accepts.Checks.{AllBelow}

abbrev pub count_of : Option SizeClassRange → ℕ
count_of none = 0
count_of (some range) = range.count

-- A size class has records.
abbrev pub Used : List SizeClassRange → ℕ → Type 0
Used ranges log_size = 0 < count_of (find_range ranges log_size)

find_range-some :
    (ranges : List SizeClassRange) (i : ℕ)
    → i < length ranges
    → (range : SizeClassRange) × (find_range ranges i ≡ some range)
unfolding find_range
find_range-some [] i lt = absurd (omega arith)
find_range-some (r ∷ ranges) zero lt = (r, refl)
find_range-some (r ∷ ranges) (suc i) lt = find_range-some ranges i (omega arith)

length-set_range :
    (ranges : List SizeClassRange) (i : ℕ) (range : SizeClassRange)
    → length (set_range ranges i range) ≡ length ranges
unfolding set_range
length-set_range [] i range = refl
length-set_range (r ∷ ranges) zero range = refl
length-set_range (r ∷ ranges) (suc i) range = ap suc (length-set_range ranges i range)

pub length-empty_ranges : (n : ℕ) → length (empty_ranges n) ≡ n
unfolding empty_ranges
length-empty_ranges zero = refl
length-empty_ranges (suc n) = ap suc (length-empty_ranges n)

module _ {A : Type 0} where
  -- What the loop finds out, with the ranges that it began with.
  abbrev pub Sorted : Pool A → List SizeClassConfig → Result PoolError (Pool A) → Type 0
  Sorted pool config (ok pool') =
      Distinct config
      × ((l : ℕ) → Used pool.ranges l → Has l config → ⊥)
      × (pool'.size ≡ pool.size + total_count config)
  Sorted pool config (error e) =
      (e ≡ duplicate_size_class) × (Repeats config ⊎ ((l : ℕ) × Used pool.ranges l × Has l config))

  -- One more size class.
  record Added (pool : Pool A) (entry : SizeClassConfig) (pool' : Pool A) : Type 0 where
    pub longer : pool'.size ≡ pool.size + entry.count
    pub same_length : length pool'.ranges ≡ length pool.ranges
    pub used : Used pool'.ranges entry.log_size
    pub others : (l : ℕ) → entry.log_size ≢ l → find_range pool'.ranges l ≡ find_range pool.ranges l

  add_size_class-Added :
      (zero_value : A) (pool : Pool A) (entry : SizeClassConfig)
      → 0 < entry.count
      → entry.log_size < length pool.ranges
      → Added pool entry (add_size_class zero_value pool entry)
  unfolding add_size_class
  add_size_class-Added zero_value pool entry positive lt =
      let (old, at) = find_range-some pool.ranges entry.log_size lt in
      record {
        longer = new.longer;
        same_length = ap length new.same_ranges ∙ length-set_range pool.ranges entry.log_size fresh;
        used =
            subst (λ (o : Option SizeClassRange). 0 < count_of o)
              (sym (
                ap (λ (rs : List SizeClassRange). find_range rs entry.log_size) new.same_ranges
                ∙ find_range-set_range_self pool.ranges entry.log_size fresh old at))
              positive;
        others = λ l ne.
            ap (λ (rs : List SizeClassRange). find_range rs l) new.same_ranges
            ∙ find_range-set_range_ne pool.ranges entry.log_size l fresh ne;
      }
    where
      fresh : SizeClassRange
      fresh = record { begin = pool.size; count = entry.count }

      before : Pool A
      before = record pool { ranges = set_range pool.ranges entry.log_size fresh }

      new :
          Emplaced entry.log_size entry.count before
            (emplace zero_value entry.log_size entry.count before)
      new = emplace-Emplaced zero_value entry.log_size entry.count before

  module _ (pool pool' : Pool A) (entry : SizeClassConfig) (config : List SizeClassConfig)
      (added : Added pool entry pool') where
    kept-Used : (l : ℕ) → entry.log_size ≢ l → Used pool.ranges l → Used pool'.ranges l
    kept-Used l ne used =
        subst (λ (o : Option SizeClassRange). 0 < count_of o) (sym (added.others l ne)) used

    Used-before : (l : ℕ) → entry.log_size ≢ l → Used pool'.ranges l → Used pool.ranges l
    Used-before l ne used =
        subst (λ (o : Option SizeClassRange). 0 < count_of o) (added.others l ne) used

    Sorted-more :
        (result : Result PoolError (Pool A))
        → (Used pool.ranges entry.log_size → ⊥)
        → Sorted pool' config result
        → Sorted pool (entry ∷ config) result
    Sorted-more (ok pool'') unused (distinct, apart, size) = (
      (apart entry.log_size added.used, distinct),
      λ l used has. elim (ℕ_discrete entry.log_size l) [
        | yes same ↦ unused (subst (Used pool.ranges) (sym same) used)
        | no ne ↦ elim has [ inl same ↦ ne same | inr later ↦ apart l (kept-Used l ne used) later ]
      ],
      omega (arith, size, added.longer),
    )
    Sorted-more (error e) unused (same, inl repeats) = (same, inl (inr repeats))
    Sorted-more (error e) unused (same, inr (l, used, has)) = (
      same,
      elim (ℕ_discrete entry.log_size l) [
        | yes here ↦ inl (inl (subst (λ (n : ℕ). Has n config) (sym here) has))
        | no ne ↦ inr (l, Used-before l ne used, inr has)
      ],
    )

  pub add_size_classes-Sorted :
      (zero_value : A) (pool : Pool A) (config : List SizeClassConfig)
      → AllValid config
      → AllBelow (length pool.ranges) config
      → Sorted pool config (add_size_classes zero_value pool config)
  unfolding add_size_classes
  add_size_classes-Sorted zero_value pool [] valid below = (tt, λ l used has. has, omega arith)
  add_size_classes-Sorted zero_value pool (entry ∷ config) (positive, small, valid) (lt, below) =
      found (find_range pool.ranges entry.log_size) refl (
        add_size_classes-Sorted zero_value (add_size_class zero_value pool entry) config valid
          (subst (λ (n : ℕ). AllBelow n config) (sym added.same_length) below))
    where
      added : Added pool entry (add_size_class zero_value pool entry)
      added = add_size_class-Added zero_value pool entry positive lt

      Rest : Type 0
      Rest =
          Sorted (add_size_class zero_value pool entry) config
            (add_size_classes zero_value (add_size_class zero_value pool entry) config)

      tested :
          (range : SizeClassRange)
          → find_range pool.ranges entry.log_size ≡ some range
          → Rest
          → (fresh : Bool) → (range.count == 0) ≡ fresh
          → Sorted pool (entry ∷ config) (
              if fresh
              then add_size_classes zero_value (add_size_class zero_value pool entry) config
              else error duplicate_size_class)
      tested range at rest true e =
          Sorted-more pool (add_size_class zero_value pool entry) entry config added _
            (λ used. omega (arith, (==_iff range.count 0).0 e, used, ap count_of at)) rest
      tested range at rest false e =
          (refl, inr (entry.log_size, ground (arith, e, ap count_of at), inl refl))

      found :
          (at : Option SizeClassRange)
          → find_range pool.ranges entry.log_size ≡ at
          → Rest
          → Sorted pool (entry ∷ config) (elim at [
            | none ↦ error out_of_range
            | some range ↦
                if range.count == 0
                then add_size_classes zero_value (add_size_class zero_value pool entry) config
                else error duplicate_size_class
          ])
      found none at rest =
          let (range, e) = find_range-some pool.ranges entry.log_size lt in absurd (cc (at, e))
      found (some range) at rest = tested range at rest (range.count == 0) refl
