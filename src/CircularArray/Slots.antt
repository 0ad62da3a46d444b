-- ===== src/CircularArray/Slots.antt =====
-- How the slots of a circular array behave at logical indices.
use native.Mathlib.Nat.{pow-suc, mul_comm, one-le-pow, div-add-mod, mul-le-mul_left}
use native.Mathlib.Decide.{dec_lt, ℕ_discrete}
use lock_free_deque.Prelude.{
  ℕ, zero, suc, ◌+◌, ◌-◌, ◌*◌, ◌/◌, ◌%◌, ◌^◌, ◌≤◌, ◌<◌, ◌≡◌, ◌≢◌, refl, sym, ap, ◌∙◌, Option, ◌==◌,
  if◌then◌else◌, update, update_self, update_ne, subst, arith,
}
use lock_free_deque.Prelude.Bits.{bit_and_mask}
use lock_free_deque.CircularArray.{CircularArray, size, index, load, store_no_mark, store}

-- Two numbers with one remainder are equal or at least the modulus apart.
pub mod-eq-apart : (m i j : ℕ) → 0 < m → i % m ≡ j % m → i < j → i + m ≤ j
mod-eq-apart m i j p e lt = elim (dec_lt (i / m) (j / m)) [
  | yes below ↦ omega (arith, div-add-mod i m, div-add-mod j m, mul-le-mul_left m below)
  | no other ↦ omega (
    arith,
    div-add-mod i m,
    div-add-mod j m,
    mul-le-mul_left {m = j / m} {n = i / m} m (omega arith),
  )
]

module _ {A : Type 0} where
  pub size-pos : (c : CircularArray A) → 0 < size c
  size-pos c = one-le-pow c.log_size 2 (omega arith)

  -- The mask is the remainder by the size.
  pub index-eq-mod : (c : CircularArray A) (i : ℕ) → index c i ≡ i % size c
  unfolding index
  index-eq-mod c i = bit_and_mask c.log_size i

  pub index-lt-size : (c : CircularArray A) (i : ℕ) → index c i < size c
  index-lt-size c i = omega (arith, index-eq-mod c i, size-pos c)

  pub load-store_self : (c : CircularArray A) (i : ℕ) (v : A) → load (store_no_mark c i v) i ≡ v
  unfolding load store_no_mark index
  load-store_self c i v = ground arith

  index-store :
      (c : CircularArray A) (i : ℕ) (v : A) (j : ℕ) → index (store_no_mark c i v) j ≡ index c j
  unfolding index store_no_mark
  index-store c i v j = refl

  slots-apart :
      (c : CircularArray A) (i j : ℕ)
      → i ≢ j
      → i < j + size c
      → j < i + size c
      → index c i ≢ index c j
  slots-apart c i j ne p q e = elim (dec_lt i j) [
    | yes lt ↦ omega (arith, mod-eq-apart (size c) i j (size-pos c) same lt)
    | no ge ↦ omega (arith, mod-eq-apart (size c) j i (size-pos c) (sym same) (omega arith))
  ]
    where
      same : i % size c ≡ j % size c
      same = sym (index-eq-mod c i) ∙ e ∙ index-eq-mod c j

  -- Indices less than a size apart have slots of their own.
  pub load-store_ne :
      (c : CircularArray A) (i j : ℕ) (v : A)
      → i ≢ j
      → i < j + size c
      → j < i + size c
      → load (store_no_mark c i v) j ≡ load c j
  unfolding load store_no_mark
  load-store_ne c i j v ne p q = ground (arith, index-store c i v j, slots-apart c i j ne p q)

  -- A store is read back at its index, and the loads at the indices around it, less than a size
  -- away, are as before.
  pub load-store :
      (c : CircularArray A) (i j : ℕ) (v : A)
      → i < j + size c
      → j < i + size c
      → load (store c i v) j ≡ (if i == j then v else load c j)
  unfolding load index
  load-store c i j v p q = elim (ℕ_discrete i j) [
    | yes e ↦ ground (arith, load-store_self c i v, ap (load (store_no_mark c i v)) e)
    | no ne ↦ ground (arith, load-store_ne c i j v ne p q)
  ]

  pub log_size-store :
      (c : CircularArray A) (i : ℕ) (v : A) → (store_no_mark c i v).log_size ≡ c.log_size
  unfolding store_no_mark
  log_size-store c i v = refl

  pub prev-store : (c : CircularArray A) (i : ℕ) (v : A) → (store_no_mark c i v).prev ≡ c.prev
  unfolding store_no_mark
  prev-store c i v = refl

  pub low_water_mark-store :
      (c : CircularArray A) (i : ℕ) (v : A)
      → (store_no_mark c i v).low_water_mark ≡ c.low_water_mark
  unfolding store_no_mark
  low_water_mark-store c i v = refl

  pub size-suc : (c e : CircularArray A) → c.log_size ≡ suc e.log_size → size c ≡ 2 * size e
  size-suc c e log = ap (λ (n : ℕ). 2 ^ n) log ∙ pow-suc 2 e.log_size ∙ mul_comm (2 ^ e.log_size) 2

  -- The links and the mark do not matter to the slots.
  pub load-relink :
      (c : CircularArray A) (m p : Option ℕ) (j : ℕ)
      → load (record c { low_water_mark = m; prev = p }) j ≡ load c j
  unfolding load index
  load-relink c m p j = refl

  load-shift_self : (c : CircularArray A) (i : ℕ) → load c (i + size c) ≡ load c i
  unfolding load
  load-shift_self c i = ap c.segment (index-eq-mod c (i + size c) ∙ same ∙ sym (index-eq-mod c i))
    where
      same : (i + size c) % size c ≡ i % size c
      same = grind (arith, size-pos c)

  load-shift_from : (c : CircularArray A) (n i : ℕ) → load c (i + 2 ^ (n + c.log_size)) ≡ load c i
  load-shift_from c zero i = ap (λ (k : ℕ). load c (i + 2 ^ k)) (omega arith) ∙ load-shift_self c i
  load-shift_from c (suc n) i =
      ap (λ (k : ℕ). load c k) doubled
      ∙ load-shift_from c n (i + 2 ^ (n + c.log_size))
      ∙ load-shift_from c n i
    where
      doubled : i + 2 ^ (suc n + c.log_size) ≡ i + 2 ^ (n + c.log_size) + 2 ^ (n + c.log_size)
      doubled =
          let next : suc n + c.log_size ≡ suc (n + c.log_size) = omega arith in
          omega (arith, ap (λ (k : ℕ). 2 ^ k) next, pow-suc 2 (n + c.log_size))

  -- A shift by the size of an array that is no smaller leads to the same slot.
  pub load-shift :
      (c e : CircularArray A) (i : ℕ) → c.log_size ≤ e.log_size → load c (i + size e) ≡ load c i
  load-shift c e i le =
      let split : e.log_size ≡ e.log_size - c.log_size + c.log_size = omega arith in
      ap (λ (k : ℕ). load c (i + 2 ^ k)) split ∙ load-shift_from c (e.log_size - c.log_size) i

-- A map of arrays keeps what one that is replaced by another has in common with it.
pub update-keeps :
    {A X : Type 0} (of : CircularArray A → X) (arrays : ℕ → CircularArray A) (r : ℕ)
    (c : CircularArray A)
    → of c ≡ of (arrays r)
    → (q : ℕ) → of (update arrays r c q) ≡ of (arrays q)
update-keeps of arrays r c keeps q = elim (ℕ_discrete r q) [
  | yes e ↦
      subst (λ (n : ℕ). of (update arrays r c n) ≡ of (arrays n)) e
        (ap of (update_self arrays r c) ∙ keeps)
  | no ne ↦ ap of (update_ne arrays r q c ne)
]

pub log_size-update :
    {A : Type 0} (arrays : ℕ → CircularArray A) (r : ℕ) (c : CircularArray A)
    → c.log_size ≡ (arrays r).log_size
    → (q : ℕ) → (update arrays r c q).log_size ≡ (arrays q).log_size
log_size-update = update-keeps (λ c. c.log_size)
