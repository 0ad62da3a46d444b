-- ===== src/Deque/Invariant/Chain.antt =====
-- The arrays that the owner keeps: the chain of `prev_` pointers from the active array, and the
-- part of a chain that a shrink discards.
use lock_free_deque.Prelude.{
  ℕ, suc, ◌≤◌, ◌<◌, ◌≡◌, ◌≢◌, ◌∙◌, sym, ap, subst, Option, none, some, arith,
}
use lock_free_deque.CircularArray.{CircularArray, min_mark, load}
use lock_free_deque.Deque.State.{Flag, owned}

-- An index below a mark was not stored since the mark was reset.
abbrev pub Below : ℕ → Option ℕ → Type 0
Below i none = Unit
Below i (some m) = i < m

pub Below-min_mark_left : (i : ℕ) (m k : Option ℕ) → Below i (min_mark m k) → Below i m
Below-min_mark_left i none k h = tt
Below-min_mark_left i (some a) none h = h
Below-min_mark_left i (some a) (some b) h = ground arith

pub Below-min_mark_right : (i : ℕ) (m k : Option ℕ) → Below i (min_mark m k) → Below i k
Below-min_mark_right i none k h = h
Below-min_mark_right i (some a) none h = tt
Below-min_mark_right i (some a) (some b) h = ground arith

pub Below-min_mark : (i : ℕ) (m k : Option ℕ) → Below i m → Below i k → Below i (min_mark m k)
Below-min_mark i none k h h' = h'
Below-min_mark i (some a) none h h' = h
Below-min_mark i (some a) (some b) h h' = ground arith

module _ {A : Type 0} (arrays : ℕ → CircularArray A) (flags : ℕ → Flag) where
  -- Record `r` is the owner's, and has the items from `lo` to `hi` that lie below the mark.
  abbrev pub Holds : (ℕ → A) → ℕ → ℕ → ℕ → Option ℕ → Type 0
  Holds item lo hi r m =
      (flags r ≡ owned) × ((i : ℕ) → lo ≤ i → i < hi → Below i m → load (arrays r) i ≡ item i)

-- Arrays of different sizes are different.
pub log_size-ne :
    {A : Type 0} (arrays : ℕ → CircularArray A) (r c : ℕ)
    → (arrays r).log_size < (arrays c).log_size
    → c ≢ r
log_size-ne arrays r c lt e = omega (arith, ap (λ (q : ℕ). (arrays q).log_size) e)

-- What hangs below array `c`: each array is half as large as the one before it, and has the items
-- that no array above it was given by `store`. `m` is the least mark above `c`.
pub data Chain {A : Type 0} (arrays : ℕ → CircularArray A) (flags : ℕ → Flag) (item : ℕ → A)
    (lo hi : ℕ) : ℕ → Option ℕ → Type 0 where
  last : {c : ℕ} {m : Option ℕ} → (arrays c).prev ≡ none → Chain arrays flags item lo hi c m
  link :
      {c : ℕ} {m : Option ℕ} (p : ℕ)
      → (arrays c).prev ≡ some p
      → (arrays c).log_size ≡ suc (arrays p).log_size
      → Holds arrays flags item lo hi p (min_mark m (arrays c).low_water_mark)
      → Chain arrays flags item lo hi p (min_mark m (arrays c).low_water_mark)
      → Chain arrays flags item lo hi c m

-- The arrays from `c` on, up to `d` and without it.
pub data Discard {A : Type 0} (arrays : ℕ → CircularArray A) (flags : ℕ → Flag) (d : ℕ)
    : ℕ → Type 0 where
  done : {c : ℕ} → c ≡ d → Discard arrays flags d c
  more :
      {c : ℕ} (p : ℕ)
      → flags c ≡ owned
      → (arrays c).prev ≡ some p
      → (arrays c).log_size ≡ suc (arrays p).log_size
      → Discard arrays flags d p
      → Discard arrays flags d c

-- A chain is kept by a change of memory that keeps the links and the items of the owner's arrays
-- up to the size of the chain's head. At the head the mark may go down.
module _ {A : Type 0} {arrays arrays' : ℕ → CircularArray A} {flags flags' : ℕ → Flag}
    {item item' : ℕ → A} {lo hi lo' hi' : ℕ} (bound : ℕ) (top_mark : Option ℕ)
    (links : (r : ℕ)
      → flags r ≡ owned
      → (arrays r).log_size < bound
      → ((arrays' r).prev ≡ (arrays r).prev)
        × ((arrays' r).low_water_mark ≡ (arrays r).low_water_mark)
        × ((arrays' r).log_size ≡ (arrays r).log_size))
    (holds : (r : ℕ) (m : Option ℕ)
      → (arrays r).log_size < bound
      → ((i : ℕ) → Below i m → Below i top_mark)
      → Holds arrays flags item lo hi r m
      → Holds arrays' flags' item' lo' hi' r m) where
  pub Chain-frame :
      {c : ℕ} {m : Option ℕ}
      → Chain arrays flags item lo hi c m
      → (m' : Option ℕ) → (arrays c).log_size ≤ bound
      → (arrays' c).prev ≡ (arrays c).prev
      → (arrays' c).log_size ≡ (arrays c).log_size
      → ((i : ℕ)
          → Below i (min_mark m' (arrays' c).low_water_mark)
          → Below i (min_mark m (arrays c).low_water_mark))
      → ((i : ℕ) → Below i (min_mark m (arrays c).low_water_mark) → Below i top_mark)
      → Chain arrays' flags' item' lo' hi' c m'
  Chain-frame (last e) m' fits same_prev same_log lower under = last (same_prev ∙ e)
  Chain-frame (link {c} {m} p e l h rest) m' fits same_prev same_log lower under =
      let small : (arrays p).log_size < bound = omega arith in
      let (prev_p, mark_p, log_p) = links p h.0 small in
      let kept = holds p (min_mark m (arrays c).low_water_mark) small under h in
      link p (same_prev ∙ e) (same_log ∙ l ∙ ap suc (sym log_p))
        (kept.0, λ i ge lt b. kept.1 i ge lt (lower i b))
        (Chain-frame rest (min_mark m' (arrays' c).low_water_mark) (omega arith) prev_p log_p
          (λ i b.
            Below-min_mark i _ _ (lower i (Below-min_mark_left i _ _ b))
              (subst (Below i) mark_p (Below-min_mark_right i _ _ b)))
          (λ i b. under i (Below-min_mark_left i _ _ b)))
