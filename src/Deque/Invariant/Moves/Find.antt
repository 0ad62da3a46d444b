-- ===== src/Deque/Invariant/Moves/Find.antt =====
-- The walk down the chain in `perhaps_shrink` and `shrink`: where it ends, and what is there.
use lock_free_deque.Prelude.{
  ℕ, zero, suc, ◌+◌, ◌-◌, ◌*◌, ◌^◌, ◌≤◌, ◌<◌, ◌≡◌, refl, ap, sym, subst, ◌⊎◌, inl, inr, Option,
  none, some, Bool-cases, true, false, arith,
}
use lock_free_deque.Prelude.Int.{ℤ, pos}
use lock_free_deque.CircularArray.{CircularArray, min_mark, size}
use lock_free_deque.CircularArray.Slots.{size-suc}
use lock_free_deque.Deque.State.{Flag, owned}
use lock_free_deque.Deque.Owner.{is_sparse, count_shrink, descend}
use lock_free_deque.Deque.Invariant.Chain.{
  Below, Below-min_mark, Below-min_mark_left, Below-min_mark_right, Holds, Chain, last, link,
  Discard, done, more,
}
use lock_free_deque.Deque.Invariant.Tests.{is_sparse-true}

module _ {A : Type 0} (arrays : ℕ → CircularArray A) (low : ℕ) (b : ℤ) (t fuel c : ℕ) where
  pub count_full :
      is_sparse (arrays c) low b t ≡ false → count_shrink (suc fuel) arrays c low b t ≡ 0
  unfolding count_shrink
  count_full e = ground arith

  pub count_last : (arrays c).prev ≡ none → count_shrink (suc fuel) arrays c low b t ≡ 0
  unfolding count_shrink
  count_last e = ground arith

  pub count_link :
      (p : ℕ)
      → is_sparse (arrays c) low b t ≡ true
      → (arrays c).prev ≡ some p
      → count_shrink (suc fuel) arrays c low b t ≡ suc (count_shrink fuel arrays p low b t)
  unfolding count_shrink
  count_link p sparse e = ground arith

module _ {A : Type 0} (arrays : ℕ → CircularArray A) (flags : ℕ → Flag) (item : ℕ → A)
    (lo hi : ℕ) where
  -- A walk of `n` links down from `c` ends at `d`, with the least mark on the way.
  pub record Found (t c : ℕ) (mark : Option ℕ) (n : ℕ) : Type 0 where
    pub d : ℕ
    pub least : Option ℕ
    pub above : Option ℕ
    pub found : descend n arrays c mark ≡ some (d, least)
    pub path : Discard arrays flags d c
    pub chain : Chain arrays flags item lo hi d above
    pub holds : Holds arrays flags item lo hi d above
    pub under : (i : ℕ) → Below i least → Below i (min_mark above (arrays d).low_water_mark)
    pub small : (n ≡ 0) ⊎ (2 * (hi - t) + 2 ≤ size (arrays d))
    pub logs : (arrays d).log_size + n ≡ (arrays c).log_size

  module _ (low : ℕ) (b : ℤ) (t : ℕ) (b_hi : b ≡ pos hi) (t_le : t ≤ hi) where
    stay :
        (c : ℕ) (m mark : Option ℕ)
        → Chain arrays flags item lo hi c m
        → Holds arrays flags item lo hi c m
        → ((i : ℕ) → Below i mark → Below i (min_mark m (arrays c).low_water_mark))
        → Found t c mark 0
    unfolding descend
    stay c m mark chain holds under = record {
      d = c;
      least = mark;
      above = m;
      found = refl;
      path = done refl;
      chain = chain;
      holds = holds;
      under = under;
      small = inl refl;
      logs = omega arith;
    }

    go :
        (c p : ℕ) (mark : Option ℕ) (n : ℕ)
        → flags c ≡ owned
        → (arrays c).prev ≡ some p
        → (arrays c).log_size ≡ suc (arrays p).log_size
        → is_sparse (arrays c) low b t ≡ true
        → Found t p (min_mark mark (arrays p).low_water_mark) n
        → Found t c mark (suc n)
    unfolding descend
    go c p mark n own prev log sparse rest = record {
      d = rest.d;
      least = rest.least;
      above = rest.above;
      found = ground (arith, rest.found);
      path = more p own prev log rest.path;
      chain = rest.chain;
      holds = rest.holds;
      under = rest.under;
      small = inr (enough rest.d rest.small rest.logs);
      logs = omega (arith, rest.logs);
    }
      where
        wide : (low < (arrays c).log_size) × (4 * (hi - t) + 4 ≤ size (arrays c))
        wide = is_sparse-true (arrays c) b hi t b_hi t_le low sparse

        enough :
            (d : ℕ)
            → (n ≡ 0) ⊎ (2 * (hi - t) + 2 ≤ size (arrays d))
            → (arrays d).log_size + n ≡ (arrays p).log_size
            → 2 * (hi - t) + 2 ≤ size (arrays d)
        enough d (inr h) logs = h
        enough d (inl e) logs =
            let same_log : (arrays d).log_size ≡ (arrays p).log_size = omega arith in
            omega (arith, wide, size-suc (arrays c) (arrays p) log, ap (λ (k : ℕ). 2 ^ k) same_log)

    pub find :
        (fuel c : ℕ) (m mark : Option ℕ)
        → Chain arrays flags item lo hi c m
        → Holds arrays flags item lo hi c m
        → ((i : ℕ) → Below i mark → Below i (min_mark m (arrays c).low_water_mark))
        → Found t c mark (count_shrink fuel arrays c low b t)
    unfolding count_shrink
    find zero c m mark chain holds under = stay c m mark chain holds under
    find (suc fuel) c m mark (last e) holds under =
        subst (Found t c mark) (sym (count_last arrays low b t fuel c e))
          (stay c m mark (last e) holds under)
    find (suc fuel) c m mark (link p e log kept rest) holds under =
        elim (Bool-cases (is_sparse (arrays c) low b t)) [
          | inr full ↦
              subst (Found t c mark) (sym (count_full arrays low b t fuel c full))
                (stay c m mark (link p e log kept rest) holds under)
          | inl sparse ↦
              subst (Found t c mark) (sym (count_link arrays low b t fuel c p sparse e)) (
                go c p mark (count_shrink fuel arrays p low b t) holds.0 e log sparse (
                  find fuel p (min_mark m (arrays c).low_water_mark)
                    (min_mark mark (arrays p).low_water_mark) rest kept
                    (λ i b'.
                      Below-min_mark i _ _ (under i (Below-min_mark_left i _ _ b'))
                        (Below-min_mark_right i mark _ b'))))
        ]
