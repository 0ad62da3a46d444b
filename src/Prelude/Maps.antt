-- ===== src/Prelude/Maps.antt =====
-- Maps from native numbers, such as the slots of an array or the records of a pool, and lists
-- read through such a map.
use Prim.Native.Nat.{ℕ, zero, suc, ◌+◌, ◌-◌, ◌≤◌, ◌<◌}
use mathlib.Core.Path.{◌≡◌, refl, ap, ap₂, ◌∙◌}
use mathlib.Core.Logic.{◌≢◌}
use mathlib.Core.List.{List, [], ◌∷◌, ◌++◌}
use native.Mathlib.Omega.{arith}
use lock_free_deque.Prelude.Tests.{◌==◌, if◌then◌else◌}

module _ {ℓ} {A : Type ℓ} where
  abbrev pub update : (ℕ → A) → ℕ → A → ℕ → A
  update f i a j = if i == j then a else f j

  pub update_self : (f : ℕ → A) (i : ℕ) (a : A) → update f i a i ≡ a
  update_self f i a = ground arith

  pub update_ne : (f : ℕ → A) (i j : ℕ) (a : A) → i ≢ j → update f i a j ≡ f j
  update_ne f i j a ne = ground arith

  abbrev pub length : List A → ℕ
  length [] = 0
  length (x ∷ xs) = suc (length xs)

  -- The `n` values of `f` from index `lo` on.
  pub window : (ℕ → A) → ℕ → ℕ → List A
  window f lo zero = []
  window f lo (suc n) = f lo ∷ window f (lo + 1) n

  pub window-cons : (f : ℕ → A) (lo n : ℕ) → window f lo (suc n) ≡ f lo ∷ window f (lo + 1) n
  unfolding window
  window-cons f lo n = refl

  pub length-window : (f : ℕ → A) (lo n : ℕ) → length (window f lo n) ≡ n
  unfolding window
  length-window f lo zero = refl
  length-window f lo (suc n) = ap suc (length-window f (lo + 1) n)

  pub window-snoc :
      (f : ℕ → A) (lo n : ℕ) → window f lo (suc n) ≡ window f lo n ++ (f (lo + n) ∷ [])
  unfolding window
  window-snoc f lo zero = ap (λ k. f k ∷ []) (omega arith)
  window-snoc f lo (suc n) = ap₂ {A = A} ◌∷◌ refl (window-snoc' (window-snoc f (lo + 1) n))
    where
      window-snoc' :
          window f (lo + 1) (suc n) ≡ window f (lo + 1) n ++ (f (lo + 1 + n) ∷ [])
          → window f (lo + 1) (suc n) ≡ window f (lo + 1) n ++ (f (lo + suc n) ∷ [])
      window-snoc' e = ground (arith, e)

  -- Two maps that agree on a range (the second shifted by `d`) have the same window there.
  pub window_congr :
      (f g : ℕ → A) (lo lo' n : ℕ)
      → ((i : ℕ) → i < n → f (lo + i) ≡ g (lo' + i))
      → window f lo n ≡ window g lo' n
  unfolding window
  window_congr f g lo lo' zero h = refl
  window_congr f g lo lo' (suc n) h =
      ap₂ {A = A} ◌∷◌ (ground (arith, h 0))
        (window_congr f g (lo + 1) (lo' + 1) n (λ i lt. ground (arith, h (suc i))))

  -- A range that gets one more value at its end.
  pub window-push :
      (f g : ℕ → A) (lo hi : ℕ)
      → lo ≤ hi
      → ((j : ℕ) → lo ≤ j → j < hi → g j ≡ f j)
      → window g lo (hi + 1 - lo) ≡ window f lo (hi - lo) ++ (g hi ∷ [])
  window-push f g lo hi le same =
      let longer : hi + 1 - lo ≡ suc (hi - lo) = omega arith in
      let end : lo + (hi - lo) ≡ hi = omega arith in
      ap (window g lo) longer
      ∙ window-snoc g lo (hi - lo)
      ∙ ap₂ {B = A} (λ xs y. xs ++ (y ∷ []))
          (window_congr g f lo lo (hi - lo) (λ i lt. same (lo + i) (omega arith) (omega arith)))
          (ap g end)

  -- A range that loses the value at its end.
  pub window-pop :
      (f : ℕ → A) (lo hi : ℕ)
      → lo ≤ hi
      → window f lo (suc hi - lo) ≡ window f lo (hi - lo) ++ (f hi ∷ [])
  window-pop f lo hi le =
      let longer : suc hi - lo ≡ suc (hi - lo) = omega arith in
      let end : lo + (hi - lo) ≡ hi = omega arith in
      ap (window f lo) longer
      ∙ window-snoc f lo (hi - lo)
      ∙ ap (λ (k : ℕ). window f lo (hi - lo) ++ (f k ∷ [])) end

  -- A range that loses the value at its start.
  pub window-steal :
      (f : ℕ → A) (lo hi : ℕ)
      → lo < hi
      → window f lo (hi - lo) ≡ f lo ∷ window f (lo + 1) (hi - (lo + 1))
  window-steal f lo hi lt =
      let longer : hi - lo ≡ suc (hi - (lo + 1)) = omega arith in
      ap (window f lo) longer ∙ window-cons f lo (hi - (lo + 1))

  pub window_empty : (f : ℕ → A) (lo n : ℕ) → n ≡ 0 → window f lo n ≡ []
  unfolding window
  window_empty f lo zero e = refl
  window_empty f lo (suc n) e = absurd (omega arith)
