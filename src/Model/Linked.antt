-- ===== src/Model/Linked.antt =====
-- What the owner's code in model/deque_model.c does to the chain of its arrays, from the large one to
-- the small one.
pub mod Shrinks
pub mod Threads
use lock_free_deque.Prelude.{
  ℕ, zero, suc, ◌+◌, ◌≡◌, ◌⊎◌, refl, sym, ap, ◌∙◌, subst, inl, inr, Option, none, some, Bool, true,
  false, ltb, ◌==◌, if◌then◌else◌, either_way,
}
use lock_free_deque.Prelude.Int.{ℤ, pos, ◌+ℤ◌, ◌-ℤ◌, is_negative, is_positive, pos_part, to_u64}
use lock_free_deque.Model.Program.{
  Array, small, large, DequeName, original, borrower, load_prev, store_bottom, store_mark, Program,
  returns, fails, ◌>>=◌, ◌>>◌, perform, store_active, with_array,
}
use lock_free_deque.Model.Deque.{
  empty, no_buffer, int64_max, log_size, capacity, slot_store, acquired, copy, grow_into, is_full,
  place, place_in_larger, refresh, push_bottom,
}
use lock_free_deque.Model.Shrink.{
  descend, copy_start, fill_smaller, shrink_into, is_sparse, count_shrink, release_until, shrink,
  perhaps_shrink, take_last, take_bottom, pop_bottom, release_chain, owner_main, lend_to,
  borrower_main,
}
use lock_free_deque.Model.Owner.{Own, claimed, AlwaysOwn, AlwaysOwn-bind, held_prev}

-- The chain of the owner's arrays, which it holds: the large one alone, the small one alone, or both.
abbrev pub Linked : Own → Type 0
Linked own =
    (own.holds own.active ≡ true)
    × (own.prev small ≡ none)
    × (own.active ≡ large
        → (own.prev large ≡ none) ⊎ ((own.prev large ≡ some small) × (own.holds small ≡ true)))

-- The chain, its head and the arrays that are held have not changed.
abbrev pub SameChain : Own → Own → Type 0
SameChain own own' = (own'.prev ≡ own.prev) × (own'.active ≡ own.active) × (own'.holds ≡ own.holds)

-- Neither has `bottom`.
abbrev pub SameWords : Own → Own → Type 0
SameWords own own' = SameChain own own' × (own'.bottom ≡ own.bottom)

-- The large array was acquired, linked to the small one, and became the active one.
abbrev pub Grown : Own → Own → Type 0
Grown own own' =
    (own.active ≡ small)
    × (own'.active ≡ large)
    × (own'.prev large ≡ some small)
    × (own'.prev small ≡ own.prev small)
    × (own'.holds large ≡ true)
    × (own'.holds small ≡ own.holds small)

-- What a push has done where it returns 0 and where it returns NO_BUFFER.
abbrev pub PushedLinked : Own → ℤ → Own → Type 0
PushedLinked own result own' =
    ((result ≡ pos 0) × (own'.bottom ≡ own.bottom +ℤ pos 1) × (SameChain own own' ⊎ Grown own own'))
    ⊎ ((result ≡ no_buffer) × SameWords own own')

slot_store-SameWords :
    (own : Own) (array : Array) (i : ℕ) (value : ℤ)
    → AlwaysOwn (λ u own'. SameWords own own') own (slot_store array i value)
slot_store-SameWords own array i value = λ mark at.
    either_way (AlwaysOwn (λ u own'. SameWords own own') own) (perform (store_mark array i))
      (returns tt) (ltb i mark) ((refl, refl, refl), refl) ((refl, refl, refl), refl)

pub copy-SameWords :
    (own : Own) (source destination : Array) (i n : ℕ)
    → AlwaysOwn (λ u own'. SameWords own own') own (copy source destination i n)
copy-SameWords own source destination i zero = ((refl, refl, refl), refl)
copy-SameWords own source destination i (suc n) =
    λ value. copy-SameWords own source destination (i + 1) n

place-ends :
    (P : ℤ → Own → Type 0) (own : Own) (deque : DequeName) (array : Array) (b value : ℤ)
    → ((own' : Own) → SameWords own own' → P (pos 0) (record own' { bottom = b +ℤ pos 1 }))
    → AlwaysOwn P own (place deque array b value)
place-ends P own deque array b value after =
    AlwaysOwn-bind (λ u own'. SameWords own own') P
      (λ u. perform (store_bottom deque (b +ℤ pos 1)) >> returns (pos 0))
      (λ u own' same. after own' same) own (slot_store array (to_u64 b) value)
      (slot_store-SameWords own array (to_u64 b) value)

refresh-PushedLinked :
    (own : Own) (deque : DequeName) (array : Array) (value : ℤ)
    → own.active ≡ array
    → AlwaysOwn (PushedLinked own) own (refresh deque array own.bottom value)
refresh-PushedLinked own deque large value e t =
    either_way (AlwaysOwn (PushedLinked own) (record own { cached_top = t })) _ _
      (is_full large own.bottom t) (inr (refl, ((refl, refl, refl), refl)))
      (place-ends (PushedLinked own) (record own { cached_top = t }) deque large own.bottom value
        (λ own' same. inl (refl, refl, inl same.0)))
refresh-PushedLinked own deque small value e t =
    either_way (AlwaysOwn (PushedLinked own) (record own { cached_top = t })) _ _
      (is_full small own.bottom t) grows
      (place-ends (PushedLinked own) (record own { cached_top = t }) deque small own.bottom value
        (λ own' same. inl (refl, refl, inl same.0)))
  where
    -- The owner's memory once `large` is linked to `small`.
    linked_own : Own
    linked_own = record own {
      cached_top = t;
      mark = with_array own.mark large int64_max;
      prev = with_array (with_array own.prev large none) large (some small);
      holds = with_array own.holds large true;
    }

    rounds : ℕ
    rounds = pos_part (own.bottom -ℤ pos t)

    grown : Array → Own → Type 0
    grown array own' = SameWords linked_own own' × (array ≡ large)

    publish : Array → Program ℤ
    publish array = perform (store_active deque array) >> place deque array own.bottom value

    publishes :
        (array : Array) (own' : Own)
        → grown array own'
        → AlwaysOwn (PushedLinked own) own' (publish array)
    publishes array own' (((prev, active, holds), bottom), is_large) =
        place-ends (PushedLinked own) (record own' { active = array }) deque array own.bottom value
          (λ own'' same.
            let links : own''.prev ≡ linked_own.prev = same.0.0 ∙ prev in
            let held : own''.holds ≡ linked_own.holds = same.0.2 ∙ holds in
            inl (
              refl,
              refl,
              inr (
                e,
                same.0.1 ∙ is_large,
                ap (λ p. p large) links,
                ap (λ p. p small) links,
                ap (λ h. h large) held,
                ap (λ h. h small) held,
              ),
            ))

    grows :
        (won : Bool)
        → AlwaysOwn
            (PushedLinked own)
            (claimed (record own { cached_top = t }) large won)
            (acquired large won >>= place_in_larger deque small own.bottom t value)
    grows false = inr (refl, ((refl, refl, refl), refl))
    grows true =
        AlwaysOwn-bind grown (PushedLinked own) publish publishes linked_own
          (copy small large t rounds >> returns large)
          (AlwaysOwn-bind (λ u own'. SameWords linked_own own') grown (λ u. returns large)
            (λ u own' same. (same, refl)) linked_own (copy small large t rounds)
            (copy-SameWords linked_own small large t rounds))

-- Whatever the other threads do that does not write the owner's members of the deque or the metadata
-- of an array it holds, a push fails no assertion and ends in one
-- of three ways. It returns 0, has raised `bottom` by one, and either the chain of arrays and the
-- arrays that are held are as before, or the large array has become the active one, is held, and is
-- linked to the small one, which was active. Or it returns NO_BUFFER, with the chain, the arrays that
-- are held and `bottom` as before.
pub push_bottom-PushedLinked :
    (own : Own) (deque : DequeName) (value : ℤ)
    → AlwaysOwn (PushedLinked own) own (push_bottom deque value)
push_bottom-PushedLinked own deque value =
    either_way (AlwaysOwn (PushedLinked own) own) _ _ (is_full own.active own.bottom own.cached_top)
      (refresh-PushedLinked own deque own.active value refl)
      (place-ends (PushedLinked own) own deque own.active own.bottom value
        (λ own' same. inl (refl, refl, inl same.0)))

-- What the loop that counts finds: only a large array that is linked to the small one is shrunk.
abbrev pub Counted : Own → Array → ℕ → Own → Type 0
Counted own array n own' =
    (own' ≡ own)
    × ((n ≡ 0)
        ⊎ ((n ≡ 1) × (array ≡ large) × (own.prev large ≡ some small) × (own.holds small ≡ true)))

module _ (own : Own) (deque : DequeName) (b : ℤ) (t : ℕ) where
  -- The loop stands at the small array.
  ends_small :
      (P : ℕ → Own → Type 0) (fuel n : ℕ)
      → own.holds small ≡ true
      → own.prev small ≡ none
      → P n own
      → AlwaysOwn P own (count_shrink (suc fuel) deque b t small n)
  ends_small P fuel n held alone p =
      either_way (AlwaysOwn P own) _ (returns n) (is_sparse deque b t small)
        (held_prev P own small next held
          (subst (λ (prev : Option Array). AlwaysOwn P own (next prev)) (sym alone) p))
        p
    where
      next : Option Array → Program ℕ
      next prev = elim prev [ none ↦ returns n | some q ↦ count_shrink fuel deque b t q (n + 1) ]

  pub count_shrink-Counted :
      (array : Array)
      → Linked own
      → own.active ≡ array
      → AlwaysOwn (Counted own array) own (count_shrink 2 deque b t array 0)
  count_shrink-Counted small (held, alone, linked) e =
      ends_small (Counted own small) 1 0 (sym (ap own.holds e) ∙ held) alone (refl, inl refl)
  count_shrink-Counted large (held, alone, linked) e =
      either_way (AlwaysOwn (Counted own large) own) _ (returns 0) (is_sparse deque b t large)
        (held_prev (Counted own large) own large next (sym (ap own.holds e) ∙ held)
          (follows (linked e)))
        (refl, inl refl)
    where
      next : Option Array → Program ℕ
      next prev = elim prev [ none ↦ returns 0 | some p ↦ count_shrink 1 deque b t p (0 + 1) ]

      Next : Option Array → Type 0
      Next prev = AlwaysOwn (Counted own large) own (next prev)

      follows :
          (own.prev large ≡ none) ⊎ ((own.prev large ≡ some small) × (own.holds small ≡ true))
          → Next (own.prev large)
      follows (inl end) = subst Next (sym end) (refl, inl refl)
      follows (inr (link, held')) =
          subst Next (sym link)
            (ends_small (Counted own large) 0 1 held' alone (refl, inr (refl, refl, link, held')))
