-- ===== src/Model/Linked/Shrinks.antt =====
-- What `perhaps_shrink` of model/deque_model.c does to the chain of arrays.
use lock_free_deque.Prelude.{
  ℕ, ◌+◌, ◌≡◌, ◌⊎◌, refl, sym, ap, ◌∙◌, subst, inl, inr, Option, none, some, true, false, ltb,
  if◌then◌else◌, either_way,
}
use lock_free_deque.Prelude.Int.{ℤ, pos, ◌+ℤ◌, ◌-ℤ◌, pos_part}
use lock_free_deque.Model.Program.{
  Array, small, large, load_mark, load_top, DequeName, store_bottom, store_mark, Program, returns,
  fails, ◌>>=◌, ◌>>◌, perform, store_active,
}
use lock_free_deque.Model.Deque.{cas_top, capacity, copy, release_array}
use lock_free_deque.Model.Shrink.{
  descend, copy_start, fill_smaller, shrink_into, count_shrink, release_until, shrink,
  perhaps_shrink,
}
use lock_free_deque.Model.Owner.{Own, AlwaysOwn, AlwaysOwn-bind, held_prev}
use lock_free_deque.Model.Linked.{
  Linked, SameChain, SameWords, copy-SameWords, Counted, count_shrink-Counted,
}

-- The small array has become the active one, and the large one, which was linked to it, is returned
-- with no link.
abbrev pub Shrunk : Own → Own → Type 0
Shrunk own own' =
    (own.active ≡ large)
    × (own.prev large ≡ some small)
    × (own'.active ≡ small)
    × (own'.prev large ≡ none)
    × (own'.prev small ≡ own.prev small)
    × (own'.holds large ≡ false)
    × (own'.holds small ≡ own.holds small)

-- What a pop may do to the chain.
abbrev pub Kept : {X : Type 0} → Own → X → Own → Type 0
Kept own x own' = SameChain own own' ⊎ Shrunk own own'

abbrev FoundSmall : Own → Array → Own → Type 0
FoundSmall own array own' = SameWords own own' × (array ≡ small)

module _ (own : Own) (deque : DequeName) (b : ℤ) (t : ℕ) where
  fill_smaller-FoundSmall :
      (found : Array × ℕ)
      → found.0 ≡ small
      → AlwaysOwn (FoundSmall own) own (fill_smaller large b t found)
  fill_smaller-FoundSmall (destination, low) e = λ mark at.
      AlwaysOwn-bind (λ u own'. SameWords own own') (FoundSmall own) fills filled own
        (if ltb low mark then perform (store_mark destination low) else returns tt)
        (either_way (AlwaysOwn (λ u own'. SameWords own own') own)
          (perform (store_mark destination low)) (returns tt) (ltb low mark)
          ((refl, refl, refl), refl) ((refl, refl, refl), refl))
    where
      from : ℕ
      from = copy_start b t low

      fills : Unit {0} → Program Array
      fills u = copy large destination from (pos_part (b -ℤ pos from)) >> returns destination

      filled :
          (u : Unit {0}) (own' : Own)
          → SameWords own own'
          → AlwaysOwn (FoundSmall own) own' (fills u)
      filled u own' ((prev, active, holds), bottom) =
          AlwaysOwn-bind (λ u own''. SameWords own' own'') (FoundSmall own)
            (λ u. returns destination)
            (λ u own'' same.
              (((same.0.0 ∙ prev, same.0.1 ∙ active, same.0.2 ∙ holds), same.1 ∙ bottom), e))
            own' (copy large destination from (pos_part (b -ℤ pos from)))
            (copy-SameWords own' large destination from (pos_part (b -ℤ pos from)))

  shrink_into-FoundSmall :
      own.holds large ≡ true
      → own.prev large ≡ some small
      → AlwaysOwn (FoundSmall own) own (shrink_into large b t 1)
  shrink_into-FoundSmall held link = λ low at.
      AlwaysOwn-bind (λ found own'. (own' ≡ own) × (found.0 ≡ small)) (FoundSmall own)
        (fill_smaller large b t)
        (λ found own' same.
          subst (λ (o : Own). AlwaysOwn (FoundSmall own) o (fill_smaller large b t found))
            (sym same.0) (fill_smaller-FoundSmall found same.1))
        own (descend 1 large low)
        (held_prev (λ found own'. (own' ≡ own) × (found.0 ≡ small)) own large (next low) held
          (subst
            (λ (p : Option Array).
              AlwaysOwn (λ found own'. (own' ≡ own) × (found.0 ≡ small)) own (next low p))
            (sym link) (λ mark at'. (refl, refl))))
    where
      next : ℕ → Option Array → Program (Array × ℕ)
      next low prev = elim prev [
        | none ↦ fails
        | some p ↦
            perform (load_mark p) >>= λ mark. descend 0 p (if ltb mark low then mark else low)
      ]

  -- The small array is active, and the large one is to be returned.
  abbrev Discarding : Unit {0} → Own → Type 0
  Discarding u own' = (own'.prev ≡ own.prev) × (own'.active ≡ small) × (own'.holds ≡ own.holds)

  -- The large array is active, held, and linked to the small one.
  abbrev Both : Type 0
  Both = (own.active ≡ large) × (own.holds large ≡ true) × (own.prev large ≡ some small)

  release_until-Kept :
      (own' : Own)
      → Both
      → Discarding tt own'
      → AlwaysOwn (Kept own) own' (release_until 2 small large)
  release_until-Kept own' (was, held, link) (prev, active, holds) =
      held_prev (Kept own) own' large next (ap (λ h. h large) holds ∙ held) (
        subst (λ (p : Option Array). AlwaysOwn (Kept own) own' (next p))
          (sym (ap (λ p. p large) prev ∙ link))
          (inr (was, link, active, refl, ap (λ p. p small) prev, refl, ap (λ h. h small) holds)))
    where
      next : Option Array → Program (Unit {0})
      next prev =
          release_array large >> elim prev [ none ↦ fails | some p ↦ release_until 1 small p ]

  -- `shrink` once the small array is filled.
  finish : Array → Program (Unit {0})
  finish new_array = do
    perform (store_active deque new_array)
    perform (store_bottom deque (b +ℤ pos (capacity new_array)))
    top_snapshot ← perform (load_top deque)
    won ← cas_top deque top_snapshot (top_snapshot + capacity new_array)
    if won then returns tt else perform (store_bottom deque b)
    release_until 2 new_array large

  finish-Kept :
      (new_array : Array) (own' : Own)
      → Both
      → FoundSmall own new_array own'
      → AlwaysOwn (Kept own) own' (finish new_array)
  unfolding finish
  finish-Kept small own' both (((prev, active, holds), bottom), e) = λ top_snapshot won.
      AlwaysOwn-bind Discarding (Kept own) (λ u. release_until 2 small large)
        (λ u own'' discarding. release_until-Kept own'' both discarding)
        (record own' { active = small; bottom = b +ℤ pos (capacity small) })
        (if won then returns tt else perform (store_bottom deque b))
        (either_way
          (AlwaysOwn Discarding
            (record own' { active = small; bottom = b +ℤ pos (capacity small) }))
          (returns tt) (perform (store_bottom deque b)) won (prev, refl, holds) (prev, refl, holds))
  finish-Kept large own' both (same, e) = absurd (cc (e))

  shrink-Kept :
      (array : Array) (n : ℕ) (own' : Own)
      → own.active ≡ array
      → own.holds array ≡ true
      → Counted own array n own'
      → AlwaysOwn (Kept own) own' (shrink deque b t array n)
  unfolding finish
  shrink-Kept array n own' at held (same, found) =
      subst (λ (o : Own). AlwaysOwn (Kept own) o (shrink deque b t array n)) (sym same)
        (shrinks found)
    where
      shrinks :
          (n ≡ 0)
            ⊎ ((n ≡ 1) × (array ≡ large) × (own.prev large ≡ some small) × (own.holds small ≡ true))
          → AlwaysOwn (Kept own) own (shrink deque b t array n)
      shrinks (inl none_found) =
          subst (λ (k : ℕ). AlwaysOwn (Kept own) own (shrink deque b t array k)) (sym none_found)
            (inl (refl, refl, refl))
      shrinks (inr (one_found, is_large, link, held')) =
          let both : Both = (at ∙ is_large, sym (ap own.holds is_large) ∙ held, link) in
          subst (λ (k : ℕ). AlwaysOwn (Kept own) own (shrink deque b t array k)) (sym one_found)
            (subst (λ (a : Array). AlwaysOwn (Kept own) own (shrink deque b t a 1)) (sym is_large)
              (AlwaysOwn-bind (FoundSmall own) (Kept own) finish
                (λ a o found. finish-Kept a o both found) own (shrink_into large b t 1)
                (shrink_into-FoundSmall both.1 link)))

  pub perhaps_shrink-Kept : Linked own → AlwaysOwn (Kept own) own (perhaps_shrink deque b t)
  perhaps_shrink-Kept linked =
      AlwaysOwn-bind (Counted own own.active) (Kept own) (shrink deque b t own.active)
        (λ n own' counted. shrink-Kept own.active n own' refl linked.0 counted) own
        (count_shrink 2 deque b t own.active 0)
        (count_shrink-Counted own deque b t own.active linked refl)
