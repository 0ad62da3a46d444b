-- ===== src/Model/Linked/Threads.antt =====
-- What `pop_bottom` and `release_chain` of model/deque_model.c do to the chain of arrays.
use lock_free_deque.Prelude.{
  ℕ, ◌+◌, ◌≡◌, ◌⊎◌, refl, sym, ap, ◌∙◌, subst, inl, inr, Option, none, some, true, false,
  either_way,
}
use lock_free_deque.Prelude.Int.{ℤ, pos, ◌-ℤ◌, is_negative, is_positive, to_u64}
use lock_free_deque.Model.Program.{
  Array, small, large, DequeName, Program, returns, ◌>>=◌, ◌>>◌, with_array,
}
use lock_free_deque.Model.Deque.{empty, slot_load, cas_top, release_array}
use lock_free_deque.Model.Shrink.{perhaps_shrink, take_last, take_bottom, pop_bottom, release_chain}
use lock_free_deque.Model.Owner.{Own, AlwaysOwn, AlwaysOwn-bind, held_prev}
use lock_free_deque.Model.Linked.{Linked}
use lock_free_deque.Model.Linked.Shrinks.{Kept, perhaps_shrink-Kept}

-- From a memory where the owner holds its chain of arrays, and whatever the other threads do that does
-- not write the owner's members of the deque or the metadata of an array it holds: a pop fails no assertion, follows no null pointer, ends its loops within their
-- rounds, and leaves the chain and the arrays that are held as they were, or else has shrunk, and then
-- the small array of the chain is the active one, and the large one was returned with no link.
pub pop_bottom-Linked :
    (own : Own) (deque : DequeName) → Linked own → AlwaysOwn (Kept own) own (pop_bottom deque)
pop_bottom-Linked own deque linked t =
    either_way (AlwaysOwn (Kept own) popping) _
      (slot_load own.active (to_u64 (own.bottom -ℤ pos 1))
        >>= take_bottom deque (own.bottom -ℤ pos 1) t)
      (is_negative (own.bottom -ℤ pos 1 -ℤ pos t)) (inl (refl, refl, refl)) takes
  where
    popping : Own
    popping = record own { bottom = own.bottom -ℤ pos 1; cached_top = t }

    takes :
        (value : ℤ) → AlwaysOwn (Kept own) popping (take_bottom deque (own.bottom -ℤ pos 1) t value)
    takes value =
        either_way (AlwaysOwn (Kept own) popping)
          (perhaps_shrink deque (own.bottom -ℤ pos 1) t >> returns value)
          (cas_top deque t (t + 1) >>= take_last deque t value)
          (is_positive (own.bottom -ℤ pos 1 -ℤ pos t))
          (AlwaysOwn-bind (Kept own) (Kept own) (λ u. returns value) (λ u own' kept. kept) popping
            (perhaps_shrink deque (own.bottom -ℤ pos 1) t)
            (perhaps_shrink-Kept popping deque (own.bottom -ℤ pos 1) t linked))
          (λ won.
            either_way (AlwaysOwn (Kept own) (record popping { bottom = pos (t + 1) }))
              (returns value) (returns empty) won (inl (refl, refl, refl)) (inl (refl, refl, refl)))

-- From a memory where the owner holds its chain of arrays, and whatever the other threads do that does
-- not write the owner's members of the deque or the metadata of an array it holds: `release_chain` from the active array ends within its fuel and leaves no link; the owner does not hold that array any more, nor the small one
-- where the chain had both.
pub release_chain-ends :
    (own : Own)
    → Linked own
    → AlwaysOwn
        (λ u own'.
          (own'.prev small ≡ none)
          × (own'.prev own.active ≡ none)
          × (own'.holds own.active ≡ false)
          × (own.prev own.active ≡ some small → own'.holds small ≡ false))
        own
        (release_chain 3 (some own.active))
release_chain-ends own linked = from own.active refl
  where
    Ends : Array → Unit {0} → Own → Type 0
    Ends array u own' =
        (own'.prev small ≡ none)
        × (own'.prev array ≡ none)
        × (own'.holds array ≡ false)
        × (own.prev array ≡ some small → own'.holds small ≡ false)

    next : Array → ℕ → Option Array → Program (Unit {0})
    next array fuel link = release_array array >> release_chain fuel link

    -- The rest, once the large array is returned.
    after_large : Own
    after_large = record own {
      prev = with_array own.prev large none;
      holds = with_array own.holds large false;
    }

    from :
        (array : Array)
        → own.active ≡ array
        → AlwaysOwn (Ends array) own (release_chain 3 (some array))
    from small e =
        held_prev (Ends small) own small (next small 2) (sym (ap own.holds e) ∙ linked.0) (
          subst (λ (p : Option Array). AlwaysOwn (Ends small) own (next small 2 p)) (sym linked.1)
            (refl, refl, refl, λ at. refl))
    from large e =
        held_prev (Ends large) own large (next large 2) (sym (ap own.holds e) ∙ linked.0)
          (follows (linked.2 e))
      where
        follows :
            (own.prev large ≡ none) ⊎ ((own.prev large ≡ some small) × (own.holds small ≡ true))
            → AlwaysOwn (Ends large) own (next large 2 (own.prev large))
        follows (inl end) =
            subst (λ (p : Option Array). AlwaysOwn (Ends large) own (next large 2 p)) (sym end)
              (linked.1, refl, refl, λ at. absurd (cc (end, at)))
        follows (inr (link, held)) =
            subst (λ (p : Option Array). AlwaysOwn (Ends large) own (next large 2 p)) (sym link)
              (held_prev (Ends large) after_large small (next small 1) held (
                subst (λ (p : Option Array). AlwaysOwn (Ends large) after_large (next small 1 p))
                  (sym linked.1) (refl, refl, refl, λ at. refl)))
