-- ===== src/Model/Owner.antt =====
-- What only the owner of a deque writes in model/deque_model.c: the members of the deque other than
-- `top`, and the metadata of the arrays that it holds.
use lock_free_deque.Prelude.{ℕ, Bool, true, false, Option, ◌≡◌, sym, subst}
use lock_free_deque.Prelude.Int.{ℤ, pos}
use lock_free_deque.Model.Program.{
  Array, load_active, load_bottom, load_top, store_active, store_bottom, init_deque, cas_on_top,
  load_slot, store_slot, cas_owned, load_owned, store_owned, load_mark, load_prev, store_mark,
  store_prev, load_cached_top, store_cached_top, Program, returns, fails, access, ◌>>=◌, with_array,
}

-- The members of its deque that only the owner writes, the arrays that it has acquired and not
-- returned, and what it last wrote to their metadata.
pub record Own : Type 0 where
  pub active : Array
  pub bottom : ℤ
  pub cached_top : ℕ
  pub mark : Array → ℕ
  pub prev : Array → Option Array
  pub holds : Array → Bool

-- After a compare-and-swap on the flag of an array.
abbrev pub claimed : Own → Array → Bool → Own
claimed own a true = record own { holds = with_array own.holds a true }
claimed own a false = own

module _ {X : Type 0} where
  -- What holds of the result and of the owner's memory after it, whatever the other threads do:
  -- `top`, the slots and the flags of the arrays are read with any result, and so is the metadata of
  -- an array that the owner does not hold, since another thread may have acquired it. The program is
  -- the owner's, so every deque in it is its own.
  abbrev pub AlwaysOwn : (X → Own → Type 0) → Own → Program X → Type 0
  AlwaysOwn P own (returns x) = P x own
  AlwaysOwn P own fails = ⊥
  AlwaysOwn P own (access (load_active d) k) = AlwaysOwn P own (k own.active)
  AlwaysOwn P own (access (load_bottom d) k) = AlwaysOwn P own (k own.bottom)
  AlwaysOwn P own (access (load_top d) k) = (t : ℕ) → AlwaysOwn P own (k t)
  AlwaysOwn P own (access (store_active d a) k) = AlwaysOwn P (record own { active = a }) (k tt)
  AlwaysOwn P own (access (store_bottom d b) k) = AlwaysOwn P (record own { bottom = b }) (k tt)
  AlwaysOwn P own (access (init_deque d a) k) =
      AlwaysOwn P (record own { active = a; bottom = pos 0; cached_top = 0 }) (k tt)
  AlwaysOwn P own (access (cas_on_top d expected desired) k) = (b : Bool) → AlwaysOwn P own (k b)
  AlwaysOwn P own (access (load_slot a i) k) = (v : ℤ) → AlwaysOwn P own (k v)
  AlwaysOwn P own (access (store_slot a i v) k) = AlwaysOwn P own (k tt)
  AlwaysOwn P own (access (cas_owned a) k) = (b : Bool) → AlwaysOwn P (claimed own a b) (k b)
  AlwaysOwn P own (access (load_owned a) k) = (b : Bool) → AlwaysOwn P own (k b)
  AlwaysOwn P own (access (store_owned a b) k) =
      AlwaysOwn P (record own { holds = with_array own.holds a b }) (k tt)
  AlwaysOwn P own (access (load_mark a) k) =
      (i : ℕ) → (own.holds a ≡ true → i ≡ own.mark a) → AlwaysOwn P own (k i)
  AlwaysOwn P own (access (load_prev a) k) =
      (p : Option Array) → (own.holds a ≡ true → p ≡ own.prev a) → AlwaysOwn P own (k p)
  AlwaysOwn P own (access (store_mark a i) k) =
      AlwaysOwn P (record own { mark = with_array own.mark a i }) (k tt)
  AlwaysOwn P own (access (store_prev a p) k) =
      AlwaysOwn P (record own { prev = with_array own.prev a p }) (k tt)
  AlwaysOwn P own (access (load_cached_top d) k) = AlwaysOwn P own (k own.cached_top)
  AlwaysOwn P own (access (store_cached_top d t) k) =
      AlwaysOwn P (record own { cached_top = t }) (k tt)

module _ {X Y : Type 0} (P : X → Own → Type 0) (Q : Y → Own → Type 0) (f : X → Program Y)
    (after : (x : X) (own : Own) → P x own → AlwaysOwn Q own (f x)) where
  pub AlwaysOwn-bind : (own : Own) (m : Program X) → AlwaysOwn P own m → AlwaysOwn Q own (m >>= f)
  AlwaysOwn-bind own (returns x) all = after x own all
  AlwaysOwn-bind own fails all = all
  AlwaysOwn-bind own (access (load_active d) k) all = AlwaysOwn-bind own (k own.active) all
  AlwaysOwn-bind own (access (load_bottom d) k) all = AlwaysOwn-bind own (k own.bottom) all
  AlwaysOwn-bind own (access (load_top d) k) all = λ t. AlwaysOwn-bind own (k t) (all t)
  AlwaysOwn-bind own (access (store_active d a) k) all = AlwaysOwn-bind _ (k tt) all
  AlwaysOwn-bind own (access (store_bottom d b) k) all = AlwaysOwn-bind _ (k tt) all
  AlwaysOwn-bind own (access (init_deque d a) k) all = AlwaysOwn-bind _ (k tt) all
  AlwaysOwn-bind own (access (cas_on_top d expected desired) k) all =
      λ b. AlwaysOwn-bind own (k b) (all b)
  AlwaysOwn-bind own (access (load_slot a i) k) all = λ v. AlwaysOwn-bind own (k v) (all v)
  AlwaysOwn-bind own (access (store_slot a i v) k) all = AlwaysOwn-bind own (k tt) all
  AlwaysOwn-bind own (access (cas_owned a) k) all = λ b. AlwaysOwn-bind _ (k b) (all b)
  AlwaysOwn-bind own (access (load_owned a) k) all = λ b. AlwaysOwn-bind own (k b) (all b)
  AlwaysOwn-bind own (access (store_owned a b) k) all = AlwaysOwn-bind _ (k tt) all
  AlwaysOwn-bind own (access (load_mark a) k) all = λ i at. AlwaysOwn-bind own (k i) (all i at)
  AlwaysOwn-bind own (access (load_prev a) k) all = λ p at. AlwaysOwn-bind own (k p) (all p at)
  AlwaysOwn-bind own (access (store_mark a i) k) all = AlwaysOwn-bind _ (k tt) all
  AlwaysOwn-bind own (access (store_prev a p) k) all = AlwaysOwn-bind _ (k tt) all
  AlwaysOwn-bind own (access (load_cached_top d) k) all = AlwaysOwn-bind own (k own.cached_top) all
  AlwaysOwn-bind own (access (store_cached_top d t) k) all = AlwaysOwn-bind _ (k tt) all

-- The `prev` pointer of an array that the owner holds.
pub held_prev :
    {X : Type 0} (P : X → Own → Type 0) (own : Own) (a : Array) (k : Option Array → Program X)
    → own.holds a ≡ true
    → AlwaysOwn P own (k (own.prev a))
    → AlwaysOwn P own (access (load_prev a) k)
held_prev P own a k held all =
    λ p at. subst (λ (q : Option Array). AlwaysOwn P own (k q)) (sym (at held)) all
