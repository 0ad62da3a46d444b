-- ===== src/Deque/Destroy/Kept.antt =====
-- No record is lost: those that the deque owns hang in one chain of `prev_` pointers.
use lock_free_deque.Prelude.{ℕ, suc, ◌≤◌, ◌≡◌, ◌∙◌, ap, sym, Option, some, arith}
use lock_free_deque.CircularArray.{CircularArray}
use lock_free_deque.Deque.State.{Flag, owned, OwnerPc, Machine}
use lock_free_deque.Deque.State.OwnerPc.{
  push_copy, push_publish, shrink_shift, shrink_snapshot, shrink_cas, shrink_restore,
  shrink_release,
}

-- Record `r` is `c`, or hangs below it.
pub data On {A : Type 0} (arrays : ℕ → CircularArray A) (flags : ℕ → Flag) (r : ℕ)
    : ℕ → Type 0 where
  found : {c : ℕ} → c ≡ r → On arrays flags r c
  below :
      {c : ℕ} (p : ℕ)
      → flags c ≡ owned
      → (arrays c).prev ≡ some p
      → (arrays c).log_size ≡ suc (arrays p).log_size
      → On arrays flags r p
      → On arrays flags r c

module _ {A : Type 0} where
  -- What a change of an array must keep for the chains.
  abbrev pub link_of : CircularArray A → Option ℕ × ℕ
  link_of c = (c.prev, c.log_size)

  -- The array at the head of the chain, by where the owner stands: the one that a growth fills,
  -- or the first of those that a shrink is still to return.
  abbrev pub head : ℕ → OwnerPc A → ℕ
  head active (push_copy x b a d i) = d
  head active (push_publish x b d) = d
  head active (shrink_shift x b a d) = a
  head active (shrink_snapshot x b a d) = a
  head active (shrink_cas x b a d snapshot) = a
  head active (shrink_restore x b a d) = a
  head active (shrink_release x c d) = c
  head active _ = active

  -- Every record that the deque owns hangs in the chain.
  abbrev pub KeptAt : Machine A → OwnerPc A → Type 0
  KeptAt s pc = (r : ℕ) → s.flags r ≡ owned → On s.arrays s.flags r (head s.active pc)

  abbrev pub Kept : Machine A → Type 0
  Kept s = KeptAt s s.owner

  pub On-frame :
      {arrays arrays' : ℕ → CircularArray A} {flags flags' : ℕ → Flag} {r c : ℕ} (bound : ℕ)
      → ((q : ℕ)
          → (arrays q).log_size ≤ bound
          → flags q ≡ owned
          → (flags' q ≡ owned) × ((arrays' q).prev ≡ (arrays q).prev))
      → ((q : ℕ) → (arrays' q).log_size ≡ (arrays q).log_size)
      → (arrays c).log_size ≤ bound
      → On arrays flags r c
      → On arrays' flags' r c
  On-frame bound same sizes le (found e) = found e
  On-frame {arrays} {arrays'} {flags} {flags'} {r} bound same sizes le
        (below {c = c} p own before log rest) =
      let (own', before') = same c le own in
      below p own' (before' ∙ before) (sizes c ∙ log ∙ ap suc (sym (sizes p)))
        (On-frame bound same sizes (omega (arith, log)) rest)
