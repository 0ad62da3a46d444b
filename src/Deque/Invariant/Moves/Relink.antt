-- ===== src/Deque/Invariant/Moves/Relink.antt =====
-- Steps that change the link, the mark and the flag of one record, and no slot.
use lock_free_deque.Prelude.{
  ℕ, suc, ◌+◌, ◌^◌, ◌<◌, ◌≡◌, ◌≢◌, refl, ap, sym, ◌∙◌, inr, Option, none, arith, update, update_ne,
}
use lock_free_deque.Prelude.Int.{pos}
use lock_free_deque.CircularArray.{CircularArray, min_mark, size, load}
use lock_free_deque.CircularArray.Slots.{load-relink}
use lock_free_deque.Deque.State.{Flag, owned, OwnerPc, Machine}
use lock_free_deque.Deque.Invariant.Chain.{Below, Chain, Chain-frame, Discard, done, more}
use lock_free_deque.Deque.Invariant.Defs.{OwnerOk, Recent, Settled, Inv}
use lock_free_deque.Deque.Invariant.Stable.{Stable, ThiefOk-Stable}

module _ {A : Type 0} (arrays : ℕ → CircularArray A) (d : ℕ) (m p : Option ℕ) where
  abbrev pub relinked : ℕ → CircularArray A
  relinked = update arrays d (record (arrays d) { low_water_mark = m; prev = p })

  pub load-relinked : (r j : ℕ) → load (relinked r) j ≡ load (arrays r) j
  load-relinked r j = ground (arith, load-relink (arrays d) m p j)

  pub log_size-relinked : (r : ℕ) → (relinked r).log_size ≡ (arrays r).log_size
  log_size-relinked r = ground arith

  pub prev-relinked : (arrays d).prev ≡ p → (r : ℕ) → (relinked r).prev ≡ (arrays r).prev
  prev-relinked same r = ground arith

  pub size-relinked : (r : ℕ) → size (relinked r) ≡ size (arrays r)
  size-relinked r = ap (λ (n : ℕ). 2 ^ n) (log_size-relinked r)

  pub relinked_ne : (r : ℕ) → d ≢ r → relinked r ≡ arrays r
  relinked_ne r ne = update_ne arrays d r _ ne

  -- A chain that does not pass through record `d` below its head is kept.
  pub Chain-relinked :
      {flags : ℕ → Flag} {item : ℕ → A} {lo hi : ℕ} (flags' : ℕ → Flag) {c : ℕ} {k : Option ℕ}
      → Chain arrays flags item lo hi c k
      → ((r : ℕ) → flags r ≡ owned → (arrays r).log_size < (arrays c).log_size → d ≢ r)
      → ((r : ℕ) → flags r ≡ owned → d ≢ r → flags' r ≡ owned)
      → (relinked c).prev ≡ (arrays c).prev
      → (k' : Option ℕ)
      → ((i : ℕ)
          → Below i (min_mark k' (relinked c).low_water_mark)
          → Below i (min_mark k (arrays c).low_water_mark))
      → Chain relinked flags' item lo hi c k'
  Chain-relinked {flags} {item} {lo} {hi} flags' {c} {k} chain apart keep same_prev k' lower =
      Chain-frame (arrays c).log_size none
        (λ r own lt.
          let same = relinked_ne r (apart r own lt) in
          (
            ap (λ (e : CircularArray A). e.prev) same,
            ap (λ (e : CircularArray A). e.low_water_mark) same,
            ap (λ (e : CircularArray A). e.log_size) same,
          ))
        (λ r k'' lt under h.
          (keep r h.0 (apart r h.0 lt), λ i ge i_lt b. load-relinked r i ∙ h.1 i ge i_lt b))
        chain k' (omega arith) same_prev (log_size-relinked c) lower (λ i b. tt)

  -- So is a part of a chain that ends at record `d`.
  pub Discard-relinked :
      {flags : ℕ → Flag} {c : ℕ}
      → (arrays d).prev ≡ p
      → Discard arrays flags d c
      → Discard relinked flags d c
  Discard-relinked same (done e) = done e
  Discard-relinked same (more {c} q own prev log rest) =
      more q own (prev-relinked same c ∙ prev)
        (log_size-relinked c ∙ log ∙ ap suc (sym (log_size-relinked q)))
        (Discard-relinked same rest)

-- The owner changes record `d` and goes on at `pc`.
abbrev pub relink :
    {A : Type 0} → Machine A → ℕ → Option ℕ → Option ℕ → (ℕ → Flag) → OwnerPc A → Machine A
relink s d m p flags pc = record s { arrays = relinked s.arrays d m p; flags = flags; owner = pc }

module _ {A : Type 0} {s : Machine A} {item : ℕ → A} {hi : ℕ} {pc : OwnerPc A} where
  pub Inv-relink :
      (inv : Inv s item hi pc) (d : ℕ) (m p : Option ℕ) (flags' : ℕ → Flag) (pc' : OwnerPc A)
      → flags' s.active ≡ owned
      → OwnerOk (relink s d m p flags' pc') item hi pc'
      → ((t a : ℕ)
          → s.top ≡ t
          → t < hi
          → s.flags a ≡ owned
          → Recent pc s.active t a
          → (flags' a ≡ owned) × Recent pc' s.active t a)
      → (Settled pc → Settled pc')
      → Inv (relink s d m p flags' pc') item hi pc'
  Inv-relink inv d m p flags' pc' own_active ok recent settled = record {
    le = inv.le;
    room = omega (arith, inv.room, same_size s.active);
    cached = inv.cached;
    pool = λ log_size found j ge lt.
        log_size-relinked s.arrays d m p j ∙ inv.pool log_size found j ge lt;
    held =
        (own_active, λ j ge lt b. load-relinked s.arrays d m p s.active j ∙ inv.held.1 j ge lt b);
    owner_ok = ok;
    thief_ok = λ k.
        ThiefOk-Stable s (relink s d m p flags' pc') item item hi hi pc pc' st (s.thieves k)
          (inv.thief_ok k);
  }
    where
      same_size : (r : ℕ) → size (relinked s.arrays d m p r) ≡ size (s.arrays r)
      same_size r = ap (λ (n : ℕ). 2 ^ n) (log_size-relinked s.arrays d m p r)

      st : Stable s (relink s d m p flags' pc') item item hi hi pc pc'
      st = record {
        grows = omega arith;
        same_item = λ t now still lt. (lt, refl);
        same_slot = λ t a now still lt own slot r.
            let (own', r') = recent t a now lt own r in
            (own', load-relinked s.arrays d m p a t ∙ slot, r');
        same_offset = λ t b now still off. inr (
          off.0 ∙ ap (λ (n : ℕ). pos (t + n)) (sym (same_size s.active)),
          omega (arith, off.1, same_size s.active),
          settled off.2,
        );
      }
