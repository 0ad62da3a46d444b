-- ===== src/Model/Sound.antt =====
-- What holds of a push and a steal of model/deque_model.c whatever their accesses to memory give.
use lock_free_deque.Prelude.{
  ℕ, zero, suc, ◌+◌, ◌%◌, ◌≡◌, ◌⊎◌, refl, inl, inr, Option, none, some, Bool, true, false, not, ltb,
  ◌==◌, ==_iff, if◌then◌else◌, either_way, arith,
}
use lock_free_deque.Prelude.Int.{ℤ, pos, ◌-ℤ◌, is_positive, pos_part}
use lock_free_deque.Model.Program.{
  Array, small, large, DequeName, cas_owned, perform, returns, ◌>>=◌, Always, Always-bind,
}
use lock_free_deque.Model.Deque.{
  no_buffer, log_size, same_array, capacity, slot_store, acquired, try_acquire, copy, grow_into,
  is_full, place, place_in_larger, push_bottom, steal,
}

abbrev pub Anything : {X : Type 0} → X → Type 0
Anything x = Unit

slot_store-Always : (array : Array) (i : ℕ) (value : ℤ) → Always Anything (slot_store array i value)
slot_store-Always array i value done mark =
    either_way (Always Anything) _ _ (ltb i mark) (λ stored. tt) tt

copy-Always : (source destination : Array) (i n : ℕ) → Always Anything (copy source destination i n)
copy-Always source destination i zero = tt
copy-Always source destination i (suc n) = λ value stored. copy-Always source destination (i + 1) n

-- What `push_bottom` returns.
abbrev pub PushReturned : ℤ → Type 0
PushReturned result = (result ≡ pos 0) ⊎ (result ≡ no_buffer)

place-PushReturned :
    (deque : DequeName) (array : Array) (b value : ℤ)
    → Always PushReturned (place deque array b value)
place-PushReturned deque array b value =
    Always-bind Anything PushReturned (slot_store array _ value) _ (slot_store-Always array _ value)
      (λ done step stored. inl refl)

-- What `try_acquire` returns has the size that was asked for.
abbrev Acquired : ℕ → Option Array → Type 0
Acquired n none = Unit
Acquired n (some array) = n ≡ log_size array

try_acquire-Acquired : (n : ℕ) → Always (Acquired n) (try_acquire n)
try_acquire-Acquired n = asked (n == 3) refl
  where
    won : n ≡ 3 → (b : Bool) → Always (Acquired n) (acquired large b)
    won e true = λ prev mark. e
    won e false = tt

    asked :
        (right : Bool)
        → (n == 3) ≡ right
        → Always
            (Acquired n)
            (if right then perform (cas_owned large) >>= acquired large else returns none)
    asked true e = won ((==_iff n 3).0 e)
    asked false e = tt

-- The assertions of `grow_into`.
grow_into-Always :
    (source destination : Array) (b : ℤ) (t : ℕ)
    → log_size source + 1 ≡ log_size destination
    → Always Anything (grow_into source destination b t)
grow_into-Always small small b t e = absurd (omega arith)
grow_into-Always small large b t e = λ linked.
    Always-bind {Y = Array} Anything Anything (copy small large t (pos_part (b -ℤ pos t)))
      (λ done. returns large) (copy-Always small large t (pos_part (b -ℤ pos t))) (λ u v. tt)
grow_into-Always large small b t e = absurd (omega arith)
grow_into-Always large large b t e = absurd (omega arith)

place_in_larger-PushReturned :
    (deque : DequeName) (array : Array) (b : ℤ) (t : ℕ) (value : ℤ) (destination : Option Array)
    → Acquired (log_size array + 1) destination
    → Always PushReturned (place_in_larger deque array b t value destination)
place_in_larger-PushReturned deque array b t value none e = inr refl
place_in_larger-PushReturned deque array b t value (some destination) e =
    Always-bind Anything PushReturned (grow_into array destination b t) _
      (grow_into-Always array destination b t e)
      (λ grown u published. place-PushReturned deque grown b value)

-- Whatever the accesses of a push give, and so whatever the other threads do: its assertions hold,
-- those of `grow_into` that the new array is another one of twice the size, and it returns 0 or
-- NO_BUFFER.
pub push_bottom-PushReturned :
    (deque : DequeName) (value : ℤ) → Always PushReturned (push_bottom deque value)
push_bottom-PushReturned deque value b array cached_top =
    either_way (Always PushReturned) _ _ (is_full array b cached_top)
      (λ t cached.
        either_way (Always PushReturned) _ _ (is_full array b t)
          (Always-bind (Acquired (log_size array + 1)) PushReturned
            (try_acquire (log_size array + 1)) _ (try_acquire-Acquired (log_size array + 1))
            (place_in_larger-PushReturned deque array b t value))
          (place-PushReturned deque array b value))
      (place-PushReturned deque array b value)

pub steal-Always : (deque : DequeName) → Always Anything (steal deque)
steal-Always deque t old_array b array =
    either_way (Always Anything) _ _ (is_positive (b -ℤ pos t))
      (either_way (Always Anything) _ _ (pos_part (b -ℤ pos t) % capacity array == 0)
        (λ snapshot.
          either_way (Always Anything) _ _ (not (same_array array old_array)) tt
            (either_way (Always Anything) _ _ (not (t == snapshot)) tt tt))
        (λ value won. either_way (Always Anything) _ _ won tt tt))
      tt
