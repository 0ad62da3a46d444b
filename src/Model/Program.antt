-- ===== src/Model/Program.antt =====
-- What the threads of model/deque_model.c can do to memory, and programs as trees of such accesses:
-- a thread may be interrupted before each of them.
use lock_free_deque.Prelude.{ℕ, ◌==◌, Bool, true, false, Option, if◌then◌else◌, update}
use lock_free_deque.Prelude.Int.{ℤ, pos}

-- The two arrays, `small` and `large`.
pub data Array : Type 0 where
  small large : Array

-- The two deques.
pub data DequeName : Type 0 where
  original borrower : DequeName

-- The accesses to the members of a `Deque` and of an `Array`. A slot is named by its index in
-- `slots`. The last six are not atomic.
pub data Access : Type 0 where
  load_active load_bottom load_top : DequeName → Access
  store_active : DequeName → Array → Access
  store_bottom : DequeName → ℤ → Access
  init_deque : DequeName → Array → Access  -- an array, and 0 in the other members
  cas_on_top : DequeName → (expected desired : ℕ) → Access
  load_slot : Array → ℕ → Access
  store_slot : Array → ℕ → ℤ → Access
  cas_owned : Array → Access  -- from 0 to 1
  load_owned : Array → Access
  store_owned : Array → Bool → Access
  load_mark load_prev : Array → Access
  store_mark : Array → ℕ → Access
  store_prev : Array → Option Array → Access
  load_cached_top : DequeName → Access
  store_cached_top : DequeName → ℕ → Access

-- What an access gives.
abbrev pub Answer : Access → Type 0
Answer (load_active d) = Array
Answer (load_bottom d) = ℤ
Answer (load_top d) = ℕ
Answer (cas_on_top d expected desired) = Bool
Answer (load_slot a i) = ℤ
Answer (cas_owned a) = Bool
Answer (load_owned a) = Bool
Answer (load_mark a) = ℕ
Answer (load_prev a) = Option Array
Answer (load_cached_top d) = ℕ
Answer _ = Unit

-- `fails` is an assertion that does not hold.
pub data Program (X : Type 0) : Type 0 where
  returns : X → Program X
  fails : Program X
  access : (a : Access) → (Answer a → Program X) → Program X

infixl 5 ◌>>=◌ ◌>>◌
abbrev pub ◌>>=◌ : {X Y : Type 0} → Program X → (X → Program Y) → Program Y
returns x >>= f = f x
fails >>= f = fails
access a k >>= f = access a (λ r. k r >>= f)

abbrev pub ◌>>◌ : {Y : Type 0} → Program (Unit {0}) → Program Y → Program Y
m >> n = m >>= λ _. n

abbrev pub perform : (a : Access) → Program (Answer a)
perform a = access a returns

-- `assert`
abbrev pub assert : Bool → Program (Unit {0})
assert true = returns tt
assert false = fails

-- All that memory holds. A `Deque`'s `min_log_size` and an array's `log_size` never change.
pub record Memory : Type 0 where
  pub active : DequeName → Array
  pub bottom : DequeName → ℤ
  pub top : DequeName → ℕ
  pub cached_top : DequeName → ℕ
  pub slots : Array → ℕ → ℤ
  pub mark : Array → ℕ
  pub prev : Array → Option Array
  pub owned : Array → Bool

abbrev pub with_deque : {X : Type 0} → (DequeName → X) → DequeName → X → DequeName → X
with_deque f original x original = x
with_deque f original x borrower = f borrower
with_deque f borrower x original = f original
with_deque f borrower x borrower = x

abbrev pub with_array : {X : Type 0} → (Array → X) → Array → X → Array → X
with_array f small x small = x
with_array f small x large = f large
with_array f large x small = f small
with_array f large x large = x

-- An access, under sequential consistency.
abbrev pub answer : (a : Access) → Memory → Answer a × Memory
answer (load_active d) m = (m.active d, m)
answer (load_bottom d) m = (m.bottom d, m)
answer (load_top d) m = (m.top d, m)
answer (store_active d a) m = (tt, record m { active = with_deque m.active d a })
answer (store_bottom d b) m = (tt, record m { bottom = with_deque m.bottom d b })
answer (init_deque d a) m = (
  tt,
  record m {
    active = with_deque m.active d a;
    bottom = with_deque m.bottom d (pos 0);
    top = with_deque m.top d 0;
    cached_top = with_deque m.cached_top d 0;
  },
)
answer (cas_on_top d expected desired) m =
    if m.top d == expected
    then (true, record m { top = with_deque m.top d desired })
    else (false, m)
answer (load_slot a i) m = (m.slots a i, m)
answer (store_slot a i value) m =
    (tt, record m { slots = with_array m.slots a (update (m.slots a) i value) })
answer (cas_owned a) m =
    if m.owned a then (false, m) else (true, record m { owned = with_array m.owned a true })
answer (load_owned a) m = (m.owned a, m)
answer (store_owned a b) m = (tt, record m { owned = with_array m.owned a b })
answer (load_mark a) m = (m.mark a, m)
answer (load_prev a) m = (m.prev a, m)
answer (store_mark a i) m = (tt, record m { mark = with_array m.mark a i })
answer (store_prev a p) m = (tt, record m { prev = with_array m.prev a p })
answer (load_cached_top d) m = (m.cached_top d, m)
answer (store_cached_top d t) m = (tt, record m { cached_top = with_deque m.cached_top d t })

module _ {X : Type 0} where
  -- One access of a program.
  abbrev pub step : Memory → Program X → Memory × Program X
  step m (returns x) = (m, returns x)
  step m fails = (m, fails)
  step m (access a k) = let (r, m') = answer a m in (m', k r)

  -- A run that nobody interrupts: the result and the memory, or nothing where an assertion fails.
  abbrev pub run : Memory → Program X → Option (X × Memory)
  run m (returns x) = Option.some (x, m)
  run m fails = Option.none
  run m (access a k) = let (r, m') = answer a m in run m' (k r)

  -- What holds of the result whatever the accesses give, so whatever other threads do.
  abbrev pub Always : (X → Type 0) → Program X → Type 0
  Always P (returns x) = P x
  Always P fails = ⊥
  Always P (access a k) = (r : Answer a) → Always P (k r)

pub Always-bind :
    {X Y : Type 0} (P : X → Type 0) (Q : Y → Type 0) (m : Program X) (f : X → Program Y)
    → Always P m
    → ((x : X) → P x → Always Q (f x))
    → Always Q (m >>= f)
Always-bind P Q (returns x) f all after = after x all
Always-bind P Q fails f all after = all
Always-bind P Q (access a k) f all after = λ r. Always-bind P Q (k r) f (all r) after

pub Always-map :
    {X : Type 0} (P Q : X → Type 0) (m : Program X)
    → ((x : X) → P x → Q x)
    → Always P m
    → Always Q m
Always-map P Q (returns x) f all = f x all
Always-map P Q fails f all = all
Always-map P Q (access a k) f all = λ r. Always-map P Q (k r) f (all r)
