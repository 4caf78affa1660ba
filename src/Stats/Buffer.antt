-- ===== src/Stats/Buffer.antt =====
-- statshandler/buffer.go: the generic circular buffer. Each method runs under the lock, so it is
-- one step. `none` is the panic of an index out of range. A hook is known by its id: a call of
-- Insert gives the calls of the hooks that it makes, beside the new buffer. A Go count that is
-- negative acts as 0 in every method; negative offsets are not modelled.
pub mod Invariant
pub mod Reads
pub mod Tail
pub mod Hooks
use dinosaur_dns.Common.{
  ℕ, zero, suc, ◌+◌, ◌-◌, ◌%◌, Bool, true, false, List, [], ◌∷◌, ◌++◌, map, Option, none, some, Str,
  str_eq, is_none, get_elem?, set, replicate, length, ltb, ◌==◌, ◌&&◌, ◌||◌, if◌then◌else◌,
}

pub record CircularBuffer (A : Type 0) : Type 0 where
  pub hooks : List Str
  pub buffer : List A
  pub capacity : ℕ
  pub position : ℕ
  pub count : ℕ

infixl 5 ◌>>=◌
abbrev pub ◌>>=◌ {ℓ κ} : {A : Type ℓ} {B : Type κ} → Option A → (A → Option B) → Option B
none >>= f = none
some a >>= f = f a

without : Str → List Str → List Str
without id [] = []
without id (h ∷ hs) = let rest = without id hs in if str_eq h id then rest else h ∷ rest

-- pos := position - i; if pos < 0 { pos = length + pos }, for 1 ≤ i ≤ length
unfoldable pub step_back : ℕ → ℕ → ℕ → ℕ
step_back position count i = if ltb position i then count + position - i else position - i

module _ {A : Type 0} where
  -- NewCircularBuffer; `default` is Go's zero value.
  abbrev pub new : A → ℕ → CircularBuffer A
  new default capacity = record {
    hooks = [];
    buffer = replicate capacity default;
    capacity = capacity;
    position = 0;
    count = 0;
  }

  -- Insert
  unfoldable pub insert : A → CircularBuffer A → Option (CircularBuffer A × List (Str × A))
  insert item b =
      if ltb b.position (length b.buffer)
      then some (
        record b {
          buffer = set b.buffer b.position item;
          position = (b.position + 1) % b.capacity;
          count = if ltb b.count b.capacity then b.count + 1 else b.count;
        },
        map (λ id. (id, item)) b.hooks,
      )
      else none

  -- AddHook, DeleteHook: the hooks are a map, so an id stands once.
  unfoldable pub add_hook : Str → CircularBuffer A → CircularBuffer A
  unfolding without
  add_hook id b = record b { hooks = id ∷ without id b.hooks }

  unfoldable pub delete_hook : Str → CircularBuffer A → CircularBuffer A
  unfolding without
  delete_hook id b = record b { hooks = without id b.hooks }

  -- The loops of GetOffset and Tail: `rounds` rounds from `i` on, each appending the item at the
  -- index that `position` gives.
  unfoldable pub read_loop : CircularBuffer A → (ℕ → ℕ) → ℕ → ℕ → Option (List A)
  read_loop b position i zero = some []
  read_loop b position i (suc rounds) = do
    x ← get_elem? b.buffer (position i)
    rest ← read_loop b position (i + 1) rounds
    some (x ∷ rest)

  -- start, then (start + i) % capacity
  unfoldable pub head_position : CircularBuffer A → ℕ → ℕ
  head_position b i = ((if ltb b.count b.capacity then 0 else b.position) + i) % b.capacity

  -- GetOffset
  unfoldable pub get_offset : ℕ → ℕ → CircularBuffer A → Option (List A)
  get_offset offset wanted b =
      if ltb b.count offset || wanted == 0
      then some []
      else read_loop b (head_position b) offset
          (if ltb b.count (wanted + offset) then b.count - offset else wanted)

  -- Get, GetAll
  unfoldable pub get : ℕ → CircularBuffer A → Option (List A)
  get wanted b = get_offset 0 wanted b

  unfoldable pub get_all : CircularBuffer A → Option (List A)
  get_all b = get_offset 0 b.count b

  unfoldable pub tail_position : CircularBuffer A → ℕ → ℕ
  tail_position b i = step_back b.position b.count i

  -- Tail
  unfoldable pub tail : ℕ → CircularBuffer A → Option (List A)
  tail wanted b = read_loop b (tail_position b) 1 (if ltb b.count wanted then b.count else wanted)

  -- The `break` on the count: `count > 0 && len(res) == count`.
  unfoldable pub full : ℕ → List A → Bool
  full wanted res = ltb 0 wanted && length res == wanted

  -- The loop of TailFilter
  unfoldable pub filter_loop : (A → Bool) → ℕ → CircularBuffer A → List A → ℕ → ℕ → Option (List A)
  filter_loop f wanted b res i zero = some res
  filter_loop f wanted b res i (suc rounds) = do
    x ← get_elem? b.buffer (tail_position b i)
    let res' = if f x then res ++ (x ∷ []) else res
    if full wanted res' then some res' else filter_loop f wanted b res' (i + 1) rounds

  -- TailFilter
  unfoldable pub tail_filter : ℕ → (A → Bool) → CircularBuffer A → Option (List A)
  tail_filter wanted f b = filter_loop f wanted b [] 1 b.count

  -- A nil function passes every item.
  unfoldable pub passes : Option (A → Bool) → A → Bool
  passes none x = true
  passes (some f) x = f x

  -- A nil `endf` ends nowhere.
  unfoldable pub ends : Option (A → Bool) → A → Bool
  ends none x = false
  ends (some f) x = f x

  -- The loop of TailBetween
  unfoldable pub between_loop :
      ℕ
      → Option (A → Bool)
      → Option (A → Bool)
      → Option (A → Bool)
      → CircularBuffer A
      → Bool
      → List A
      → ℕ
      → ℕ
      → Option (List A)
  between_loop wanted startf endf itemf b start res i zero = some res
  between_loop wanted startf endf itemf b start res i (suc rounds) = do
    x ← get_elem? b.buffer (tail_position b i)
    let start' = start || passes startf x
    let res' = if start' && passes itemf x then res ++ (x ∷ []) else res
    let rest = between_loop wanted startf endf itemf b start' res' (i + 1) rounds
    if ends endf x then some res else if full wanted res' then some res' else rest

  -- TailBetween: with a nil `startf` the range starts at once.
  unfoldable pub tail_between :
      ℕ
      → Option (A → Bool)
      → Option (A → Bool)
      → Option (A → Bool)
      → CircularBuffer A
      → Option (List A)
  tail_between wanted startf endf itemf b =
      between_loop wanted startf endf itemf b (is_none startf) [] 1 b.count
