-- ===== src/Stats/Buffer/Invariant.antt =====
-- The buffer against its history: the list of all items inserted, the newest first.
use dinosaur_dns.Common.{
  ℕ, zero, suc, ◌+◌, ◌%◌, ◌≤◌, ◌<◌, min, ◌≡◌, ◌≢◌, refl, ◌∙◌, List, [], ◌∷◌, map, some, get_elem?,
  set, length, length-set, length-replicate, get_elem?-set_self, get_elem?-set_ne, ltb, ◌==◌,
  if◌then◌else◌, arith,
}
use dinosaur_dns.Stats.Buffer.{CircularBuffer, new, insert, step_back, tail_position}

next_position : (p c : ℕ) → p < c → (p + 1) % c ≡ (if p + 1 == c then 0 else p + 1)
next_position p c h = grind arith

abbrev next_count : ℕ → ℕ → ℕ
next_count n c = if ltb n c then n + 1 else n

-- The newest item stands where Insert wrote it; stepping back one further gives the old positions.
module _ (p n c : ℕ) (in_bounds : p < c) (fits : n ≤ c) (flat : n < c → p ≡ n) where
  step_back-first : step_back ((p + 1) % c) (next_count n c) 1 ≡ p
  unfolding step_back
  step_back-first = ground (arith, next_position p c in_bounds)

  step_back-further :
      (i : ℕ)
      → suc i < next_count n c
      → (step_back ((p + 1) % c) (next_count n c) (suc (suc i)) ≡ step_back p n (suc i))
        × (p ≢ step_back p n (suc i))
  unfolding step_back
  step_back-further i h = ground (arith, next_position p c in_bounds)

module _ {A : Type 0} where
  pub record Holds (b : CircularBuffer A) (history : List A) : Type 0 where
    pub positive : 0 < b.capacity
    pub storage : length b.buffer ≡ b.capacity
    pub in_bounds : b.position < b.capacity
    pub count_eq : b.count ≡ min (length history) b.capacity
    pub not_wrapped : b.count < b.capacity → b.position ≡ b.count
    pub items :
        (i : ℕ) → i < b.count → get_elem? b.buffer (tail_position b (suc i)) ≡ get_elem? history i

  pub new-Holds : (default : A) (capacity : ℕ) → 0 < capacity → Holds (new default capacity) []
  new-Holds default capacity h = record {
    positive = h;
    storage = length-replicate capacity default;
    in_bounds = h;
    count_eq = omega arith;
    not_wrapped = λ _. refl;
    items = λ i h. absurd (omega arith);
  }

  abbrev pub inserted : A → CircularBuffer A → CircularBuffer A
  inserted x b = record b {
    buffer = set b.buffer b.position x;
    position = (b.position + 1) % b.capacity;
    count = next_count b.count b.capacity;
  }

  inserted-items :
      (x : A) (b : CircularBuffer A) (history : List A)
      → Holds b history
      → (i : ℕ) → i < next_count b.count b.capacity
      → get_elem? (inserted x b).buffer (tail_position (inserted x b) (suc i))
        ≡ get_elem? (x ∷ history) i
  unfolding tail_position
  inserted-items x b history v zero h =
      rw
        (step_back-first b.position b.count b.capacity v.in_bounds (omega (arith, v.count_eq))
          v.not_wrapped)
        (get_elem?-set_self b.buffer b.position x (omega (arith, v.storage)))
  inserted-items x b history v (suc i) h =
      let (same, apart) =
        step_back-further b.position b.count b.capacity v.in_bounds (omega (arith, v.count_eq))
          v.not_wrapped i h in
      rw same (
        get_elem?-set_ne b.buffer b.position (step_back b.position b.count (suc i)) x apart
        ∙ v.items i (ground arith))

  -- Insert does not panic, makes the item the newest one, and calls every hook once with it.
  pub insert-Holds :
      (x : A) (b : CircularBuffer A) (history : List A)
      → Holds b history
      → (insert x b ≡ some (inserted x b, map (λ id. (id, x)) b.hooks))
        × Holds (inserted x b) (x ∷ history)
  unfolding insert
  insert-Holds x b history v = (
    ground arith,
    record {
      positive = v.positive;
      storage = length-set b.buffer b.position x ∙ v.storage;
      in_bounds = ground (arith, next_position b.position b.capacity v.in_bounds);
      count_eq = ground arith;
      not_wrapped = λ h. ground (arith, next_position b.position b.capacity v.in_bounds);
      items = inserted-items x b history v;
    },
  )
