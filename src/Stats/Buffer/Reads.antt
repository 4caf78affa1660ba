-- ===== src/Stats/Buffer/Reads.antt =====
-- Tail, Get, GetOffset and GetAll against the history of the buffer.
use native.Mathlib.Nat.{mod-eq_of_lt, mod-eq-sub-mod}
use native.Mathlib.Numerals.{add-one}
use dinosaur_dns.Common.{
  ℕ, zero, suc, ◌+◌, ◌-◌, ◌%◌, ◌≤◌, ◌<◌, ◌≡◌, refl, sym, ap, ◌∙◌, List, reverse, some, get_elem?,
  take, drop, length, drop-cons, length-take, take_of_length-le, get_elem?-take, get_elem?-reverse,
  length-reverse, length-drop, drop_of_length-le, take-nil, ltb, if◌then◌else◌, arith, dec_lt,
}
use dinosaur_dns.Stats.Buffer.{
  CircularBuffer, read_loop, step_back, tail_position, head_position, get_offset, get_all, tail,
}
use dinosaur_dns.Stats.Buffer.Invariant.{Holds}

-- The item at the head position `i` is the one that Tail reads at `count - i`.
head_step :
    (p n c i : ℕ)
    → p < c
    → n ≤ c
    → (n < c → p ≡ n)
    → i < n
    → ((if ltb n c then 0 else p) + i) % c ≡ step_back p n (suc (n - suc i))
unfolding step_back
head_step p n c i hp hn flat h = elim (dec_lt n c) [
  | yes q ↦ ground (arith, mod-eq_of_lt {n = i} {m = c} (omega arith), flat q)
  | no q ↦ elim (dec_lt (p + i) c) [
    | yes r ↦ ground (arith, mod-eq_of_lt {n = p + i} {m = c} r)
    | no r ↦ ground (
      arith,
      mod-eq-sub-mod {n = p + i} {m = c} (omega arith),
      mod-eq_of_lt {n = p + i - c} {m = c} (omega arith),
    )
  ]
]

module _ {A : Type 0} where
  -- If the positions read the list `xs`, the loop reads its segment and does not panic.
  read_loop-segment :
      (b : CircularBuffer A) (position : ℕ → ℕ) (xs : List A)
      → ((i : ℕ) → i < length xs → get_elem? b.buffer (position i) ≡ get_elem? xs i)
      → (rounds i : ℕ) → i + rounds ≤ length xs
      → read_loop b position i rounds ≡ some (take rounds (drop i xs))
  unfolding read_loop
  read_loop-segment b position xs reads zero i h = refl
  read_loop-segment b position xs reads (suc rounds) i h =
      let (x, at_i, split) = drop-cons xs i (omega arith) in
      rw (reads i (omega arith), at_i, add-one, split)
        (rw (read_loop-segment b position xs reads rounds (suc i) (omega arith)))

  -- The same with the first position at `i + 1`.
  read_loop-shift :
      (b : CircularBuffer A) (position : ℕ → ℕ) (rounds i : ℕ)
      → read_loop b position (suc i) rounds ≡ read_loop b (λ k. position (suc k)) i rounds
  unfolding read_loop
  read_loop-shift b position zero i = refl
  read_loop-shift b position (suc rounds) i =
      simp add-one (rw (read_loop-shift b position rounds (suc i)))

  -- The items that the buffer still has, newest first.
  abbrev pub recent : CircularBuffer A → List A → List A
  recent b history = take b.capacity history

  pub length-recent :
      (b : CircularBuffer A) (history : List A)
      → Holds b history
      → length (recent b history) ≡ b.count
  length-recent b history v = omega (arith, length-take b.capacity history, v.count_eq)

  pub recent-items :
      (b : CircularBuffer A) (history : List A)
      → Holds b history
      → (i : ℕ) → i < length (recent b history)
      → get_elem? b.buffer (tail_position b (suc i)) ≡ get_elem? (recent b history) i
  recent-items b history v i h =
      v.items i (omega (arith, length-recent b history v))
      ∙ sym (get_elem?-take b.capacity i history (omega (arith, length-take b.capacity history)))

  -- Tail does not panic: it gives the newest items, newest first, as many as wanted or, if there
  -- are fewer, all that the buffer still has.
  pub tail_lem :
      (wanted : ℕ) (b : CircularBuffer A) (history : List A)
      → Holds b history
      → tail wanted b ≡ some (take wanted (recent b history))
  unfolding tail
  tail_lem wanted b history v =
      read_loop-shift b (tail_position b) (if ltb b.count wanted then b.count else wanted) 0
      ∙ read_loop-segment b (λ k. tail_position b (suc k)) (recent b history)
          (recent-items b history v) (if ltb b.count wanted then b.count else wanted) 0
          (ground (arith, length-recent b history v))
      ∙ ap some (
          ground (
            arith,
            length-recent b history v,
            take_of_length-le b.count (recent b history),
            take_of_length-le wanted (recent b history),
          ))

  -- The items that the buffer still has, oldest first.
  abbrev pub oldest_first : CircularBuffer A → List A → List A
  oldest_first b history = reverse (recent b history)

  head-items :
      (b : CircularBuffer A) (history : List A)
      → Holds b history
      → (i : ℕ) → i < length (oldest_first b history)
      → get_elem? b.buffer (head_position b i) ≡ get_elem? (oldest_first b history) i
  unfolding head_position tail_position
  head-items b history v i h =
      let all : length (recent b history) ≡ b.count = length-recent b history v in
      let lt : i < b.count = omega (arith, length-reverse (recent b history)) in
      rw
        (
          head_step b.position b.count b.capacity i v.in_bounds (omega (arith, v.count_eq))
              v.not_wrapped lt,
          get_elem?-reverse (recent b history) i (omega arith),
          all,
        )
        (recent-items b history v (b.count - suc i) (omega arith))

  -- GetOffset does not panic: it gives the items from the offset on, oldest first, as many as
  -- wanted or as there are.
  pub get_offset_lem :
      (offset wanted : ℕ) (b : CircularBuffer A) (history : List A)
      → Holds b history
      → get_offset offset wanted b ≡ some (take wanted (drop offset (oldest_first b history)))
  unfolding get_offset
  get_offset_lem offset zero b history v = ground arith
  get_offset_lem offset (suc w) b history v =
      let xs = oldest_first b history in
      let all : length xs ≡ b.count =
        length-reverse (recent b history) ∙ length-recent b history v in
      elim (dec_lt b.count offset) [
        | yes p ↦
            ground (arith, drop_of_length-le offset xs (omega arith), take-nil {A = A} (suc w))
        | no p ↦ elim (dec_lt b.count (suc w + offset)) [
          | yes q ↦ ground (
            arith,
            read_loop-segment b (head_position b) xs (head-items b history v) (b.count - offset)
                offset (omega arith),
            take_of_length-le (b.count - offset) (drop offset xs)
                (omega (arith, length-drop offset xs)),
            take_of_length-le (suc w) (drop offset xs) (omega (arith, length-drop offset xs)),
          )
          | no q ↦ ground (
            arith,
            read_loop-segment b (head_position b) xs (head-items b history v) (suc w) offset
                (omega arith),
          )
        ]
      ]

  -- GetAll gives all that the buffer still has, oldest first.
  pub get_all_lem :
      (b : CircularBuffer A) (history : List A)
      → Holds b history
      → get_all b ≡ some (oldest_first b history)
  unfolding get_all
  get_all_lem b history v =
      get_offset_lem 0 b.count b history v
      ∙ ap some (
          take_of_length-le b.count (oldest_first b history)
            (omega (arith, length-reverse (recent b history), length-recent b history v)))
