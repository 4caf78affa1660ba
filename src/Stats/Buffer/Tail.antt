-- ===== src/Stats/Buffer/Tail.antt =====
-- TailFilter and TailBetween against the history of the buffer.
use mathlib.Core.List.{append_assoc, append-nil}
use native.Mathlib.Numerals.{add-one}
use native.Mathlib.Nat.{sub-zero}
use dinosaur_dns.Common.{
  ℕ, zero, suc, ◌+◌, ◌-◌, ◌<◌, ◌≡◌, refl, sym, ap, ◌∙◌, Bool, true, false, List, [], ◌∷◌, ◌++◌,
  Option, none, some, get_elem?, take, drop, length, length-append, drop-cons, filter_by, is_none,
  Bool-cases, inl, inr, ◌⊎◌, take-nil, drop_of_length-le, Option-cases, ◌==◌, ◌&&◌, ◌||◌,
  if◌then◌else◌, arith,
}
use dinosaur_dns.Stats.Buffer.{
  CircularBuffer, tail_position, full, filter_loop, tail_filter, passes, ends, between_loop,
  tail_between,
}
use dinosaur_dns.Stats.Buffer.Invariant.{Holds}
use dinosaur_dns.Stats.Buffer.Reads.{recent, length-recent, recent-items}

module _ {A : Type 0} where
  -- The first `wanted` items, or all if `wanted` is 0.
  unfoldable pub limit : ℕ → List A → List A
  limit wanted xs = if wanted == 0 then xs else take wanted xs

  -- The items before the first that passes the test.
  unfoldable pub before : (A → Bool) → List A → List A
  before p [] = []
  before p (x ∷ xs) = if p x then [] else x ∷ before p xs

  -- The items from the first that passes the test on.
  unfoldable pub from_first : (A → Bool) → List A → List A
  from_first p [] = []
  from_first p (x ∷ xs) = if p x then x ∷ xs else from_first p xs

  -- Where the range is still to start, it starts at the first item that passes `startf`.
  unfoldable pub opened : Bool → Option (A → Bool) → List A → List A
  opened started startf xs = if started then xs else from_first (passes startf) xs

  -- What the loops still append, when `res` has been gathered.
  room : ℕ → List A → List A → List A
  room wanted res xs = if wanted == 0 then xs else take (wanted - length res) xs

  abbrev Fits : ℕ → List A → Type 0
  Fits wanted res = (wanted ≡ 0) ⊎ (length res < wanted)

  room-nil : (wanted : ℕ) (res : List A) → res ++ room wanted res [] ≡ res
  unfolding room
  room-nil wanted res = ground (arith, take-nil {A = A} (wanted - length res), append-nil res)

  take-pos : (n : ℕ) (x : A) (xs : List A) → 0 < n → take n (x ∷ xs) ≡ x ∷ take (n - 1) xs
  take-pos zero x xs h = absurd (omega arith)
  take-pos (suc n) x xs h = ap (λ (k : ℕ). x ∷ take k xs) (omega arith)

  room-cons :
      (wanted : ℕ) (res : List A) (x : A) (xs : List A)
      → Fits wanted res
      → res ++ room wanted res (x ∷ xs) ≡ (res ++ (x ∷ [])) ++ room wanted (res ++ (x ∷ [])) xs
  unfolding room
  room-cons wanted res x xs fits = elim (Bool-cases (wanted == 0)) [
    | inl e ↦ rw e (sym (append_assoc res (x ∷ []) xs))
    | inr e ↦
        let one_less : wanted - length (res ++ (x ∷ [])) ≡ wanted - length res - 1 =
          omega (arith, length-append res (x ∷ [])) in
        rw (e, one_less, take-pos (wanted - length res) x xs (ground arith))
          (sym (append_assoc res (x ∷ []) (take (wanted - length res - 1) xs)))
  ]

  room-full :
      (wanted : ℕ) (res xs : List A) → full wanted res ≡ true → res ++ room wanted res xs ≡ res
  unfolding room full
  room-full wanted res xs h =
      let none_left : wanted - length res ≡ 0 = ground arith in
      let some_wanted : (wanted == 0) ≡ false = ground arith in
      rw (some_wanted, none_left) (append-nil res)

  not-full : (wanted : ℕ) (res : List A) → Fits wanted res → full wanted res ≡ false
  unfolding full
  not-full wanted res fits = ground arith

  Fits-append :
      (wanted : ℕ) (res : List A) (x : A)
      → Fits wanted res
      → full wanted (res ++ (x ∷ [])) ≡ false
      → Fits wanted (res ++ (x ∷ []))
  unfolding full
  Fits-append wanted res x fits h = ground (arith, length-append res (x ∷ []))

  module _ (wanted : ℕ) (startf endf itemf : Option (A → Bool)) where
    -- The loop of TailBetween, on the items themselves.
    between_list : Bool → List A → List A → List A
    between_list start res [] = res
    between_list start res (x ∷ xs) =
        let start' = start || passes startf x in
        let res' = if start' && passes itemf x then res ++ (x ∷ []) else res in
        let rest = between_list start' res' xs in
        if ends endf x then res else if full wanted res' then res' else rest

    abbrev range : Bool → List A → List A
    range start xs = filter_by (passes itemf) (opened start startf (before (ends endf) xs))

    between_list_lem :
        (start : Bool) (xs res : List A)
        → Fits wanted res
        → between_list start res xs ≡ res ++ room wanted res (range start xs)
    unfolding between_list opened before from_first
    between_list_lem true [] res fits = sym (room-nil wanted res)
    between_list_lem false [] res fits = sym (room-nil wanted res)
    between_list_lem start (x ∷ xs) res fits = ground (
      arith,
      room-nil wanted res,
      room-cons wanted res x (range true xs) fits,
      room-full wanted (res ++ (x ∷ [])) (range true xs),
      not-full wanted res fits,
      Fits-append wanted res x fits,
      between_list_lem true xs (res ++ (x ∷ [])),
      between_list_lem true xs res fits,
      between_list_lem false xs res fits,
    )

    module _ (b : CircularBuffer A) (xs : List A)
        (reads : (i : ℕ)
          → i < length xs
          → get_elem? b.buffer (tail_position b (suc i)) ≡ get_elem? xs i) where
      between_loop-segment :
          (start : Bool) (rounds i : ℕ) (res : List A)
          → i + rounds ≡ length xs
          → between_loop wanted startf endf itemf b start res (suc i) rounds
            ≡ some (between_list start res (drop i xs))
      unfolding between_loop between_list
      between_loop-segment start zero i res h = rw (drop_of_length-le i xs (omega arith))
      between_loop-segment start (suc rounds) i res h =
          let (x, at_i, split) = drop-cons xs i (omega arith) in
          let start' = start || passes startf x in
          let res' = if start' && passes itemf x then res ++ (x ∷ []) else res in
          rw (reads i (omega arith), at_i, split, add-one)
            (rw (between_loop-segment start' rounds (suc i) res' (omega arith)) (ground arith))

  room-limit : (wanted : ℕ) (xs : List A) → room wanted [] xs ≡ limit wanted xs
  unfolding room limit
  room-limit wanted xs = rw sub-zero

  -- TailBetween does not panic. Of the items that the buffer still has, newest first, it takes
  -- those before the first that passes `endf`, from the first of these that passes `startf` on,
  -- keeps those that pass `itemf`, and gives the first `wanted` of them, or all if `wanted` is 0.
  pub tail_between_lem :
      (wanted : ℕ) (startf endf itemf : Option (A → Bool)) (b : CircularBuffer A) (history : List A)
      → Holds b history
      → tail_between wanted startf endf itemf b
        ≡ some (
            limit wanted (
              filter_by
                (passes itemf)
                (opened (is_none startf) startf (before (ends endf) (recent b history)))))
  unfolding tail_between
  tail_between_lem wanted startf endf itemf b history v =
      between_loop-segment wanted startf endf itemf b (recent b history) (recent-items b history v)
        (is_none startf) b.count 0 [] (omega (arith, length-recent b history v))
      ∙ ap some (
          between_list_lem wanted startf endf itemf (is_none startf) (recent b history) []
            (ground arith)
          ∙ room-limit wanted _)

  filter_loop-between :
      (f : A → Bool) (wanted : ℕ) (b : CircularBuffer A) (rounds i : ℕ) (res : List A)
      → filter_loop f wanted b res i rounds
        ≡ between_loop wanted none none (some f) b true res i rounds
  unfolding filter_loop between_loop passes ends
  filter_loop-between f wanted b zero i res = refl
  filter_loop-between f wanted b (suc rounds) i res =
      elim (Option-cases (get_elem? b.buffer (tail_position b i))) [
        | inl e ↦ rw e
        | inr (x, e) ↦ rw e (
            rw (
              filter_loop-between f wanted b rounds (i + 1) (if f x then res ++ (x ∷ []) else res)))
      ]

  tail_filter-between :
      (wanted : ℕ) (f : A → Bool) (b : CircularBuffer A)
      → tail_filter wanted f b ≡ tail_between wanted none none (some f) b
  unfolding tail_filter tail_between
  tail_filter-between wanted f b = filter_loop-between f wanted b b.count 1 []

  before-ends : (xs : List A) → before (ends none) xs ≡ xs
  unfolding before ends
  before-ends [] = refl
  before-ends (x ∷ xs) = ap (◌∷◌ x) (before-ends xs)

  -- TailFilter does not panic: of the items that the buffer still has, newest first, it gives the
  -- first `wanted` that pass the filter, or all of these if `wanted` is 0.
  pub tail_filter_lem :
      (wanted : ℕ) (f : A → Bool) (b : CircularBuffer A) (history : List A)
      → Holds b history
      → tail_filter wanted f b ≡ some (limit wanted (filter_by f (recent b history)))
  unfolding opened passes
  tail_filter_lem wanted f b history v =
      tail_filter-between wanted f b
      ∙ tail_between_lem wanted none none (some f) b history v
      ∙ rw (before-ends (recent b history)) refl
