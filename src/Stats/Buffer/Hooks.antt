-- ===== src/Stats/Buffer/Hooks.antt =====
-- The hooks of the buffer: AddHook and DeleteHook against the number of hooks with an id.
use dinosaur_dns.Common.{
  ℕ, ◌≡◌, ◌≢◌, refl, List, [], ◌∷◌, Str, Str-discrete, str_eq, str_eq_self, str_eq_ne,
  if◌then◌else◌, suc, arith, Bool-cases, inl, inr,
}
use dinosaur_dns.Stats.Buffer.{CircularBuffer, without, add_hook, delete_hook, tail_position}
use dinosaur_dns.Stats.Buffer.Invariant.{Holds}

-- How many hooks have an id
unfoldable pub hooks_of : Str → List Str → ℕ
hooks_of id [] = 0
hooks_of id (h ∷ hs) = if str_eq h id then suc (hooks_of id hs) else hooks_of id hs

hooks_of-without_self : (id : Str) (hs : List Str) → hooks_of id (without id hs) ≡ 0
unfolding hooks_of without
hooks_of-without_self id [] = refl
hooks_of-without_self id (h ∷ hs) = elim (Bool-cases (str_eq h id)) [
  | inl e ↦ rw e (hooks_of-without_self id hs)
  | inr e ↦ rw (e, hooks_of) (rw e (hooks_of-without_self id hs))
]

hooks_of-without_ne :
    (id j : Str) (hs : List Str) → j ≢ id → hooks_of id (without j hs) ≡ hooks_of id hs
unfolding hooks_of without
hooks_of-without_ne id j [] ne = refl
hooks_of-without_ne id j (h ∷ hs) ne = elim (Str-discrete h j) [
  | yes p ↦ rw (p, str_eq_self j, str_eq_ne j id ne) (hooks_of-without_ne id j hs ne)
  | no p ↦ rw (str_eq_ne h j p) (ground (arith, hooks_of-without_ne id j hs ne))
]

module _ {A : Type 0} where
  pub hooks_of-add_hook : (id : Str) (b : CircularBuffer A) → hooks_of id (add_hook id b).hooks ≡ 1
  unfolding hooks_of add_hook
  hooks_of-add_hook id b = rw (str_eq_self id, hooks_of-without_self id b.hooks) refl

  pub hooks_of-add_hook_ne :
      (id j : Str) (b : CircularBuffer A)
      → j ≢ id
      → hooks_of id (add_hook j b).hooks ≡ hooks_of id b.hooks
  unfolding hooks_of add_hook
  hooks_of-add_hook_ne id j b ne = rw (str_eq_ne j id ne) (hooks_of-without_ne id j b.hooks ne)

  pub hooks_of-delete_hook_ne :
      (id j : Str) (b : CircularBuffer A)
      → j ≢ id
      → hooks_of id (delete_hook j b).hooks ≡ hooks_of id b.hooks
  unfolding delete_hook
  hooks_of-delete_hook_ne id j b ne = hooks_of-without_ne id j b.hooks ne

  pub add_hook-Holds :
      (id : Str) (b : CircularBuffer A) (history : List A)
      → Holds b history
      → Holds (add_hook id b) history
  unfolding add_hook tail_position
  add_hook-Holds id b history v = record {
    positive = v.positive;
    storage = v.storage;
    in_bounds = v.in_bounds;
    count_eq = v.count_eq;
    not_wrapped = v.not_wrapped;
    items = v.items;
  }

  pub delete_hook-Holds :
      (id : Str) (b : CircularBuffer A) (history : List A)
      → Holds b history
      → Holds (delete_hook id b) history
  unfolding delete_hook tail_position
  delete_hook-Holds id b history v = record {
    positive = v.positive;
    storage = v.storage;
    in_bounds = v.in_bounds;
    count_eq = v.count_eq;
    not_wrapped = v.not_wrapped;
    items = v.items;
  }
