-- ===== src/Api/Changelog/Keys.antt =====
-- api/changelog.go, normalizeBlockEntry: two entries have one key exactly if they name the same
-- domain and the same type.
use mathlib.Core.Path.{subst}
use dinosaur_dns.Common.{
  ◌≡◌, ◌≢◌, refl, sym, ap, ap₂, ◌∙◌, Bool, false, List, [], ◌∷◌, ◌++◌, none, some, Str,
  Str-discrete, str_eq, str_eq_self, str_eq_ne, ◌&&◌, ◌==◌, arith, Bool-cases, inl, inr, Option,
  ◌⊎◌,
}
use dinosaur_dns.Common.Strings.{to_lower, to_upper, trim_dot, split_on, cons_head, lower}
use dinosaur_dns.Blocklist.Entries.{split_on_ne}
use dinosaur_dns.Api.Changelog.{cut_colon, normalize_block_entry}

-- The same name, but for letter case and a dot at the end
unfoldable pub same_name : Str → Str → Bool
same_name n n' = str_eq (to_lower (trim_dot n)) (to_lower (trim_dot n'))

-- Two entries `domain` or `domain:TYPE`, by their fields: the same name, and the same type, but for
-- letter case.
unfoldable pub same_fields : List Str → List Str → Bool
same_fields (n ∷ []) (n' ∷ []) = same_name n n'
same_fields (n ∷ qt ∷ []) (n' ∷ qt' ∷ []) = same_name n n' && str_eq (to_upper qt) (to_upper qt')
same_fields _ _ = false

unfoldable pub same_entry : Str → Str → Bool
same_entry e e' = same_fields (split_on b':' e) (split_on b':' e')

-- An entry with at most one colon, as AddEntry asks for.
unfoldable pub IsEntry : Str → Type 0
IsEntry e =
    ((n : Str) × (split_on b':' e ≡ n ∷ []))
    ⊎ ((n : Str) × (qt : Str) × (split_on b':' e ≡ n ∷ qt ∷ []))

NoColon : Str → Type 0
NoColon [] = Unit
NoColon (x ∷ s) = ((x == b':') ≡ false) × NoColon s

split_on_one : (s w : Str) → split_on b':' s ≡ w ∷ [] → (s ≡ w) × NoColon s
unfolding split_on cons_head NoColon
split_on_one [] w e = (ground arith, tt)
split_on_one (x ∷ s) w e =
    let (v, vs, split) = split_on_ne b':' s in
    elim (Bool-cases (x == b':')) [
      | inl colon ↦ absurd (ground arith)
      | inr other ↦
          let last : vs ≡ [] = ground arith in
          let first : x ∷ v ≡ w = ground arith in
          let (same, none_there) = split_on_one s v (split ∙ ap (◌∷◌ v) last) in
          (ap (◌∷◌ x) same ∙ first, (other, none_there))
    ]

split_on_two : (s n qt : Str) → split_on b':' s ≡ n ∷ qt ∷ [] → (s ≡ n ++ (b':' ∷ qt)) × NoColon n
unfolding split_on cons_head NoColon
split_on_two [] n qt e = absurd (ground arith)
split_on_two (x ∷ s) n qt e =
    let (v, vs, split) = split_on_ne b':' s in
    elim (Bool-cases (x == b':')) [
      | inl colon ↦
          let one : split_on b':' s ≡ qt ∷ [] = ground arith in
          let empty : [] ≡ n = ground arith in
          (rw (← empty) (ap₂ ◌∷◌ (ground arith) (split_on_one s qt one).0), rw (← empty) tt)
      | inr other ↦
          let last : vs ≡ qt ∷ [] = ground arith in
          let first : x ∷ v ≡ n = ground arith in
          let (same, none_there) = split_on_two s v qt (split ∙ ap (◌∷◌ v) last) in
          (rw (← first) (ap (◌∷◌ x) same), rw (← first) (other, none_there))
    ]

cut_colon_lem : (k : Str) → NoColon k → cut_colon k ≡ (k, none)
unfolding cut_colon NoColon
cut_colon_lem [] h = refl
cut_colon_lem (x ∷ k) h = rw (h.0, cut_colon_lem k h.1) refl

cut_colon-append : (k u : Str) → NoColon k → cut_colon (k ++ (b':' ∷ u)) ≡ (k, some u)
unfolding cut_colon NoColon
cut_colon-append [] u h = ground arith
cut_colon-append (x ∷ k) u h = rw (h.0, cut_colon-append k u h.1) refl

-- A key has no colon in its domain.
trimmed-NoColon : (n : Str) → NoColon n → NoColon (to_lower (trim_dot n))
unfolding NoColon trim_dot to_lower lower
trimmed-NoColon [] h = tt
trimmed-NoColon (x ∷ []) h = ground arith
trimmed-NoColon (x ∷ y ∷ n) h = (ground arith, trimmed-NoColon (y ∷ n) h.1)

-- The key of a domain and a type
abbrev typed : Str → Str → Str
typed k u = k ++ (b':' ∷ u)

bare_ne_typed : (k k' u : Str) → NoColon k → NoColon k' → k ≢ typed k' u
bare_ne_typed k k' u h h' e =
    let cut : ◌≡◌ {A = Str × Option Str} (k, none) (k', some u) =
      sym (cut_colon_lem k h) ∙ ap cut_colon e ∙ cut_colon-append k' u h' in
    let type : ◌≡◌ {A = Option Str} none (some u) = ap (λ (c : Str × Option Str). c.1) cut in
    absurd (ground arith)

typed_parts :
    (k k' u u' : Str) → NoColon k → NoColon k' → typed k u ≡ typed k' u' → (k ≡ k') × (u ≡ u')
typed_parts k k' u u' h h' e =
    let cut : ◌≡◌ {A = Str × Option Str} (k, some u) (k', some u') =
      sym (cut_colon-append k u h) ∙ ap cut_colon e ∙ cut_colon-append k' u' h' in
    let type : ◌≡◌ {A = Option Str} (some u) (some u') = ap (λ (c : Str × Option Str). c.1) cut in
    (ap (λ (c : Str × Option Str). c.0) cut, ground arith)

str_eq-typed :
    (k k' u u' : Str)
    → NoColon k
    → NoColon k'
    → str_eq (typed k u) (typed k' u') ≡ (str_eq k k' && str_eq u u')
str_eq-typed k k' u u' h h' = elim (Str-discrete k k') [
  | no n ↦
      rw (str_eq_ne k k' n)
        (str_eq_ne (typed k u) (typed k' u') (λ e. n (typed_parts k k' u u' h h' e).0))
  | yes p ↦ elim (Str-discrete u u') [
    | no n ↦
        rw
          (
            str_eq_ne u u' n,
            str_eq_ne (typed k u) (typed k' u') (λ e. n (typed_parts k k' u u' h h' e).1),
          )
          (ground arith)
    | yes r ↦ rw (p, r, str_eq_self k', str_eq_self u', str_eq_self (typed k' u')) refl
  ]
]

normalize_cut :
    (e first : Str) (rest : Option Str)
    → cut_colon e ≡ (first, rest)
    → normalize_block_entry e ≡ elim rest [
      | none ↦ to_lower (trim_dot first)
      | some qt ↦ typed (to_lower (trim_dot first)) (to_upper qt)
    ]
unfolding normalize_block_entry
normalize_cut e first rest cut =
    ap
      (λ (c : Str × Option Str). elim c.1 as (λ _. Str) [
        | none ↦ to_lower (trim_dot c.0)
        | some qt ↦ typed (to_lower (trim_dot c.0)) (to_upper qt)
      ])
      cut

normalize_bare :
    (e n : Str)
    → split_on b':' e ≡ n ∷ []
    → (normalize_block_entry e ≡ to_lower (trim_dot n)) × NoColon (to_lower (trim_dot n))
normalize_bare e n split =
    let (same, none_there) = split_on_one e n split in
    let clean = subst NoColon same none_there in
    (normalize_cut e n none (ap cut_colon same ∙ cut_colon_lem n clean), trimmed-NoColon n clean)

normalize_typed :
    (e n qt : Str)
    → split_on b':' e ≡ n ∷ qt ∷ []
    → (normalize_block_entry e ≡ typed (to_lower (trim_dot n)) (to_upper qt))
      × NoColon (to_lower (trim_dot n))
normalize_typed e n qt split =
    let (same, clean) = split_on_two e n qt split in
    (
      normalize_cut e n (some qt) (ap cut_colon same ∙ cut_colon-append n qt clean),
      trimmed-NoColon n clean,
    )

-- Two entries have one key exactly if they name the same domain and the same type.
pub str_eq-normalize_block_entry :
    (e e' : Str)
    → IsEntry e
    → IsEntry e'
    → str_eq (normalize_block_entry e) (normalize_block_entry e') ≡ same_entry e e'
unfolding IsEntry same_entry same_fields same_name
str_eq-normalize_block_entry e e' (inl (n, split)) (inl (n', split')) =
    rw (split, split', (normalize_bare e n split).0, (normalize_bare e' n' split').0) refl
str_eq-normalize_block_entry e e' (inl (n, split)) (inr (n', qt', split')) =
    let (key, clean) = normalize_bare e n split in
    let (key', clean') = normalize_typed e' n' qt' split' in
    rw (split, split', key, key') (str_eq_ne _ _ (bare_ne_typed _ _ _ clean clean'))
str_eq-normalize_block_entry e e' (inr (n, qt, split)) (inl (n', split')) =
    let (key, clean) = normalize_typed e n qt split in
    let (key', clean') = normalize_bare e' n' split' in
    rw (split, split', key, key') (str_eq_ne _ _ (λ p. bare_ne_typed _ _ _ clean' clean (sym p)))
str_eq-normalize_block_entry e e' (inr (n, qt, split)) (inr (n', qt', split')) =
    let (key, clean) = normalize_typed e n qt split in
    let (key', clean') = normalize_typed e' n' qt' split' in
    rw (split, split', key, key') (str_eq-typed _ _ _ _ clean clean')
