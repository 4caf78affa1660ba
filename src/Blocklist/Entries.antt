-- ===== src/Blocklist/Entries.antt =====
-- blocklist.go, AddEntry and DeleteEntry: what an entry of a configuration blocks.
use mathlib.Core.List.{map-append}
use dinosaur_dns.Common.{
  ℕ, ◌≡◌, ◌≢◌, refl, sym, ap, ◌∙◌, true, false, List, [], ◌∷◌, ◌++◌, Str, ◌&&◌, ◌==◌, ◌⊎◌, inl, inr,
  arith, Bool-cases, Option, none, map, not,
}
use dinosaur_dns.Common.Strings.{to_lower, trim_dot, split_on, cons_head, lower}
use dinosaur_dns.Blocklist.{
  split_name, is_root, match, add, delete, entry_target, add_entry, delete_entry, Error,
}
use dinosaur_dns.Blocklist.Trie
use dinosaur_dns.Blocklist.Trie.{Level, type_any}
use dinosaur_dns.Blocklist.Trie.Stored.{stored_rev, same_path, stored_rev-add_rev}
use dinosaur_dns.Blocklist.Trie.Invariant.{IsValid, add_rev-IsValid}
use dinosaur_dns.Blocklist.Trie.Delete.{stored_rev-delete_rev, found-delete_rev}
use dinosaur_dns.Blocklist.Matching.{match_iff}
use dinosaur_dns.Blocklist.Rules.{path}

pub split_on_ne : (c : ℕ) (s : Str) → (w : Str) × (ws : List Str) × (split_on c s ≡ w ∷ ws)
unfolding split_on
split_on_ne c [] = ([], [], refl)
split_on_ne c (x ∷ s) =
    let (w, ws, e) = split_on_ne c s in
    elim (Bool-cases (x == c)) [ inl t ↦ ([], w ∷ ws, rw (t, e)) | inr f ↦ (x ∷ w, ws, rw (f, e)) ]

cons_head-append :
    (x : ℕ) (ws vs : List Str) (w : Str) (us : List Str)
    → ws ≡ w ∷ us
    → cons_head x (ws ++ vs) ≡ cons_head x ws ++ vs
unfolding cons_head
cons_head-append x [] vs w us e = cc
cons_head-append x (w' ∷ ws) vs w us e = refl

split_on-append : (c : ℕ) (s t : Str) → split_on c (s ++ (c ∷ t)) ≡ split_on c s ++ split_on c t
unfolding split_on
split_on-append c [] t = ground arith
split_on-append c (x ∷ s) t =
    let (w, ws, e) = split_on_ne c s in
    rw (split_on-append c s t) (elim (Bool-cases (x == c)) [
      | inl y ↦ rw y
      | inr n ↦ rw n (cons_head-append x (split_on c s) (split_on c t) w ws e)
    ])

trim_dot-append :
    (s t : Str) → is_root t ≡ false → trim_dot (s ++ (b'.' ∷ t)) ≡ s ++ (b'.' ∷ trim_dot t)
unfolding trim_dot is_root
trim_dot-append [] [] h = cc
trim_dot-append [] (y ∷ t) h = refl
trim_dot-append (x ∷ []) t h = ap (◌∷◌ x) (trim_dot-append [] t h)
trim_dot-append (x ∷ y ∷ s) t h = ap (◌∷◌ x) (trim_dot-append (y ∷ s) t h)

is_root-append : (s t : Str) → is_root t ≡ false → is_root (s ++ (b'.' ∷ t)) ≡ false
unfolding is_root
is_root-append [] [] h = cc
is_root-append [] (y ∷ t) h = refl
is_root-append (x ∷ []) t h = refl
is_root-append (x ∷ y ∷ s) t h = refl

split_name-append :
    (sub name : Str)
    → is_root name ≡ false
    → split_name (sub ++ (b'.' ∷ name)) ≡ split_on b'.' (to_lower sub) ++ split_name name
unfolding split_name to_lower lower
split_name-append sub name h =
    rw (is_root-append sub name h, h, trim_dot-append sub name h, map-append)
      (split_on-append b'.' (map lower sub) (map lower (trim_dot name)))

-- The same name, but for letter case and a dot at the end
unfoldable pub Spells : Str → Str → Type 0
Spells qname name = to_lower (trim_dot qname) ≡ to_lower (trim_dot name)

trim_dot_ne : (name : Str) → is_root name ≡ false → to_lower (trim_dot name) ≢ []
unfolding is_root trim_dot to_lower
trim_dot_ne [] h e = absurd (ground arith)
trim_dot_ne (x ∷ []) h e = absurd (ground arith)
trim_dot_ne (x ∷ y ∷ s) h e = absurd (ground arith)

trim_dot_root : (name : Str) → is_root name ≡ true → to_lower (trim_dot name) ≡ []
unfolding is_root trim_dot to_lower
trim_dot_root [] h = refl
trim_dot_root (x ∷ []) h = ground arith
trim_dot_root (x ∷ y ∷ s) h = absurd (ground arith)

split_name-Spells :
    (qname name : Str)
    → is_root name ≡ false
    → Spells qname name
    → split_name qname ≡ split_name name
unfolding split_name Spells
split_name-Spells qname name h same = elim (Bool-cases (is_root qname)) [
  | inl root ↦ absurd (trim_dot_ne name h (sym same ∙ trim_dot_root qname root))
  | inr below ↦ rw (below, h) (ap (split_on b'.') same)
]

same_path_refl : (p : List Str) → same_path p p ≡ true
unfolding same_path
same_path_refl [] = refl
same_path_refl (a ∷ p) = ground (arith, same_path_refl p)

stored_rev-add_self :
    (name : Str) (qtype : ℕ) (b : Level) → stored_rev (path name) qtype (add name qtype b) ≡ true
unfolding add Trie.add
stored_rev-add_self name qtype b =
    ground
      (arith, stored_rev-add_rev (path name) (path name) qtype qtype b, same_path_refl (path name))

found-delete-add :
    (name : Str) (qtype : ℕ) (b : Level)
    → IsValid b
    → (delete name qtype (add name qtype b)).1 ≡ true
unfolding delete Trie.delete
found-delete-add name qtype b v =
    found-delete_rev (path name) qtype (add name qtype b)
      (unfold add Trie.add in add_rev-IsValid (path name) qtype b v)
    ∙ stored_rev-add_self name qtype b

stored_rev-delete-add :
    (name : Str) (qtype : ℕ) (b : Level)
    → IsValid b
    → (p : List Str) (q : ℕ)
    → stored_rev p q (delete name qtype (add name qtype b)).0
      ≡ (stored_rev p q b && not (same_path (path name) p && qtype == q))
unfolding delete Trie.delete add Trie.add
stored_rev-delete-add name qtype b v p q = ground (
  arith,
  stored_rev-delete_rev (path name) p qtype q (add name qtype b)
      (add_rev-IsValid (path name) qtype b v),
  stored_rev-add_rev (path name) p qtype q b,
)

-- A name below a domain that has just been added with the type ANY is blocked.
match-add_below :
    (pre : List Str) (qname name : Str) (qtype : ℕ) (b : Level)
    → IsValid b
    → split_name qname ≡ pre ++ split_name name
    → match qname qtype (add name type_any b) ≡ true
match-add_below pre qname name qtype b v split =
    (match_iff qname qtype (add name type_any b)
        (unfold add Trie.add in add_rev-IsValid (path name) type_any b v)).1
      (pre, split_name name, split, inl (stored_rev-add_self name type_any b))

module _ (string_to_type : Str → Option ℕ) where
  -- An entry that is a bare domain name, added to a valid trie with the default type ANY, blocks every query for
  -- the domain and for every domain below it, whatever the query's type. The query may be in other
  -- letter case, and with a dot at its end or without. The root is no such name.
  pub match-add_entry :
      (name qname : Str) (qtype : ℕ) (b : Level)
      → IsValid b
      → is_root name ≡ false
      → split_on b':' name ≡ name ∷ []
      → Spells qname name ⊎ ((sub : Str) × Spells qname (sub ++ (b'.' ∷ name)))
      → match qname qtype (add_entry string_to_type name type_any b).0 ≡ true
  unfolding add_entry
  match-add_entry name qname qtype b v h bare (inl same) =
      rw (bare, add_entry, entry_target)
        (match-add_below [] qname name qtype b v (split_name-Spells qname name h same))
  match-add_entry name qname qtype b v h bare (inr (sub, same)) =
      rw (bare, add_entry, entry_target)
        (match-add_below (split_on b'.' (to_lower sub)) qname name qtype b v (
          split_name-Spells qname (sub ++ (b'.' ∷ name)) (is_root-append sub name h) same
          ∙ split_name-append sub name h))

  -- Deleting an entry right after adding it reports that it was there, and leaves every other
  -- entry as it was before the two calls.
  pub delete_entry-add_entry :
      (entry : Str) (default_qtype : ℕ) (b b' : Level)
      → IsValid b
      → add_entry string_to_type entry default_qtype b ≡ (b', none)
      → (name : Str) × (qtype : ℕ) × ((delete_entry string_to_type entry default_qtype b').1
          ≡ inl true)
        × ((p : List Str) (q : ℕ)
            → stored_rev p q (delete_entry string_to_type entry default_qtype b').0
              ≡ (stored_rev p q b && not (same_path (path name) p && qtype == q)))
  unfolding add_entry delete_entry
  delete_entry-add_entry entry d b b' v e =
      go (entry_target string_to_type entry d (split_on b':' entry)) refl
    where
      go :
          (t : (Str × ℕ) ⊎ Error)
          → entry_target string_to_type entry d (split_on b':' entry) ≡ t
          → (name : Str) × (qtype : ℕ) × ((delete_entry string_to_type entry d b').1 ≡ inl true)
            × ((p : List Str) (q : ℕ)
                → stored_rev p q (delete_entry string_to_type entry d b').0
                  ≡ (stored_rev p q b && not (same_path (path name) p && qtype == q)))
      go (inr x) t = absurd (ground arith)
      go (inl (name, qtype)) t =
          let same : add name qtype b ≡ b' = ground arith in
          (
            name,
            qtype,
            rw (t, ← same, delete_entry) (ap inl (found-delete-add name qtype b v)),
            λ p q. rw (t, ← same, delete_entry) (stored_rev-delete-add name qtype b v p q),
          )
