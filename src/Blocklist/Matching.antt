-- ===== src/Blocklist/Matching.antt =====
-- blocklist.go, Match: which queries the block list stops.
use mathlib.Core.List.{reverse-append, reverse-reverse}
use dinosaur_dns.Common.{
  ℕ, ◌≡◌, refl, sym, ap, ◌∙◌, Bool, true, List, [], ◌∷◌, ◌++◌, reverse, Str, ◌↔◌, ◌⊎◌, inl, inr,
  arith, Bool-cases,
}
use dinosaur_dns.Common.Strings.{to_lower, to_lower_idem, trim_dot-to_lower, lower}
use dinosaur_dns.Blocklist.{split_name, is_root, match}
use dinosaur_dns.Blocklist.Trie
use dinosaur_dns.Blocklist.Trie.{Level, type_any, match_rev}
use dinosaur_dns.Blocklist.Trie.Stored.{stored_rev}
use dinosaur_dns.Blocklist.Trie.Invariant.{IsValid}
use dinosaur_dns.Blocklist.Trie.Match.{any_prefix, blocks, match_rev-eq-any_prefix}

-- The entry for a domain, given by its labels, of type `qtype`.
abbrev pub stored : List Str → ℕ → Level → Bool
stored parts qtype b = stored_rev (reverse parts) qtype b

any_prefix_sound :
    (test : List Str → Bool) (p : List Str)
    → any_prefix test p ≡ true
    → (r : List Str) × (s : List Str) × (p ≡ r ++ s) × (test r ≡ true)
unfolding any_prefix
any_prefix_sound test [] h = ([], [], refl, h)
any_prefix_sound test (n ∷ p) h = elim (Bool-cases (test [])) [
  | inl e ↦ ([], n ∷ p, refl, e)
  | inr e ↦
      let (r, s, split, passes) = any_prefix_sound (λ r. test (n ∷ r)) p (ground arith) in
      (n ∷ r, s, ap (◌∷◌ n) split, passes)
]

any_prefix_complete :
    (test : List Str → Bool) (r s : List Str) → test r ≡ true → any_prefix test (r ++ s) ≡ true
unfolding any_prefix
any_prefix_complete test [] [] h = h
any_prefix_complete test [] (n ∷ s) h = ground arith
any_prefix_complete test (n ∷ r) s h = ground (arith, any_prefix_complete (λ t. test (n ∷ t)) r s h)

-- A query is blocked exactly when its name, or a domain above it (the root too), has an entry of
-- type ANY or of the query's type.
pub match_iff :
    (qname : Str) (qtype : ℕ) (b : Level)
    → IsValid b
    → (match qname qtype b ≡ true) ↔ (
        (pre : List Str) × (domain : List Str) × (split_name qname ≡ pre ++ domain)
        × ((stored domain type_any b ≡ true) ⊎ (stored domain qtype b ≡ true)))
unfolding match Trie.match
match_iff qname qtype b v = (there, back)
  where
    path : List Str
    path = reverse (split_name qname)

    there :
        match_rev path qtype b ≡ true
        → (pre : List Str) × (domain : List Str) × (split_name qname ≡ pre ++ domain)
          × ((stored domain type_any b ≡ true) ⊎ (stored domain qtype b ≡ true))
    there h =
        let (r, s, split, passes) =
          any_prefix_sound (blocks b qtype) path
            (sym (match_rev-eq-any_prefix path qtype b v) ∙ h) in
        (
          reverse s,
          reverse r,
          sym (reverse-reverse (split_name qname)) ∙ ap reverse split ∙ reverse-append r s,
          rw (reverse-reverse r) (ground arith),
        )

    back :
        (pre : List Str) × (domain : List Str) × (split_name qname ≡ pre ++ domain)
          × ((stored domain type_any b ≡ true) ⊎ (stored domain qtype b ≡ true))
        → match_rev path qtype b ≡ true
    back (pre, domain, split, h) =
        rw (match_rev-eq-any_prefix path qtype b v, split, reverse-append pre domain)
          (any_prefix_complete (blocks b qtype) (reverse domain) (reverse pre) (ground arith))

is_root-to_lower : (s : Str) → is_root (to_lower s) ≡ is_root s
unfolding is_root to_lower lower
is_root-to_lower [] = refl
is_root-to_lower (x ∷ []) = ground arith
is_root-to_lower (x ∷ y ∷ s) = refl

split_name-to_lower : (s : Str) → split_name (to_lower s) ≡ split_name s
unfolding split_name
split_name-to_lower s = rw (is_root-to_lower s, trim_dot-to_lower s, to_lower_idem)

-- Matching does not depend on the letter case of the queried name.
pub match-to_lower :
    (qname : Str) (qtype : ℕ) (b : Level) → match (to_lower qname) qtype b ≡ match qname qtype b
unfolding match
match-to_lower qname qtype b = rw (split_name-to_lower qname)
