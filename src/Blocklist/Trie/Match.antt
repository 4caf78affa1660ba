-- ===== src/Blocklist/Trie/Match.antt =====
-- Match against the entries of the trie: a query is blocked exactly when an entry stands for the
-- name or for a parent domain of it.
use mathlib.Core.Path.{subst}
use dinosaur_dns.Common.{
  ℕ, ◌≡◌, refl, Bool, false, List, [], ◌∷◌, Str, ◌||◌, arith, Option-cases, inl, inr,
}
use dinosaur_dns.Blocklist.Trie.{Level, level, type_any, lookup_child, match_rev}
use dinosaur_dns.Blocklist.Trie.Stored.{stored_rev}
use dinosaur_dns.Blocklist.Trie.Invariant.{IsValid, ValidOption, lookup_child-IsValid}
use dinosaur_dns.Blocklist.Trie.Delete.{not-contains-any}

-- Some prefix of the path passes the test.
unfoldable pub any_prefix : (List Str → Bool) → List Str → Bool
any_prefix test [] = test []
any_prefix test (n ∷ p) = test [] || any_prefix (λ r. test (n ∷ r)) p

any_prefix-false : (p : List Str) → any_prefix (λ _. false) p ≡ false
unfolding any_prefix
any_prefix-false [] = refl
any_prefix-false (n ∷ p) = any_prefix-false p

-- An entry for the path blocks the query: of type ANY, or of the query's own type.
abbrev pub blocks : Level → ℕ → List Str → Bool
blocks l q r = stored_rev r type_any l || stored_rev r q l

pub match_rev-eq-any_prefix :
    (p : List Str) (q : ℕ) (l : Level) → IsValid l → match_rev p q l ≡ any_prefix (blocks l q) p
unfolding match_rev any_prefix stored_rev
match_rev-eq-any_prefix [] q (level any qs cs) v = ground (arith, not-contains-any qs v.0)
match_rev-eq-any_prefix (a ∷ p) q (level any qs cs) v = elim (Option-cases (lookup_child a cs)) [
  | inl e ↦
      rw (e, match_rev, stored_rev)
        (rw (any_prefix-false p) (ground (arith, not-contains-any qs v.0)))
  | inr (c, e) ↦
      rw (e, match_rev, stored_rev)
        (rw (← match_rev-eq-any_prefix p q c (subst ValidOption e (lookup_child-IsValid a cs v.1)))
          (ground (arith, not-contains-any qs v.0)))
]
