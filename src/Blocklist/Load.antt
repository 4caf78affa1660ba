-- ===== src/Blocklist/Load.antt =====
-- blocklist.go, the readers of block list files and hosts files, run by util's LineReader.
pub mod Hosts
use native.Mathlib.Numerals.{add-one}
use dinosaur_dns.Common.{
  ℕ, ◌≡◌, ◌≢◌, refl, Bool, true, false, List, [], ◌∷◌, Str, ◌||◌, ◌&&◌, ◌==◌, ◌⊎◌, inl, inr, arith,
  Option-cases, if◌then◌else◌, Option, none, some, not, str_eq, take, length, suc, sym, ap, is_none,
  ◌∙◌,
}
use dinosaur_dns.Common.Strings.{codes, split_on, trim_space}
use dinosaur_dns.Util.Lines.{line_reader}
use dinosaur_dns.Blocklist.{
  add, entry_target, add_entry, Error, cut_space, add_hosts_entry, is_comment, reader, hosts_reader,
}
use dinosaur_dns.Blocklist.Trie
use dinosaur_dns.Blocklist.Trie.{Level, type_any}
use dinosaur_dns.Blocklist.Trie.Stored.{stored_rev, same_path, stored_rev-add_rev}
use dinosaur_dns.Blocklist.Rules.{path}

-- The rule that a line stands for.
abbrev pub Rule : Type 0
Rule = Option (Str × ℕ)

unfoldable pub covers : Rule → List Str → ℕ → Bool
covers none p q = false
covers (some (name, qtype)) p q = same_path (path name) p && qtype == q

unfoldable pub some_line : (Str → Rule) → List Str → List Str → ℕ → Bool
some_line rule [] p q = false
some_line rule (line ∷ lines) p q = covers (rule line) p q || some_line rule lines p q

-- How many lines stand before the first bad one.
unfoldable pub good_lines : (Str → Bool) → List Str → ℕ
good_lines good [] = 0
good_lines good (line ∷ lines) = if good line then suc (good_lines good lines) else 0

-- What a callback of LineReader does to the list, if it does what `rule` says, and that it fails on
-- the lines that are not good.
pub record Follows (f : Str → Level → Level × Option Error) (rule : Str → Rule) (good : Str → Bool)
    : Type 0 where
  pub adds :
      (line : Str) (b : Level) (p : List Str) (q : ℕ)
      → stored_rev p q (f line b).0 ≡ (stored_rev p q b || covers (rule line) p q)
  pub fails : (line : Str) (b : Level) (x : Error) → (f line b).1 ≡ some x → (f line b).0 ≡ b
  pub accepts : (line : Str) (b : Level) → is_none (f line b).1 ≡ good line

module _ (f : Str → Level → Level × Option Error) (rule : Str → Rule) (good : Str → Bool)
    (follows : Follows f rule good) where
  line_reader-stored :
      (scan_error : Option Error) (lines : List Str) (b : Level) (p : List Str) (q : ℕ)
      → let (b', count, e) = line_reader f scan_error lines b in
        stored_rev p q b' ≡ (stored_rev p q b || some_line rule (take count lines) p q)
  unfolding line_reader some_line
  line_reader-stored scan_error [] b p q = ground arith
  line_reader-stored scan_error (line ∷ lines) b p q = elim (Option-cases (f line b).1) [
    | inl e ↦
        rw (e, line_reader, add-one)
          (ground
            (arith, line_reader-stored scan_error lines (f line b).0 p q, follows.adds line b p q))
    | inr (x, e) ↦ rw (e, line_reader) (rw (follows.fails line b x e) (ground arith))
  ]

  line_reader-count :
      (scan_error : Option Error) (lines : List Str) (b : Level)
      → ((line_reader f scan_error lines b).1 ≡ good_lines good lines)
        × (is_none (line_reader f scan_error lines b).2
            ≡ (good_lines good lines == length lines && is_none scan_error))
  unfolding line_reader good_lines
  line_reader-count scan_error [] b = (refl, ground arith)
  line_reader-count scan_error (line ∷ lines) b = elim (Option-cases (f line b).1) [
    | inl e ↦
        let ok : good line ≡ true = sym (follows.accepts line b) ∙ ap is_none e in
        let (counts, ends) = line_reader-count scan_error lines (f line b).0 in
        rw (e, line_reader, ok) (ground (arith, counts), ground (arith, ends))
    | inr (x, e) ↦
        let bad : good line ≡ false = sym (follows.accepts line b) ∙ ap is_none e in
        rw (e, line_reader, bad) (refl, ground arith)
  ]

  pub loaded :
      (scan_error : Option Error) (lines : List Str) (b : Level)
      → let (b', count, e) = line_reader f scan_error lines b in
        ((p : List Str) (q : ℕ)
          → stored_rev p q b' ≡ (stored_rev p q b || some_line rule (take count lines) p q))
        × (count ≡ good_lines good lines)
        × (is_none e ≡ (count == length lines && is_none scan_error))
  loaded scan_error lines b =
      let (counts, ends) = line_reader-count scan_error lines b in
      (line_reader-stored scan_error lines b, counts, rw counts ends)

module _ (string_to_type : Str → Option ℕ) where
  -- What an entry names: `domain`, with the default type, or `domain:TYPE`.
  fields_rule : ℕ → List Str → Rule
  fields_rule default_qtype (name ∷ []) = some (name, default_qtype)
  fields_rule default_qtype (name ∷ qt ∷ []) = elim (string_to_type qt) [
    | none ↦ none
    | some qtype ↦ some (name, qtype)
  ]
  fields_rule default_qtype _ = none

  pub entry_rule : ℕ → Str → Rule
  unfolding fields_rule
  entry_rule default_qtype entry = fields_rule default_qtype (split_on b':' entry)

  -- A line of a block list file: nothing for a blank line or a comment, else its entry.
  pub line_rule : ℕ → Str → Rule
  unfolding is_comment entry_rule
  line_rule default_qtype line =
      let text = trim_space line in if is_comment text then none else entry_rule default_qtype text

  -- A good line: blank, a comment, or an entry.
  pub line_good : ℕ → Str → Bool
  unfolding is_comment entry_rule
  line_good default_qtype line =
      let text = trim_space line in is_comment text || not (is_none (entry_rule default_qtype text))

  target_rule : (Str × ℕ) ⊎ Error → Rule
  target_rule (inl target) = some target
  target_rule (inr e) = none

  target_rule-entry_target :
      (entry : Str) (d : ℕ) (fields : List Str)
      → target_rule (entry_target string_to_type entry d fields) ≡ fields_rule d fields
  unfolding target_rule entry_target fields_rule
  target_rule-entry_target entry d [] = refl
  target_rule-entry_target entry d (name ∷ []) = refl
  target_rule-entry_target entry d (name ∷ qt ∷ []) = elim (Option-cases (string_to_type qt)) [
    | inl e ↦ rw (e, entry_target, target_rule, fields_rule) refl
    | inr (q, e) ↦ rw (e, entry_target, target_rule, fields_rule) refl
  ]
  target_rule-entry_target entry d (name ∷ qt ∷ more ∷ rest) = refl

  -- What AddEntry does for a rule: it fails if there is none.
  pub record Adds (b : Level) (rule : Rule) (r : Level × Option Error) : Type 0 where
    pub adds : (p : List Str) (q : ℕ) → stored_rev p q r.0 ≡ (stored_rev p q b || covers rule p q)
    pub fails : (x : Error) → r.1 ≡ some x → r.0 ≡ b
    pub accepts : is_none r.1 ≡ not (is_none rule)

  pub add_entry-Adds :
      (entry : Str) (d : ℕ) (b : Level)
      → Adds b (entry_rule d entry) (add_entry string_to_type entry d b)
  unfolding add_entry entry_rule target_rule covers add Trie.add
  add_entry-Adds entry d b =
      rw⁻¹ (target_rule-entry_target entry d (split_on b':' entry))
        (go (entry_target string_to_type entry d (split_on b':' entry)))
    where
      go :
          (t : (Str × ℕ) ⊎ Error)
          → Adds b (target_rule t) (elim t as (λ _. Level × Option Error) [
            | inl r ↦ (add r.0 r.1 b, none)
            | inr e ↦ (b, some e)
          ])
      go (inl (name, qtype)) = record {
        adds = λ p q. stored_rev-add_rev (path name) p qtype q b;
        fails = λ x e. absurd (ground arith);
        accepts = refl;
      }
      go (inr e) = record { adds = λ p q. ground arith; fails = λ x e. refl; accepts = refl }

  reader-Follows : (d : ℕ) → Follows (reader string_to_type d) (line_rule d) (line_good d)
  unfolding reader line_rule line_good covers
  reader-Follows d = record {
    adds = λ line b p q. ground (arith, (add_entry-Adds (trim_space line) d b).adds p q);
    fails = λ line b x h. ground (arith, (add_entry-Adds (trim_space line) d b).fails x);
    accepts = λ line b. ground (arith, (add_entry-Adds (trim_space line) d b).accepts);
  }

  -- Loading a block list file reads the lines before the first bad one, and counts them. It leaves
  -- the list with its old entries and those of the lines read, and no other. There is no error
  -- exactly if no line is bad and the reader of the file has none. A line is good if it is blank, a
  -- comment, `domain`, or `domain:TYPE` with the name of a type.
  pub load_lem :
      (d : ℕ) (scan_error : Option Error) (lines : List Str) (b : Level)
      → let (b', count, e) = line_reader (reader string_to_type d) scan_error lines b in
        ((p : List Str) (q : ℕ)
          → stored_rev p q b'
            ≡ (stored_rev p q b || some_line (line_rule d) (take count lines) p q))
        × (count ≡ good_lines (line_good d) lines)
        × (is_none e ≡ (count == length lines && is_none scan_error))
  load_lem d scan_error lines b =
      loaded (reader string_to_type d) (line_rule d) (line_good d) (reader-Follows d) scan_error
        lines b
