-- ===== src/Blocklist/Tests.antt =====
-- The theorems on the block list at a small list: every type of ads.example.com, and AAAA of
-- example.org.
use dinosaur_dns.Common.{
  ℕ, is_none, ◌≡◌, refl, ◌↔◌, ◌⊎◌, inl, inr, true, not, ◌&&◌, ◌||◌, ◌==◌, List, [], ◌∷◌, ◌++◌, none,
  Str, take, length, Str-discrete, ℕ_discrete,
}
use dinosaur_dns.Common.Strings.{codes, split_on, trim_dot, to_lower, lower}
use dinosaur_dns.Dns.{type_aaaa}
use dinosaur_dns.Dns.Sample.{sample_string_to_type}
use dinosaur_dns.Util.Lines.{line_reader}
use dinosaur_dns.Blocklist.{Error, is_root, split_name, match, add_entry, delete_entry, reader}
use dinosaur_dns.Blocklist.Trie.{Level, new_level, type_any, add_rev, count}
use dinosaur_dns.Blocklist.Trie.Invariant.{IsValid, new_level-IsValid, add_rev-IsValid}
use dinosaur_dns.Blocklist.Trie.Stored.{stored_rev, same_path}
use dinosaur_dns.Blocklist.Matching.{stored, match_iff}
use dinosaur_dns.Blocklist.Rules.{
  Op, delete_op, match_op, delete_tree_op, run, run_rules, rules_of, nodes_of, run_refines, path,
}
use dinosaur_dns.Blocklist.Entries.{Spells, match-add_entry, delete_entry-add_entry}
use dinosaur_dns.Blocklist.Load.{some_line, line_rule, good_lines, line_good, load_lem}

abbrev ads : List Str
ads = codes "com" ∷ codes "example" ∷ codes "ads" ∷ []

abbrev org : List Str
org = codes "org" ∷ codes "example" ∷ []

abbrev sample_list : Level
sample_list = add_rev ads type_any (add_rev org type_aaaa new_level)

sample_list-IsValid : IsValid sample_list
sample_list-IsValid =
    add_rev-IsValid ads type_any (add_rev org type_aaaa new_level)
      (add_rev-IsValid org type_aaaa new_level new_level-IsValid)

abbrev calls : List Op
calls =
    match_op (codes "www.ads.example.com.") 1
    ∷ delete_op (codes "ads.example.com") type_any
    ∷ match_op (codes "ads.example.com") 1
    ∷ delete_tree_op (codes "example.org")
    ∷ delete_tree_op (codes ".")
    ∷ []

run_refines_example :
    run calls sample_list ≡ run_rules calls (rules_of sample_list) (nodes_of sample_list)
run_refines_example = run_refines calls sample_list sample_list-IsValid

match_iff_example : (match (codes "a.example.org.") type_aaaa sample_list ≡ true) ↔ (
    (pre : List Str) × (domain : List Str) × (split_name (codes "a.example.org.") ≡ pre ++ domain)
    × ((stored domain type_any sample_list ≡ true) ⊎ (stored domain type_aaaa sample_list ≡ true)))
match_iff_example = match_iff (codes "a.example.org.") type_aaaa sample_list sample_list-IsValid

abbrev bad_name : Str
bad_name = codes "bad.example"

spelled : Spells (codes "WWW.Bad.example.") (codes "www" ++ (b'.' ∷ bad_name))
unfolding Spells trim_dot to_lower lower
spelled = refl

match-add_entry_example :
    match
      (codes "WWW.Bad.example.")
      1
      (add_entry sample_string_to_type bad_name type_any sample_list).0
    ≡ true
unfolding is_root split_on
match-add_entry_example =
    match-add_entry sample_string_to_type bad_name (codes "WWW.Bad.example.") 1 sample_list
      sample_list-IsValid refl refl (inr (codes "www", spelled))

abbrev with_entry : Level
with_entry = (add_entry sample_string_to_type (codes "x.example:A") type_any sample_list).0

delete_entry-add_entry_example :
    (name : Str) × (qtype : ℕ) × ((delete_entry sample_string_to_type
        (codes "x.example:A")
        type_any
        with_entry).1
      ≡ inl true)
    × ((p : List Str) (q : ℕ)
        → stored_rev p q
            (delete_entry sample_string_to_type (codes "x.example:A") type_any with_entry).0
          ≡ (stored_rev p q sample_list && not (same_path (path name) p && qtype == q)))
unfolding add_entry split_on Str-discrete ℕ_discrete
delete_entry-add_entry_example =
    delete_entry-add_entry sample_string_to_type (codes "x.example:A") type_any sample_list
      with_entry sample_list-IsValid refl

abbrev file_lines : List Str
file_lines =
    codes "# comment" ∷ codes "a.example" ∷ codes "b.example:NOTYPE" ∷ codes "c.example" ∷ []

load_lem_example :
    let (b', count, e) =
      line_reader (reader sample_string_to_type type_any) none file_lines sample_list in
    ((p : List Str) (q : ℕ)
      → stored_rev p q b' ≡ (
          stored_rev p q sample_list
          || some_line (line_rule sample_string_to_type type_any) (take count file_lines) p q))
    × (count ≡ good_lines (line_good sample_string_to_type type_any) file_lines)
    × (is_none e ≡ (count == length file_lines && is_none {A = Error} none))
load_lem_example = load_lem sample_string_to_type type_any none file_lines sample_list

abbrev hosts_lines : List Str
hosts_lines = codes "127.0.0.1 localhost" ∷ codes "0.0.0.0 a.example" ∷ []
