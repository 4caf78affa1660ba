-- ===== src/Blocklist/Load/Hosts.antt =====
-- blocklist.go, the reader of hosts files.
use dinosaur_dns.Common.{
  ℕ, ◌≡◌, Bool, false, List, Str, ◌||◌, ◌&&◌, ◌==◌, inl, inr, arith, Option-cases, if◌then◌else◌,
  Option, none, some, not, str_eq, take, length, is_none,
}
use dinosaur_dns.Common.Strings.{codes, trim_space}
use dinosaur_dns.Util.Lines.{line_reader}
use dinosaur_dns.Blocklist.{Error, cut_space, add_hosts_entry, is_comment, hosts_reader}
use dinosaur_dns.Blocklist.Trie.{Level, type_any}
use dinosaur_dns.Blocklist.Trie.Stored.{stored_rev}
use dinosaur_dns.Blocklist.Load.{
  Rule, covers, some_line, good_lines, Follows, loaded, entry_rule, add_entry-Adds,
}

module _ (string_to_type : Str → Option ℕ) where
  -- A line of a hosts file: the second field, if the first is 0.0.0.0 and the second is not, and
  -- if that field is a good entry.
  pub hosts_rule : Str → Rule
  unfolding is_comment entry_rule
  hosts_rule line =
      let text = trim_space line in
      let (ip, more) = cut_space text in
      if is_comment text then none else elim more [
        | none ↦ none
        | some rest ↦
            let domain = (cut_space rest).0 in
            if str_eq ip (codes "0.0.0.0") && not (str_eq domain (codes "0.0.0.0"))
            then entry_rule string_to_type type_any domain
            else none
      ]

  -- A good line of a hosts file: blank, a comment, or two fields of which the second is a good
  -- entry, if it is looked at.
  pub hosts_good : Str → Bool
  unfolding is_comment entry_rule
  hosts_good line =
      let text = trim_space line in
      let (ip, more) = cut_space text in
      is_comment text || elim more [
        | none ↦ false
        | some rest ↦
            let domain = (cut_space rest).0 in
            not (str_eq ip (codes "0.0.0.0"))
            || str_eq domain (codes "0.0.0.0")
            || not (is_none (entry_rule string_to_type type_any domain))
      ]

  hosts_reader-Follows : Follows (hosts_reader string_to_type) hosts_rule hosts_good
  unfolding hosts_reader add_hosts_entry hosts_rule hosts_good covers
  hosts_reader-Follows = record {
    adds = λ line b p q. elim (Option-cases (cut_space (trim_space line)).1) [
      | inl e ↦ ground arith
      | inr (rest, e) ↦
          ground (arith, (add_entry-Adds string_to_type (cut_space rest).0 type_any b).adds p q)
    ];
    fails = λ line b x h. elim (Option-cases (cut_space (trim_space line)).1) [
      | inl e ↦ ground arith
      | inr (rest, e) ↦
          ground (arith, (add_entry-Adds string_to_type (cut_space rest).0 type_any b).fails x)
    ];
    accepts = λ line b. elim (Option-cases (cut_space (trim_space line)).1) [
      | inl e ↦ ground arith
      | inr (rest, e) ↦
          ground (arith, (add_entry-Adds string_to_type (cut_space rest).0 type_any b).accepts)
    ];
  }

  -- Loading a hosts file adds, with the type ANY, exactly the names that its good lines map to
  -- 0.0.0.0, up to the first bad line.
  pub load_hosts_lem :
      (scan_error : Option Error) (lines : List Str) (b : Level)
      → let (b', count, e) = line_reader (hosts_reader string_to_type) scan_error lines b in
        ((p : List Str) (q : ℕ)
          → stored_rev p q b' ≡ (stored_rev p q b || some_line hosts_rule (take count lines) p q))
        × (count ≡ good_lines hosts_good lines)
        × (is_none e ≡ (count == length lines && is_none scan_error))
  load_hosts_lem scan_error lines b =
      loaded (hosts_reader string_to_type) hosts_rule hosts_good hosts_reader-Follows scan_error
        lines b
