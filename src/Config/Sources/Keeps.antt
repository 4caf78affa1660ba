-- ===== src/Config/Sources/Keeps.antt =====
-- userconfig.go, UpdateBlockList: the block list that it makes has the invariant of the trie.
use mathlib.Core.Path.{subst}
use dinosaur_dns.Common.{
  ℕ, ◌≡◌, refl, sym, Bool, List, [], ◌∷◌, Option, none, some, Str, Option-cases, inl, inr,
  if◌then◌else◌,
}
use dinosaur_dns.Dns.{type_aaaa}
use dinosaur_dns.Util.Lines.{line_reader}
use dinosaur_dns.Blocklist.{Error, add_entry, delete_tree, reader, hosts_reader}
use dinosaur_dns.Blocklist.Trie.{Level, type_any}
use dinosaur_dns.Blocklist.Trie.Invariant.{IsValid}
use dinosaur_dns.Blocklist.Keeps.{
  add_entry-IsValid, reader-IsValid, hosts_reader-IsValid, delete_tree-ValidTree, ValidTree,
}
use dinosaur_dns.Config.{UserConfig}
use dinosaur_dns.Config.Sources.{
  LoadError, as_load_error, then_load, load_all, delete_all, delete_last, url_reader, load_sources,
  update_block_list,
}

-- A callback that keeps the invariant.
abbrev Keeps : {E : Type 0} → (Str → Level → Level × Option E) → Type 0
Keeps f = (v : Str) (b : Level) → IsValid b → IsValid (f v b).0

as_load_error-level : (r : Level × Option Error) → (as_load_error r).0 ≡ r.0
unfolding as_load_error
as_load_error-level (b, none) = refl
as_load_error-level (b, some e) = refl

as_load_error-Keeps :
    (f : Str → Level → Level × Option Error) → Keeps f → Keeps (λ v b. as_load_error (f v b))
as_load_error-Keeps f keeps v b valid =
    subst IsValid (sym (as_load_error-level (f v b))) (keeps v b valid)

load_all-Keeps :
    (f : Str → Level → Level × Option LoadError)
    → Keeps f
    → (vs : List Str) (b : Level) → IsValid b
    → IsValid (load_all f vs b).0
unfolding load_all
load_all-Keeps f keeps [] b valid = valid
load_all-Keeps f keeps (v ∷ vs) b valid = elim (Option-cases (f v b).1) [
  | inl e ↦ rw (e, load_all) (load_all-Keeps f keeps vs (f v b).0 (keeps v b valid))
  | inr (x, e) ↦ rw (e, load_all) (keeps v b valid)
]

line_reader-Keeps :
    (f : Str → Level → Level × Option LoadError)
    → Keeps f
    → (scan_error : Option LoadError) (lines : List Str) (b : Level) → IsValid b
    → IsValid (line_reader f scan_error lines b).0
unfolding line_reader
line_reader-Keeps f keeps scan_error [] b valid = valid
line_reader-Keeps f keeps scan_error (line ∷ lines) b valid = elim (Option-cases (f line b).1) [
  | inl e ↦
      rw (e, line_reader)
        (line_reader-Keeps f keeps scan_error lines (f line b).0 (keeps line b valid))
  | inr (x, e) ↦ rw (e, line_reader) (keeps line b valid)
]

then_load-IsValid :
    (r : Level × Option LoadError) (f : Level → Level × Option LoadError)
    → IsValid r.0
    → ((b : Level) → IsValid b → IsValid (f b).0)
    → IsValid (then_load r f).0
unfolding then_load
then_load-IsValid (b, none) f valid next = next b valid
then_load-IsValid (b, some e) f valid next = valid

-- A result of UpdateBlockList: a panic gives no list.
abbrev pub ValidUpdate : Option (Level × Option LoadError) → Type 0
ValidUpdate none = Unit
ValidUpdate (some (b, e)) = IsValid b

ValidLevel : Option Level → Type 0
ValidLevel none = Unit
ValidLevel (some b) = IsValid b

delete_all-ValidLevel : (vs : List Str) (b : Level) → IsValid b → ValidLevel (delete_all vs b)
unfolding delete_all ValidLevel
delete_all-ValidLevel [] b valid = valid
delete_all-ValidLevel (v ∷ vs) b valid = elim (Option-cases (delete_tree v b)) [
  | inl e ↦ rw (e, delete_all, ValidLevel) tt
  | inr ((b', found), e) ↦
      rw (e, delete_all)
        (delete_all-ValidLevel vs b' (subst ValidTree e (delete_tree-ValidTree v b valid)))
]

delete_last-ValidUpdate :
    (vs : List Str) (r : Level × Option LoadError) → IsValid r.0 → ValidUpdate (delete_last vs r)
unfolding delete_last ValidLevel
delete_last-ValidUpdate vs (b, some x) valid = valid
delete_last-ValidUpdate vs (b, none) valid = elim (Option-cases (delete_all vs b)) [
  | inl e ↦ rw (e, delete_last) tt
  | inr (b', e) ↦ rw (e, delete_last) (subst ValidLevel e (delete_all-ValidLevel vs b valid))
]

module _ (string_to_type : Str → Option ℕ) (open_url : Str → Option (List Str × Bool)) where
  url_reader-Keeps :
      (f : Str → Level → Level × Option Error)
      → Keeps f
      → Keeps (url_reader string_to_type open_url f)
  unfolding url_reader
  url_reader-Keeps f keeps url b valid = elim (Option-cases (open_url url)) [
    | inl e ↦ rw (e, url_reader) valid
    | inr ((lines, failed), e) ↦
        rw (e, url_reader)
          (line_reader-Keeps (λ v l. as_load_error (f v l)) (as_load_error-Keeps f keeps)
            (if failed then some (LoadError.read_error url) else none) lines b valid)
  ]

  load_sources-IsValid :
      (config : UserConfig) (b : Level)
      → IsValid b
      → IsValid (load_sources string_to_type open_url config b).0
  unfolding load_sources
  load_sources-IsValid config b valid =
      let entry = λ (v : Str) (l : Level). add_entry string_to_type v type_any l in
      let any = reader string_to_type type_any in
      let quad_a = reader string_to_type type_aaaa in
      let hosts = hosts_reader string_to_type in
      let load_hosts =
        load_all (url_reader string_to_type open_url hosts) config.blocklist_from_hosts in
      let first = load_all (λ v l. as_load_error (entry v l)) config.block b in
      let second =
        then_load first (load_all (url_reader string_to_type open_url any) config.blocklist) in
      let third =
        then_load second
          (load_all (url_reader string_to_type open_url quad_a) config.blocklist_aaaa) in
      let first_valid =
        load_all-Keeps (λ v l. as_load_error (entry v l))
          (as_load_error-Keeps entry (λ v l. add_entry-IsValid string_to_type v type_any l))
          config.block b valid in
      let second_valid =
        then_load-IsValid first (load_all (url_reader string_to_type open_url any) config.blocklist)
          first_valid
          (load_all-Keeps (url_reader string_to_type open_url any)
            (url_reader-Keeps any (reader-IsValid string_to_type type_any)) config.blocklist) in
      let third_valid =
        then_load-IsValid second
          (load_all (url_reader string_to_type open_url quad_a) config.blocklist_aaaa) second_valid
          (load_all-Keeps (url_reader string_to_type open_url quad_a)
            (url_reader-Keeps quad_a (reader-IsValid string_to_type type_aaaa))
            config.blocklist_aaaa) in
      then_load-IsValid third load_hosts third_valid (
        load_all-Keeps (url_reader string_to_type open_url hosts)
          (url_reader-Keeps hosts (hosts_reader-IsValid string_to_type))
          config.blocklist_from_hosts)

  pub update_block_list-ValidUpdate :
      (config : UserConfig) (b : Level)
      → IsValid b
      → ValidUpdate (update_block_list string_to_type open_url config b)
  unfolding update_block_list
  update_block_list-ValidUpdate config b valid =
      delete_last-ValidUpdate config.block_delete (load_sources string_to_type open_url config b)
        (load_sources-IsValid config b valid)
