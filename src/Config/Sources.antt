-- ===== src/Config/Sources.antt =====
-- config/userconfig.go, UpdateBlockList: the sources of the block list in their order, then the
-- deletions. `open_url` is what util.UrlOpen gives for a file name or URL: `none` is an error, else
-- the lines that the scanner yields, and whether it fails behind them.
pub mod Deleted
pub mod Keeps
mod Tests
use dinosaur_dns.Common.{ℕ, Bool, List, [], ◌∷◌, Option, none, some, Str, if◌then◌else◌}
use dinosaur_dns.Dns.{type_aaaa}
use dinosaur_dns.Util.Lines.{line_reader}
use dinosaur_dns.Blocklist.{Error, add_entry, delete_tree, reader, hosts_reader}
use dinosaur_dns.Blocklist.Trie.{Level, type_any}
use dinosaur_dns.Config.{UserConfig}

pub data LoadError : Type 0 where
  entry_error : Error → LoadError
  read_error : Str → LoadError

as_load_error : Level × Option Error → Level × Option LoadError
as_load_error (b, none) = (b, none)
as_load_error (b, some e) = (b, some (entry_error e))

-- What follows is done only if there was no error.
then_load : Level × Option LoadError → (Level → Level × Option LoadError) → Level × Option LoadError
then_load (b, none) f = f b
then_load (b, some e) f = (b, some e)

-- A loop over the entries of a field, up to the first error
unfoldable pub load_all :
    (Str → Level → Level × Option LoadError) → List Str → Level → Level × Option LoadError
load_all f [] b = (b, none)
load_all f (v ∷ vs) b =
    let (b', e) = f v b in
    let rest = load_all f vs b' in elim e [ none ↦ rest | some x ↦ (b', some x) ]

-- The loop over BlockDelete; `none` is the panic of DeleteTree.
unfoldable pub delete_all : List Str → Level → Option Level
delete_all [] b = some b
delete_all (v ∷ vs) b = elim (delete_tree v b) [ none ↦ none | some (b', found) ↦ delete_all vs b' ]

-- The deletions, if there was no error
unfoldable pub delete_last : List Str → Level × Option LoadError → Option (Level × Option LoadError)
delete_last vs (b, some x) = some (b, some x)
delete_last vs (b, none) = elim (delete_all vs b) [ none ↦ none | some b' ↦ some (b', none) ]

module _ (string_to_type : Str → Option ℕ) (open_url : Str → Option (List Str × Bool)) where
  -- util.URLReader
  unfoldable pub url_reader :
      (Str → Level → Level × Option Error) → Str → Level → Level × Option LoadError
  unfolding as_load_error
  url_reader f url b = elim (open_url url) [
    | none ↦ (b, some (read_error url))
    | some (lines, failed) ↦
        let (b', count, e) =
          line_reader (λ line l. as_load_error (f line l))
            (if failed then some (read_error url) else none) lines b in
        (b', e)
  ]

  -- The loops of UpdateBlockList that add entries
  unfoldable pub load_sources : UserConfig → Level → Level × Option LoadError
  unfolding then_load as_load_error
  load_sources config b =
      then_load
        (then_load
          (then_load
            (load_all (λ v l. as_load_error (add_entry string_to_type v type_any l)) config.block b)
            (load_all (url_reader (reader string_to_type type_any)) config.blocklist))
          (load_all (url_reader (reader string_to_type type_aaaa)) config.blocklist_aaaa))
        (load_all (url_reader (hosts_reader string_to_type)) config.blocklist_from_hosts)

  -- UpdateBlockList; `none` is a panic
  unfoldable pub update_block_list : UserConfig → Level → Option (Level × Option LoadError)
  unfolding delete_last
  update_block_list config b = delete_last config.block_delete (load_sources config b)
