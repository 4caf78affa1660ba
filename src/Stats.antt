-- ===== src/Stats.antt =====
-- statshandler/: the query log.
pub mod Buffer
pub mod Channels
mod Tests
use dinosaur_dns.Common.{ℕ, Bool, List, Option, Str}
use dinosaur_dns.Stats.Buffer.{CircularBuffer}
use dinosaur_dns.Stats.Buffer

-- Times and durations are nanoseconds.
pub record ConnectionLog : Type 0 where
  pub timestamp : ℕ
  pub client : Str
  pub qname : Str
  pub qtype : Str
  pub rcode : ℕ
  pub query_time : ℕ
  pub acl : Bool
  pub blocked : Bool
  pub cached : Bool
  pub error : Bool

-- StatsHandler: its one field is the buffer.
abbrev pub StatsHandler : Type 0
StatsHandler = CircularBuffer ConnectionLog

-- (*StatsHandler).Add; the hooks' calls are the second part.
unfoldable pub add :
    ConnectionLog → StatsHandler → Option (StatsHandler × List (Str × ConnectionLog))
add c s = Buffer.insert c s

-- (*StatsHandler).Tail
unfoldable pub tail : ℕ → StatsHandler → Option (List ConnectionLog)
tail n s = Buffer.tail n s
