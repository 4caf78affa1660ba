-- ===== src/Stats/Channels.antt =====
-- statshandler/stats.go, MakeLogChannel and CloseLogChannel, and api/log.go: the clients that follow
-- the query log. A client is known by its address. A send is done when the client has read the
-- message.
pub mod Calls
pub mod Clients
pub mod Delivery
use dinosaur_dns.Common.{
  Bool, true, false, List, [], ◌∷◌, ◌++◌, Option, some, Str, str_eq, if◌then◌else◌,
}
use dinosaur_dns.Stats.{ConnectionLog, StatsHandler}
use dinosaur_dns.Stats
use dinosaur_dns.Stats.Buffer.{add_hook, delete_hook, ◌>>=◌}

-- What was sent on a channel, the oldest message first
pub record Channel : Type 0 where
  pub is_open : Bool
  pub sent : List Str

-- The query log, and the channel of each client.
pub record LogClients : Type 0 where
  pub stats : StatsHandler
  pub channels : Str → Channel

abbrev pub new_channel : Channel
new_channel = record { is_open = true; sent = [] }

abbrev pub close_channel : Channel → Channel
close_channel ch = record ch { is_open = false }

-- ch <- m; the panic of a send on a closed channel is recovered.
unfoldable pub send : Str → Channel → Channel
send m ch = if ch.is_open then record ch { sent = ch.sent ++ (m ∷ []) } else ch

-- A change of one client's channel
unfoldable pub at_client : Str → (Channel → Channel) → (Str → Channel) → Str → Channel
at_client id f channels j = if str_eq id j then f (channels j) else channels j

-- (*StatsHandler).MakeLogChannel and CloseLogChannel; the hook sends on the client's channel.
abbrev pub make_log_channel : Str → StatsHandler → StatsHandler
make_log_channel id stats = add_hook id stats

abbrev pub close_log_channel : Str → StatsHandler → StatsHandler
close_log_channel id stats = delete_hook id stats

-- makeLogHandler: a client connects, its channel is closed when it goes, and then its hook is
-- removed. Add is the end of a query. They come in any order.
pub data Event : Type 0 where
  connects closes removes : Str → Event
  adds : ConnectionLog → Event

-- The parameter is json.Marshal for an item.
module _ (marshal : ConnectionLog → Str) where
  -- The calls of hookf
  unfoldable pub call_hooks : List (Str × ConnectionLog) → (Str → Channel) → Str → Channel
  call_hooks [] channels = channels
  call_hooks ((id, c) ∷ calls) channels =
      call_hooks calls (at_client id (send (marshal c)) channels)

  unfoldable pub log_step : Event → LogClients → Option LogClients
  log_step (connects id) s = some (record {
    stats = make_log_channel id s.stats;
    channels = at_client id (λ _. new_channel) s.channels;
  })
  log_step (closes id) s = some (record s { channels = at_client id close_channel s.channels })
  log_step (removes id) s = some (record s { stats = close_log_channel id s.stats })
  log_step (adds c) s = do
    done ← Stats.add c s.stats
    some (record { stats = done.0; channels = call_hooks done.1 s.channels })

  unfoldable pub log_steps : List Event → LogClients → Option LogClients
  log_steps [] s = some s
  log_steps (e ∷ es) s = do s' ← log_step e s; log_steps es s'
