-- ===== src/Stats/Channels/Clients.antt =====
-- statshandler/stats.go and api/log.go: what one event does to a client of the query log.
use mathlib.Core.List.{append-nil}
use dinosaur_dns.Common.{
  ◌≡◌, ◌≢◌, refl, ap, ◌∙◌, true, false, List, [], ◌∷◌, ◌++◌, map, some, Str, Str-discrete,
}
use dinosaur_dns.Stats.{ConnectionLog, StatsHandler}
use dinosaur_dns.Stats
use dinosaur_dns.Stats.Buffer.{add_hook, delete_hook}
use dinosaur_dns.Stats.Buffer.Invariant.{Holds, inserted, insert-Holds}
use dinosaur_dns.Stats.Buffer.Hooks.{
  hooks_of, hooks_of-add_hook, hooks_of-add_hook_ne, hooks_of-delete_hook_ne, add_hook-Holds,
  delete_hook-Holds,
}
use dinosaur_dns.Stats.Channels.{
  Channel, LogClients, new_channel, close_channel, send, at_client, Event, connects, closes,
  removes, adds, call_hooks, log_step,
}
use dinosaur_dns.Stats.Channels.Calls.{
  at_client_self, at_client_ne, call_hooks_closed, call_hooks_once,
}

-- An event that is not one of the client
unfoldable pub IsOther : Str → Event → Type 0
IsOther id (connects j) = j ≢ id
IsOther id (closes j) = j ≢ id
IsOther id (removes j) = j ≢ id
IsOther id (adds c) = Unit

-- An event that does not connect the client again
unfoldable pub IsNoConnect : Str → Event → Type 0
IsNoConnect id (connects j) = j ≢ id
IsNoConnect id (closes j) = Unit
IsNoConnect id (removes j) = Unit
IsNoConnect id (adds c) = Unit

-- The state for a client: a valid query log, and the client's channel.
pub record IsAt (id : Str) (ch : Channel) (s : LogClients) : Type 0 where
  pub log : (history : List ConnectionLog) × Holds s.stats history
  pub channel : s.channels id ≡ ch

-- Its hook stands once while it is connected.
abbrev pub IsListening : Str → List Str → LogClients → Type 0
IsListening id sent s =
    IsAt id (record { is_open = true; sent = sent }) s × (hooks_of id s.stats.hooks ≡ 1)

abbrev pub IsClosed : Str → List Str → LogClients → Type 0
IsClosed id sent s = IsAt id (record { is_open = false; sent = sent }) s

module _ (marshal : ConnectionLog → Str) where
  -- The messages for the items that events add, in their order.
  unfoldable pub messages : List Event → List Str
  messages [] = []
  messages (connects id ∷ events) = messages events
  messages (closes id ∷ events) = messages events
  messages (removes id ∷ events) = messages events
  messages (adds c ∷ events) = marshal c ∷ messages events

  -- The step is done, and what holds then.
  unfoldable pub Steps : Event → LogClients → (LogClients → Type 0) → Type 0
  Steps e s P = (s' : LogClients) × (log_step marshal e s ≡ some s') × P s'

  pub connects-Steps :
      (id : Str) (s : LogClients) (history : List ConnectionLog)
      → Holds s.stats history
      → Steps (connects id) s (IsListening id [])
  unfolding Steps log_step
  connects-Steps id s history holds = (
    _,
    refl,
    (
      record {
        log = (history, add_hook-Holds id s.stats history holds);
        channel = at_client_self id (λ _. new_channel) s.channels;
      },
      hooks_of-add_hook id s.stats,
    ),
  )

  pub closes-Steps :
      (id : Str) (sent : List Str) (s : LogClients)
      → IsListening id sent s
      → Steps (closes id) s (IsClosed id sent)
  unfolding Steps log_step
  closes-Steps id sent s (at, once) = (
    _,
    refl,
    record {
      log = at.log;
      channel = at_client_self id close_channel s.channels ∙ ap close_channel at.channel;
    },
  )

  adds-done :
      (c : ConnectionLog) (s : LogClients) (history : List ConnectionLog)
      → Holds s.stats history
      → log_step marshal (adds c) s
        ≡ some (record {
          stats = inserted c s.stats;
          channels = call_hooks marshal (map (λ h. (h, c)) s.stats.hooks) s.channels;
        })
  unfolding log_step Stats.add
  adds-done c s history holds = rw (insert-Holds c s.stats history holds).0 refl

  -- A step of the other clients, on the query log and on their channel
  other-IsAt :
      (id j : Str) (f : Channel → Channel) (ch : Channel) (stats : StatsHandler) (s : LogClients)
      → j ≢ id
      → (history : List ConnectionLog) × Holds stats history
      → IsAt id ch s
      → IsAt id ch (record { stats = stats; channels = at_client j f s.channels })
  other-IsAt id j f ch stats s ne log at = record {
    log = log;
    channel = at_client_ne id j f s.channels ne ∙ at.channel;
  }

  connected-log :
      (j : Str) (s : LogClients)
      → (history : List ConnectionLog) × Holds s.stats history
      → (history : List ConnectionLog) × Holds (add_hook j s.stats) history
  connected-log j s (history, holds) = (history, add_hook-Holds j s.stats history holds)

  removed-log :
      (j : Str) (s : LogClients)
      → (history : List ConnectionLog) × Holds s.stats history
      → (history : List ConnectionLog) × Holds (delete_hook j s.stats) history
  removed-log j s (history, holds) = (history, delete_hook-Holds j s.stats history holds)

  pub IsListening-Steps :
      (id : Str) (sent : List Str) (e : Event) (s : LogClients)
      → IsOther id e
      → IsListening id sent s
      → Steps e s (IsListening id (sent ++ messages (e ∷ [])))
  unfolding Steps IsOther messages log_step send
  IsListening-Steps id sent (connects j) s ne (at, once) = rw (append-nil sent) (
    _,
    refl,
    (
      other-IsAt id j (λ _. new_channel) _ _ s ne (connected-log j s at.log) at,
      hooks_of-add_hook_ne id j s.stats ne ∙ once,
    ),
  )
  IsListening-Steps id sent (closes j) s ne (at, once) =
      rw (append-nil sent) (_, refl, (other-IsAt id j close_channel _ _ s ne at.log at, once))
  IsListening-Steps id sent (removes j) s ne (at, once) = rw (append-nil sent) (
    _,
    refl,
    (
      record { log = removed-log j s at.log; channel = at.channel },
      hooks_of-delete_hook_ne id j s.stats ne ∙ once,
    ),
  )
  IsListening-Steps id sent (adds c) s other (at, once) = (
    _,
    adds-done c s at.log.0 at.log.1,
    (
      record {
        log = (c ∷ at.log.0, (insert-Holds c s.stats at.log.0 at.log.1).1);
        channel = call_hooks_once marshal id c s.stats.hooks s.channels once ∙ rw at.channel refl;
      },
      once,
    ),
  )

  pub IsClosed-Steps :
      (id : Str) (sent : List Str) (e : Event) (s : LogClients)
      → IsNoConnect id e
      → IsClosed id sent s
      → Steps e s (IsClosed id sent)
  unfolding Steps IsNoConnect log_step
  IsClosed-Steps id sent (connects j) s ne at =
      (_, refl, other-IsAt id j (λ _. new_channel) _ _ s ne (connected-log j s at.log) at)
  IsClosed-Steps id sent (closes j) s any at = elim (Str-discrete j id) [
    | yes p ↦ (
      _,
      refl,
      record {
        log = at.log;
        channel = rw p (at_client_self id close_channel s.channels ∙ ap close_channel at.channel);
      },
    )
    | no p ↦ (_, refl, other-IsAt id j close_channel _ _ s p at.log at)
  ]
  IsClosed-Steps id sent (removes j) s any at =
      (_, refl, record { log = removed-log j s at.log; channel = at.channel })
  IsClosed-Steps id sent (adds c) s any at = (
    _,
    adds-done c s at.log.0 at.log.1,
    record {
      log = (c ∷ at.log.0, (insert-Holds c s.stats at.log.0 at.log.1).1);
      channel =
          call_hooks_closed marshal id c s.stats.hooks s.channels (ap (λ ch. ch.is_open) at.channel)
          ∙ at.channel;
    },
  )
