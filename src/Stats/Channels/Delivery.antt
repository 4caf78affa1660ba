-- ===== src/Stats/Channels/Delivery.antt =====
-- statshandler/stats.go and api/log.go: the messages that a client of the query log gets.
use mathlib.Core.List.{append_assoc, append-nil}
use dinosaur_dns.Common.{◌≡◌, refl, sym, false, List, [], ◌∷◌, ◌++◌, some, Str, All}
use dinosaur_dns.Stats.{ConnectionLog}
use dinosaur_dns.Stats.Buffer.Invariant.{Holds}
use dinosaur_dns.Stats.Channels.{LogClients, Event, connects, closes, removes, adds, log_steps}
use dinosaur_dns.Stats.Channels.Clients.{
  IsOther, IsNoConnect, IsListening, IsClosed, messages, Steps, connects-Steps, closes-Steps,
  IsListening-Steps, IsClosed-Steps,
}

module _ (marshal : ConnectionLog → Str) where
  -- Any events, one after the other
  Runs : List Event → LogClients → (LogClients → Type 0) → Type 0
  Runs events s P = (s' : LogClients) × (log_steps marshal events s ≡ some s') × P s'

  Steps-Runs :
      (P Q : LogClients → Type 0) (e : Event) (events : List Event) (s : LogClients)
      → Steps marshal e s P
      → ((s' : LogClients) → P s' → Runs events s' Q)
      → Runs (e ∷ events) s Q
  unfolding Steps Runs log_steps
  Steps-Runs P Q e events s (s', stepped, p) next =
      let (s'', ran, q) = next s' p in (s'', rw (stepped, log_steps) ran, q)

  IsClosed-Runs :
      (id : Str) (sent : List Str) (events : List Event) (s : LogClients)
      → All (IsNoConnect id) events
      → IsClosed id sent s
      → Runs events s (IsClosed id sent)
  unfolding Runs log_steps
  IsClosed-Runs id sent [] s all at = (s, refl, at)
  IsClosed-Runs id sent (e ∷ events) s all at =
      Steps-Runs _ _ e events s (IsClosed-Steps marshal id sent e s all.0 at)
        (λ s' at'. IsClosed-Runs id sent events s' all.1 at')

  messages-cons :
      (e : Event) (events : List Event)
      → messages marshal (e ∷ events) ≡ messages marshal (e ∷ []) ++ messages marshal events
  unfolding messages
  messages-cons (connects j) events = refl
  messages-cons (closes j) events = refl
  messages-cons (removes j) events = refl
  messages-cons (adds c) events = refl

  IsListening-Runs :
      (id : Str) (sent : List Str) (before after : List Event) (s : LogClients)
      → All (IsOther id) before
      → All (IsNoConnect id) after
      → IsListening id sent s
      → Runs (before ++ (closes id ∷ after)) s (IsClosed id (sent ++ messages marshal before))
  unfolding messages
  IsListening-Runs id sent [] after s others rest listening = rw (append-nil sent) (
      Steps-Runs _ _ (closes id) after s (closes-Steps marshal id sent s listening)
        (λ s' at'. IsClosed-Runs id sent after s' rest at'))
  IsListening-Runs id sent (e ∷ before) after s others rest listening =
      rw
        (
          messages-cons e before,
          sym (append_assoc sent (messages marshal (e ∷ [])) (messages marshal before)),
        )
        (Steps-Runs _ _ e (before ++ (closes id ∷ after)) s
          (IsListening-Steps marshal id sent e s others.0 listening)
          (λ s' listening'.
            IsListening-Runs id (sent ++ messages marshal (e ∷ [])) before after s' others.1 rest
              listening'))

  -- A client of the query log that connects and goes, with any other events in between and
  -- afterwards, is sent every item added in between once, in order, and nothing else; no event
  -- panics. The query log is to have its invariant, and the client to connect only once.
  pub log_steps-messages :
      (id : Str) (before after : List Event) (s : LogClients) (history : List ConnectionLog)
      → Holds s.stats history
      → All (IsOther id) before
      → All (IsNoConnect id) after
      → (s' : LogClients) × (log_steps marshal (connects id ∷ (before ++ (closes id ∷ after))) s
          ≡ some s')
        × (s'.channels id ≡ record { is_open = false; sent = messages marshal before })
  unfolding Runs
  log_steps-messages id before after s history holds others rest =
      let (s', ran, at) =
        Steps-Runs _ _ (connects id) (before ++ (closes id ∷ after)) s
          (connects-Steps marshal id s history holds)
          (λ s'' listening. IsListening-Runs id [] before after s'' others rest listening) in
      (s', ran, at.channel)
