-- ===== src/Resolver/Dot.antt =====
-- resolver.go, DotResolver: the pool of idle connections to a DoT upstream, and Resolve. A
-- connection is known by a number that Dial gives. The network is a parameter: `W` is its state,
-- and each call of it gives the state after. Beside the pool stand the connections that Dial gave
-- and that were closed, and those that a query was sent on, latest first: they record the calls.
pub mod Ownership
pub mod Bounds
pub mod Attempts
pub mod Serving
use dinosaur_dns.Common.{
  ℕ, zero, suc, Bool, true, false, List, [], ◌∷◌, ◌++◌, Option, none, some, Str, length, ltb,
  if◌then◌else◌,
}
use dinosaur_dns.Common.Results.{Result, ok, fail}
use dinosaur_dns.Common.Strings.{codes, trim_prefix}
use dinosaur_dns.Dns.{Msg}
use dinosaur_dns.Resolver.{NetError, timeout, wrap, is_transient_conn_err}

-- (out, err)
abbrev pub Returned : Type 0
Returned = Option Msg × Option NetError

-- Client.Dial, Conn.Read within the deadline, Client.ExchangeWithConn and Conn.Close
pub record Network (W : Type 0) : Type 0 where
  pub dial : Str → W → W × Result NetError ℕ
  pub read : ℕ → W → W × Option NetError
  pub exchange_with_conn : Msg → ℕ → W → W × Returned
  pub close : ℕ → W → W

pub record DotResolver (W : Type 0) : Type 0 where
  pub address : Str
  pub pool : List ℕ
  pub dialled : List ℕ
  pub closed : List ℕ
  pub exchanged : List ℕ
  pub network : W

abbrev pub dot_pool_size : ℕ
dot_pool_size = 5

abbrev pub max_attempts : ℕ
max_attempts = 3

-- isAlive, by the error of the read
unfoldable pub is_alive : Option NetError → Bool
is_alive (some timeout) = true
is_alive (some _) = false
is_alive none = true

module _ {W : Type 0} (net : Network W) where
  open net use {dial, read, exchange_with_conn, close}

  -- c.conn.Close()
  unfoldable pub close_conn : ℕ → DotResolver W → DotResolver W
  close_conn c s = record s { closed = c ∷ s.closed; network = close c s.network }

  unfoldable pub dialled_to :
      DotResolver W → W × Result NetError ℕ → DotResolver W × Result NetError ℕ
  dialled_to s (w, ok c) = (record s { dialled = c ∷ s.dialled; network = w }, ok c)
  dialled_to s (w, fail e) = (record s { network = w }, fail (wrap (codes "DoT dial: ") e))

  unfoldable pub new_conn : DotResolver W → DotResolver W × Result NetError ℕ
  new_conn s = dialled_to s (dial s.address s.network)

  -- getConn, for the connections in the pool: a dead one is closed and skipped.
  unfoldable pub get_from : List ℕ → DotResolver W → DotResolver W × Result NetError ℕ
  get_from [] s = new_conn (record s { pool = [] })
  get_from (c ∷ pool) s =
      let got = read c s.network in
      let s' = record s { pool = pool; network = got.0 } in
      let next = get_from pool (close_conn c s') in if is_alive got.1 then (s', ok c) else next

  unfoldable pub get_conn : DotResolver W → DotResolver W × Result NetError ℕ
  get_conn s = get_from s.pool s

  unfoldable pub put_conn : ℕ → DotResolver W → DotResolver W
  put_conn c s =
      if ltb (length s.pool) dot_pool_size
      then record s { pool = s.pool ++ (c ∷ []) }
      else close_conn c s

  -- ExchangeWithConn on a connection
  unfoldable pub exchange_on : Msg → ℕ → DotResolver W → DotResolver W × Returned
  exchange_on q c s =
      let got = exchange_with_conn q c s.network in
      (record s { exchanged = c ∷ s.exchanged; network = got.0 }, got.1)

  -- The rest of one attempt, after the exchange: to return, or to try again.
  unfoldable pub after_exchange : ℕ → DotResolver W × Returned → DotResolver W × Returned × Bool
  after_exchange c (s, (out, none)) = (put_conn c s, (out, none), true)
  after_exchange c (s, (out, some e)) =
      (close_conn c s, (out, some e), if is_transient_conn_err e then false else true)

  -- One attempt: the new state, (out, err), and whether Resolve returns them.
  unfoldable pub attempt_with :
      Msg → Returned → DotResolver W × Result NetError ℕ → DotResolver W × Returned × Bool
  attempt_with q last (s, fail e) = (s, (last.0, some e), true)
  attempt_with q last (s, ok c) = after_exchange c (exchange_on q c s)

  unfoldable pub attempt : Msg → Returned → DotResolver W → DotResolver W × Returned × Bool
  attempt q last s = attempt_with q last (get_conn s)

  -- The loop, with the number of attempts left.
  unfoldable pub attempts : ℕ → Msg → Returned → DotResolver W → DotResolver W × Returned
  attempts zero q last s = (s, last)
  attempts (suc n) q last s =
      let got = attempt q last s in
      let rest = attempts n q got.1 got.0 in if got.2 then (got.0, got.1) else rest

  -- Resolve
  unfoldable pub resolve : Msg → DotResolver W → DotResolver W × Returned
  resolve q s = attempts max_attempts q (none, none) s

-- NewDotResolver
unfoldable pub new_dot_resolver : {W : Type 0} → Str → W → DotResolver W
new_dot_resolver upstream w = record {
  address = trim_prefix upstream (codes "tls://");
  pool = [];
  dialled = [];
  closed = [];
  exchanged = [];
  network = w;
}
