-- ===== src/Resolver/Dot/Ownership.antt =====
-- resolver.go, DotResolver: the pool never holds more than its bound, and no connection is lost.
use dinosaur_dns.Common.{
  ℕ, zero, suc, ◌+◌, ◌≡◌, List, [], ◌∷◌, ◌++◌, none, some, count, count-append, inl, inr,
  Bool-cases, arith,
}
use dinosaur_dns.Common.Results.{Result, ok, fail}
use dinosaur_dns.Dns.{Msg}
use dinosaur_dns.Resolver.{NetError}
use dinosaur_dns.Resolver.Dot.{
  Network, DotResolver, Returned, is_alive, close_conn, dialled_to, new_conn, get_from, get_conn,
  max_attempts, put_conn, exchange_on, after_exchange, attempt_with, attempt, attempts, resolve,
}

-- The connections that a call of getConn handed out.
unfoldable pub taken : Result NetError ℕ → List ℕ
taken (ok c) = c ∷ []
taken (fail e) = []

-- The connections that Dial gave are, each as often, the ones in the pool, the ones that were
-- closed, and the ones that a caller holds.
unfoldable pub IsAccounted : {W : Type 0} → List ℕ → DotResolver W → Type 0
IsAccounted held s =
    (c : ℕ) → count c held + (count c s.pool + count c s.closed) ≡ count c s.dialled

module _ {W : Type 0} (net : Network W) where
  close_conn-IsAccounted :
      (c : ℕ) (held : List ℕ) (s : DotResolver W)
      → IsAccounted (c ∷ held) s
      → IsAccounted held (close_conn net c s)
  unfolding IsAccounted close_conn
  close_conn-IsAccounted c held s accounts x = ground (arith, accounts x)

  dialled_to-IsAccounted :
      (held : List ℕ) (s : DotResolver W) (got : W × Result NetError ℕ)
      → IsAccounted held s
      → let next = dialled_to net s got in IsAccounted (taken next.1 ++ held) next.0
  unfolding IsAccounted dialled_to taken
  dialled_to-IsAccounted held s (w, ok c) accounts x = ground (arith, accounts x)
  dialled_to-IsAccounted held s (w, fail e) accounts x = accounts x

  out_of_pool-IsAccounted :
      (c : ℕ) (pool held : List ℕ) (s : DotResolver W) (w : W)
      → IsAccounted held (record s { pool = c ∷ pool })
      → IsAccounted (c ∷ held) (record s { pool = pool; network = w })
  unfolding IsAccounted
  out_of_pool-IsAccounted c pool held s w accounts x = ground (arith, accounts x)

  get_from-IsAccounted :
      (pool held : List ℕ) (s : DotResolver W)
      → IsAccounted held (record s { pool = pool })
      → let got = get_from net pool s in IsAccounted (taken got.1 ++ held) got.0
  unfolding get_from new_conn close_conn taken
  get_from-IsAccounted [] held s accounts = dialled_to-IsAccounted held _ _ accounts
  get_from-IsAccounted (c ∷ pool) held s accounts =
      let got = net.read c s.network in
      let s' = record s { pool = pool; network = got.0 } in
      let in_hand = out_of_pool-IsAccounted c pool held s got.0 accounts in
      elim (Bool-cases (is_alive got.1)) [
        | inl e ↦ rw e in_hand
        | inr e ↦ rw e (
            get_from-IsAccounted pool held (close_conn net c s')
              (close_conn-IsAccounted c held s' in_hand))
      ]

  pub get_conn-IsAccounted :
      (held : List ℕ) (s : DotResolver W)
      → IsAccounted held s
      → let got = get_conn net s in IsAccounted (taken got.1 ++ held) got.0
  unfolding get_conn
  get_conn-IsAccounted held s accounts = get_from-IsAccounted s.pool held s accounts

  pub put_conn-IsAccounted :
      (c : ℕ) (held : List ℕ) (s : DotResolver W)
      → IsAccounted (c ∷ held) s
      → IsAccounted held (put_conn net c s)
  unfolding IsAccounted put_conn close_conn
  put_conn-IsAccounted c held s accounts x =
      ground (arith, accounts x, count-append x s.pool (c ∷ []))

  after_exchange-IsAccounted :
      (c : ℕ) (held : List ℕ) (s : DotResolver W) (got : Returned)
      → IsAccounted (c ∷ held) s
      → IsAccounted held (after_exchange net c (s, got)).0
  unfolding after_exchange
  after_exchange-IsAccounted c held s (out, none) accounts = put_conn-IsAccounted c held s accounts
  after_exchange-IsAccounted c held s (out, some e) accounts =
      close_conn-IsAccounted c held s accounts

  attempt_with-IsAccounted :
      (q : Msg) (last : Returned) (held : List ℕ) (s : DotResolver W) (got : Result NetError ℕ)
      → IsAccounted (taken got ++ held) s
      → IsAccounted held (attempt_with net q last (s, got)).0
  unfolding attempt_with taken exchange_on IsAccounted
  attempt_with-IsAccounted q last held s (fail e) accounts = accounts
  attempt_with-IsAccounted q last held s (ok c) accounts =
      after_exchange-IsAccounted c held _ _ accounts

  attempts-IsAccounted :
      (n : ℕ) (q : Msg) (last : Returned) (held : List ℕ) (s : DotResolver W)
      → IsAccounted held s
      → IsAccounted held (attempts net n q last s).0
  unfolding attempts attempt
  attempts-IsAccounted zero q last held s accounts = accounts
  attempts-IsAccounted (suc n) q last held s accounts =
      let got = get_conn net s in
      let once =
        attempt_with-IsAccounted q last held got.0 got.1 (get_conn-IsAccounted held s accounts) in
      elim (Bool-cases (attempt net q last s).2) [
        | inl e ↦ rw e once
        | inr e ↦ rw e (attempts-IsAccounted n q _ held _ once)
      ]

  -- Whatever the network does and whatever connections other calls hold, Resolve accounts for all
  -- connections: each one that Dial gave is in the pool, was closed, or is held by another call.
  pub resolve-IsAccounted :
      (q : Msg) (held : List ℕ) (s : DotResolver W)
      → IsAccounted held s
      → IsAccounted held (resolve net q s).0
  unfolding resolve
  resolve-IsAccounted q held s accounts = attempts-IsAccounted max_attempts q _ held s accounts
