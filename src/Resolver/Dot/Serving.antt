-- ===== src/Resolver/Dot/Serving.antt =====
-- resolver.go, DotResolver: Resolve against an upstream that can be dialled, and that drops
-- connections now and then.
use dinosaur_dns.Common.{
  ℕ, zero, suc, ◌≤◌, ◌<◌, ◌≡◌, refl, Bool, true, false, List, [], ◌∷◌, none, some, if◌then◌else◌,
  inl, inr, Bool-cases, arith, Str,
}
use dinosaur_dns.Common.Results.{Result, ok, fail}
use dinosaur_dns.Dns.{Msg}
use dinosaur_dns.Resolver.{NetError, is_transient_conn_err}
use dinosaur_dns.Resolver.Dot.{
  Network, DotResolver, Returned, is_alive, close_conn, dialled_to, new_conn, get_from, get_conn,
  max_attempts, exchange_on, after_exchange, attempt_with, attempt, attempts, resolve,
}

-- An exchange succeeds, or fails with a transient error and there is one fault less to come.
unfoldable pub Exchanges : {W : Type 0} → (W → ℕ) → W → W × Returned → Type 0
Exchanges faults w (w', (none, none)) = ⊥
Exchanges faults w (w', (some m, none)) = faults w' ≤ faults w
Exchanges faults w (w', (out, some e)) = (is_transient_conn_err e ≡ true) × (faults w' < faults w)

unfoldable pub Dials : {W : Type 0} → (W → ℕ) → W → W × Result NetError ℕ → Type 0
Dials faults w (w', ok c) = faults w' ≤ faults w
Dials faults w (w', fail e) = ⊥

-- A response and no error.
unfoldable pub Answer : Returned → Type 0
Answer ret = (m : Msg) × (ret ≡ (some m, none))

-- An upstream that can always be dialled, with a number of faults still to come: exchanges that
-- find their connection dropped.
pub record IsServing {W : Type 0} (net : Network W) (faults : W → ℕ) : Type 0 where
  pub dials : (address : Str) (w : W) → Dials faults w (net.dial address w)
  pub reads : (c : ℕ) (w : W) → faults (net.read c w).0 ≤ faults w
  pub closes : (c : ℕ) (w : W) → faults (net.close c w) ≤ faults w
  pub exchanges : (q : Msg) (c : ℕ) (w : W) → Exchanges faults w (net.exchange_with_conn q c w)

module _ {W : Type 0} (net : Network W) (faults : W → ℕ) (serving : IsServing net faults) where
  open serving use {dials, reads, closes, exchanges}

  -- A connection was handed out, and at most `k` faults are still to come.
  unfoldable HasConn : ℕ → DotResolver W × Result NetError ℕ → Type 0
  HasConn k (s, ok c) = faults s.network ≤ k
  HasConn k (s, fail e) = ⊥

  dialled_to-HasConn :
      (k : ℕ) (s : DotResolver W) (got : W × Result NetError ℕ)
      → faults s.network ≤ k
      → Dials faults s.network got
      → HasConn k (dialled_to net s got)
  unfolding dialled_to HasConn Dials
  dialled_to-HasConn k s (w, ok c) few d = omega arith
  dialled_to-HasConn k s (w, fail e) few d = absurd d

  get_from-HasConn :
      (k : ℕ) (pool : List ℕ) (s : DotResolver W)
      → faults s.network ≤ k
      → HasConn k (get_from net pool s)
  unfolding get_from new_conn close_conn HasConn
  get_from-HasConn k [] s few = dialled_to-HasConn k _ _ few (dials s.address s.network)
  get_from-HasConn k (c ∷ pool) s few =
      let got = net.read c s.network in
      let s' = record s { pool = pool; network = got.0 } in
      elim (Bool-cases (is_alive got.1)) [
        | inl e ↦ rw e (omega (arith, reads c s.network))
        | inr e ↦ rw e (
            get_from-HasConn k pool (close_conn net c s')
              (omega (arith, reads c s.network, closes c got.0)))
      ]

  -- The attempt answered, or is to be repeated with one fault less.
  unfoldable Progress : ℕ → DotResolver W × Returned × Bool → Type 0
  Progress k (s, (out, none), done) = (done ≡ true) × Answer (out, none)
  Progress k (s, (out, some e), done) = (done ≡ false) × (faults s.network < k)

  after_exchange-Progress :
      (k c : ℕ) (w : W) (s : DotResolver W) (ret : Returned)
      → faults w ≤ k
      → Exchanges faults w (s.network, ret)
      → Progress k (after_exchange net c (s, ret))
  unfolding after_exchange close_conn Progress Exchanges Answer
  after_exchange-Progress k c w s (none, none) few e = absurd e
  after_exchange-Progress k c w s (some m, none) few e = (refl, (m, refl))
  after_exchange-Progress k c w s (out, some err) few e =
      rw e.0 (refl, omega (arith, e.1, closes c s.network))

  attempt_with-Progress :
      (k : ℕ) (q : Msg) (last : Returned) (s : DotResolver W) (got : Result NetError ℕ)
      → HasConn k (s, got)
      → Progress k (attempt_with net q last (s, got))
  unfolding attempt_with exchange_on HasConn
  attempt_with-Progress k q last s (fail e) few = absurd few
  attempt_with-Progress k q last s (ok c) few =
      after_exchange-Progress k c s.network (exchange_on net q c s).0 (exchange_on net q c s).1 few
        (exchanges q c s.network)

  then-answered :
      (k : ℕ) (got : DotResolver W × Returned × Bool) (rest : DotResolver W × Returned)
      → Progress k got
      → (faults got.0.network < k → Answer rest.1)
      → Answer (if got.2 then (got.0, got.1) else rest).1
  unfolding Progress
  then-answered k (s, (out, none), done) rest p next = rw p.0 p.1
  then-answered k (s, (out, some e), done) rest p next = rw p.0 (next p.1)

  attempts-answered :
      (n : ℕ) (q : Msg) (last : Returned) (s : DotResolver W)
      → faults s.network < n
      → Answer (attempts net n q last s).1
  unfolding attempts attempt get_conn
  attempts-answered zero q last s few = absurd (omega arith)
  attempts-answered (suc n) q last s few =
      let conn = get_conn net s in
      let got = attempt net q last s in
      then-answered n got (attempts net n q got.1 got.0)
        (attempt_with-Progress n q last conn.0 conn.1 (get_from-HasConn n s.pool s (omega arith)))
        (attempts-answered n q got.1 got.0)

  -- An upstream that can always be dialled, and that drops at most two connections during the
  -- call unnoticed by the health check, gets the query answered: Resolve returns a response and no error.
  pub resolve-answered :
      (q : Msg) (s : DotResolver W) → faults s.network ≤ 2 → Answer (resolve net q s).1
  unfolding resolve
  resolve-answered q s few = attempts-answered max_attempts q (none, none) s (omega arith)
