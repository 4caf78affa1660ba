-- ===== src/Resolver/Dot/Bounds.antt =====
-- resolver.go, DotResolver: the pool stays within its size, and Resolve within its attempts.
use dinosaur_dns.Common.{
  ℕ, zero, suc, ◌≤◌, ◌≡◌, refl, List, [], ◌∷◌, none, some, length, length-append, inl, inr,
  Bool-cases, arith,
}
use dinosaur_dns.Common.Results.{Result, ok, fail}
use dinosaur_dns.Dns.{Msg}
use dinosaur_dns.Resolver.{NetError}
use dinosaur_dns.Resolver.Dot.{
  Network, DotResolver, Returned, dot_pool_size, is_alive, close_conn, dialled_to, new_conn,
  get_from, get_conn, max_attempts, put_conn, exchange_on, after_exchange, attempt_with, attempt,
  attempts, resolve,
}

module _ {W : Type 0} (net : Network W) where
  -- getConn sends no query, and takes connections out of the pool only.
  dialled_to-keeps :
      (s : DotResolver W) (got : W × Result NetError ℕ)
      → ((dialled_to net s got).0.pool ≡ s.pool)
        × ((dialled_to net s got).0.exchanged ≡ s.exchanged)
  unfolding dialled_to
  dialled_to-keeps s (w, ok c) = (refl, refl)
  dialled_to-keeps s (w, fail e) = (refl, refl)

  get_from-keeps :
      (pool : List ℕ) (s : DotResolver W)
      → (length (get_from net pool s).0.pool ≤ length pool)
        × ((get_from net pool s).0.exchanged ≡ s.exchanged)
  unfolding get_from new_conn close_conn
  get_from-keeps [] s =
      let kept = dialled_to-keeps (record s { pool = [] }) (net.dial s.address s.network) in
      (rw kept.0 (omega arith), kept.1)
  get_from-keeps (c ∷ pool) s =
      let got = net.read c s.network in
      let next =
        get_from-keeps pool (close_conn net c (record s { pool = pool; network = got.0 })) in
      elim (Bool-cases (is_alive got.1)) [
        | inl e ↦ rw e (omega arith, refl)
        | inr e ↦ rw e (omega (arith, next.0), next.1)
      ]

  pub get_conn-keeps :
      (s : DotResolver W)
      → (length (get_conn net s).0.pool ≤ length s.pool)
        × ((get_conn net s).0.exchanged ≡ s.exchanged)
  unfolding get_conn
  get_conn-keeps s = get_from-keeps s.pool s

  put_conn-pool :
      (c : ℕ) (s : DotResolver W)
      → length s.pool ≤ dot_pool_size
      → length (put_conn net c s).pool ≤ dot_pool_size
  unfolding put_conn close_conn
  put_conn-pool c s fits = ground (arith, length-append s.pool (c ∷ []))

  attempt_with-pool :
      (q : Msg) (last : Returned) (s : DotResolver W) (got : Result NetError ℕ)
      → length s.pool ≤ dot_pool_size
      → length (attempt_with net q last (s, got)).0.pool ≤ dot_pool_size
  unfolding attempt_with after_exchange close_conn exchange_on
  attempt_with-pool q last s (fail e) fits = fits
  attempt_with-pool q last s (ok c) fits =
      by_error (exchange_on net q c s).0 (exchange_on net q c s).1 fits
    where
      by_error :
          (s' : DotResolver W) (ret : Returned)
          → length s'.pool ≤ dot_pool_size
          → length (after_exchange net c (s', ret)).0.pool ≤ dot_pool_size
      by_error s' (out, none) fits' = put_conn-pool c s' fits'
      by_error s' (out, some e) fits' = fits'

  attempts-pool :
      (n : ℕ) (q : Msg) (last : Returned) (s : DotResolver W)
      → length s.pool ≤ dot_pool_size
      → length (attempts net n q last s).0.pool ≤ dot_pool_size
  unfolding attempts attempt
  attempts-pool zero q last s fits = fits
  attempts-pool (suc n) q last s fits =
      let got = get_conn net s in
      let once = attempt_with-pool q last got.0 got.1 (omega (arith, (get_conn-keeps s).0)) in
      elim (Bool-cases (attempt net q last s).2) [
        | inl e ↦ rw e once
        | inr e ↦ rw e (attempts-pool n q _ _ once)
      ]

  -- Whatever the network does, Resolve keeps the pool of idle connections within its size.
  pub resolve-pool :
      (q : Msg) (s : DotResolver W)
      → length s.pool ≤ dot_pool_size
      → length (resolve net q s).0.pool ≤ dot_pool_size
  unfolding resolve
  resolve-pool q s fits = attempts-pool max_attempts q (none, none) s fits
