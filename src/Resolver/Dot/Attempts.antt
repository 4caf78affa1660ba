-- ===== src/Resolver/Dot/Attempts.antt =====
-- resolver.go, DotResolver: when Resolve gives up, and when it cannot fail.
use mathlib.Core.Path.{subst}
use dinosaur_dns.Common.{
  ℕ, zero, suc, ◌+◌, ◌≤◌, ◌≡◌, refl, ap, Bool, true, false, List, [], ◌∷◌, none, some, length,
  if◌then◌else◌, inl, inr, Bool-cases, arith, ◌⊎◌,
}
use dinosaur_dns.Common.Results.{Result, ok, fail}
use dinosaur_dns.Common.Strings.{codes}
use dinosaur_dns.Dns.{Msg}
use dinosaur_dns.Resolver.{NetError, wrap, is_transient_conn_err}
use dinosaur_dns.Resolver.Dot.{
  Network, DotResolver, Returned, is_alive, close_conn, dialled_to, new_conn, get_from, get_conn,
  max_attempts, put_conn, exchange_on, after_exchange, attempt_with, attempt, attempts, resolve,
}
use dinosaur_dns.Resolver.Dot.Bounds.{get_conn-keeps}

-- An error that ends Resolve at once: Dial failed, or the error is not a transient one.
unfoldable pub IsDialError : NetError → Type 0
IsDialError e = (cause : NetError) × (e ≡ wrap (codes "DoT dial: ") cause)

unfoldable pub IsFinal : NetError → Type 0
IsFinal e = IsDialError e ⊎ (is_transient_conn_err e ≡ false)

-- What Resolve ends with, if it may send until `limit` queries are sent: if with an error, then
-- with a final one or after the last query.
unfoldable pub IsOutcome : {W : Type 0} → ℕ → DotResolver W × Returned → Type 0
IsOutcome limit (s, (out, none)) = length s.exchanged ≤ limit
IsOutcome limit (s, (out, some e)) =
    (length s.exchanged ≤ limit) × (IsFinal e ⊎ (length s.exchanged ≡ limit))

-- An attempt ends Resolve with no error or with a final one, or else it has sent the query.
unfoldable IsAttempt : {W : Type 0} → ℕ → DotResolver W × Returned × Bool → Type 0
IsAttempt sent (s, (out, none), done) = (done ≡ true) × (length s.exchanged ≤ suc sent)
IsAttempt sent (s, (out, some e), true) = (IsFinal e) × (length s.exchanged ≤ suc sent)
IsAttempt sent (s, (out, some e), false) = length s.exchanged ≡ suc sent

-- getConn fails with the error of Dial only.
unfoldable IsTaken : Result NetError ℕ → Type 0
IsTaken (ok c) = Unit
IsTaken (fail e) = IsDialError e

module _ {W : Type 0} (net : Network W) where
  dialled_to-IsTaken :
      (s : DotResolver W) (got : W × Result NetError ℕ) → IsTaken (dialled_to net s got).1
  unfolding dialled_to IsTaken IsDialError
  dialled_to-IsTaken s (w, ok c) = tt
  dialled_to-IsTaken s (w, fail e) = (e, refl)

  get_from-IsTaken : (pool : List ℕ) (s : DotResolver W) → IsTaken (get_from net pool s).1
  unfolding get_from new_conn IsTaken
  get_from-IsTaken [] s = dialled_to-IsTaken _ _
  get_from-IsTaken (c ∷ pool) s =
      let next =
        get_from-IsTaken pool
          (close_conn net c (record s { pool = pool; network = (net.read c s.network).0 })) in
      elim (Bool-cases (is_alive (net.read c s.network).1)) [ inl e ↦ rw e tt | inr e ↦ rw e next ]

  put_conn-exchanged : (c : ℕ) (s : DotResolver W) → (put_conn net c s).exchanged ≡ s.exchanged
  unfolding put_conn close_conn
  put_conn-exchanged c s = ground arith

  after_exchange-IsAttempt :
      (c sent : ℕ) (s : DotResolver W) (ret : Returned)
      → length s.exchanged ≡ suc sent
      → IsAttempt sent (after_exchange net c (s, ret))
  unfolding after_exchange IsAttempt IsFinal close_conn
  after_exchange-IsAttempt c sent s (out, none) e =
      (refl, rw (put_conn-exchanged c s) (omega arith))
  after_exchange-IsAttempt c sent s (out, some err) e =
      elim (Bool-cases (is_transient_conn_err err)) [
        | inl t ↦ rw t e
        | inr t ↦ rw t (inr t, omega arith)
      ]

  attempt_with-IsAttempt :
      (q : Msg) (last : Returned) (sent : ℕ) (s : DotResolver W) (got : Result NetError ℕ)
      → length s.exchanged ≡ sent
      → IsTaken got
      → IsAttempt sent (attempt_with net q last (s, got))
  unfolding attempt_with exchange_on IsAttempt IsFinal IsTaken
  attempt_with-IsAttempt q last sent s (fail err) e taken = (inl taken, omega arith)
  attempt_with-IsAttempt q last sent s (ok c) e taken =
      after_exchange-IsAttempt c sent (exchange_on net q c s).0 (exchange_on net q c s).1 (ap suc e)

  attempt-IsAttempt :
      (q : Msg) (last : Returned) (s : DotResolver W)
      → IsAttempt (length s.exchanged) (attempt net q last s)
  unfolding attempt get_conn
  attempt-IsAttempt q last s =
      attempt_with-IsAttempt q last _ (get_conn net s).0 (get_conn net s).1
        (ap length (get_conn-keeps net s).1) (get_from-IsTaken s.pool s)

  -- From one attempt to the loop.
  then-IsOutcome :
      (n sent : ℕ) (got : DotResolver W × Returned × Bool) (rest : DotResolver W × Returned)
      → IsAttempt sent got
      → (length got.0.exchanged ≡ suc sent → IsOutcome (n + suc sent) rest)
      → IsOutcome (suc n + sent) (if got.2 then (got.0, got.1) else rest)
  unfolding IsAttempt IsOutcome
  then-IsOutcome n sent (s, (out, none), done) rest a next = rw a.0 (omega (arith, a.1))
  then-IsOutcome n sent (s, (out, some e), true) rest a next = (omega (arith, a.1), inl a.0)
  then-IsOutcome n sent (s, (out, some e), false) rest a next =
      let same : suc n + sent ≡ n + suc sent = omega arith in rw same (next a)

  attempts-IsOutcome :
      (n : ℕ) (q : Msg) (last : Returned) (s : DotResolver W)
      → IsOutcome (n + length s.exchanged) (attempts net n q last s)
  unfolding attempts IsOutcome
  attempts-IsOutcome zero q (out, none) s = omega arith
  attempts-IsOutcome zero q (out, some e) s = (omega arith, inr (omega arith))
  attempts-IsOutcome (suc n) q last s =
      let got = attempt net q last s in
      then-IsOutcome n _ got (attempts net n q got.1 got.0) (attempt-IsAttempt q last s) (λ e.
        subst (λ k. IsOutcome (n + k) (attempts net n q got.1 got.0)) e
          (attempts-IsOutcome n q got.1 got.0))

  -- Resolve sends a query at most three times. If it returns an error then Dial failed, or the
  -- error is not a transient one, or the query was sent three times.
  pub resolve-IsOutcome :
      (q : Msg) (s : DotResolver W) → IsOutcome (3 + length s.exchanged) (resolve net q s)
  unfolding resolve
  resolve-IsOutcome q s = attempts-IsOutcome max_attempts q (none, none) s
