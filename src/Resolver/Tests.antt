-- ===== src/Resolver/Tests.antt =====
-- The theorems on the resolvers, at a network that gives connections in order, that finds
-- connection 7 closed, and that drops a number of exchanges.
use dinosaur_dns.Common.{
  ℕ, ◌+◌, ◌-◌, ◌≤◌, ◌≡◌, refl, [], ◌∷◌, none, some, length, ◌==◌, if◌then◌else◌, arith, Bool-cases,
  inl, inr,
}
use dinosaur_dns.Common.Results.{ok}
use dinosaur_dns.Common.Strings.{codes, has_prefix, trim_prefix}
use dinosaur_dns.Dns.Sample.{sample_query, sample_response}
use dinosaur_dns.Resolver.{eof, timeout, is_transient_conn_err}
use dinosaur_dns.Resolver.Dot.{Network, DotResolver, Returned, resolve, new_dot_resolver}
use dinosaur_dns.Resolver.Dot.Ownership.{IsAccounted, resolve-IsAccounted}
use dinosaur_dns.Resolver.Dot.Bounds.{resolve-pool}
use dinosaur_dns.Resolver.Dot.Attempts.{IsOutcome, resolve-IsOutcome}
use dinosaur_dns.Resolver.Dot.Serving.{Answer, Exchanges, Dials, IsServing, resolve-answered}

-- The number of the next connection, and of the exchanges to drop.
abbrev TestNet : Type 0
TestNet = ℕ × ℕ

exchange : TestNet → TestNet × Returned
exchange (next, faults) =
    if faults == 0
    then ((next, 0), (some sample_response, none))
    else ((next, faults - 1), (none, some eof))

abbrev net : Network TestNet
net = record {
  dial = λ address w. ((w.0 + 1, w.1), ok w.0);
  read = λ c w. (w, some (if c == 7 then eof else timeout));
  exchange_with_conn = λ q c w. exchange w;
  close = λ c w. w;
}

abbrev faults_of : TestNet → ℕ
faults_of w = w.1

exchange-Exchanges : (w : TestNet) → Exchanges faults_of w (exchange w)
unfolding exchange Exchanges is_transient_conn_err
exchange-Exchanges (next, faults) = elim (Bool-cases (faults == 0)) [
  | inl e ↦ rw e (omega arith)
  | inr e ↦ rw e (refl, ground arith)
]

serving : IsServing net faults_of
unfolding Dials
serving = record {
  dials = λ address w. omega arith;
  reads = λ c w. omega arith;
  closes = λ c w. omega arith;
  exchanges = λ q c w. exchange-Exchanges w;
}

-- A pool of the dead connection 7 and of 3, and two exchanges to be dropped
abbrev resolver : DotResolver TestNet
resolver = record (new_dot_resolver (codes "tls://1.1.1.1:853") (8, 2)) {
  pool = 7 ∷ 3 ∷ [];
  dialled = 7 ∷ 3 ∷ [];
}

address :
    (new_dot_resolver {W = TestNet} (codes "tls://1.1.1.1:853") (8, 2)).address
    ≡ codes "1.1.1.1:853"
unfolding new_dot_resolver trim_prefix has_prefix
address = refl

resolve-answered_example : Answer (resolve net sample_query resolver).1
unfolding new_dot_resolver
resolve-answered_example =
    resolve-answered net faults_of serving sample_query resolver (omega arith)

accounted : IsAccounted [] resolver
unfolding IsAccounted new_dot_resolver
accounted c = ground arith

resolve-IsAccounted_example : IsAccounted [] (resolve net sample_query resolver).0
resolve-IsAccounted_example = resolve-IsAccounted net sample_query [] resolver accounted

resolve-pool_example : length (resolve net sample_query resolver).0.pool ≤ 5
resolve-pool_example = resolve-pool net sample_query resolver (omega arith)

resolve-IsOutcome_example :
    IsOutcome (3 + length resolver.exchanged) (resolve net sample_query resolver)
resolve-IsOutcome_example = resolve-IsOutcome net sample_query resolver
