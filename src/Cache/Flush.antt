-- ===== src/Cache/Flush.antt =====
-- Flush: what it counts and what stays, and that no later Get can tell that it ran.
use dinosaur_dns.Common.{
  ℕ, ◌+◌, ◌≤◌, ◌≡◌, refl, sym, ap, ◌∙◌, [], ◌∷◌, Option, none, some, lookup, inl, inr, length,
  arith, Bool-cases, Option-cases, if◌then◌else◌,
}
use dinosaur_dns.Dns.{Msg}
use dinosaur_dns.Cache.{
  DnsCacheKey, DnsCacheKey-discrete, DnsCacheItem, DnsCache, get_item, expired, reply_for, get_key,
  flush,
}
use dinosaur_dns.Cache.Invariant.{IsValid, UniqueKeys, EveryValue, ItemIsValid}

-- An entry, unless it has expired.
abbrev pub unexpired : ℕ → Option DnsCacheItem → Option DnsCacheItem
unexpired now none = none
unexpired now (some item) = if expired item now then none else some item

get_item-flush :
    (k : DnsCacheKey) (now : ℕ) (c : DnsCache)
    → UniqueKeys DnsCacheKey-discrete c
    → get_item k (flush now c).0 ≡ unexpired now (get_item k c)
unfolding flush lookup
get_item-flush k now [] u = refl
get_item-flush k now ((j, item) ∷ c) u = ground (arith, get_item-flush k now c u.1)

-- Flush counts all entries and the expired ones, and the rest stays.
flush_counts :
    (now : ℕ) (c : DnsCache)
    → let (kept, total, gone) = flush now c in (total ≡ length c) × (length kept + gone ≡ total)
unfolding flush
flush_counts now [] = (refl, refl)
flush_counts now ((k, item) ∷ c) = ground (arith, flush_counts now c)

flush-UniqueKeys :
    (now : ℕ) (c : DnsCache)
    → UniqueKeys DnsCacheKey-discrete c
    → UniqueKeys DnsCacheKey-discrete (flush now c).0
unfolding flush
flush-UniqueKeys now [] u = tt
flush-UniqueKeys now ((k, item) ∷ c) u =
    ground (arith, get_item-flush k now c u.1, flush-UniqueKeys now c u.1)

flush-EveryValue :
    (P : DnsCacheItem → Type 0) (now : ℕ) (c : DnsCache)
    → EveryValue DnsCacheKey-discrete P c
    → EveryValue DnsCacheKey-discrete P (flush now c).0
unfolding flush
flush-EveryValue P now [] h = tt
flush-EveryValue P now ((k, item) ∷ c) h = elim (Bool-cases (expired item now)) [
  | inl e ↦ rw e (flush-EveryValue P now c h.1)
  | inr e ↦ rw e (h.0, flush-EveryValue P now c h.1)
]

pub flush-IsValid : (now : ℕ) (c : DnsCache) → IsValid c → IsValid (flush now c).0
flush-IsValid now c v = record {
  unique = flush-UniqueKeys now c v.unique;
  sound = flush-EveryValue ItemIsValid now c v.sound;
}

-- Flush removes exactly the expired entries: an entry is found after it exactly when it was found
-- before it and had not expired. It reports how many entries there were and how many it removed.
pub flush_lem :
    (now : ℕ) (c : DnsCache)
    → IsValid c
    → let (kept, total, gone) = flush now c in
      ((k : DnsCacheKey) → get_item k kept ≡ unexpired now (get_item k c))
      × (total ≡ length c)
      × (length kept + gone ≡ total)
flush_lem now c v =
    let (total_eq, gone_eq) = flush_counts now c in
    (λ k. get_item-flush k now c v.unique, total_eq, gone_eq)

-- What Get answers for an entry.
unfoldable pub answer : Msg → ℕ → ℕ → Option DnsCacheItem → Option Msg
answer query t t' none = none
answer query t t' (some item) = if expired item t then none else some (reply_for item query t')

pub get_key-answer :
    (k : DnsCacheKey) (query : Msg) (t t' : ℕ) (c : DnsCache)
    → (get_key k query t t' c).1 ≡ answer query t t' (get_item k c)
unfolding get_key answer
get_key-answer k query t t' c = elim (Option-cases (get_item k c)) [
  | inl e ↦ rw (e, get_key)
  | inr (item, e) ↦ rw (e, get_key) (ground arith)
]

answer-unexpired :
    (query : Msg) (now t t' : ℕ) (o : Option DnsCacheItem)
    → now ≤ t
    → answer query t t' (unexpired now o) ≡ answer query t t' o
unfolding answer expired
answer-unexpired query now t t' none h = refl
answer-unexpired query now t t' (some item) h = ground arith

-- A Flush is not seen by any later Get: it answers what it would have answered without it.
pub get_key-flush :
    (k : DnsCacheKey) (query : Msg) (now t t' : ℕ) (c : DnsCache)
    → IsValid c
    → now ≤ t
    → (get_key k query t t' (flush now c).0).1 ≡ (get_key k query t t' c).1
get_key-flush k query now t t' c v h =
    get_key-answer k query t t' (flush now c).0
    ∙ ap (answer query t t') (get_item-flush k now c v.unique)
    ∙ answer-unexpired query now t t' (get_item k c) h
    ∙ sym (get_key-answer k query t t' c)
