-- ===== src/Cache/Invariant.antt =====
-- The invariant of the cache, kept by every method: keys stand once, and no record of a cached
-- answer lapses before the entry expires.
use dinosaur_dns.Common.{
  ℕ, ◌-◌, ◌*◌, ◌≤◌, ◌<◌, ◌≡◌, refl, true, List, [], ◌∷◌, Option, none, some, Map, lookup, insert,
  erase, lookup-insert, lookup-erase, ◌⊎◌, All, arith, if_pos, if_neg, ◌==◌, ltb, if◌then◌else◌,
  not, ◌&&◌,
}
use dinosaur_dns.Dns.{Rr, Msg, type_opt, u32_mod}
use dinosaur_dns.Cache.{
  DnsCacheKey, DnsCacheKey-discrete, DnsCacheItem, DnsCache, second, max_cache_age, put_item,
  delete_key, min_ttl, message_ttl,
}

module _ {K V : Type 0} (dec : Discrete K) where
  abbrev pub UniqueKeys : Map K V → Type 0
  UniqueKeys [] = Unit
  UniqueKeys ((k, v) ∷ m) = (lookup dec k m ≡ none) × UniqueKeys m

  pub insert-UniqueKeys :
      (k : K) (v : V) (m : Map K V) → UniqueKeys m → UniqueKeys (insert dec k v m)
  unfolding insert lookup
  insert-UniqueKeys k v [] u = (refl, tt)
  insert-UniqueKeys k v ((j, w) ∷ m) u = elim (dec j k) [
    | yes p ↦ rw (if_pos (dec j k) p) (rw (← p) u)
    | no p ↦
        rw (if_neg (dec j k) p)
          (ground (arith, lookup-insert dec k j v m), insert-UniqueKeys k v m u.1)
  ]

  pub erase-UniqueKeys : (k : K) (m : Map K V) → UniqueKeys m → UniqueKeys (erase dec k m)
  unfolding erase
  erase-UniqueKeys k [] u = tt
  erase-UniqueKeys k ((j, w) ∷ m) u = elim (dec j k) [
    | yes p ↦ rw (if_pos (dec j k) p) (erase-UniqueKeys k m u.1)
    | no p ↦
        rw (if_neg (dec j k) p) (ground (arith, lookup-erase dec k j m), erase-UniqueKeys k m u.1)
  ]

  -- What holds of every value.
  abbrev pub EveryValue : (V → Type 0) → Map K V → Type 0
  EveryValue P = All (λ e. P e.1)

  pub insert-EveryValue :
      (P : V → Type 0) (k : K) (v : V) (m : Map K V)
      → P v
      → EveryValue P m
      → EveryValue P (insert dec k v m)
  unfolding insert
  insert-EveryValue P k v [] h hs = (h, tt)
  insert-EveryValue P k v ((j, w) ∷ m) h hs = elim (dec j k) [
    | yes p ↦ rw (if_pos (dec j k) p) (h, hs.1)
    | no p ↦ rw (if_neg (dec j k) p) (hs.0, insert-EveryValue P k v m h hs.1)
  ]

  pub erase-EveryValue :
      (P : V → Type 0) (k : K) (m : Map K V) → EveryValue P m → EveryValue P (erase dec k m)
  unfolding erase
  erase-EveryValue P k [] hs = tt
  erase-EveryValue P k ((j, w) ∷ m) hs = elim (dec j k) [
    | yes p ↦ rw (if_pos (dec j k) p) (erase-EveryValue P k m hs.1)
    | no p ↦ rw (if_neg (dec j k) p) (hs.0, erase-EveryValue P k m hs.1)
  ]

  abbrev pub OptionHolds : (V → Type 0) → Option V → Type 0
  OptionHolds P none = Unit
  OptionHolds P (some v) = P v

  pub lookup-EveryValue :
      (P : V → Type 0) (k : K) (m : Map K V) → EveryValue P m → OptionHolds P (lookup dec k m)
  unfolding lookup
  lookup-EveryValue P k [] hs = tt
  lookup-EveryValue P k ((j, w) ∷ m) hs = elim (dec j k) [
    | yes p ↦ rw (if_pos (dec j k) p) hs.0
    | no p ↦ rw (if_neg (dec j k) p) (lookup-EveryValue P k m hs.1)
  ]

-- The TTL is a uint32, and the record does not lapse within `lifetime` nanoseconds. The TTL of an
-- OPT record is no time.
abbrev pub Outlasts : ℕ → Rr → Type 0
Outlasts lifetime rr = (rr.rrtype ≡ type_opt) ⊎ ((lifetime ≤ second * rr.ttl) × (rr.ttl < u32_mod))

abbrev pub MessageOutlasts : ℕ → Msg → Type 0
MessageOutlasts lifetime msg =
    All (Outlasts lifetime) msg.answer
    × All (Outlasts lifetime) msg.ns
    × All (Outlasts lifetime) msg.extra

abbrev pub ItemIsValid : DnsCacheItem → Type 0
ItemIsValid item =
    (item.permanent ≡ true) ⊎ MessageOutlasts (item.expires - item.inserted) item.message

pub record IsValid (c : DnsCache) : Type 0 where
  pub unique : UniqueKeys DnsCacheKey-discrete c
  pub sound : EveryValue DnsCacheKey-discrete ItemIsValid c

pub empty-IsValid : IsValid []
empty-IsValid = record { unique = tt; sound = tt }

pub put_item-IsValid :
    (k : DnsCacheKey) (item : DnsCacheItem) (c : DnsCache)
    → ItemIsValid item
    → IsValid c
    → IsValid (put_item k item c)
put_item-IsValid k item c h v = record {
  unique = insert-UniqueKeys DnsCacheKey-discrete k item c v.unique;
  sound = insert-EveryValue DnsCacheKey-discrete ItemIsValid k item c h v.sound;
}

pub delete_key-IsValid : (k : DnsCacheKey) (c : DnsCache) → IsValid c → IsValid (delete_key k c)
delete_key-IsValid k c v = record {
  unique = erase-UniqueKeys DnsCacheKey-discrete k c v.unique;
  sound = erase-EveryValue DnsCacheKey-discrete ItemIsValid k c v.sound;
}

-- All TTLs of a message are uint32 values.
abbrev pub Words : List Rr → Type 0
Words = All (λ rr. rr.ttl < u32_mod)

abbrev pub MessageWords : Msg → Type 0
MessageWords msg = Words msg.answer × Words msg.ns × Words msg.extra

min_ttl-le : (least : ℕ) (rrs : List Rr) → min_ttl least rrs ≤ least
unfolding min_ttl
min_ttl-le least [] = omega arith
min_ttl-le least (rr ∷ rrs) = ground (
  arith,
  min_ttl-le (if not (rr.rrtype == type_opt) && ltb rr.ttl least then rr.ttl else least) rrs,
)

min_ttl-Outlasts :
    (least lifetime : ℕ) (rrs : List Rr)
    → lifetime ≤ second * min_ttl least rrs
    → Words rrs
    → All (Outlasts lifetime) rrs
unfolding min_ttl
min_ttl-Outlasts least lifetime [] h w = tt
min_ttl-Outlasts least lifetime (rr ∷ rrs) h w =
    let rest = if not (rr.rrtype == type_opt) && ltb rr.ttl least then rr.ttl else least in
    (ground (arith, min_ttl-le rest rrs), min_ttl-Outlasts rest lifetime rrs h w.1)

-- The cache time of a message is no longer than any of its records lasts.
pub message_ttl-Outlasts :
    (msg : Msg) → MessageWords msg → MessageOutlasts (second * message_ttl msg) msg
unfolding message_ttl
message_ttl-Outlasts msg w =
    let m1 = min_ttl max_cache_age msg.answer in
    let m2 = min_ttl m1 msg.ns in
    let le3 = min_ttl-le m2 msg.extra in
    let le2 = min_ttl-le m1 msg.ns in
    (
      min_ttl-Outlasts max_cache_age _ msg.answer (omega arith) w.0,
      min_ttl-Outlasts m1 _ msg.ns (omega arith) w.1,
      min_ttl-Outlasts m2 _ msg.extra (omega arith) w.2,
    )
