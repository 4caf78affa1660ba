-- ===== src/Cache/Replies.antt =====
-- What Get answers: the TTLs of a cached reply, expiry, and permanent entries.
use dinosaur_dns.Common.{
  ℕ, ◌+◌, ◌-◌, ◌*◌, ◌/◌, ◌%◌, ◌≤◌, ◌<◌, ◌≡◌, ◌≢◌, refl, ap, ◌∙◌, true, false, List, [], ◌∷◌, map,
  none, some, lookup-insert, ◌⊎◌, inl, inr, All, arith, Bool-cases, ◌==◌, if◌then◌else◌,
}
use dinosaur_dns.Dns.{Rr, Question, Msg, DnsLib, type_opt, u32_mod}
use dinosaur_dns.Cache.{
  DnsCacheKey, DnsCacheKey-discrete, DnsCacheItem, DnsCache, second, get_item, put_item, delete_key,
  message_ttl, expired, refused, age, decrement, decrement_all, reply_for, key_of, add, get,
  get_key,
}
use dinosaur_dns.Cache.Invariant.{Outlasts, ItemIsValid, MessageWords, message_ttl-Outlasts}

-- The record after `d` seconds: an OPT record is unchanged, any other has `d` seconds less to live.
abbrev pub Aged : ℕ → Rr → Rr → Type 0
Aged d old new =
    ((old.rrtype ≡ type_opt) × (new ≡ old))
    ⊎ ((new ≡ record old { ttl = new.ttl }) × (new.ttl + d ≡ old.ttl))

abbrev pub AllAged : ℕ → List Rr → List Rr → Type 0
AllAged d [] [] = Unit
AllAged d [] (new ∷ news) = ⊥
AllAged d (old ∷ olds) [] = ⊥
AllAged d (old ∷ olds) (new ∷ news) = Aged d old new × AllAged d olds news

-- The message after `d` seconds, under any id: nothing else changes but the TTLs.
abbrev pub MessageAged : ℕ → Msg → Msg → Type 0
MessageAged d old new =
    (new ≡ record old { id = new.id; answer = new.answer; ns = new.ns; extra = new.extra })
    × AllAged d old.answer new.answer
    × AllAged d old.ns new.ns
    × AllAged d old.extra new.extra

less_than_ttl :
    (inserted expires now now' ttl : ℕ)
    → now ≤ expires
    → now' < now + second
    → expires - inserted ≤ second * ttl
    → (now' - inserted) / second ≤ ttl
less_than_ttl inserted expires now now' ttl h soon lasts = omega arith

sub_no_wrap :
    (ttl d : ℕ) → d ≤ ttl → ttl < u32_mod → (ttl + u32_mod - d % u32_mod) % u32_mod + d ≡ ttl
sub_no_wrap ttl d h word = omega arith

-- While an entry with this expiry is not expired at the first reading of the clock, and the second
-- reading is less than a second later, its records have not lapsed.
module _ (inserted expires now now' : ℕ) (fresh : now ≤ expires) (soon : now' < now + second) where
  decrement-Aged :
      (rr : Rr)
      → Outlasts (expires - inserted) rr
      → Aged ((now' - inserted) / second) rr (decrement (age now' inserted) rr)
  unfolding decrement age
  decrement-Aged rr (inl opt) = inl (opt, ground arith)
  decrement-Aged rr (inr (lasts, word)) =
      let d = (now' - inserted) / second in
      let le = less_than_ttl inserted expires now now' rr.ttl fresh soon lasts in
      elim (Bool-cases (rr.rrtype == type_opt)) [
        | inl opt ↦ inl (ground arith, ground arith)
        | inr time ↦ rw time (inr (refl, sub_no_wrap rr.ttl d le word))
      ]

  map-decrement-AllAged :
      (rrs : List Rr)
      → All (Outlasts (expires - inserted)) rrs
      → AllAged ((now' - inserted) / second) rrs (map (decrement (age now' inserted)) rrs)
  map-decrement-AllAged [] h = tt
  map-decrement-AllAged (rr ∷ rrs) h = (decrement-Aged rr h.0, map-decrement-AllAged rrs h.1)

-- The reply made from a sound entry that is not permanent and has not expired, if the clock moves
-- by less than a second from the test of the expiry to the reply: it is the cached message with the
-- query's id, and every TTL but those of OPT records is the cached TTL less the whole seconds since
-- the entry was made. No TTL wraps.
pub reply_for_lem :
    (item : DnsCacheItem) (query : Msg) (now now' : ℕ)
    → ItemIsValid item
    → item.permanent ≡ false
    → expired item now ≡ false
    → now' < now + second
    → let reply = reply_for item query now' in
      (reply.id ≡ query.id)
      × (reply.rcode ≡ item.message.rcode)
      × MessageAged ((now' - item.inserted) / second) item.message reply
unfolding reply_for expired decrement_all
reply_for_lem item query now now' (inl permanent) transient fresh soon = cc
reply_for_lem item query now now' (inr v) transient fresh soon =
    let le : now ≤ item.expires = ground arith in
    let ages = map-decrement-AllAged item.inserted item.expires now now' le soon in
    rw transient (
      refl,
      refl,
      (refl, ages item.message.answer v.0, ages item.message.ns v.1, ages item.message.extra v.2),
    )

-- A permanent entry never expires, and is answered with its own TTLs at every time.
pub permanent_reply :
    (item : DnsCacheItem) (query : Msg) (now now' : ℕ)
    → item.permanent ≡ true
    → (expired item now ≡ false)
      × (reply_for item query now' ≡ record item.message { id = query.id })
unfolding reply_for expired
permanent_reply item query now now' h = ground arith

pub get_item-put_item :
    (k : DnsCacheKey) (item : DnsCacheItem) (c : DnsCache)
    → get_item k (put_item k item c) ≡ some item
get_item-put_item k item c = ground (arith, lookup-insert DnsCacheKey-discrete k k item c)

get_key-put_item :
    (k : DnsCacheKey) (item : DnsCacheItem) (c : DnsCache) (query : Msg) (t t' : ℕ)
    → get_key k query t t' (put_item k item c) ≡ (
        if expired item t
        then (delete_key k (put_item k item c), none)
        else (put_item k item c, some (reply_for item query t')))
unfolding get_key
get_key-put_item k item c query t t' = rw (get_item-put_item k item c, get_key)

module _ (dns : DnsLib) where
  open dns use {canonical_name}

  module _ (msg query : Msg) (q q' : Question) (qs qs' : List Question) (c : DnsCache) (now : ℕ)
      (accepted : refused msg ≡ false) (lives : message_ttl msg ≢ 0) (asked : msg.question ≡ q ∷ qs)
      (query_asked : query.question ≡ q' ∷ qs')
      (same_name : canonical_name q.name ≡ canonical_name q'.name)
      (same_type : q.qtype ≡ q'.qtype) where
    abbrev item : DnsCacheItem
    item = record {
      message = msg;
      inserted = now;
      expires = now + second * message_ttl msg;
      permanent = false;
    }

    abbrev cached : DnsCache
    cached = put_item (key_of dns q.name q.qtype) item c

    add-eq-cached : add dns msg now c ≡ some cached
    unfolding add
    add-eq-cached = rw (accepted, asked) (ground arith)

    get-cached :
        (t t' : ℕ)
        → get dns query t t' cached
          ≡ some (
              if expired item t
              then (delete_key (key_of dns q.name q.qtype) cached, none)
              else (cached, some (reply_for item query t')))
    unfolding get get_key reply_for
    get-cached t t' =
        rw (query_asked, get, ← same_name, ← same_type)
          (ap some (get_key-put_item (key_of dns q.name q.qtype) item c query t t'))

    -- A message that Add accepts is what Get answers a query for the same name and type with,
    -- until the least of its TTLs (at most a day) has passed: with the id of the query, with every
    -- TTL but those of OPT records lessened by the whole seconds that have passed, none of them
    -- wrapping, and with all else as it was. All TTLs are to be uint32 values, and the two
    -- readings of the clock in Get less than a second apart.
    pub get-add :
        (t t' : ℕ)
        → MessageWords msg
        → t ≤ now + second * message_ttl msg
        → t' < t + second
        → (c' : DnsCache) × (reply : Msg) × (add dns msg now c ≡ some c')
          × (get dns query t t' c' ≡ some (c', some reply))
          × (reply.id ≡ query.id)
          × (reply.rcode ≡ msg.rcode)
          × MessageAged ((t' - now) / second) msg reply
    get-add t t' words in_time soon =
        let life : now + second * message_ttl msg - now ≡ second * message_ttl msg = omega arith in
        let fresh : expired item t ≡ false = unfold expired in ground arith in
        let (id, rcode, aged) =
          reply_for_lem item query t t' (inr (rw life (message_ttl-Outlasts msg words))) refl fresh
            soon in
        (
          cached,
          reply_for item query t',
          add-eq-cached,
          get-cached t t' ∙ rw fresh refl,
          id,
          rcode,
          aged,
        )

    -- After that time the entry is gone: Get misses, and removes it and no other entry.
    pub get-add_expired :
        (t t' : ℕ)
        → now + second * message_ttl msg < t
        → (c' : DnsCache) × (add dns msg now c ≡ some c')
          × (get dns query t t' c' ≡ some (delete_key (key_of dns q.name q.qtype) c', none))
    get-add_expired t t' late =
        let gone : expired item t ≡ true = unfold expired in ground arith in
        (cached, add-eq-cached, get-cached t t' ∙ rw gone refl)
