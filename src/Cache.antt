-- ===== src/Cache.antt =====
-- cache/cache.go: the DNS cache; `Ptr` has the PTR records of ptr.go. Each method is one step, also
-- DeleteName and AddRRString, which take the lock more than once: what other calls do between is
-- not modelled. Times are nanoseconds, and a method that reads the clock takes what each reading
-- gives. `none` for a whole result is the panic of `Question[0]` at an empty question.
pub mod Ptr
pub mod Invariant
pub mod Replies
pub mod Flush
pub mod Keeps
pub mod Reach
mod Tests
use dinosaur_dns.Cache.Ptr.{create_ptr, ptr_name}
use dinosaur_dns.Common.{
  ℕ, suc, ◌+◌, ◌-◌, ◌*◌, ◌/◌, ◌%◌, ◌^◌, Bool, true, false, not, ◌&&◌, ◌||◌, List, [], ◌∷◌, ◌++◌,
  reverse, map, Option, none, some, Str, Map, lookup, insert, erase, length, ltb, ◌==◌,
  if◌then◌else◌, ℕ_discrete,
}
use dinosaur_dns.Common.Strings.{codes}
use dinosaur_dns.Dns.{
  Rr, RData, a, aaaa, ptr, other, Question, Msg, DnsLib, type_opt, type_ptr, class_inet,
  rcode_success, u32_mod,
}

pub record DnsCacheKey : Type 0 where
  pub name : Str
  pub qtype : ℕ

unfoldable pub DnsCacheKey-discrete : Discrete DnsCacheKey
DnsCacheKey-discrete = hlevel ℕ_discrete

pub record DnsCacheItem : Type 0 where
  pub message : Msg
  pub inserted : ℕ
  pub expires : ℕ
  pub permanent : Bool

abbrev pub DnsCache : Type 0
DnsCache = Map DnsCacheKey DnsCacheItem

abbrev pub second : ℕ
second = 1000000000

abbrev pub max_cache_age : ℕ
max_cache_age = 86400

abbrev pub get_item : DnsCacheKey → DnsCache → Option DnsCacheItem
get_item = lookup DnsCacheKey-discrete

abbrev pub put_item : DnsCacheKey → DnsCacheItem → DnsCache → DnsCache
put_item = insert DnsCacheKey-discrete

abbrev pub delete_key : DnsCacheKey → DnsCache → DnsCache
delete_key = erase DnsCacheKey-discrete

-- !entry.Permanent && now.After(entry.Expires)
unfoldable pub expired : DnsCacheItem → ℕ → Bool
expired item now = not item.permanent && ltb item.expires now

-- (msg.Rcode != RcodeSuccess) || msg.Truncated || no records: the message is not cached
unfoldable pub refused : Msg → Bool
refused msg =
    not (msg.rcode == rcode_success)
    || (msg.truncated || length msg.answer + length msg.ns + length msg.extra == 0)

-- The loop over one section: the least TTL of its records, OPT records left aside.
unfoldable pub min_ttl : ℕ → List Rr → ℕ
min_ttl least [] = least
min_ttl least (rr ∷ rrs) =
    min_ttl (if not (rr.rrtype == type_opt) && ltb rr.ttl least then rr.ttl else least) rrs

unfoldable pub message_ttl : Msg → ℕ
message_ttl msg = min_ttl (min_ttl (min_ttl max_cache_age msg.answer) msg.ns) msg.extra

-- uint32(timeNow().Sub(entry.Inserted).Seconds()); the clock does not go back
unfoldable pub age : ℕ → ℕ → ℕ
age now inserted = (now - inserted) / second % u32_mod

-- v.Header().Ttl -= delta, in uint32
unfoldable pub decrement : ℕ → Rr → Rr
decrement delta rr =
    if rr.rrtype == type_opt then rr else record rr { ttl = (rr.ttl + u32_mod - delta) % u32_mod }

unfoldable pub decrement_all : ℕ → Msg → Msg
decrement_all delta msg = record msg {
  answer = map (decrement delta) msg.answer;
  ns = map (decrement delta) msg.ns;
  extra = map (decrement delta) msg.extra;
}

-- What Get returns for an entry that it found; `now` is the second reading of the clock.
unfoldable pub reply_for : DnsCacheItem → Msg → ℕ → Msg
reply_for item query now =
    let reply = record item.message { id = query.id } in
    if item.permanent then reply else decrement_all (age now item.inserted) reply

-- Flush: how many entries there are, how many have expired, and those that stay.
unfoldable pub flush : ℕ → DnsCache → DnsCache × ℕ × ℕ
flush now [] = ([], 0, 0)
flush now ((k, item) ∷ c) =
    let (kept, total, gone) = flush now c in
    if expired item now then (kept, total + 1, gone + 1) else ((k, item) ∷ kept, total + 1, gone)

-- Get under a key, with two readings of the clock
unfoldable pub get_key : DnsCacheKey → Msg → ℕ → ℕ → DnsCache → DnsCache × Option Msg
get_key key query now now' c = elim (get_item key c) [
  | none ↦ (c, none)
  | some item ↦
      if expired item now then (delete_key key c, none) else (c, some (reply_for item query now'))
]

-- The loop of DeleteName over the answer: the PTR entry of each address record goes.
unfoldable pub delete_ptrs : List Rr → DnsCache → DnsCache
delete_ptrs [] c = c
delete_ptrs (rr ∷ rrs) c = delete_ptrs rrs (elim (ptr_name rr.rdata) [
  | none ↦ c
  | some name ↦ delete_key (record { name = name; qtype = type_ptr }) c
])

module _ (dns : DnsLib) where
  open dns use {canonical_name, set_question, new_rr, string_to_type}

  abbrev pub key_of : Str → ℕ → DnsCacheKey
  key_of name qtype = record { name = canonical_name name; qtype = qtype }

  -- AddRR. `now` is the reading for the expiry, `now'` the one for the insertion.
  unfoldable pub add_rr : Option Rr → Bool → ℕ → ℕ → DnsCache → DnsCache
  add_rr none permanent now now' c = c
  add_rr (some rr) permanent now now' c =
      let name = canonical_name rr.name in
      let msg = record (set_question name rr.rrtype) {
        response = true;
        authoritative = permanent;
        recursion_available = false;
        rcode = rcode_success;
        answer = (set_question name rr.rrtype).answer ++ (rr ∷ []);
      } in
      put_item (record { name = name; qtype = rr.rrtype })
        (record {
          message = msg;
          inserted = now';
          expires = now + second * rr.ttl;
          permanent = permanent;
        })
        c

  add_ptr : Option Rr → Bool → ℕ → ℕ → DnsCache → DnsCache
  add_ptr none permanent now now' c = c
  add_ptr (some rr) permanent now now' c = elim (ptr_name rr.rdata) [
    | none ↦ c
    | some name ↦ add_rr (some (create_ptr name rr)) permanent now now' c
  ]

  -- AddRRString, at one time of the clock; `none` is the error of NewRR.
  unfoldable pub add_rr_string : Str → Bool → Bool → ℕ → DnsCache → Option DnsCache
  unfolding add_ptr
  add_rr_string entry permanent with_ptr now c = elim (new_rr entry) [
    | none ↦ none
    | some rr ↦
        some (add_rr rr permanent now now (if with_ptr then add_ptr rr permanent now now c else c))
  ]

  -- Add; `none` is a panic
  unfoldable pub add : Msg → ℕ → DnsCache → Option DnsCache
  add msg now c =
      if refused msg then some c else if message_ttl msg == 0 then some c else elim (msg.question) [
        | [] ↦ none
        | q ∷ qs ↦ some (
            put_item (key_of q.name q.qtype)
              (record {
                message = msg;
                inserted = now;
                expires = now + second * message_ttl msg;
                permanent = false;
              })
              c)
      ]

  -- Get; `none` is a panic
  unfoldable pub get : Msg → ℕ → ℕ → DnsCache → Option (DnsCache × Option Msg)
  get query now now' c = elim (query.question) [
    | [] ↦ none
    | q ∷ qs ↦ some (get_key (key_of q.name q.qtype) query now now' c)
  ]

  -- Delete; `none` is a panic
  unfoldable pub delete : Msg → DnsCache → Option DnsCache
  delete query c = elim (query.question) [
    | [] ↦ none
    | q ∷ qs ↦ some (delete_key (key_of q.name q.qtype) c)
  ]

  -- dns.StringToType[qtype]: a missing type is 0
  unfoldable pub type_or_zero : Str → ℕ
  type_or_zero qtype = elim (string_to_type qtype) [ none ↦ 0 | some t ↦ t ]

  -- GetName
  unfoldable pub get_name : Str → Str → ℕ → ℕ → DnsCache → Option (DnsCache × Option Msg)
  get_name qname qtype now now' c = get (set_question qname (type_or_zero qtype)) now now' c

  -- DeleteName; `none` is a panic
  unfoldable pub delete_name : Str → Str → Bool → ℕ → ℕ → DnsCache → Option DnsCache
  delete_name name qtype false now now' c = some (delete_key (key_of name (type_or_zero qtype)) c)
  delete_name name qtype true now now' c = elim (get_name name qtype now now' c) [
    | none ↦ none
    | some (c', found) ↦ some (
        delete_key (key_of name (type_or_zero qtype))
          (elim found [ none ↦ c' | some fwd ↦ delete_ptrs fwd.answer c' ]))
  ]
