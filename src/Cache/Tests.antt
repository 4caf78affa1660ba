-- ===== src/Cache/Tests.antt =====
-- The theorems on the cache at one response for example.com with a TTL of 300 seconds.
use dinosaur_dns.Common.{
  ◌+◌, ◌-◌, ◌*◌, ◌/◌, ◌≡◌, refl, ◌⊎◌, true, false, [], ◌∷◌, some, length, arith, lookup, insert,
  Str-discrete, ℕ_discrete,
}
use dinosaur_dns.Common.Strings.{to_lower, lower}
use dinosaur_dns.Dns.{Question, Msg}
use dinosaur_dns.Dns.Sample.{sample_dns, sample_name, sample_query, sample_response}
use dinosaur_dns.Cache.{
  DnsCacheKey, DnsCacheKey-discrete, DnsCacheItem, DnsCache, second, get_item, key_of, refused,
  min_ttl, message_ttl, expired, reply_for, flush, get_key, add, get,
}
use dinosaur_dns.Cache.Invariant.{IsValid, MessageWords}
use dinosaur_dns.Cache.Keeps.{EmptyQuestions}
use dinosaur_dns.Cache.Replies.{MessageAged, get-add}
use dinosaur_dns.Cache.Flush.{unexpired, flush_lem, get_key-flush}
use dinosaur_dns.Cache.Reach.{Reach, Reach-IsValid, Reach-reply}
use dinosaur_dns.Cache.Reach

abbrev key : DnsCacheKey
key = key_of sample_dns sample_name 1

abbrev item : DnsCacheItem
item = record {
  message = sample_response;
  inserted = 0;
  expires = 0 + second * 300;
  permanent = false;
}

abbrev cached : DnsCache
cached = (key, item) ∷ []

words : MessageWords sample_response
words = ((omega arith, tt), tt, tt)

empty_questions : EmptyQuestions sample_dns
empty_questions name qtype = (refl, refl, refl)

accepted : refused sample_response ≡ false
unfolding refused
accepted = refl

lives : message_ttl sample_response ≡ 300
unfolding message_ttl min_ttl
lives = refl

added : add sample_dns sample_response 0 [] ≡ some cached
unfolding add refused message_ttl min_ttl insert
added = refl

cached-Reach : Reach sample_dns cached
cached-Reach = Reach.Reach.after Reach.Reach.new (Reach.Call.call_add sample_response 0 words added)

cached-IsValid : IsValid cached
cached-IsValid = Reach-IsValid sample_dns empty_questions cached-Reach

abbrev asked : Question
asked = record { name = sample_name; qtype = 1 }

get-add_example :
    (c' : DnsCache) × (reply : Msg) × (add sample_dns sample_response 0 [] ≡ some c')
    × (get sample_dns sample_query (10 * second) (10 * second) c' ≡ some (c', some reply))
    × (reply.id ≡ sample_query.id)
    × (reply.rcode ≡ sample_response.rcode)
    × MessageAged ((10 * second - 0) / second) sample_response reply
get-add_example =
    get-add sample_dns sample_response sample_query asked asked [] [] [] 0 accepted
      (λ e. absurd (ground (arith, lives))) refl refl refl refl (10 * second) (10 * second) words
      (ground (arith, lives)) (omega arith)

abbrev permanent_item : DnsCacheItem
permanent_item = record item { permanent = true }

flush_lem_example :
    let (kept, total, gone) = flush (10 * second) cached in
    ((k : DnsCacheKey) → get_item k kept ≡ unexpired (10 * second) (get_item k cached))
    × (total ≡ length cached)
    × (length kept + gone ≡ total)
flush_lem_example = flush_lem (10 * second) cached cached-IsValid

get_key-flush_example :
    (get_key key sample_query (20 * second) (20 * second) (flush (10 * second) cached).0).1
    ≡ (get_key key sample_query (20 * second) (20 * second) cached).1
get_key-flush_example =
    get_key-flush key sample_query (10 * second) (20 * second) (20 * second) cached cached-IsValid
      (omega arith)

Reach-IsValid_example : IsValid cached
Reach-IsValid_example = Reach-IsValid sample_dns empty_questions cached-Reach

abbrev reply : Msg
reply = reply_for item sample_query (10 * second)

found : (get_key key sample_query (10 * second) (10 * second) cached).1 ≡ some reply
unfolding get_key lookup DnsCacheKey-discrete Str-discrete ℕ_discrete expired to_lower lower
found = refl

Reach-reply_example :
    (found_item : DnsCacheItem) × (get_item key cached ≡ some found_item)
    × (reply.id ≡ sample_query.id)
    × (reply.rcode ≡ found_item.message.rcode)
    × (((found_item.permanent ≡ true)
          × (reply ≡ record found_item.message { id = sample_query.id }))
        ⊎ ((found_item.permanent ≡ false)
            × MessageAged ((10 * second - found_item.inserted) / second) found_item.message reply))
Reach-reply_example =
    Reach-reply sample_dns empty_questions cached-Reach key sample_query reply (10 * second)
      (10 * second) (omega arith) found
