-- ===== src/Cache/Reach.antt =====
-- The invariant holds after any calls from the empty cache, and with it the TTLs of every reply are
-- sound.
use dinosaur_dns.Common.{
  ℕ, ◌+◌, ◌-◌, ◌/◌, ◌≤◌, ◌<◌, ◌≡◌, refl, sym, ap, ◌∙◌, Bool, true, false, [], Option, none, some,
  Str, ◌⊎◌, inl, inr, arith, Bool-cases,
}
use mathlib.Core.Path.{subst}
use dinosaur_dns.Dns.{Rr, Msg, DnsLib}
use dinosaur_dns.Cache.{
  DnsCacheKey, DnsCacheKey-discrete, DnsCacheItem, DnsCache, second, get_item, expired, reply_for,
  add_rr, add_rr_string, add, get, get_key, delete, delete_name, flush,
}
use dinosaur_dns.Cache.Invariant.{
  IsValid, ItemIsValid, MessageWords, OptionHolds, empty-IsValid, lookup-EveryValue,
}
use dinosaur_dns.Cache.Flush.{flush-IsValid, answer, get_key-answer}
use dinosaur_dns.Cache.Replies.{MessageAged, reply_for_lem, permanent_reply}
use dinosaur_dns.Cache.Keeps.{
  IsValid?, RrWord, ResultIsValid, EmptyQuestions, add-IsValid, add_rr-IsValid,
  add_rr_string-IsValid, get-IsValid, delete-IsValid, delete_name-IsValid,
}

abbrev IsReply : DnsCacheItem → Msg → Msg → ℕ → Type 0
IsReply item query reply now' =
    (reply.id ≡ query.id)
    × (reply.rcode ≡ item.message.rcode)
    × (((item.permanent ≡ true) × (reply ≡ record item.message { id = query.id }))
        ⊎ ((item.permanent ≡ false)
            × MessageAged ((now' - item.inserted) / second) item.message reply))

reply_for-IsReply :
    (item : DnsCacheItem) (query : Msg) (now now' : ℕ)
    → ItemIsValid item
    → expired item now ≡ false
    → now' < now + second
    → IsReply item query (reply_for item query now') now'
reply_for-IsReply item query now now' v fresh soon = elim (Bool-cases item.permanent) [
  | inl p ↦
      let same = (permanent_reply item query now now' p).1 in
      (ap (λ (m : Msg). m.id) same, ap (λ (m : Msg). m.rcode) same, inl (p, same))
  | inr t ↦
      let (id, rcode, aged) = reply_for_lem item query now now' v t fresh soon in
      (id, rcode, inr (t, aged))
]

found-reply :
    (query reply : Msg) (now now' : ℕ)
    → now' < now + second
    → (found : Option DnsCacheItem) → OptionHolds DnsCacheKey-discrete ItemIsValid found
    → answer query now now' found ≡ some reply
    → (item : DnsCacheItem) × (found ≡ some item)
      × (reply.id ≡ query.id)
      × (reply.rcode ≡ item.message.rcode)
      × (((item.permanent ≡ true) × (reply ≡ record item.message { id = query.id }))
          ⊎ ((item.permanent ≡ false)
              × MessageAged ((now' - item.inserted) / second) item.message reply))
unfolding answer
found-reply query reply now now' soon none v h = cc
found-reply query reply now now' soon (some item) v h = elim (Bool-cases (expired item now)) [
  | inl old ↦ absurd (ground arith)
  | inr fresh ↦
      let same : reply_for item query now' ≡ reply = ground arith in
      let (id, rcode, how) =
        subst (λ (m : Msg). IsReply item query m now') same
          (reply_for-IsReply item query now now' v fresh soon) in
      (item, refl, id, rcode, how)
]

module _ (dns : DnsLib) where
  open dns use {new_rr}

  -- One call of a method, with what it needs to keep the invariant: TTLs are uint32 values.
  pub data Call (c : DnsCache) : DnsCache → Type 0 where
    call_add :
        (msg : Msg) (now : ℕ) {c' : DnsCache}
        → MessageWords msg
        → add dns msg now c ≡ some c'
        → Call c c'
    call_add_rr :
        (rr : Option Rr) (permanent : Bool) (now now' : ℕ) {c' : DnsCache}
        → RrWord rr
        → now ≤ now'
        → add_rr dns rr permanent now now' c ≡ c'
        → Call c c'
    call_add_rr_string :
        (entry : Str) (permanent with_ptr : Bool) (now : ℕ) {c' : DnsCache}
        → ((rr : Option Rr) → new_rr entry ≡ some rr → RrWord rr)
        → add_rr_string dns entry permanent with_ptr now c ≡ some c'
        → Call c c'
    call_get :
        (query : Msg) (now now' : ℕ) (reply : Option Msg) {c' : DnsCache}
        → get dns query now now' c ≡ some (c', reply)
        → Call c c'
    call_delete : (query : Msg) {c' : DnsCache} → delete dns query c ≡ some c' → Call c c'
    call_delete_name :
        (name qtype : Str) (with_ptr : Bool) (now now' : ℕ) {c' : DnsCache}
        → delete_name dns name qtype with_ptr now now' c ≡ some c'
        → Call c c'
    call_flush : (now : ℕ) {c' : DnsCache} → (flush now c).0 ≡ c' → Call c c'

  pub data Reach : DnsCache → Type 0 where
    new : Reach []
    after : {c c' : DnsCache} → Reach c → Call c c' → Reach c'

  module _ (empty_questions : EmptyQuestions dns) where
    pub Call-IsValid : {c c' : DnsCache} → Call c c' → IsValid c → IsValid c'
    Call-IsValid {c} (call_add msg now w e) v = subst IsValid? e (add-IsValid dns msg now c w v)
    Call-IsValid {c} (call_add_rr rr permanent now now' w h e) v =
        subst IsValid e (add_rr-IsValid dns empty_questions rr permanent now now' c w h v)
    Call-IsValid {c} (call_add_rr_string entry permanent with_ptr now w e) v =
        subst IsValid? e
          (add_rr_string-IsValid dns empty_questions entry permanent with_ptr now c w v)
    Call-IsValid {c} (call_get query now now' reply e) v =
        subst ResultIsValid e (get-IsValid dns query now now' c v)
    Call-IsValid {c} (call_delete query e) v = subst IsValid? e (delete-IsValid dns query c v)
    Call-IsValid {c} (call_delete_name name qtype with_ptr now now' e) v =
        subst IsValid? e (delete_name-IsValid dns name qtype with_ptr now now' c v)
    Call-IsValid {c} (call_flush now e) v = subst IsValid e (flush-IsValid now c v)

    -- After any calls from the empty cache each key stands once, and no record of a cached answer
    -- lapses before its entry. All TTLs added are to be uint32 values, and new question messages
    -- are to have no records.
    pub Reach-IsValid : {c : DnsCache} → Reach c → IsValid c
    Reach-IsValid new = empty-IsValid
    Reach-IsValid (after r call) = Call-IsValid call (Reach-IsValid r)

    -- After any calls from the empty cache, and if the two readings of the clock in Get are less
    -- than a second apart: what Get finds under a key is answered with the message of its entry
    -- under the id of the query. The TTLs are the entry's own if it is permanent, else lessened by
    -- the whole seconds since it was made, those of OPT records excepted, and none wraps. All TTLs
    -- added are to be uint32 values, and new question messages are to have no records.
    pub Reach-reply :
        {c : DnsCache}
        → Reach c
        → (k : DnsCacheKey) (query reply : Msg) (now now' : ℕ) → now' < now + second
        → (get_key k query now now' c).1 ≡ some reply
        → (item : DnsCacheItem) × (get_item k c ≡ some item)
          × (reply.id ≡ query.id)
          × (reply.rcode ≡ item.message.rcode)
          × (((item.permanent ≡ true) × (reply ≡ record item.message { id = query.id }))
              ⊎ ((item.permanent ≡ false)
                  × MessageAged ((now' - item.inserted) / second) item.message reply))
    Reach-reply {c} r k query reply now now' soon h =
        found-reply query reply now now' soon (get_item k c)
          (lookup-EveryValue DnsCacheKey-discrete ItemIsValid k c (Reach-IsValid r).sound)
          (sym (get_key-answer k query now now' c) ∙ h)
