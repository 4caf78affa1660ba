-- ===== src/Cache/Keeps.antt =====
-- Every method of the cache keeps its invariant.
use dinosaur_dns.Common.{
  ℕ, ◌+◌, ◌-◌, ◌*◌, ◌≤◌, ◌<◌, ◌≡◌, Bool, true, false, List, [], ◌∷◌, Option, none, some, Str, inl,
  inr, arith, Bool-cases, Option-cases, List-cases, ◌==◌,
}
use dinosaur_dns.Dns.{Rr, Msg, DnsLib, u32_mod, type_ptr}
use dinosaur_dns.Cache.{
  DnsCacheKey, DnsCache, second, get_item, delete_key, message_ttl, refused, expired, key_of,
  add_rr, add_rr_string, add, get, get_key, delete, delete_name, delete_ptrs, get_name, add_ptr,
  type_or_zero,
}
use dinosaur_dns.Cache.Ptr.{create_ptr, ptr_name}
use dinosaur_dns.Cache.Invariant.{
  IsValid, ItemIsValid, MessageWords, put_item-IsValid, delete_key-IsValid, message_ttl-Outlasts,
}

-- What `option` holds, if anything, is valid.
abbrev pub IsValid? : Option DnsCache → Type 0
IsValid? none = Unit
IsValid? (some c) = IsValid c

item-IsValid :
    (msg : Msg) (now : ℕ)
    → MessageWords msg
    → ItemIsValid (record {
      message = msg;
      inserted = now;
      expires = now + second * message_ttl msg;
      permanent = false;
    })
item-IsValid msg now w =
    let life : now + second * message_ttl msg - now ≡ second * message_ttl msg = omega arith in
    inr (rw life (message_ttl-Outlasts msg w))

abbrev pub RrWord : Option Rr → Type 0
RrWord none = Unit
RrWord (some rr) = rr.ttl < u32_mod

delete_ptrs-IsValid : (rrs : List Rr) (c : DnsCache) → IsValid c → IsValid (delete_ptrs rrs c)
unfolding delete_ptrs
delete_ptrs-IsValid [] c v = v
delete_ptrs-IsValid (rr ∷ rrs) c v = elim (Option-cases (ptr_name rr.rdata)) [
  | inl e ↦ rw e (delete_ptrs-IsValid rrs c v)
  | inr (name, e) ↦ rw e (
      delete_ptrs-IsValid rrs _ (delete_key-IsValid (record { name = name; qtype = type_ptr }) c v))
]

pub get_key-IsValid :
    (k : DnsCacheKey) (query : Msg) (now now' : ℕ) (c : DnsCache)
    → IsValid c
    → IsValid (get_key k query now now' c).0
unfolding get_key
get_key-IsValid k query now now' c v = elim (Option-cases (get_item k c)) [
  | inl e ↦ rw (e, get_key) v
  | inr (item, e) ↦
      rw (e, get_key)
        (elim (Bool-cases (expired item now)) [
          | inl old ↦ rw old (delete_key-IsValid k c v)
          | inr new ↦ rw new v
        ])
]

abbrev pub ResultIsValid : Option (DnsCache × Option Msg) → Type 0
ResultIsValid none = Unit
ResultIsValid (some (c, reply)) = IsValid c

module _ (dns : DnsLib) where
  open dns use {set_question, canonical_name, new_rr}

  -- A new question message has no records.
  abbrev pub EmptyQuestions : Type 0
  EmptyQuestions =
      (name : Str) (qtype : ℕ)
      → ((set_question name qtype).answer ≡ [])
        × ((set_question name qtype).ns ≡ [])
        × ((set_question name qtype).extra ≡ [])

  pub add-IsValid :
      (msg : Msg) (now : ℕ) (c : DnsCache)
      → MessageWords msg
      → IsValid c
      → IsValid? (add dns msg now c)
  unfolding add
  add-IsValid msg now c w v = elim (Bool-cases (refused msg)) [
    | inl e ↦ rw e v
    | inr e ↦ elim (Bool-cases (message_ttl msg == 0)) [
      | inl z ↦ rw (e, z) v
      | inr z ↦ elim (List-cases msg.question) [
        | inl none_asked ↦ rw (e, z, none_asked, add) tt
        | inr (q, qs, asked) ↦
            rw (e, z, asked, add) (put_item-IsValid _ _ c (item-IsValid msg now w) v)
      ]
    ]
  ]

  module _ (empty_questions : EmptyQuestions) where
    pub add_rr-IsValid :
        (rr : Option Rr) (permanent : Bool) (now now' : ℕ) (c : DnsCache)
        → RrWord rr
        → now ≤ now'
        → IsValid c
        → IsValid (add_rr dns rr permanent now now' c)
    unfolding add_rr
    add_rr-IsValid none permanent now now' c w h v = v
    add_rr-IsValid (some rr) permanent now now' c w h v =
        let (no_answer, no_ns, no_extra) = empty_questions (canonical_name rr.name) rr.rrtype in
        put_item-IsValid _ _ c
          (inr (rw no_answer (inr (omega arith, w), tt), rw no_ns tt, rw no_extra tt)) v

    add_ptr-IsValid :
        (rr : Option Rr) (permanent : Bool) (now now' : ℕ) (c : DnsCache)
        → RrWord rr
        → now ≤ now'
        → IsValid c
        → IsValid (add_ptr dns rr permanent now now' c)
    unfolding add_ptr
    add_ptr-IsValid none permanent now now' c w h v = v
    add_ptr-IsValid (some rr) permanent now now' c w h v = elim (Option-cases (ptr_name rr.rdata)) [
      | inl e ↦ rw (e, add_ptr) v
      | inr (name, e) ↦
          rw (e, add_ptr)
            (add_rr-IsValid (some (create_ptr name rr)) permanent now now' c
              (unfold create_ptr in w) h v)
    ]

    pub add_rr_string-IsValid :
        (entry : Str) (permanent with_ptr : Bool) (now : ℕ) (c : DnsCache)
        → ((rr : Option Rr) → new_rr entry ≡ some rr → RrWord rr)
        → IsValid c
        → IsValid? (add_rr_string dns entry permanent with_ptr now c)
    unfolding add_rr_string
    add_rr_string-IsValid entry permanent false now c w v = elim (Option-cases (new_rr entry)) [
      | inl e ↦ rw (e, add_rr_string) tt
      | inr (rr, e) ↦
          rw (e, add_rr_string) (add_rr-IsValid rr permanent now now c (w rr e) (omega arith) v)
    ]
    add_rr_string-IsValid entry permanent true now c w v = elim (Option-cases (new_rr entry)) [
      | inl e ↦ rw (e, add_rr_string) tt
      | inr (rr, e) ↦
          rw (e, add_rr_string)
            (add_rr-IsValid rr permanent now now _ (w rr e) (omega arith)
              (add_ptr-IsValid rr permanent now now c (w rr e) (omega arith) v))
    ]

  pub get-IsValid :
      (query : Msg) (now now' : ℕ) (c : DnsCache)
      → IsValid c
      → ResultIsValid (get dns query now now' c)
  unfolding get
  get-IsValid query now now' c v = elim (List-cases query.question) [
    | inl none_asked ↦ rw (none_asked, get) tt
    | inr (q, qs, asked) ↦
        rw (asked, get) (get_key-IsValid (key_of dns q.name q.qtype) _ now now' c v)
  ]

  pub delete-IsValid : (query : Msg) (c : DnsCache) → IsValid c → IsValid? (delete dns query c)
  unfolding delete
  delete-IsValid query c v = elim (List-cases query.question) [
    | inl none_asked ↦ rw (none_asked, delete) tt
    | inr (q, qs, asked) ↦ rw (asked, delete) (delete_key-IsValid (key_of dns q.name q.qtype) c v)
  ]

  pub delete_name-IsValid :
      (name qtype : Str) (with_ptr : Bool) (now now' : ℕ) (c : DnsCache)
      → IsValid c
      → IsValid? (delete_name dns name qtype with_ptr now now' c)
  unfolding delete_name get_name
  delete_name-IsValid name qtype false now now' c v =
      delete_key-IsValid (key_of dns name (type_or_zero dns qtype)) c v
  delete_name-IsValid name qtype true now now' c v =
      let query = set_question name (type_or_zero dns qtype) in
      go (get dns query now now' c) (get-IsValid query now now' c v)
    where
      go :
          (r : Option (DnsCache × Option Msg))
          → ResultIsValid r
          → IsValid? (elim r as (λ _. Option DnsCache) [
            | none ↦ none
            | some x ↦ some (
                delete_key
                  (key_of dns name (type_or_zero dns qtype))
                  (elim (x.1) as (λ _. DnsCache) [
                    | none ↦ x.0
                    | some fwd ↦ delete_ptrs fwd.answer x.0
                  ]))
          ])
      go none h = tt
      go (some (c', none)) h = delete_key-IsValid (key_of dns name (type_or_zero dns qtype)) c' h
      go (some (c', some fwd)) h =
          delete_key-IsValid (key_of dns name (type_or_zero dns qtype)) _
            (delete_ptrs-IsValid fwd.answer c' h)
