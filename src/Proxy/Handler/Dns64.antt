-- ===== src/Proxy/Handler/Dns64.antt =====
-- proxy.go, MakeHandler: the answer to an AAAA query made from A records.
use mathlib.Core.Path.{subst}
use dinosaur_dns.Common.{
  ℕ, zero, suc, ◌+◌, ◌≤◌, ◌≡◌, refl, ap, ◌∙◌, ◌⊎◌, inl, inr, Bool, true, ◌&&◌, List, [], ◌∷◌, ◌++◌,
  map, Option, some, length, take, drop, arith, Bool-cases, ◌==◌, length-take, length-append,
}
use dinosaur_dns.Dns.{
  Rr, RData, a, aaaa, ptr, other, Question, Msg, DnsLib, type_a, type_aaaa, class_inet,
}
use dinosaur_dns.Cache.Ptr.{to4}
use dinosaur_dns.Stats.{ConnectionLog}
use dinosaur_dns.Proxy.Upstream.{IpNet, ProxyConfig, resolve}
use dinosaur_dns.Proxy.Handler.{
  prefix_bytes, synthesise_data, synthesise, dns64_reply, Connection, finish, dns64_answer,
  answer_with,
}

-- An IPv6 address with the first 12 bytes of the prefix, and an IPv4 address in the last four.
abbrev pub Embeds : List ℕ → List ℕ → List ℕ → Type 0
Embeds prefix ip4 ip6 = (length ip6 ≡ 16) × (take 12 ip6 ≡ take 12 prefix) × (drop 12 ip6 ≡ ip4)

-- Data that is not the IPv4 address of an A record.
abbrev pub NotIpv4 : RData → Type 0
NotIpv4 (a ip) = to4 ip ≡ []
NotIpv4 _ = Unit

-- What becomes of a record of the answer.
pub data Translated (prefix : IpNet) (old new : Rr) : Type 0 where
  -- an A record of an IPv4 address
  embedded :
      {ip ip6 : List ℕ}
      → old.rdata ≡ a ip
      → length (to4 ip) ≡ 4
      → Embeds prefix.ip (to4 ip) ip6
      → new ≡ record {
        name = old.name;
        rrtype = type_aaaa;
        class = class_inet;
        ttl = old.ttl;
        rdata = aaaa ip6;
      }
      → Translated prefix old new
  -- any other record
  kept : NotIpv4 old.rdata → new ≡ old → Translated prefix old new

abbrev pub AllTranslated : IpNet → List Rr → List Rr → Type 0
AllTranslated prefix [] [] = Unit
AllTranslated prefix [] (new ∷ news) = ⊥
AllTranslated prefix (old ∷ olds) [] = ⊥
AllTranslated prefix (old ∷ olds) (new ∷ news) =
    Translated prefix old new × AllTranslated prefix olds news

-- net.IP.To4 gives four bytes or nil.
to4-cases : (ip : List ℕ) → (to4 ip ≡ []) ⊎ (length (to4 ip) ≡ 4)
unfolding to4
to4-cases [] = inl refl
to4-cases (c0 ∷ []) = inl refl
to4-cases (c0 ∷ c1 ∷ []) = inl refl
to4-cases (c0 ∷ c1 ∷ c2 ∷ []) = inl refl
to4-cases (c0 ∷ c1 ∷ c2 ∷ c3 ∷ []) = inr refl
to4-cases (c0 ∷ c1 ∷ c2 ∷ c3 ∷ c4 ∷ []) = inl refl
to4-cases (c0 ∷ c1 ∷ c2 ∷ c3 ∷ c4 ∷ c5 ∷ []) = inl refl
to4-cases (c0 ∷ c1 ∷ c2 ∷ c3 ∷ c4 ∷ c5 ∷ c6 ∷ []) = inl refl
to4-cases (c0 ∷ c1 ∷ c2 ∷ c3 ∷ c4 ∷ c5 ∷ c6 ∷ c7 ∷ []) = inl refl
to4-cases (c0 ∷ c1 ∷ c2 ∷ c3 ∷ c4 ∷ c5 ∷ c6 ∷ c7 ∷ c8 ∷ []) = inl refl
to4-cases (c0 ∷ c1 ∷ c2 ∷ c3 ∷ c4 ∷ c5 ∷ c6 ∷ c7 ∷ c8 ∷ c9 ∷ []) = inl refl
to4-cases (c0 ∷ c1 ∷ c2 ∷ c3 ∷ c4 ∷ c5 ∷ c6 ∷ c7 ∷ c8 ∷ c9 ∷ c10 ∷ []) = inl refl
to4-cases (c0 ∷ c1 ∷ c2 ∷ c3 ∷ c4 ∷ c5 ∷ c6 ∷ c7 ∷ c8 ∷ c9 ∷ c10 ∷ c11 ∷ []) = inl refl
to4-cases (c0 ∷ c1 ∷ c2 ∷ c3 ∷ c4 ∷ c5 ∷ c6 ∷ c7 ∷ c8 ∷ c9 ∷ c10 ∷ c11 ∷ c12 ∷ []) = inl refl
to4-cases (c0 ∷ c1 ∷ c2 ∷ c3 ∷ c4 ∷ c5 ∷ c6 ∷ c7 ∷ c8 ∷ c9 ∷ c10 ∷ c11 ∷ c12 ∷ c13 ∷ []) = inl refl
to4-cases (c0 ∷ c1 ∷ c2 ∷ c3 ∷ c4 ∷ c5 ∷ c6 ∷ c7 ∷ c8 ∷ c9 ∷ c10 ∷ c11 ∷ c12 ∷ c13 ∷ c14 ∷ []) =
    inl refl
to4-cases
      (c0 ∷ c1 ∷ c2 ∷ c3 ∷ c4 ∷ c5 ∷ c6 ∷ c7 ∷ c8 ∷ c9 ∷ c10 ∷ c11 ∷ c12 ∷ c13 ∷ c14 ∷ c15 ∷ []) =
    elim (Bool-cases
      (c0 + c1 + c2 + c3 + c4 + c5 + c6 + c7 + c8 + c9 == 0 && (c10 == 255 && c11 == 255))) [
        | inl e ↦ rw (e, to4) (inr refl)
        | inr e ↦ rw (e, to4) (inl refl)
      ]
to4-cases
      (c0 ∷ c1 ∷ c2 ∷ c3 ∷ c4 ∷ c5 ∷ c6 ∷ c7 ∷ c8 ∷ c9 ∷ c10 ∷ c11 ∷ c12 ∷ c13 ∷ c14 ∷ c15 ∷ c16
        ∷ cs) =
    inl refl

take-append : (n : ℕ) (xs ys : List ℕ) → n ≤ length xs → take n (xs ++ ys) ≡ take n xs
take-append zero xs ys h = refl
take-append (suc n) [] ys h = absurd (omega arith)
take-append (suc n) (x ∷ xs) ys h = ap (◌∷◌ x) (take-append n xs ys (omega arith))

take-take : (n : ℕ) (xs : List ℕ) → take n (take n xs) ≡ take n xs
take-take zero xs = refl
take-take (suc n) [] = refl
take-take (suc n) (x ∷ xs) = ap (◌∷◌ x) (take-take n xs)

drop-append : (xs ys : List ℕ) → drop (length xs) (xs ++ ys) ≡ ys
drop-append [] ys = refl
drop-append (x ∷ xs) ys = drop-append xs ys

prefix_bytes_lem :
    (ip : List ℕ)
    → 12 ≤ length ip
    → (prefix_bytes ip ≡ take 12 ip) × (length (prefix_bytes ip) ≡ 12)
unfolding prefix_bytes
prefix_bytes_lem ip h =
    let e = take-append 12 ip (0 ∷ 0 ∷ 0 ∷ 0 ∷ 0 ∷ 0 ∷ 0 ∷ 0 ∷ 0 ∷ 0 ∷ 0 ∷ 0 ∷ []) h in
    (e, rw e (omega (arith, length-take 12 ip)))

prefix_bytes-Embeds :
    (ip ip4 : List ℕ) → 12 ≤ length ip → length ip4 ≡ 4 → Embeds ip ip4 (prefix_bytes ip ++ ip4)
prefix_bytes-Embeds ip ip4 h four =
    let (same, twelve) = prefix_bytes_lem ip h in
    (
      omega (arith, length-append (prefix_bytes ip) ip4),
      take-append 12 (prefix_bytes ip) ip4 (omega arith) ∙ ap (take 12) same ∙ take-take 12 ip,
      subst (λ n. drop n (prefix_bytes ip ++ ip4) ≡ ip4) twelve (drop-append (prefix_bytes ip) ip4),
    )

synthesise-Translated_rdata :
    (prefix : IpNet) (rr : Rr) (rdata : RData)
    → 12 ≤ length prefix.ip
    → Translated prefix
        (record rr { rdata = rdata })
        (synthesise prefix (record rr { rdata = rdata }))
unfolding synthesise synthesise_data
synthesise-Translated_rdata prefix rr (a ip) h = elim (to4-cases ip) [
  | inl nil ↦ rw (nil, synthesise, synthesise_data) (kept nil refl)
  | inr four ↦
      rw (four, synthesise, synthesise_data)
        (embedded refl four (prefix_bytes-Embeds prefix.ip (to4 ip) h four) refl)
]
synthesise-Translated_rdata prefix rr (aaaa ip) h = kept tt refl
synthesise-Translated_rdata prefix rr (ptr target) h = kept tt refl
synthesise-Translated_rdata prefix rr (other text) h = kept tt refl

map-AllTranslated :
    (prefix : IpNet) (rrs : List Rr)
    → 12 ≤ length prefix.ip
    → AllTranslated prefix rrs (map (synthesise prefix) rrs)
map-AllTranslated prefix [] h = tt
map-AllTranslated prefix (rr ∷ rrs) h =
    (synthesise-Translated_rdata prefix rr rr.rdata h, map-AllTranslated prefix rrs h)

-- A response with a question becomes one for AAAA of the same name, with the same code and id. Each
-- A record of an IPv4 address becomes an AAAA record with the same name and TTL, of the prefix's
-- first 12 bytes and the address; the other records stay.
pub dns64_reply_lem :
    (prefix : IpNet) (out : Msg) (q : Question) (qs : List Question)
    → 12 ≤ length prefix.ip
    → out.question ≡ q ∷ qs
    → (reply : Msg) × (dns64_reply prefix out ≡ some reply)
      × (reply.question ≡ record { name = q.name; qtype = type_aaaa } ∷ qs)
      × (reply.id ≡ out.id)
      × (reply.rcode ≡ out.rcode)
      × AllTranslated prefix out.answer reply.answer
unfolding dns64_reply
dns64_reply_lem prefix out q qs h e =
    rw (e, dns64_reply) (_, refl, refl, refl, refl, map-AllTranslated prefix out.answer h)

module _ {R : Type 0} (dns : DnsLib) (exchange : R → Msg → Option Msg) where
  -- With DNS64 on, an AAAA query for which the response has no answer is asked again for A, and the
  -- client gets that response, translated: its AAAA question first, and for each A record with an
  -- IPv4 address the AAAA record under the prefix. This holds for every client, whatever its address,
  -- if that response has a question and the prefix at least 12 bytes.
  pub finish-dns64 :
      (conn : Connection) (query : Msg) (asked q : Question) (qs : List Question)
      (item : ConnectionLog) (config config' : ProxyConfig R) (out out' : Msg)
      (cached cached' : Bool)
      → config.dns64 ≡ true
      → asked.qtype ≡ type_aaaa
      → out.answer ≡ []
      → resolve dns exchange
          (record query { question = record asked { qtype = type_a } ∷ [] })
          conn.got64
          conn.got64'
          conn.added64
          config
        ≡ some (config', some out', cached')
      → out'.question ≡ q ∷ qs
      → 12 ≤ length config'.dns64_prefix.ip
      → (reply : Msg) × (item' : ConnectionLog) × (finish dns exchange conn query asked item
            (some (config, some out, cached))
          ≡ some (config', reply ∷ [], item'))
        × (item'.cached ≡ cached')
        × (item'.rcode ≡ out'.rcode)
        × (reply.question ≡ record { name = q.name; qtype = type_aaaa } ∷ qs)
        × AllTranslated config'.dns64_prefix out'.answer reply.answer
  unfolding finish dns64_answer answer_with
  finish-dns64 conn query asked q qs item config config' out out' cached cached' on six none_found
        again e h =
      let test : (config.dns64 && (asked.qtype == type_aaaa && length out.answer == 0)) ≡ true =
        rw (on, six, none_found) refl in
      let (reply, made, question, id, rcode, all) =
        dns64_reply_lem config'.dns64_prefix out' q qs h e in
      (
        reply,
        record item { rcode = reply.rcode; cached = cached' },
        rw (test, finish, again, dns64_answer, made) refl,
        refl,
        rcode,
        question,
        all,
      )
