-- ===== src/Resolver/Https/Served.antt =====
-- resolver.go, DohResolver, against doh/doh.go: a resolver whose upstream is this program's own
-- server.
use dinosaur_dns.Common.{
  ℕ, ◌≤◌, ◌≡◌, refl, List, ◌++◌, Option, none, some, Str, str_eq_self, length,
}
use dinosaur_dns.Common.Results.{Result, ok, fail}
use dinosaur_dns.Common.Strings.{codes}
use dinosaur_dns.Dns.{Msg, DnsLib}
use dinosaur_dns.Doh.{
  Codec, Response, limit, http_error, with_bytes, unpacked, handled, packed, respond, last_message,
  doh_handler,
}
use dinosaur_dns.Doh.Requests.{at_path, IsPost, message_bytes-IsPost}
use dinosaur_dns.Proxy.Upstream.{ProxyConfig}
use dinosaur_dns.Proxy.Handler.{Connection, handler}
use dinosaur_dns.Resolver.Https.{
  HttpResponse, HttpClient, post_request, with_response, with_pack, with_url, with_body, parsed,
  doh_resolve,
}

module _ (codec : Codec) where
  open codec use {pack, unpack}

  -- The wire format has a form of the message, within the limit, that it reads back.
  unfoldable pub HasWireForm : Msg → Type 0
  HasWireForm m =
      (bytes : List ℕ) × (pack m ≡ ok bytes) × (unpack bytes ≡ ok m) × (length bytes ≤ limit)

-- A response as the client sees it; the server aborts the request if its handler panics.
unfoldable pub delivered :
    {R : Type 0} → (ℕ → Str) → Str → Option (ProxyConfig R × Response) → Result Str HttpResponse
delivered status_text aborted none = fail aborted
delivered status_text aborted (some (config, response)) = ok (record {
  status_code = response.status_code;
  status = status_text response.status_code;
  body = ok response.body;
})

unfoldable pub written : (ℕ → Str) → Option Msg → Result Str Msg
written status_text none = fail (codes "HTTP request failed - status: " ++ status_text 403)
written status_text (some m) = ok m

-- What the proxy's handler did, as an answer over HTTPS.
unfoldable pub over_https :
    {R : Type 0} → (ℕ → Str) → Str → Option (ProxyConfig R × List Msg) → Result Str Msg
over_https status_text aborted none = fail (codes "HTTP request error: " ++ aborted)
over_https status_text aborted (some (config, writes)) = written status_text (last_message writes)

module _ {R : Type 0} (codec : Codec) (dns : DnsLib) (exchange : R → Msg → Option Msg)
    (status_text : ℕ → Str) (aborted : Str) (parse_url : Str → Result Str (Str × Str)) where
  open codec use {pack, unpack}

  -- A client whose requests all go to the server on a path.
  abbrev pub client_of : Str → Connection → ℕ → ProxyConfig R → HttpClient
  client_of path conn end_time config = record {
    parse_url = parse_url;
    do_request = λ r.
        delivered status_text aborted (doh_handler codec dns exchange path conn r end_time config);
  }

  respond-written :
      (client : HttpClient) (config : ProxyConfig R) (out : Option Msg)
      → ((m : Msg) → out ≡ some m → HasWireForm codec m)
      → with_response codec client
          (delivered status_text aborted (some (config, respond codec out)))
        ≡ written status_text out
  unfolding delivered with_response HasWireForm respond http_error packed with_body parsed written
  respond-written client config none wire = refl
  respond-written client config (some m) wire =
      let (bytes, packs, unpacks, fits) = wire m refl in rw (packs, unpacks) refl

  handled-over_https :
      (client : HttpClient) (result : Option (ProxyConfig R × List Msg))
      → ((config : ProxyConfig R) (writes : List Msg) (m : Msg)
          → result ≡ some (config, writes)
          → last_message writes ≡ some m
          → HasWireForm codec m)
      → with_response codec client
          (delivered status_text aborted (handled codec dns exchange result))
        ≡ over_https status_text aborted result
  unfolding over_https delivered with_response handled
  handled-over_https client none wire = refl
  handled-over_https client (some (config, writes)) wire =
      respond-written client config (last_message writes) (λ m. wire config writes m refl)

  -- A DohResolver whose upstream is this server gives what the handler of the proxy writes for
  -- the query, an error with the status 403 if it writes nothing, and an error if it panics. This
  -- holds if the upstream has the server's path, and if the query and the messages written have a
  -- wire form.
  pub doh_resolve-doh_handler :
      (upstream path param : Str) (conn : Connection) (q : Msg) (end_time : ℕ)
      (config : ProxyConfig R)
      → parse_url upstream ≡ ok (path, param)
      → HasWireForm codec q
      → ((config' : ProxyConfig R) (writes : List Msg) (m : Msg)
          → handler dns exchange conn q end_time config ≡ some (config', writes)
          → last_message writes ≡ some m
          → HasWireForm codec m)
      → doh_resolve codec (client_of path conn end_time config) upstream q
        ≡ over_https status_text aborted (handler dns exchange conn q end_time config)
  unfolding HasWireForm doh_resolve with_pack with_url doh_handler IsPost at_path with_bytes
      unpacked post_request
  doh_resolve-doh_handler upstream path param conn q end_time config url
        (bytes, packs, unpacks, fits) wire =
      let client = client_of path conn end_time config in
      let request = post_request path param bytes in
      let posted = message_bytes-IsPost codec path request bytes fits (refl, refl, refl) in
      rw (packs, url, posted, str_eq_self path, unpacks)
        (handled-over_https client (handler dns exchange conn q end_time config) wire)
