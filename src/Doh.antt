-- ===== src/Doh.antt =====
-- doh/doh.go: the handler of DNS queries over HTTPS (RFC 8484), around the handler of the proxy.
-- The decoding of base64 and the wire format of messages are parameters.
pub mod Requests
mod Tests
use dinosaur_dns.Common.{
  ℕ, Bool, true, false, not, List, [], ◌∷◌, ◌++◌, Option, none, some, Str, str_eq, take,
  if◌then◌else◌,
}
use dinosaur_dns.Common.Results.{Result, ok, fail}
use dinosaur_dns.Common.Strings.{codes}
use dinosaur_dns.Dns.{Msg, DnsLib}
use dinosaur_dns.Proxy.Upstream.{ProxyConfig}
use dinosaur_dns.Proxy.Handler.{Connection, handler}

-- What the handler reads, and the resolver sets, of an http.Request: the path and the `dns` parameter of its URL ("" if
-- there is none), and the body, or the error of reading it.
pub record Request : Type 0 where
  pub path : Str
  pub dns_param : Str
  pub method : Str
  pub accept : Str
  pub content_type : Str
  pub body : Result Str (List ℕ)

pub record Response : Type 0 where
  pub status_code : ℕ
  pub content_type : Str
  pub body : List ℕ

-- base64.RawURLEncoding.DecodeString, Msg.Unpack and Msg.Pack, with the text of an error
pub record Codec : Type 0 where
  pub decode_base64 : Str → Result Str (List ℕ)
  pub unpack : List ℕ → Result Str Msg
  pub pack : Msg → Result Str (List ℕ)

abbrev pub dns_message : Str
dns_message = codes "application/dns-message"

-- http.Error
unfoldable pub http_error : Str → ℕ → Response
http_error text code = record {
  status_code = code;
  content_type = codes "text/plain; charset=utf-8";
  body = text ++ (10 ∷ []);
}

abbrev pub limit : ℕ
limit = 65536

-- The message that dohResponseWriter holds at the end: the last one written.
unfoldable pub last_message : List Msg → Option Msg
last_message [] = none
last_message (m ∷ []) = some m
last_message (_ ∷ m ∷ ms) = last_message (m ∷ ms)

module _ (codec : Codec) where
  open codec use {decode_base64, unpack, pack}

  unfoldable pub decoded : Result Str (List ℕ) → Result Response (List ℕ)
  decoded (ok bytes) = ok bytes
  decoded (fail e) = fail (http_error (codes "invalid dns parameter") 400)

  unfoldable pub get_bytes : Request → Result Response (List ℕ)
  unfolding decoded
  get_bytes r =
      if str_eq r.dns_param []
      then fail (http_error (codes "missing dns parameter") 400)
      else decoded (decode_base64 r.dns_param)

  unfoldable pub read_body : Result Str (List ℕ) → Result Response (List ℕ)
  read_body (ok bytes) = ok (take limit bytes)
  read_body (fail e) = fail (http_error (codes "error reading body") 400)

  unfoldable pub post_bytes : Request → Result Response (List ℕ)
  unfolding read_body
  post_bytes r =
      if not (str_eq r.content_type dns_message)
      then fail (http_error (codes "unsupported content type") 415)
      else read_body r.body

  -- The bytes of the message of a request, or the response that refuses it.
  unfoldable pub message_bytes : Str → Request → Result Response (List ℕ)
  message_bytes path r =
      if not (str_eq r.path path)
      then fail (http_error (codes "404 page not found") 404)
      else if str_eq r.method (codes "GET")
      then get_bytes r
      else if str_eq r.method (codes "POST")
      then post_bytes r
      else fail (http_error (codes "method not allowed") 405)

  unfoldable pub packed : Result Str (List ℕ) → Response
  packed (ok bytes) = record { status_code = 200; content_type = dns_message; body = bytes }
  packed (fail e) = http_error (codes "error packing response") 500

  unfoldable pub respond : Option Msg → Response
  unfolding packed
  respond none = http_error (codes "forbidden") 403
  respond (some m) = packed (pack m)

  module _ {R : Type 0} (dns : DnsLib) (exchange : R → Msg → Option Msg) where
    unfoldable pub handled : Option (ProxyConfig R × List Msg) → Option (ProxyConfig R × Response)
    handled none = none
    handled (some (config, writes)) = some (config, respond (last_message writes))

    unfoldable pub unpacked :
        Connection → ℕ → ProxyConfig R → Result Str Msg → Option (ProxyConfig R × Response)
    unpacked conn end_time config (fail e) =
        some (config, http_error (codes "invalid dns message") 400)
    unpacked conn end_time config (ok q) = handled (handler dns exchange conn q end_time config)

    unfoldable pub with_bytes :
        Connection
        → ℕ
        → ProxyConfig R
        → Result Response (List ℕ)
        → Option (ProxyConfig R × Response)
    with_bytes conn end_time config (fail response) = some (config, response)
    with_bytes conn end_time config (ok bytes) = unpacked conn end_time config (unpack bytes)

    -- The handler that MakeDoHHandler makes for a path: the new state and the response. The
    -- connection has the request's RemoteAddr; `none` is a panic.
    unfoldable pub doh_handler :
        Str → Connection → Request → ℕ → ProxyConfig R → Option (ProxyConfig R × Response)
    unfolding with_bytes unpacked handled
    doh_handler path conn r end_time config = with_bytes conn end_time config (message_bytes path r)
