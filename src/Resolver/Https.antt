-- ===== src/Resolver/Https.antt =====
-- resolver.go, DohResolver: a query over HTTPS. The HTTP client is a parameter.
pub mod Served
use dinosaur_dns.Common.{ℕ, Bool, List, Option, none, some, Str, ◌++◌, ◌==◌, if◌then◌else◌}
use dinosaur_dns.Common.Results.{Result, ok, fail}
use dinosaur_dns.Common.Strings.{codes}
use dinosaur_dns.Dns.{Msg}
use dinosaur_dns.Doh.{Codec, Request, dns_message}

-- What the resolver reads of an http.Response: the body, or the error of reading it.
pub record HttpResponse : Type 0 where
  pub status_code : ℕ
  pub status : Str
  pub body : Result Str (List ℕ)

-- The parser of URLs, by the path and the `dns` parameter of a URL, and Client.Do.
pub record HttpClient : Type 0 where
  pub parse_url : Str → Result Str (Str × Str)
  pub do_request : Request → Result Str HttpResponse

-- The request, with its headers.
unfoldable pub post_request : Str → Str → List ℕ → Request
post_request path param bytes = record {
  path = path;
  dns_param = param;
  method = codes "POST";
  accept = dns_message;
  content_type = dns_message;
  body = ok bytes;
}

module _ (codec : Codec) (client : HttpClient) where
  open codec use {pack, unpack}
  open client use {parse_url, do_request}

  unfoldable pub parsed : Result Str Msg → Result Str Msg
  parsed (ok out) = ok out
  parsed (fail e) = fail (codes "Error parsing DNS response: " ++ e)

  unfoldable pub with_body : Result Str (List ℕ) → Result Str Msg
  with_body (ok bytes) = parsed (unpack bytes)
  with_body (fail e) = fail (codes "Error reading HTTP body: " ++ e)

  unfoldable pub with_response : Result Str HttpResponse → Result Str Msg
  unfolding with_body parsed
  with_response (fail e) = fail (codes "HTTP request error: " ++ e)
  with_response (ok resp) =
      if resp.status_code == 200
      then with_body resp.body
      else fail (codes "HTTP request failed - status: " ++ resp.status)

  unfoldable pub with_url : List ℕ → Result Str (Str × Str) → Result Str Msg
  with_url bytes (ok (path, param)) = with_response (do_request (post_request path param bytes))
  with_url bytes (fail e) = fail (codes "Error creating HTTP request: " ++ e)

  unfoldable pub with_pack : Str → Result Str (List ℕ) → Result Str Msg
  with_pack upstream (ok bytes) = with_url bytes (parse_url upstream)
  with_pack upstream (fail e) = fail (codes "Error packing record: " ++ e)

  -- DohResolver.Resolve, for the Upstream of the resolver
  unfoldable pub doh_resolve : Str → Msg → Result Str Msg
  unfolding with_pack with_url
  doh_resolve upstream q = with_pack upstream (pack q)
