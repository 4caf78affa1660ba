-- ===== src/Doh/Requests.antt =====
-- doh.go: the two methods of a request, and the answer to a client that the proxy refuses.
use dinosaur_dns.Common.{
  ℕ, ◌≤◌, ◌≡◌, ◌≢◌, refl, Bool, true, false, not, List, [], Option, Str, str_eq, str_eq_self,
  str_eq_ne, length, take_of_length-le, if◌then◌else◌, Str-discrete, ℕ_discrete, ap, sym, ◌∙◌,
}
use dinosaur_dns.Common.Results.{Result, ok, fail}
use dinosaur_dns.Common.Strings.{codes}
use dinosaur_dns.Dns.{Msg, DnsLib}
use dinosaur_dns.Doh.{
  Codec, Request, Response, dns_message, limit, message_bytes, get_bytes, post_bytes, http_error,
  with_bytes, decoded, read_body, doh_handler,
}
use dinosaur_dns.Proxy.Upstream.{ProxyConfig}
use dinosaur_dns.Proxy.Handler.{Connection}

-- The bytes of a good request for a path, and 404 for another path.
unfoldable pub at_path : Str → Str → List ℕ → Result Response (List ℕ)
at_path path asked bytes =
    if str_eq asked path then ok bytes else fail (http_error (codes "404 page not found") 404)

by_path : {A : Type 0} (x y : A) (b : Bool) → (if not b then x else y) ≡ (if b then y else x)
by_path x y true = refl
by_path x y false = refl

module _ (codec : Codec) where
  -- A GET request with a `dns` parameter that decodes to bytes.
  unfoldable pub IsGet : Request → List ℕ → Type 0
  IsGet r bytes =
      (r.method ≡ codes "GET") × (r.dns_param ≢ []) × (codec.decode_base64 r.dns_param ≡ ok bytes)

  -- A POST request of the media type of DNS messages, with bytes as its body.
  unfoldable pub IsPost : Request → List ℕ → Type 0
  IsPost r bytes = (r.method ≡ codes "POST") × (r.content_type ≡ dns_message) × (r.body ≡ ok bytes)

  message_bytes-IsGet :
      (path : Str) (r : Request) (bytes : List ℕ)
      → IsGet r bytes
      → message_bytes codec path r ≡ at_path path r.path bytes
  unfolding message_bytes get_bytes IsGet decoded at_path Str-discrete ℕ_discrete
  message_bytes-IsGet path r bytes (get, given, decodes) =
      let is_get : str_eq r.method (codes "GET") ≡ true = ap (λ m. str_eq m (codes "GET")) get in
      rw (is_get, str_eq_ne r.dns_param [] given, decodes) (by_path _ _ (str_eq r.path path))

  pub message_bytes-IsPost :
      (path : Str) (r : Request) (bytes : List ℕ)
      → length bytes ≤ limit
      → IsPost r bytes
      → message_bytes codec path r ≡ at_path path r.path bytes
  unfolding message_bytes post_bytes IsPost read_body at_path Str-discrete ℕ_discrete
  message_bytes-IsPost path r bytes fits (post, type, body) =
      let no_get : str_eq r.method (codes "GET") ≡ false = ap (λ m. str_eq m (codes "GET")) post in
      let is_post : str_eq r.method (codes "POST") ≡ true =
        ap (λ m. str_eq m (codes "POST")) post in
      let typed : str_eq r.content_type dns_message ≡ true =
        ap (λ t. str_eq t dns_message) type ∙ str_eq_self dns_message in
      let read : read_body codec r.body ≡ ok bytes =
        ap (read_body codec) body ∙ ap ok (take_of_length-le limit bytes fits) in
      rw (no_get, is_post, typed, read) (by_path _ _ (str_eq r.path path))

  module _ {R : Type 0} (dns : DnsLib) (exchange : R → Msg → Option Msg) where
    -- The two methods are equivalent: a GET request with the message in its `dns` parameter and a
    -- POST request with the message as its body have the same result, if their paths are the same
    -- and the message has at most 65536 bytes.
    pub get-post :
        (path : Str) (conn : Connection) (r r' : Request) (end_time : ℕ) (config : ProxyConfig R)
        (bytes : List ℕ)
        → r.path ≡ r'.path
        → length bytes ≤ limit
        → IsGet r bytes
        → IsPost r' bytes
        → doh_handler codec dns exchange path conn r end_time config
          ≡ doh_handler codec dns exchange path conn r' end_time config
    unfolding doh_handler
    get-post path conn r r' end_time config bytes same fits get post =
        ap (with_bytes codec dns exchange conn end_time config) (
          message_bytes-IsGet path r bytes get
          ∙ ap (λ p. at_path path p bytes) same
          ∙ sym (message_bytes-IsPost path r' bytes fits post))
