-- ===== src/Resolver/Udp.antt =====
-- resolver.go, UdpResolver. The exchange over the network is a parameter.
use dinosaur_dns.Common.{◌++◌, Str}
use dinosaur_dns.Common.Results.{Result, ok, fail}
use dinosaur_dns.Common.Strings.{codes}
use dinosaur_dns.Dns.{Msg}

unfoldable pub query_error : Result Str Msg → Result Str Msg
query_error (ok out) = ok out
query_error (fail e) = fail (codes "DNS Query Error: " ++ e)

-- UdpResolver.Resolve, for what Client.Exchange gives with the upstream
unfoldable pub udp_resolve : (Msg → Str → Result Str Msg) → Str → Msg → Result Str Msg
udp_resolve exchange upstream q = query_error (exchange q upstream)
