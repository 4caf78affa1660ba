-- ===== src/Resolver.antt =====
-- resolver/resolver.go: the resolvers over UDP, DoT and DoH, and the errors of the network that
-- they look at.
pub mod Dot
pub mod Udp
pub mod Https
mod Tests
use dinosaur_dns.Common.{Bool, true, false, ◌||◌, Str}

-- An error value: the errors that the code tells apart, any other one by its text, and an error
-- that wraps another one (fmt.Errorf with %w).
pub data NetError : Type 0 where
  eof unexpected_eof net_closed timeout : NetError
  other : Str → NetError
  wrap : Str → NetError → NetError

-- isTransientConnErr: errors.Is looks through the wrapping.
unfoldable pub is_transient_conn_err : NetError → Bool
is_transient_conn_err eof = true
is_transient_conn_err unexpected_eof = true
is_transient_conn_err net_closed = true
is_transient_conn_err (wrap _ e) = is_transient_conn_err e
is_transient_conn_err _ = false
