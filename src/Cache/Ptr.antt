-- ===== src/Cache/Ptr.antt =====
-- cache/ptr.go: the PTR record that goes with an address record. An address is a list of bytes.
use dinosaur_dns.Common.{
  ℕ, ◌+◌, ◌/◌, ◌%◌, ◌&&◌, List, [], ◌∷◌, ◌++◌, reverse, Option, none, some, Str, length, ltb, ◌==◌,
  if◌then◌else◌,
}
use dinosaur_dns.Common.Strings.{codes}
use dinosaur_dns.Dns.{Rr, RData, a, aaaa, ptr, type_ptr, class_inet}

-- fmt's %d and %x, for a byte and for half a byte
unfoldable pub decimal : ℕ → Str
decimal n =
    if ltb n 10
    then (48 + n) ∷ []
    else if ltb n 100
    then (48 + n / 10) ∷ (48 + n % 10) ∷ []
    else (48 + n / 100) ∷ (48 + n / 10 % 10) ∷ (48 + n % 10) ∷ []

unfoldable pub hex_digit : ℕ → ℕ
hex_digit n = if ltb n 10 then 48 + n else 87 + n

-- net.IP.To4 of an address of 4 or of 16 bytes; `[]` is nil
unfoldable pub to4 : List ℕ → List ℕ
to4 (w ∷ x ∷ y ∷ z ∷ []) = w ∷ x ∷ y ∷ z ∷ []
to4 (c0 ∷ c1 ∷ c2 ∷ c3 ∷ c4 ∷ c5 ∷ c6 ∷ c7 ∷ c8 ∷ c9 ∷ c10 ∷ c11 ∷ w ∷ x ∷ y ∷ z ∷ []) =
    if c0 + c1 + c2 + c3 + c4 + c5 + c6 + c7 + c8 + c9 == 0 && (c10 == 255 && c11 == 255)
    then w ∷ x ∷ y ∷ z ∷ []
    else []
to4 _ = []

-- net.IP.To16; `[]` is nil
unfoldable pub to16 : List ℕ → List ℕ
to16 (w ∷ x ∷ y ∷ z ∷ []) = 0 ∷ 0 ∷ 0 ∷ 0 ∷ 0 ∷ 0 ∷ 0 ∷ 0 ∷ 0 ∷ 0 ∷ 255 ∷ 255 ∷ w ∷ x ∷ y ∷ z ∷ []
to16 ip = if length ip == 16 then ip else []

-- The loops of reverseIP4 and reverseIP6, over the bytes from the last one down.
unfoldable pub dotted_bytes : List ℕ → Str
dotted_bytes [] = []
dotted_bytes (x ∷ xs) = decimal x ++ (b'.' ∷ dotted_bytes xs)

unfoldable pub dotted_nibbles : List ℕ → Str
dotted_nibbles [] = []
dotted_nibbles (x ∷ xs) = hex_digit (x % 16) ∷ b'.' ∷ hex_digit (x / 16) ∷ b'.' ∷ dotted_nibbles xs

unfoldable pub reverse_ip4 : List ℕ → Str
reverse_ip4 ip = dotted_bytes (reverse (to4 ip)) ++ codes "in-addr.arpa."

unfoldable pub reverse_ip6 : List ℕ → Str
reverse_ip6 ip = dotted_nibbles (reverse (to16 ip)) ++ codes "ip6.arpa."

-- createPtrA and createPtrAAAA: they differ in the name only.
unfoldable pub create_ptr : Str → Rr → Rr
create_ptr name rr = record {
  name = name;
  rrtype = type_ptr;
  class = class_inet;
  ttl = rr.ttl;
  rdata = ptr rr.name;
}

-- The name of the PTR record that goes with a record, for an address record.
unfoldable pub ptr_name : RData → Option Str
ptr_name (a ip) = some (reverse_ip4 ip)
ptr_name (aaaa ip) = some (reverse_ip6 ip)
ptr_name _ = none
