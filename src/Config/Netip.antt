-- ===== src/Config/Netip.antt =====
-- The addresses of Go's net/netip as internal/config uses them. An IPv4 address is a 32-bit number, an
-- IPv6 address a 128-bit number with a zone; the zero `Addr` and the zero `Prefix` are invalid.
use red_mpudp.Prelude.{ℕ, ◌-◌, ◌*◌, ◌/◌, ◌^◌, Bool, true, false, ◌==◌, ◌&&◌, if◌then◌else◌, []}
use red_mpudp.Prelude.Int.{ℤ, pos, negsuc}
use red_mpudp.Prelude.Bytes.{Str, str_eq}

pub data Addr : Type 0 where
  no_addr : Addr
  v4 : ℕ → Addr
  v6 : ℕ → Str → Addr

pub record AddrPort : Type 0 where
  pub addr : Addr
  pub port : ℕ

pub data Prefix : Type 0 where
  no_prefix : Prefix
  prefix : Addr → ℕ → Prefix

abbrev pub is_valid : Addr → Bool
is_valid no_addr = false
is_valid (v4 a) = true
is_valid (v6 a z) = true

abbrev pub is4 : Addr → Bool
is4 no_addr = false
is4 (v4 a) = true
is4 (v6 a z) = false

abbrev pub is6 : Addr → Bool
is6 no_addr = false
is6 (v4 a) = false
is6 (v6 a z) = true

-- An IPv4-mapped IPv6 address, `::ffff:a.b.c.d`, as the IPv4 address.
unfoldable pub unmap : Addr → Addr
unmap no_addr = no_addr
unmap (v4 a) = v4 a
unmap (v6 a z) = if a / 2 ^ 32 == 65535 then v4 (a - 65535 * 2 ^ 32) else v6 a z

unfoldable pub is_unspecified : Addr → Bool
is_unspecified no_addr = false
is_unspecified (v4 a) = a == 0
is_unspecified (v6 a z) = a == 0 && str_eq z []

multicast : Addr → Bool
multicast no_addr = false
multicast (v4 a) = a / 2 ^ 28 == 14
multicast (v6 a z) = a / 2 ^ 120 == 255

-- The tests on classes of addresses look at the unmapped address.
unfoldable pub is_multicast : Addr → Bool
unfolding multicast unmap
is_multicast a = multicast (unmap a)

loopback : Addr → Bool
loopback no_addr = false
loopback (v4 a) = a / 2 ^ 24 == 127
loopback (v6 a z) = a == 1

unfoldable pub is_loopback : Addr → Bool
unfolding loopback unmap
is_loopback a = loopback (unmap a)

unfoldable pub addr_eq : Addr → Addr → Bool
addr_eq no_addr no_addr = true
addr_eq no_addr (v4 b) = false
addr_eq no_addr (v6 b z) = false
addr_eq (v4 a) no_addr = false
addr_eq (v4 a) (v4 b) = a == b
addr_eq (v4 a) (v6 b z) = false
addr_eq (v6 a z) no_addr = false
addr_eq (v6 a z) (v4 b) = false
addr_eq (v6 a z) (v6 b y) = a == b && str_eq z y

abbrev pub is_valid_prefix : Prefix → Bool
is_valid_prefix no_prefix = false
is_valid_prefix (prefix a n) = true

abbrev pub prefix_addr : Prefix → Addr
prefix_addr no_prefix = no_addr
prefix_addr (prefix a n) = a

-- `Bits`, -1 for the zero prefix.
abbrev pub bits : Prefix → ℤ
bits no_prefix = negsuc 0
bits (prefix a n) = pos n

contains_addr : Addr → ℕ → Addr → Bool
contains_addr (v4 p) n (v4 a) = a / 2 ^ (32 - n) == p / 2 ^ (32 - n)
contains_addr (v6 p z) n (v6 a y) = str_eq y [] && a / 2 ^ (128 - n) == p / 2 ^ (128 - n)
contains_addr _ n _ = false

unfoldable pub contains : Prefix → Addr → Bool
unfolding contains_addr
contains no_prefix a = false
contains (prefix p n) a = contains_addr p n a
