-- ===== src/Tun.antt =====
-- internal/tun/tun.go and the device of internal/tun/tun_linux.go.
pub mod Device
pub mod Settings
pub mod Run
pub mod Writes
pub mod Pooled
pub mod Open
pub mod Tests
use red_mpudp.Prelude.{
  ℕ, Bool, true, false, List, [], ◌∷◌, Option, none, some, ◌==◌, ltb, not, ◌||◌, ◌&&◌,
  if◌then◌else◌, length, ◌⊎◌, inl, inr,
}
use red_mpudp.Prelude.Int.{ℤ, pos, ltb_ℤ}
use red_mpudp.Prelude.Bytes.{Str, codes, str_eq, any_byte}
use red_mpudp.Config.Netip.{Prefix, is4, is_valid_prefix, prefix_addr}

abbrev pub min_mtu : ℤ
min_mtu = pos 1112

abbrev pub max_mtu : ℤ
max_mtu = pos 1400

abbrev pub iface_name_max : ℕ
iface_name_max = 15

-- `Config`: the interface to create.
pub record TunConfig : Type 0 where
  pub name : Str
  pub address : Prefix
  pub mtu : ℤ
  pub max_packet : ℤ

-- The configured bound on a packet, or the MTU.
abbrev pub packet_bound : TunConfig → ℤ
packet_bound c = if ltb_ℤ (pos 0) c.max_packet then c.max_packet else c.mtu

pub data ConfigError : Type 0 where
  empty_name name_too_long bad_name_byte address_not_ipv4 negative_max_packet : ConfigError
  mtu_out_of_range : ℤ → ConfigError

-- The bytes of "/ \t\n\r\x00".
abbrev pub is_bad_byte : ℕ → Bool
is_bad_byte b = b == 47 || b == 32 || b == 9 || b == 10 || b == 13 || b == 0

unfoldable pub validate_name : Str → Option ConfigError
validate_name name =
    if str_eq name []
    then some empty_name
    else if ltb iface_name_max (length name)
    then some name_too_long
    else if any_byte is_bad_byte name || str_eq name (codes ".") || str_eq name (codes "..")
    then some bad_name_byte
    else none

-- The checks of `validate` after the name.
unfoldable pub validate_rest : TunConfig → Option ConfigError
validate_rest c =
    if ltb_ℤ c.mtu min_mtu || ltb_ℤ max_mtu c.mtu
    then some (mtu_out_of_range c.mtu)
    else if not (is_valid_prefix c.address) || not (is4 (prefix_addr c.address))
    then some address_not_ipv4
    else if ltb_ℤ c.max_packet (pos 0)
    then some negative_max_packet
    else none

abbrev after_name : Option ConfigError → TunConfig → Option ConfigError
after_name (some e) c = some e
after_name none c = validate_rest c

unfoldable pub validate : TunConfig → Option ConfigError
validate c = after_name (if not (str_eq c.name []) then validate_name c.name else none) c

pub data MtuError : Type 0 where
  out_of_range : ℤ → MtuError
  increase : ℤ → ℤ → MtuError

-- Whether a live change from `current` to `target` is allowed, and the MTU to apply.
unfoldable pub guard_mtu : ℤ → ℤ → Bool → MtuError ⊎ ℤ
guard_mtu current target authenticated =
    if ltb_ℤ target min_mtu || ltb_ℤ max_mtu target
    then inl (out_of_range target)
    else if ltb_ℤ current target && not authenticated
    then inl (increase current target)
    else inr target
