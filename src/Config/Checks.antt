-- ===== src/Config/Checks.antt =====
-- internal/config/validate.go, and the checks of client.go that client and server share.
pub mod Dedup
pub mod Bounds
use Prim.Native.Nat.{bit_and}
use red_mpudp.Prelude.{
  ℕ, ◌+◌, ◌-◌, ◌*◌, ◌^◌, Bool, true, false, List, [], ◌∷◌, ◌++◌, Option, none, some, ◌==◌, ltb, leb,
  not, ◌&&◌, ◌||◌, if◌then◌else◌, length,
}
use red_mpudp.Prelude.Int.{ℤ, pos, negsuc, ltb_ℤ, leb_ℤ}
use red_mpudp.Prelude.Bytes.{Str, codes, str_eq, any_byte}
use red_mpudp.Config.Netip.{
  Addr, AddrPort, v4, is_valid, is4, is6, is_unspecified, is_multicast, is_loopback, addr_eq,
}
use red_mpudp.Config.Types.{Duration, HealthConfig, CongestionConfig}

abbrev pub min_tun_mtu : ℤ
min_tun_mtu = pos 1112

abbrev pub max_tun_mtu : ℤ
max_tun_mtu = pos 1400

abbrev pub min_paths : ℤ
min_paths = pos 1

abbrev pub max_paths : ℤ
max_paths = pos 4

abbrev pub min_dedup_window : ℕ
min_dedup_window = 4096

abbrev pub max_dedup_window : ℕ
max_dedup_window = 1048576

abbrev pub min_probe : ℤ
min_probe = pos 100000000

abbrev pub max_probe : ℤ
max_probe = pos 5000000000

abbrev pub iface_name_max : ℕ
iface_name_max = 15

-- A message of `addf`: the field it names, and what is wrong.
pub data Problem : Type 0 where
  not_ipv4 zero_port unspecified multicast broadcast bad_listen not_loopback : Str → Problem
  window_range window_not_power : ℤ → Problem
  probe_range mtu_range not_positive : Str → Problem
  name_empty : Problem
  name_too_long name_bad_byte : Str → Problem
  missed_probes : Problem
  rates_not_positive min_exceeds_initial initial_exceeds_max : Problem
  required : Str → Problem
  no_interfaces too_many_interfaces : Problem
  duplicate_name duplicate_fwmark duplicate_table zero_fwmark table_is_reserved
        tunnel_table_collision :
      Str → Problem
  bad_gateway rate_not_positive : Str → Problem
  bad_ipv6_policy tunnel_table_reserved rule_priority_range paths_range packet_max_bytes
        rekey_packets :
      Problem
  bad_dns_server : ℕ → Problem
  subnet_not_ipv4 address_not_ipv4 address_outside_subnet prefix_length_differs : Problem
  below_one : Str → Problem
  pending_exceeds bad_retry_mode wan_required no_peers : Problem
  peer_name_required : ℕ → Problem
  peer_not_ipv4 peer_outside_subnet duplicate_tunnel_ip peer_sessions : Str → Problem

-- `if b { e.addf(…) }`
abbrev pub when : Bool → Problem → List Problem
when true p = p ∷ []
when false p = []

unfoldable pub check_server_addr : Str → AddrPort → List Problem
check_server_addr field ap =
    if not (is_valid ap.addr)
    then not_ipv4 field ∷ []
    else when (not (is4 ap.addr)) (not_ipv4 field)
      ++ (when (ap.port == 0) (zero_port field)
          ++ (if is_unspecified ap.addr
              then unspecified field ∷ []
              else if is_multicast ap.addr
              then multicast field ∷ []
              else when (addr_eq ap.addr (v4 0xffffffff)) (broadcast field)))

unfoldable pub check_listen_addr : Str → AddrPort → List Problem
check_listen_addr field ap =
    if not (is_valid ap.addr) || not (is4 ap.addr)
    then bad_listen field ∷ []
    else when (ap.port == 0) (zero_port field)

-- A valid address is IPv4 or IPv6, so the source's "invalid listen address" is the second test.
unfoldable pub check_metrics_addr : Str → AddrPort → Bool → List Problem
check_metrics_addr field ap allow_public =
    if not (is_valid ap.addr)
    then []
    else if not (is4 ap.addr) && not (is6 ap.addr)
    then bad_listen field ∷ []
    else when (not (is_loopback ap.addr) && not allow_public) (not_loopback field)

unfoldable pub check_dedup_window : ℤ → List Problem
check_dedup_window (negsuc n) = window_range (negsuc n) ∷ []
check_dedup_window (pos n) =
    if ltb n min_dedup_window || ltb max_dedup_window n
    then window_range (pos n) ∷ []
    else when (not (bit_and n (n - 1) == 0)) (window_not_power (pos n))

unfoldable pub check_probe_interval : Str → Duration → List Problem
check_probe_interval field d = when (ltb_ℤ d min_probe || ltb_ℤ max_probe d) (probe_range field)

unfoldable pub check_tun_mtu : Str → ℤ → List Problem
check_tun_mtu field mtu = when (ltb_ℤ mtu min_tun_mtu || ltb_ℤ max_tun_mtu mtu) (mtu_range field)

-- The bytes of "/ \t\n".
abbrev pub is_bad_name_byte : ℕ → Bool
is_bad_name_byte b = b == 47 || b == 32 || b == 9 || b == 10

unfoldable pub check_iface_name : Str → List Problem
check_iface_name name =
    if str_eq name []
    then name_empty ∷ []
    else if ltb iface_name_max (length name)
    then name_too_long name ∷ []
    else when (any_byte is_bad_name_byte name) (name_bad_byte name)

unfoldable pub require_dur : Str → Duration → List Problem
require_dur field d = when (leb_ℤ d (pos 0)) (not_positive field)

unfoldable pub validate_health : HealthConfig → List Problem
unfolding check_probe_interval
validate_health h =
    check_probe_interval (codes "health.probe_interval") h.probe_interval
    ++ when (ltb_ℤ h.dead_after_missed_probes (pos 1)) missed_probes

-- What the standard library decides for these checks: whether `netip.ParseAddr` accepts a text, and the
-- comparison `float64(kbps) / 1000 > float64(mbps)`.
pub record Library : Type 0 where
  pub parses_addr : Str → Bool
  pub kbps_exceeds : ℤ → ℤ → Bool

module _ (lib : Library) where
  unfoldable pub validate_congestion : CongestionConfig → List Problem
  unfolding require_dur
  validate_congestion c =
      if leb_ℤ c.initial_pacing_rate_mbps (pos 0)
        || leb_ℤ c.min_pacing_rate_kbps (pos 0)
        || leb_ℤ c.max_pacing_rate_mbps (pos 0)
      then rates_not_positive ∷ []
      else when (lib.kbps_exceeds c.min_pacing_rate_kbps c.initial_pacing_rate_mbps)
          min_exceeds_initial
        ++ (when (ltb_ℤ c.max_pacing_rate_mbps c.initial_pacing_rate_mbps) initial_exceeds_max
            ++ require_dur (codes "congestion.queue_delay_target") c.queue_delay_target)
