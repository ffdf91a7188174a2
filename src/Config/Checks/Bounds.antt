-- ===== src/Config/Checks/Bounds.antt =====
-- internal/config/validate.go: each check against the values it is to accept.
use red_mpudp.Prelude.{
  ◌≤◌, ◌≡◌, ◌≢◌, refl, ◌⊎◌, ◌↔◌, Bool, true, false, List, [], ◌++◌, arith, length, append-eq_nil,
}
use red_mpudp.Prelude.Int.{ℤ, pos, ◌≤ℤ◌, ◌<ℤ◌}
use red_mpudp.Prelude.Bytes.{Str, str_eq_iff, any_byte}
use red_mpudp.Config.Netip.{
  Addr, AddrPort, v4, no_addr, v6, is_valid, is4, is_unspecified, is_multicast, is_loopback,
  addr_eq,
}
use red_mpudp.Config.Types.{Duration, HealthConfig, CongestionConfig}
use red_mpudp.Config.Checks.{
  Problem, when, is_bad_name_byte, check_server_addr, check_listen_addr, check_metrics_addr,
  check_probe_interval, check_tun_mtu, check_iface_name, require_dur, validate_health,
  validate_congestion, Library,
}

-- Joined checks add no problem exactly when each adds none.
pub append_iff {ℓ κ μ} :
    {A : Type ℓ} {P : Type κ} {Q : Type μ} (xs ys : List A)
    → (xs ≡ []) ↔ P
    → (ys ≡ []) ↔ Q
    → (xs ++ ys ≡ []) ↔ (P × Q)
append_iff xs ys f g = (
  λ h. let e = (append-eq_nil xs ys).0 h in (f.0 e.0, g.0 e.1),
  λ h. (append-eq_nil xs ys).1 (f.1 h.0, g.1 h.1),
)

pub when_iff {ℓ} : {P : Type ℓ} (b : Bool) (p : Problem) → (b ≡ false) ↔ P → (when b p ≡ []) ↔ P
when_iff true p f = (λ h. cc, λ h. let e = f.1 h in cc)
when_iff false p f = (λ h. f.0 refl, λ h. refl)

-- The server's address: IPv4, with a port, and neither 0.0.0.0 nor multicast nor broadcast.
abbrev pub IsServerAddr : AddrPort → Type 0
IsServerAddr ap =
    (is4 ap.addr ≡ true)
    × (ap.port ≢ 0)
    × (is_unspecified ap.addr ≡ false)
    × (is_multicast ap.addr ≡ false)
    × (ap.addr ≢ v4 0xffffffff)

abbrev pub IsListenAddr : AddrPort → Type 0
IsListenAddr ap = (is4 ap.addr ≡ true) × (ap.port ≢ 0)

-- A metrics listener is off, on loopback, or allowed to be public.
abbrev pub IsMetricsAddr : AddrPort → Bool → Type 0
IsMetricsAddr ap allow = (is_valid ap.addr ≡ false) ⊎ (is_loopback ap.addr ≡ true) ⊎ (allow ≡ true)

abbrev pub IsIfaceName : Str → Type 0
IsIfaceName s = (s ≢ []) × (length s ≤ 15) × (any_byte is_bad_name_byte s ≡ false)

abbrev pub IsHealth : HealthConfig → Type 0
IsHealth h =
    ((pos 100000000 ≤ℤ h.probe_interval) × (h.probe_interval ≤ℤ pos 5000000000))
    × (pos 1 ≤ℤ h.dead_after_missed_probes)

abbrev pub IsCongestion : Library → CongestionConfig → Type 0
IsCongestion lib c =
    (pos 0 <ℤ c.initial_pacing_rate_mbps)
    × (pos 0 <ℤ c.min_pacing_rate_kbps)
    × (pos 0 <ℤ c.max_pacing_rate_mbps)
    × (lib.kbps_exceeds c.min_pacing_rate_kbps c.initial_pacing_rate_mbps ≡ false)
    × (c.initial_pacing_rate_mbps ≤ℤ c.max_pacing_rate_mbps)
    × (pos 0 <ℤ c.queue_delay_target)

addr_eq_broadcast : (a : Addr) → (addr_eq a (v4 0xffffffff) ≡ true) ↔ (a ≡ v4 0xffffffff)
unfolding addr_eq
addr_eq_broadcast no_addr = ground arith
addr_eq_broadcast (v4 a) = ground arith
addr_eq_broadcast (v6 a z) = ground arith

pub check_server_addr_iff :
    (f : Str) (ap : AddrPort) → (check_server_addr f ap ≡ []) ↔ IsServerAddr ap
unfolding check_server_addr
check_server_addr_iff f ap = ground (arith, addr_eq_broadcast ap.addr)

pub check_listen_addr_iff :
    (f : Str) (ap : AddrPort) → (check_listen_addr f ap ≡ []) ↔ IsListenAddr ap
unfolding check_listen_addr
check_listen_addr_iff f ap = ground arith

pub check_metrics_addr_iff :
    (f : Str) (ap : AddrPort) (allow : Bool)
    → (check_metrics_addr f ap allow ≡ []) ↔ IsMetricsAddr ap allow
unfolding check_metrics_addr
check_metrics_addr_iff f ap allow = ground arith

pub check_probe_interval_iff :
    (f : Str) (d : Duration)
    → (check_probe_interval f d ≡ []) ↔ ((pos 100000000 ≤ℤ d) × (d ≤ℤ pos 5000000000))
unfolding check_probe_interval
check_probe_interval_iff f d = ground arith

pub check_tun_mtu_iff :
    (f : Str) (m : ℤ) → (check_tun_mtu f m ≡ []) ↔ ((pos 1112 ≤ℤ m) × (m ≤ℤ pos 1400))
unfolding check_tun_mtu
check_tun_mtu_iff f m = ground arith

pub check_iface_name_iff : (s : Str) → (check_iface_name s ≡ []) ↔ IsIfaceName s
unfolding check_iface_name
check_iface_name_iff s = ground (arith, str_eq_iff s [])

pub require_dur_iff : (f : Str) (d : Duration) → (require_dur f d ≡ []) ↔ (pos 0 <ℤ d)
unfolding require_dur
require_dur_iff f d = ground arith

pub validate_health_iff : (h : HealthConfig) → (validate_health h ≡ []) ↔ IsHealth h
unfolding validate_health
validate_health_iff h =
    append_iff _ _ (check_probe_interval_iff _ h.probe_interval) (when_iff _ _ (ground arith))

pub validate_congestion_iff :
    (lib : Library) (c : CongestionConfig) → (validate_congestion lib c ≡ []) ↔ IsCongestion lib c
unfolding validate_congestion
validate_congestion_iff lib c = ground arith
