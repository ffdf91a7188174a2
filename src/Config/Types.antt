-- ===== src/Config/Types.antt =====
-- internal/config/types.go, and the records of client.go and server.go. An `int`, `int64` or duration (in
-- nanoseconds) is an integer, an unsigned value a number; texts are bytes.
use red_mpudp.Prelude.{ℕ, Bool, List, ◌==◌, ltb, ◌||◌}
use red_mpudp.Prelude.Int.{ℤ}
use red_mpudp.Prelude.Bytes.{Str}
use red_mpudp.Config.Netip.{Addr, AddrPort, Prefix}

abbrev pub Duration : Type 0
Duration = ℤ

abbrev pub rt_max : ℕ
rt_max = 0x7fffffff

-- `RouteTable.reserved`: unspec, default, main, local, or past the largest table.
unfoldable pub reserved : ℕ → Bool
reserved t = t == 0 || t == 253 || t == 254 || t == 255 || ltb rt_max t

abbrev pub rule_priority_ceiling : ℕ
rule_priority_ceiling = 32765

pub record HealthConfig : Type 0 where
  pub probe_interval : Duration
  pub dead_after_missed_probes : ℤ

pub record CongestionConfig : Type 0 where
  pub initial_pacing_rate_mbps : ℤ
  pub min_pacing_rate_kbps : ℤ
  pub max_pacing_rate_mbps : ℤ
  pub queue_delay_target : Duration

pub record ClientIdentity : Type 0 where
  pub private_key_file : Str
  pub server_public_key_file : Str
  pub psk_file : Str

pub record Interface : Type 0 where
  pub name : Str
  pub fwmark : ℕ
  pub routing_table : ℕ
  pub gateway : Str
  pub max_pacing_rate_mbps : ℤ

pub record ClientTun : Type 0 where
  pub name : Str
  pub mtu : ℤ

pub record Routing : Type 0 where
  pub manage : Bool
  pub full_tunnel : Bool
  pub tunnel_table : ℕ
  pub rule_priority_base : ℕ
  pub allow_lan : Bool
  pub kill_switch : Bool
  pub ipv6_policy : Str

pub record Dns : Type 0 where
  pub manage : Bool
  pub servers : List Addr
  pub strict : Bool

pub record Scheduler : Type 0 where
  pub mode : Str
  pub max_paths : ℤ
  pub latency_packet_max_bytes : ℤ
  pub latency_replica_budget_mbps : ℤ
  pub standard_replica_budget_mbps : ℤ
  pub replica_queue_budget : Duration
  pub primary_queue_deadline : Duration

pub record Session : Type 0 where
  pub rekey_after : Duration
  pub rekey_after_packets : ℕ
  pub dedup_window : ℤ

pub record Client : Type 0 where
  pub server : AddrPort
  pub identity : ClientIdentity
  pub interfaces : List Interface
  pub tun : ClientTun
  pub routing : Routing
  pub dns : Dns
  pub scheduler : Scheduler
  pub health : HealthConfig
  pub congestion : CongestionConfig
  pub session : Session
  pub metrics_addr : AddrPort
  pub metrics_allow_public : Bool
  pub log_level : Str

pub record Peer : Type 0 where
  pub name : Str
  pub public_key_file : Str
  pub psk_file : Str
  pub tunnel_ip : Addr
  pub max_sessions : ℤ

pub record ServerTun : Type 0 where
  pub name : Str
  pub address : Prefix
  pub subnet : Prefix
  pub mtu : ℤ

pub record Network : Type 0 where
  pub manage_nat : Bool
  pub wan_interface : Str

pub record Limits : Type 0 where
  pub max_paths_per_session : ℤ
  pub max_sessions : ℤ
  pub max_pending_handshakes : ℤ
  pub max_pending_per_source : ℤ
  pub session_idle_timeout : Duration
  pub retry_mode : Str

pub record Server : Type 0 where
  pub listen : AddrPort
  pub private_key_file : Str
  pub peers : List Peer
  pub tun : ServerTun
  pub network : Network
  pub limits : Limits
  pub health : HealthConfig
  pub congestion : CongestionConfig
  pub metrics_addr : AddrPort
  pub metrics_allow_public : Bool
  pub log_level : Str
