-- ===== src/Config/Tests.antt =====
-- internal/config at concrete configurations.
use red_mpudp.Prelude.{◌^◌, ◌<◌, ◌≡◌, ◌↔◌, refl, sym, true, false, [], ◌∷◌, none, inr, ap, arith}
use red_mpudp.Prelude.Int.{pos, leb_ℤ}
use red_mpudp.Prelude.Bytes.{Str, codes, str_eq, any_byte}
use red_mpudp.Config.Netip.{
  AddrPort, v4, no_addr, prefix, contains, is_loopback, is_multicast, is_unspecified, addr_eq,
}
use red_mpudp.Config.Types.{Client, Server, Interface, Peer, reserved}
use red_mpudp.Config.Checks.{
  Library, check_dedup_window, check_server_addr, check_listen_addr, check_metrics_addr,
  check_probe_interval, check_tun_mtu, check_iface_name, require_dur, validate_health,
  validate_congestion,
}
use red_mpudp.Config.Client as C
use red_mpudp.Config.Server as S
use red_mpudp.Config.Client.{
  validate as validate_client, apply_defaults as client_defaults, validate_interfaces,
}
use red_mpudp.Config.Client.Valid.{IsClient, validate_client_iff}
use red_mpudp.Config.Server.{
  validate as validate_server, apply_defaults as server_defaults, validate_peers,
}
use red_mpudp.Config.Server.Valid.{IsServer, validate_server_iff}
use red_mpudp.Config.Load.{
  Yaml, document, IsDocument, load_client, load_server, load_client_iff, load_server_iff,
}

-- No text is an address; the comparison of the rates is on whole megabits.
abbrev pub lib : Library
lib = record { parses_addr = λ s. false; kbps_exceeds = λ kbps mbps. leb_ℤ (pos 1000000) kbps }

abbrev no_port : AddrPort
no_port = record { addr = no_addr; port = 0 }

abbrev uplink : Interface
uplink = record {
  name = codes "eth0";
  fwmark = 1;
  routing_table = 101;
  gateway = codes "auto";
  max_pacing_rate_mbps = pos 20;
}

-- A file that says no more than it must.
abbrev sparse : Client
sparse = record {
  server = record { addr = v4 3405803777; port = 51820 };
  identity = record {
    private_key_file = codes "/k";
    server_public_key_file = codes "/s";
    psk_file = codes "/p";
  };
  interfaces =
      uplink ∷ record uplink { name = codes "wlan0"; fwmark = 2; routing_table = 102 } ∷ [];
  tun = record { name = []; mtu = pos 0 };
  routing = record {
    manage = true;
    full_tunnel = true;
    tunnel_table = 0;
    rule_priority_base = 0;
    allow_lan = false;
    kill_switch = true;
    ipv6_policy = [];
  };
  dns = record { manage = false; servers = []; strict = false };
  scheduler = record {
    mode = [];
    max_paths = pos 0;
    latency_packet_max_bytes = pos 0;
    latency_replica_budget_mbps = pos 0;
    standard_replica_budget_mbps = pos 0;
    replica_queue_budget = pos 0;
    primary_queue_deadline = pos 0;
  };
  health = record { probe_interval = pos 0; dead_after_missed_probes = pos 0 };
  congestion = record {
    initial_pacing_rate_mbps = pos 0;
    min_pacing_rate_kbps = pos 0;
    max_pacing_rate_mbps = pos 0;
    queue_delay_target = pos 0;
  };
  session = record { rekey_after = pos 0; rekey_after_packets = 0; dedup_window = pos 0 };
  metrics_addr = no_port;
  metrics_allow_public = false;
  log_level = [];
}

abbrev pub client : Client
client = client_defaults sparse

abbrev peer : Peer
peer = record {
  name = codes "laptop";
  public_key_file = codes "/l";
  psk_file = codes "/q";
  tunnel_ip = v4 167772418;
  max_sessions = pos 2;
}

abbrev sparse_server : Server
sparse_server = record {
  listen = record { addr = v4 0; port = 51820 };
  private_key_file = codes "/k";
  peers = peer ∷ record peer { name = codes "phone"; tunnel_ip = v4 167772419 } ∷ [];
  tun = record {
    name = [];
    address = prefix (v4 167772417) 24;
    subnet = prefix (v4 167772416) 24;
    mtu = pos 0;
  };
  network = record { manage_nat = true; wan_interface = codes "eth0" };
  limits = record {
    max_paths_per_session = pos 0;
    max_sessions = pos 0;
    max_pending_handshakes = pos 0;
    max_pending_per_source = pos 0;
    session_idle_timeout = pos 0;
    retry_mode = [];
  };
  health = record { probe_interval = pos 0; dead_after_missed_probes = pos 0 };
  congestion = record {
    initial_pacing_rate_mbps = pos 0;
    min_pacing_rate_kbps = pos 0;
    max_pacing_rate_mbps = pos 0;
    queue_delay_target = pos 0;
  };
  metrics_addr = no_port;
  metrics_allow_public = false;
  log_level = [];
}

abbrev pub server : Server
server = server_defaults sparse_server

client_accepted : validate_client lib client ≡ none
unfolding C.validate C.problems C.apply_defaults C.apply_health_defaults C.apply_congestion_defaults
    C.identity_problems C.tun_problems C.routing_problems C.scheduler_problems C.session_problems
    C.dns_problems C.err C.validate_interfaces C.check_interfaces C.check_interface C.has C.remember
    check_server_addr check_metrics_addr check_dedup_window check_probe_interval check_tun_mtu
    check_iface_name require_dur validate_health validate_congestion is_unspecified is_multicast
    is_loopback addr_eq str_eq any_byte reserved
client_accepted = refl

server_accepted : validate_server lib server ≡ none
unfolding S.validate S.problems S.apply_defaults C.apply_health_defaults C.apply_congestion_defaults
    S.tun_problems S.limits_problems S.network_problems S.validate_peers S.check_peers S.check_peer
    S.check_peer_ip S.remember C.err C.has check_listen_addr check_metrics_addr check_probe_interval
    check_tun_mtu check_iface_name require_dur validate_health validate_congestion contains
    is_loopback addr_eq str_eq any_byte
server_accepted = refl

client_is_valid : IsClient lib client
unfolding C.apply_defaults
client_is_valid = (validate_client_iff lib client (omega arith)).0 client_accepted

validate_client_iff_example : (validate_client lib client ≡ none) ↔ IsClient lib client
unfolding C.apply_defaults
validate_client_iff_example = validate_client_iff lib client (omega arith)

validate_server_iff_example : (validate_server lib server ≡ none) ↔ IsServer lib server
validate_server_iff_example = validate_server_iff lib server

server_is_valid : IsServer lib server
server_is_valid = validate_server_iff_example.0 server_accepted

-- A decoder whose states are the bytes left; each input is one document, the given one.
abbrev pub constantly {ℓ} : {A : Type ℓ} → A → Yaml Str A
constantly a = record {
  new_decoder = λ bytes. bytes;
  decode = λ bytes. (document a, []);
  at_end = λ bytes. true;
}

abbrev sparse_document : (bytes : Str) → IsDocument (constantly sparse) bytes sparse
sparse_document bytes = ([], refl, refl)

only_sparse :
    (bytes : Str) (a : Client)
    → IsDocument (constantly sparse) bytes a
    → a.routing.rule_priority_base < 2 ^ 32
only_sparse bytes a d =
    let e : document sparse ≡ document a = ap (λ q. q.0) d.1 in
    let same : sparse ≡ a = cc in rw (sym same) (omega arith)

load_client_iff_example : (load_client lib (constantly sparse) (codes "server: …") ≡ inr client) ↔ (
    (a : Client) × IsDocument (constantly sparse) (codes "server: …") a
    × (client ≡ client_defaults a)
    × IsClient lib client)
load_client_iff_example =
    load_client_iff lib (constantly sparse) only_sparse (codes "server: …") client

sparse-load_client : load_client lib (constantly sparse) (codes "server: …") ≡ inr client
sparse-load_client =
    load_client_iff_example.1 (sparse, sparse_document (codes "server: …"), refl, client_is_valid)

load_server_iff_example :
    (load_server lib (constantly sparse_server) (codes "listen: …") ≡ inr server) ↔ (
      (a : Server) × IsDocument (constantly sparse_server) (codes "listen: …") a
      × (server ≡ server_defaults a)
      × IsServer lib server)
load_server_iff_example = load_server_iff lib (constantly sparse_server) (codes "listen: …") server
