-- ===== src/Config/Client.antt =====
-- internal/config/client.go: defaults and validation of the client's configuration.
pub mod Valid
pub mod Interfaces
pub mod Defaults
use red_mpudp.Prelude.{
  ℕ, zero, suc, ◌+◌, ◌%◌, ◌^◌, Bool, true, false, List, [], ◌∷◌, ◌++◌, Option, none, some, ◌==◌,
  ltb, not, ◌&&◌, ◌||◌, if◌then◌else◌, length,
}
use red_mpudp.Prelude.Int.{ℤ, pos, ltb_ℤ, leb_ℤ, is_zero_ℤ}
use red_mpudp.Prelude.Bytes.{Str, codes, str_eq}
use red_mpudp.Config.Netip.{Addr, is_valid}
use red_mpudp.Config.Types.{
  Client, ClientIdentity, Interface, ClientTun, Routing, Dns, Scheduler, Session, HealthConfig,
  CongestionConfig, reserved, rule_priority_ceiling, Duration,
}
use red_mpudp.Config.Checks.{
  Problem, required, no_interfaces, too_many_interfaces, duplicate_name, duplicate_fwmark,
  duplicate_table, zero_fwmark, table_is_reserved, tunnel_table_collision, bad_gateway,
  rate_not_positive, bad_ipv6_policy, tunnel_table_reserved, rule_priority_range, paths_range,
  packet_max_bytes, rekey_packets, bad_dns_server, when, min_paths, max_paths, check_server_addr,
  check_iface_name, check_tun_mtu, check_dedup_window, check_metrics_addr, require_dur,
  validate_health, validate_congestion, Library,
}

-- A field left at its zero value takes its default.
abbrev pub or_default : ℤ → ℤ → ℤ
or_default x d = if is_zero_ℤ x then d else x

abbrev pub or_default_nat : ℕ → ℕ → ℕ
or_default_nat x d = if x == 0 then d else x

abbrev pub or_default_str : Str → Str → Str
or_default_str s d = if str_eq s [] then d else s

unfoldable pub apply_health_defaults : HealthConfig → HealthConfig
apply_health_defaults h = record {
  probe_interval = or_default h.probe_interval (pos 250000000);
  dead_after_missed_probes = or_default h.dead_after_missed_probes (pos 3);
}

unfoldable pub apply_congestion_defaults : CongestionConfig → CongestionConfig
apply_congestion_defaults c = record {
  initial_pacing_rate_mbps = or_default c.initial_pacing_rate_mbps (pos 1);
  min_pacing_rate_kbps = or_default c.min_pacing_rate_kbps (pos 128);
  max_pacing_rate_mbps = or_default c.max_pacing_rate_mbps (pos 100);
  queue_delay_target = or_default c.queue_delay_target (pos 15000000);
}

unfoldable pub apply_defaults : Client → Client
unfolding apply_health_defaults apply_congestion_defaults
apply_defaults c = record c {
  tun = record {
    name = or_default_str c.tun.name (codes "red0");
    mtu = or_default c.tun.mtu (pos 1180);
  };
  routing = record (c.routing) {
    tunnel_table = or_default_nat c.routing.tunnel_table 200;
    rule_priority_base = or_default_nat c.routing.rule_priority_base 10000;
    ipv6_policy = or_default_str c.routing.ipv6_policy (codes "block");
  };
  scheduler = record {
    mode = or_default_str c.scheduler.mode (codes "adaptive-redundant");
    max_paths = or_default c.scheduler.max_paths (pos 4);
    latency_packet_max_bytes = or_default c.scheduler.latency_packet_max_bytes (pos 768);
    latency_replica_budget_mbps = or_default c.scheduler.latency_replica_budget_mbps (pos 5);
    standard_replica_budget_mbps = or_default c.scheduler.standard_replica_budget_mbps (pos 10);
    replica_queue_budget = or_default c.scheduler.replica_queue_budget (pos 5000000);
    primary_queue_deadline = or_default c.scheduler.primary_queue_deadline (pos 50000000);
  };
  health = apply_health_defaults c.health;
  congestion = apply_congestion_defaults c.congestion;
  session = record {
    rekey_after = or_default c.session.rekey_after (pos 3600000000000);
    rekey_after_packets = or_default_nat c.session.rekey_after_packets (2 ^ 32);
    dedup_window = or_default c.session.dedup_window (pos 65536);
  };
  log_level = or_default_str c.log_level (codes "info");
}

-- Whether a map used as a set holds a key.
unfoldable pub has {ℓ} : {A : Type ℓ} → (A → A → Bool) → A → List A → Bool
has eq x [] = false
has eq x (y ∷ ys) = eq x y || has eq x ys

abbrev pub nat_eq : ℕ → ℕ → Bool
nat_eq a b = a == b

-- `seenName`, `seenMark` and `seenTable`.
pub record Seen : Type 0 where
  pub names : List Str
  pub marks : List ℕ
  pub tables : List ℕ

unfoldable pub remember : Seen → Interface → Seen
remember seen i = record {
  names = i.name ∷ seen.names;
  marks = i.fwmark ∷ seen.marks;
  tables = i.routing_table ∷ seen.tables;
}

unfoldable pub identity_problems : ClientIdentity → List Problem
identity_problems id =
    when (str_eq id.private_key_file []) (required (codes "identity.private_key_file"))
    ++ (when (str_eq id.server_public_key_file [])
          (required (codes "identity.server_public_key_file"))
        ++ when (str_eq id.psk_file []) (required (codes "identity.psk_file")))

unfoldable pub tun_problems : ClientTun → List Problem
tun_problems t = check_iface_name t.name ++ check_tun_mtu (codes "tun.mtu") t.mtu

-- The rule priority is a `uint32`, and so is its sum with 1000.
unfoldable pub routing_problems : Routing → List Problem
routing_problems r =
    when (not (str_eq r.ipv6_policy (codes "block") || str_eq r.ipv6_policy (codes "passthrough")))
      bad_ipv6_policy
    ++ (when (reserved r.tunnel_table) tunnel_table_reserved
        ++ when
            (ltb r.rule_priority_base 1
              || ltb rule_priority_ceiling ((r.rule_priority_base + 1000) % 2 ^ 32))
            rule_priority_range)

unfoldable pub scheduler_problems : Scheduler → List Problem
scheduler_problems s =
    when (ltb_ℤ s.max_paths min_paths || ltb_ℤ max_paths s.max_paths) paths_range
    ++ (when (leb_ℤ s.latency_packet_max_bytes (pos 0)) packet_max_bytes
        ++ (require_dur (codes "scheduler.replica_queue_budget") s.replica_queue_budget
            ++ require_dur (codes "scheduler.primary_queue_deadline") s.primary_queue_deadline))

unfoldable pub session_problems : Session → List Problem
session_problems s =
    check_dedup_window s.dedup_window
    ++ (require_dur (codes "session.rekey_after") s.rekey_after
        ++ when (s.rekey_after_packets == 0) rekey_packets)

unfoldable pub dns_problems : ℕ → List Addr → List Problem
dns_problems i [] = []
dns_problems i (a ∷ as') = when (not (is_valid a)) (bad_dns_server i) ++ dns_problems (i + 1) as'

-- `errList.err`: nil, the one message, or the number of messages and all of them.
pub data Message : Type 0 where
  one : Problem → Message
  several : ℕ → List Problem → Message

unfoldable pub err : List Problem → Option Message
err [] = none
err (p ∷ []) = some (one p)
err (p ∷ q ∷ ps) = some (several (length (p ∷ q ∷ ps)) (p ∷ q ∷ ps))

module _ (lib : Library) where
  -- One round of the loop of `validateInterfaces`.
  unfoldable pub check_interface : ℕ → Seen → Interface → List Problem
  check_interface tunnel_table seen i =
      check_iface_name i.name
      ++ (when (has str_eq i.name seen.names) (duplicate_name i.name)
          ++ ((if i.fwmark == 0
                then zero_fwmark i.name ∷ []
                else when (has nat_eq i.fwmark seen.marks) (duplicate_fwmark i.name))
              ++ (when (reserved i.routing_table) (table_is_reserved i.name)
                  ++ (when (i.routing_table == tunnel_table) (tunnel_table_collision i.name)
                      ++ (when (has nat_eq i.routing_table seen.tables) (duplicate_table i.name)
                          ++ (when
                                (not (str_eq i.gateway [])
                                  && not (str_eq i.gateway (codes "auto"))
                                  && not (lib.parses_addr i.gateway))
                                (bad_gateway i.name)
                              ++ when (leb_ℤ i.max_pacing_rate_mbps (pos 0))
                                  (rate_not_positive i.name)))))))

  unfoldable pub check_interfaces : ℕ → Seen → List Interface → List Problem
  check_interfaces tunnel_table seen [] = []
  check_interfaces tunnel_table seen (i ∷ is) =
      check_interface tunnel_table seen i ++ check_interfaces tunnel_table (remember seen i) is

  unfoldable pub validate_interfaces : List Interface → ℕ → List Problem
  validate_interfaces [] tunnel_table = no_interfaces ∷ []
  validate_interfaces (i ∷ is) tunnel_table =
      when (ltb 4 (length (i ∷ is))) too_many_interfaces
      ++ check_interfaces tunnel_table (record { names = []; marks = []; tables = [] }) (i ∷ is)

  -- The messages that `Validate` collects.
  unfoldable pub problems : Client → List Problem
  unfolding identity_problems tun_problems routing_problems scheduler_problems session_problems
      dns_problems
  problems c =
      check_server_addr (codes "server") c.server
      ++ (identity_problems c.identity
          ++ (validate_interfaces c.interfaces c.routing.tunnel_table
              ++ (tun_problems c.tun
                  ++ (routing_problems c.routing
                      ++ (scheduler_problems c.scheduler
                          ++ (validate_health c.health
                              ++ (validate_congestion lib c.congestion
                                  ++ (session_problems c.session
                                      ++ (dns_problems 0 c.dns.servers
                                          ++ check_metrics_addr (codes "metrics_addr")
                                              c.metrics_addr c.metrics_allow_public)))))))))

  unfoldable pub validate : Client → Option Message
  validate c = err (problems c)
