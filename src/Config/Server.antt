-- ===== src/Config/Server.antt =====
-- internal/config/server.go: defaults and validation of the server's configuration.
pub mod Peers
pub mod Valid
use red_mpudp.Prelude.{
  ℕ, ◌+◌, Bool, true, false, List, [], ◌∷◌, ◌++◌, Option, ◌==◌, not, ◌&&◌, ◌||◌, if◌then◌else◌,
}
use red_mpudp.Prelude.Int.{ℤ, pos, ltb_ℤ, eq_ℤ}
use red_mpudp.Prelude.Bytes.{Str, codes, str_eq}
use red_mpudp.Config.Netip.{
  Addr, Prefix, is_valid, is4, addr_eq, contains, is_valid_prefix, prefix_addr, bits,
}
use red_mpudp.Config.Types.{Server, Peer, ServerTun, Network, Limits}
use red_mpudp.Config.Checks.{
  Problem, required, subnet_not_ipv4, address_not_ipv4, address_outside_subnet,
  prefix_length_differs, paths_range, below_one, pending_exceeds, bad_retry_mode, wan_required,
  no_peers, peer_name_required, duplicate_name, peer_not_ipv4, peer_outside_subnet,
  duplicate_tunnel_ip, peer_sessions, when, min_paths, max_paths, check_listen_addr,
  check_iface_name, check_tun_mtu, check_metrics_addr, require_dur, validate_health,
  validate_congestion, Library,
}
use red_mpudp.Config.Client.{
  or_default, or_default_str, apply_health_defaults, apply_congestion_defaults, has, Message, err,
}

unfoldable pub apply_defaults : Server → Server
unfolding apply_health_defaults apply_congestion_defaults
apply_defaults s = record s {
  tun = record (s.tun) {
    name = or_default_str s.tun.name (codes "red0");
    mtu = or_default s.tun.mtu (pos 1180);
  };
  limits = record {
    max_paths_per_session = or_default s.limits.max_paths_per_session (pos 4);
    max_sessions = or_default s.limits.max_sessions (pos 64);
    max_pending_handshakes = or_default s.limits.max_pending_handshakes (pos 256);
    max_pending_per_source = or_default s.limits.max_pending_per_source (pos 8);
    session_idle_timeout = or_default s.limits.session_idle_timeout (pos 120000000000);
    retry_mode = or_default_str s.limits.retry_mode (codes "always");
  };
  health = apply_health_defaults s.health;
  congestion = apply_congestion_defaults s.congestion;
  log_level = or_default_str s.log_level (codes "info");
}

unfoldable pub tun_problems : ServerTun → List Problem
tun_problems t =
    check_iface_name t.name
    ++ (check_tun_mtu (codes "tun.mtu") t.mtu
        ++ (when (not (is_valid_prefix t.subnet) || not (is4 (prefix_addr t.subnet)))
              subnet_not_ipv4
            ++ (when (not (is_valid_prefix t.address) || not (is4 (prefix_addr t.address)))
                  address_not_ipv4
                ++ (if is_valid_prefix t.subnet && is_valid_prefix t.address
                    then when (not (contains t.subnet (prefix_addr t.address)))
                        address_outside_subnet
                      ++ when (not (eq_ℤ (bits t.address) (bits t.subnet))) prefix_length_differs
                    else []))))

unfoldable pub limits_problems : Limits → List Problem
limits_problems l =
    when (ltb_ℤ l.max_paths_per_session min_paths || ltb_ℤ max_paths l.max_paths_per_session)
      paths_range
    ++ (when (ltb_ℤ l.max_sessions (pos 1)) (below_one (codes "limits.max_sessions"))
        ++ (when (ltb_ℤ l.max_pending_handshakes (pos 1))
              (below_one (codes "limits.max_pending_handshakes"))
            ++ (when (ltb_ℤ l.max_pending_per_source (pos 1))
                  (below_one (codes "limits.max_pending_per_source"))
                ++ (when (ltb_ℤ l.max_pending_handshakes l.max_pending_per_source) pending_exceeds
                    ++ (require_dur (codes "limits.session_idle_timeout") l.session_idle_timeout
                        ++ when
                            (not (
                              str_eq l.retry_mode (codes "always")
                              || str_eq l.retry_mode (codes "auto")
                              || str_eq l.retry_mode (codes "never")))
                            bad_retry_mode)))))

unfoldable pub network_problems : Network → List Problem
network_problems n =
    when (n.manage_nat && str_eq n.wan_interface []) wan_required
    ++ (if not (str_eq n.wan_interface []) then check_iface_name n.wan_interface else [])

-- `seenName` and `seenIP`.
pub record SeenPeers : Type 0 where
  pub names : List Str
  pub ips : List Addr

-- Whether the address of a peer is looked at and remembered.
abbrev pub has_ip : Peer → Bool
has_ip p = not (not (is_valid p.tunnel_ip) || not (is4 p.tunnel_ip))

unfoldable pub remember : SeenPeers → Peer → SeenPeers
remember seen p = record {
  names = p.name ∷ seen.names;
  ips = if has_ip p then p.tunnel_ip ∷ seen.ips else seen.ips;
}

unfoldable pub check_peer_ip : Prefix → List Addr → Peer → List Problem
check_peer_ip subnet ips p =
    if has_ip p
    then when (is_valid_prefix subnet && not (contains subnet p.tunnel_ip))
        (peer_outside_subnet p.name)
      ++ when (has addr_eq p.tunnel_ip ips) (duplicate_tunnel_ip p.name)
    else peer_not_ipv4 p.name ∷ []

-- One round of the loop of `validatePeers`.
unfoldable pub check_peer : Prefix → ℕ → SeenPeers → Peer → List Problem
unfolding check_peer_ip
check_peer subnet i seen p =
    (if str_eq p.name []
      then peer_name_required i ∷ []
      else when (has str_eq p.name seen.names) (duplicate_name p.name))
    ++ (when (str_eq p.public_key_file []) (required (codes "public_key_file"))
        ++ (when (str_eq p.psk_file []) (required (codes "psk_file"))
            ++ (check_peer_ip subnet seen.ips p
                ++ when (ltb_ℤ p.max_sessions (pos 1)) (peer_sessions p.name))))

unfoldable pub check_peers : Prefix → ℕ → SeenPeers → List Peer → List Problem
check_peers subnet i seen [] = []
check_peers subnet i seen (p ∷ ps) =
    check_peer subnet i seen p ++ check_peers subnet (i + 1) (remember seen p) ps

unfoldable pub validate_peers : List Peer → Prefix → List Problem
validate_peers [] subnet = no_peers ∷ []
validate_peers (p ∷ ps) subnet = check_peers subnet 0 (record { names = []; ips = [] }) (p ∷ ps)

module _ (lib : Library) where
  -- The messages that `Validate` collects.
  unfoldable pub problems : Server → List Problem
  problems s =
      check_listen_addr (codes "listen") s.listen
      ++ (when (str_eq s.private_key_file []) (required (codes "identity.private_key_file"))
          ++ (tun_problems s.tun
              ++ (limits_problems s.limits
                  ++ (network_problems s.network
                      ++ (validate_peers s.peers s.tun.subnet
                          ++ (validate_health s.health
                              ++ (validate_congestion lib s.congestion
                                  ++ check_metrics_addr (codes "metrics_addr") s.metrics_addr
                                      s.metrics_allow_public)))))))

  unfoldable pub validate : Server → Option Message
  validate s = err (problems s)
