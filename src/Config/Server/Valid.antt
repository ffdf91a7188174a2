-- ===== src/Config/Server/Valid.antt =====
-- internal/config/server.go: `Validate` and the valid configurations, and the defaults applied twice.
use red_mpudp.Prelude.{
  ◌≡◌, ◌≢◌, ◌⊎◌, ◌↔◌, true, false, [], ◌++◌, none, arith, ◌&&◌, ◌||◌, not, if◌then◌else◌,
}
use red_mpudp.Prelude.Int.{pos, ◌≤ℤ◌, ◌<ℤ◌, ltb_ℤ, eq_ℤ}
use red_mpudp.Prelude.Bytes.{codes, str_eq, str_eq_iff}
use red_mpudp.Config.Netip.{
  Prefix, no_prefix, prefix, is4, contains, is_valid_prefix, prefix_addr, bits,
}
use red_mpudp.Config.Types.{Server, ServerTun, Network, Limits}
use red_mpudp.Config.Checks.{
  Library, when, min_paths, max_paths, subnet_not_ipv4, address_not_ipv4, address_outside_subnet,
  prefix_length_differs,
}
use red_mpudp.Config.Checks.Bounds.{
  append_iff, when_iff, IsListenAddr, IsMetricsAddr, IsIfaceName, IsHealth, IsCongestion,
  check_listen_addr_iff, check_metrics_addr_iff, check_iface_name_iff, check_tun_mtu_iff,
  require_dur_iff, validate_health_iff, validate_congestion_iff,
}
use red_mpudp.Config.Client.Defaults.{or_default_idem, or_default_str_idem}
use red_mpudp.Config.Client.Valid.{err_iff}
use red_mpudp.Config.Server.{
  apply_defaults, tun_problems, limits_problems, network_problems, problems, validate,
}
use red_mpudp.Config.Server.Peers.{ArePeers, validate_peers_iff}

-- The tunnel: an IPv4 address inside an IPv4 subnet of the same length.
abbrev pub IsTun : ServerTun → Type 0
IsTun t =
    IsIfaceName t.name
    × ((pos 1112 ≤ℤ t.mtu) × (t.mtu ≤ℤ pos 1400))
    × (is4 (prefix_addr t.subnet) ≡ true)
    × (is4 (prefix_addr t.address) ≡ true)
    × (contains t.subnet (prefix_addr t.address) ≡ true)
    × (bits t.address ≡ bits t.subnet)

abbrev pub IsLimits : Limits → Type 0
IsLimits l =
    ((pos 1 ≤ℤ l.max_paths_per_session) × (l.max_paths_per_session ≤ℤ pos 4))
    × (pos 1 ≤ℤ l.max_sessions)
    × (pos 1 ≤ℤ l.max_pending_handshakes)
    × (pos 1 ≤ℤ l.max_pending_per_source)
    × (l.max_pending_per_source ≤ℤ l.max_pending_handshakes)
    × (pos 0 <ℤ l.session_idle_timeout)
    × ((l.retry_mode ≡ codes "always")
        ⊎ (l.retry_mode ≡ codes "auto")
        ⊎ (l.retry_mode ≡ codes "never"))

abbrev pub IsNetwork : Network → Type 0
IsNetwork n =
    ((n.manage_nat ≡ false) ⊎ (n.wan_interface ≢ []))
    × ((n.wan_interface ≡ []) ⊎ IsIfaceName n.wan_interface)

-- A valid server configuration.
pub record IsServer (lib : Library) (s : Server) : Type 0 where
  pub listen : IsListenAddr s.listen
  pub key : s.private_key_file ≢ []
  pub tun : IsTun s.tun
  pub limits : IsLimits s.limits
  pub network : IsNetwork s.network
  pub peers : ArePeers s.tun.subnet s.peers
  pub health : IsHealth s.health
  pub congestion : IsCongestion lib s.congestion
  pub metrics : IsMetricsAddr s.metrics_addr s.metrics_allow_public

prefixes_iff :
    (s a : Prefix)
    → ((when (not (is_valid_prefix s) || not (is4 (prefix_addr s))) subnet_not_ipv4
          ++ (when (not (is_valid_prefix a) || not (is4 (prefix_addr a))) address_not_ipv4
              ++ (if is_valid_prefix s && is_valid_prefix a
                  then when (not (contains s (prefix_addr a))) address_outside_subnet
                    ++ when (not (eq_ℤ (bits a) (bits s))) prefix_length_differs
                  else [])))
        ≡ [])
      ↔ ((is4 (prefix_addr s) ≡ true)
          × (is4 (prefix_addr a) ≡ true)
          × (contains s (prefix_addr a) ≡ true)
          × (bits a ≡ bits s))
prefixes_iff no_prefix a = (λ h. cc, λ h. cc)
prefixes_iff (prefix p n) no_prefix = ground arith
prefixes_iff (prefix p n) (prefix q m) = ground arith

tun_problems_iff : (t : ServerTun) → (tun_problems t ≡ []) ↔ IsTun t
unfolding tun_problems
tun_problems_iff t =
    let k =
      append_iff _ _ (check_iface_name_iff t.name)
        (append_iff _ _ (check_tun_mtu_iff _ t.mtu) (prefixes_iff t.subnet t.address)) in
    (
      λ h. let n = k.0 h in (n.0, n.1.0, n.1.1.0, n.1.1.1, n.1.1.2, n.1.1.3),
      λ h. k.1 (h.0, (h.1, (h.2, h.3, h.4, h.5))),
    )

limits_problems_iff : (l : Limits) → (limits_problems l ≡ []) ↔ IsLimits l
unfolding limits_problems
limits_problems_iff l =
    let k =
      append_iff _ _
        (when_iff {P = (pos 1 ≤ℤ l.max_paths_per_session) × (l.max_paths_per_session ≤ℤ pos 4)}
          (ltb_ℤ l.max_paths_per_session min_paths || ltb_ℤ max_paths l.max_paths_per_session) _
          (ground arith))
        (append_iff _ _
          (when_iff {P = pos 1 ≤ℤ l.max_sessions} (ltb_ℤ l.max_sessions (pos 1)) _ (ground arith))
          (append_iff _ _
            (when_iff {P = pos 1 ≤ℤ l.max_pending_handshakes}
              (ltb_ℤ l.max_pending_handshakes (pos 1)) _ (ground arith))
            (append_iff _ _
              (when_iff {P = pos 1 ≤ℤ l.max_pending_per_source}
                (ltb_ℤ l.max_pending_per_source (pos 1)) _ (ground arith))
              (append_iff _ _
                (when_iff {P = l.max_pending_per_source ≤ℤ l.max_pending_handshakes}
                  (ltb_ℤ l.max_pending_handshakes l.max_pending_per_source) _ (ground arith))
                (append_iff _ _ (require_dur_iff _ l.session_idle_timeout) (
                  when_iff
                    {P = (l.retry_mode ≡ codes "always")
                      ⊎ (l.retry_mode ≡ codes "auto")
                      ⊎ (l.retry_mode ≡ codes "never")}
                    _ _
                    (ground (
                      arith,
                      str_eq_iff l.retry_mode (codes "always"),
                      str_eq_iff l.retry_mode (codes "auto"),
                      str_eq_iff l.retry_mode (codes "never"),
                    )))))))) in
    (
      λ h.
          let n = k.0 h in
          (n.0, n.1.0, n.1.1.0, n.1.1.1.0, n.1.1.1.1.0, n.1.1.1.1.1.0, n.1.1.1.1.1.1),
      λ h. k.1 (h.0, (h.1, (h.2, (h.3, (h.4, (h.5, h.6)))))),
    )

network_problems_iff : (n : Network) → (network_problems n ≡ []) ↔ IsNetwork n
unfolding network_problems
network_problems_iff n =
    ground (arith, str_eq_iff n.wan_interface [], check_iface_name_iff n.wan_interface)

problems_iff : (lib : Library) (s : Server) → (problems lib s ≡ []) ↔ IsServer lib s
unfolding problems
problems_iff lib s =
    let k = append_iff _ _ (check_listen_addr_iff _ s.listen) (
      append_iff _ _
        (when_iff {P = s.private_key_file ≢ []} (str_eq s.private_key_file []) _
          (ground (arith, str_eq_iff s.private_key_file [])))
        (append_iff _ _ (tun_problems_iff s.tun) (
          append_iff _ _ (limits_problems_iff s.limits) (
            append_iff _ _ (network_problems_iff s.network) (
              append_iff _ _ (validate_peers_iff s.peers s.tun.subnet) (
                append_iff _ _ (validate_health_iff s.health) (
                  append_iff _ _ (validate_congestion_iff lib s.congestion)
                    (check_metrics_addr_iff _ s.metrics_addr s.metrics_allow_public)))))))) in
    (
      λ e.
          let n = k.0 e in
          record {
            listen = n.0;
            key = n.1.0;
            tun = n.1.1.0;
            limits = n.1.1.1.0;
            network = n.1.1.1.1.0;
            peers = n.1.1.1.1.1.0;
            health = n.1.1.1.1.1.1.0;
            congestion = n.1.1.1.1.1.1.1.0;
            metrics = n.1.1.1.1.1.1.1.1;
          },
      λ v. k.1 (
        v.listen,
        (v.key, (v.tun, (v.limits, (v.network, (v.peers, (v.health, (v.congestion, v.metrics))))))),
      ),
    )

-- `Validate` returns nil exactly for a valid server configuration.
pub validate_server_iff : (lib : Library) (s : Server) → (validate lib s ≡ none) ↔ IsServer lib s
unfolding validate
validate_server_iff lib s =
    let e = err_iff (problems lib s) in
    let p = problems_iff lib s in (λ h. p.0 (e.0 h), λ h. e.1 (p.1 h))

-- The server's defaults fill only what is unset: applied again they change nothing.
pub apply_server_defaults_idem : (s : Server) → apply_defaults (apply_defaults s) ≡ apply_defaults s
unfolding apply_defaults
apply_server_defaults_idem s = simp (or_default_idem, or_default_str_idem)
