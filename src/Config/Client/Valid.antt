-- ===== src/Config/Client/Valid.antt =====
-- internal/config/client.go: `Validate` and the valid configurations.
use red_mpudp.Prelude.{
  ℕ, ◌+◌, ◌^◌, ◌≤◌, ◌<◌, ◌≡◌, ◌≢◌, refl, ◌⊎◌, ◌↔◌, true, false, List, [], ◌∷◌, none, arith, All,
  ◌||◌,
}
use red_mpudp.Prelude.Int.{pos, ◌≤ℤ◌, ◌<ℤ◌, ltb_ℤ, leb_ℤ}
use red_mpudp.Prelude.Bytes.{codes, str_eq_iff}
use red_mpudp.Config.Netip.{Addr, is_valid}
use red_mpudp.Config.Types.{
  Client, ClientIdentity, ClientTun, Routing, Scheduler, Session, reserved,
}
use red_mpudp.Config.Checks.{Library, Problem, min_paths, max_paths}
use red_mpudp.Config.Checks.Dedup.{check_dedup_window_iff}
use red_mpudp.Config.Checks.Bounds.{
  append_iff, when_iff, IsServerAddr, IsMetricsAddr, IsIfaceName, IsHealth, IsCongestion,
  check_server_addr_iff, check_metrics_addr_iff, check_iface_name_iff, check_tun_mtu_iff,
  require_dur_iff, validate_health_iff, validate_congestion_iff,
}
use red_mpudp.Config.Client.{
  identity_problems, tun_problems, routing_problems, scheduler_problems, session_problems,
  dns_problems, problems, err, validate,
}
use red_mpudp.Config.Client.Interfaces.{AreInterfaces, validate_interfaces_iff}

abbrev pub IsIdentity : ClientIdentity → Type 0
IsIdentity id = (id.private_key_file ≢ []) × (id.server_public_key_file ≢ []) × (id.psk_file ≢ [])

-- The priority of the first rule: in range, or so large that the `uint32` sum with 1000 wraps.
abbrev pub IsRulePriority : ℕ → Type 0
IsRulePriority base = ((1 ≤ base) × (base ≤ 31765)) ⊎ (2 ^ 32 ≤ base + 1000)

abbrev pub IsRouting : Routing → Type 0
IsRouting r =
    ((r.ipv6_policy ≡ codes "block") ⊎ (r.ipv6_policy ≡ codes "passthrough"))
    × (reserved r.tunnel_table ≡ false)
    × IsRulePriority r.rule_priority_base

abbrev pub IsScheduler : Scheduler → Type 0
IsScheduler s =
    ((pos 1 ≤ℤ s.max_paths) × (s.max_paths ≤ℤ pos 4))
    × (pos 0 <ℤ s.latency_packet_max_bytes)
    × (pos 0 <ℤ s.replica_queue_budget)
    × (pos 0 <ℤ s.primary_queue_deadline)

abbrev pub IsSession : Session → Type 0
IsSession s =
    ((k : ℕ) × (s.dedup_window ≡ pos (2 ^ k)) × (12 ≤ k) × (k ≤ 20))
    × (pos 0 <ℤ s.rekey_after)
    × (s.rekey_after_packets ≢ 0)

pub record IsClient (lib : Library) (c : Client) : Type 0 where
  pub server : IsServerAddr c.server
  pub identity : IsIdentity c.identity
  pub interfaces : AreInterfaces lib c.routing.tunnel_table c.interfaces
  pub tun : IsIfaceName c.tun.name × ((pos 1112 ≤ℤ c.tun.mtu) × (c.tun.mtu ≤ℤ pos 1400))
  pub routing : IsRouting c.routing
  pub scheduler : IsScheduler c.scheduler
  pub health : IsHealth c.health
  pub congestion : IsCongestion lib c.congestion
  pub session : IsSession c.session
  pub dns : All (λ a. is_valid a ≡ true) c.dns.servers
  pub metrics : IsMetricsAddr c.metrics_addr c.metrics_allow_public

identity_problems_iff : (id : ClientIdentity) → (identity_problems id ≡ []) ↔ IsIdentity id
unfolding identity_problems
identity_problems_iff id = ground (
  arith,
  str_eq_iff id.private_key_file [],
  str_eq_iff id.server_public_key_file [],
  str_eq_iff id.psk_file [],
)

tun_problems_iff :
    (t : ClientTun)
    → (tun_problems t ≡ []) ↔ (IsIfaceName t.name × ((pos 1112 ≤ℤ t.mtu) × (t.mtu ≤ℤ pos 1400)))
unfolding tun_problems
tun_problems_iff t = append_iff _ _ (check_iface_name_iff t.name) (check_tun_mtu_iff _ t.mtu)

routing_problems_iff :
    (r : Routing) → r.rule_priority_base < 2 ^ 32 → (routing_problems r ≡ []) ↔ IsRouting r
unfolding routing_problems
routing_problems_iff r h = ground (
  arith,
  str_eq_iff r.ipv6_policy (codes "block"),
  str_eq_iff r.ipv6_policy (codes "passthrough"),
)

scheduler_problems_iff : (s : Scheduler) → (scheduler_problems s ≡ []) ↔ IsScheduler s
unfolding scheduler_problems
scheduler_problems_iff s =
    let k =
      append_iff _ _
        (when_iff {P = (pos 1 ≤ℤ s.max_paths) × (s.max_paths ≤ℤ pos 4)}
          (ltb_ℤ s.max_paths min_paths || ltb_ℤ max_paths s.max_paths) _ (ground arith))
        (append_iff _ _
          (when_iff {P = pos 0 <ℤ s.latency_packet_max_bytes}
            (leb_ℤ s.latency_packet_max_bytes (pos 0)) _ (ground arith))
          (append_iff _ _ (require_dur_iff _ s.replica_queue_budget)
            (require_dur_iff _ s.primary_queue_deadline))) in
    (λ h. let n = k.0 h in (n.0, n.1.0, n.1.1.0, n.1.1.1), λ h. k.1 (h.0, (h.1, (h.2, h.3))))

session_problems_iff : (s : Session) → (session_problems s ≡ []) ↔ IsSession s
unfolding session_problems
session_problems_iff s =
    let k = append_iff _ _ (check_dedup_window_iff s.dedup_window) (
      append_iff _ _ (require_dur_iff _ s.rekey_after)
        (when_iff {P = s.rekey_after_packets ≢ 0} _ _ (ground arith))) in
    (λ h. let n = k.0 h in (n.0, n.1.0, n.1.1), λ h. k.1 (h.0, (h.1, h.2)))

dns_problems_iff :
    (i : ℕ) (l : List Addr) → (dns_problems i l ≡ []) ↔ All (λ a. is_valid a ≡ true) l
unfolding dns_problems
dns_problems_iff i [] = (λ h. tt, λ h. refl)
dns_problems_iff i (a ∷ l) =
    append_iff _ _ (when_iff {P = is_valid a ≡ true} _ _ (ground arith))
      (dns_problems_iff (i + 1) l)

problems_iff :
    (lib : Library) (c : Client)
    → c.routing.rule_priority_base < 2 ^ 32
    → (problems lib c ≡ []) ↔ IsClient lib c
unfolding problems
problems_iff lib c h =
    let k = append_iff _ _ (check_server_addr_iff _ c.server) (
      append_iff _ _ (identity_problems_iff c.identity) (
        append_iff _ _ (validate_interfaces_iff lib c.interfaces c.routing.tunnel_table) (
          append_iff _ _ (tun_problems_iff c.tun) (
            append_iff _ _ (routing_problems_iff c.routing h) (
              append_iff _ _ (scheduler_problems_iff c.scheduler) (
                append_iff _ _ (validate_health_iff c.health) (
                  append_iff _ _ (validate_congestion_iff lib c.congestion) (
                    append_iff _ _ (session_problems_iff c.session) (
                      append_iff _ _ (dns_problems_iff 0 c.dns.servers)
                        (check_metrics_addr_iff _ c.metrics_addr c.metrics_allow_public)))))))))) in
    (
      λ e.
          let n = k.0 e in
          record {
            server = n.0;
            identity = n.1.0;
            interfaces = n.1.1.0;
            tun = n.1.1.1.0;
            routing = n.1.1.1.1.0;
            scheduler = n.1.1.1.1.1.0;
            health = n.1.1.1.1.1.1.0;
            congestion = n.1.1.1.1.1.1.1.0;
            session = n.1.1.1.1.1.1.1.1.0;
            dns = n.1.1.1.1.1.1.1.1.1.0;
            metrics = n.1.1.1.1.1.1.1.1.1.1;
          },
      λ v. k.1 (
        v.server,
        (
          v.identity,
          (
            v.interfaces,
            (
              v.tun,
              (
                v.routing,
                (v.scheduler, (v.health, (v.congestion, (v.session, (v.dns, v.metrics))))),
              ),
            ),
          ),
        ),
      ),
    )

pub err_iff : (ps : List Problem) → (err ps ≡ none) ↔ (ps ≡ [])
unfolding err
err_iff [] = (λ h. refl, λ h. refl)
err_iff (p ∷ []) = (λ h. cc, λ h. cc)
err_iff (p ∷ q ∷ ps) = (λ h. cc, λ h. cc)

-- For a rule priority that fits its 32 bits, `Validate` returns nil exactly for a valid client
-- configuration. A priority within 1000 of 2^32 counts as valid, since the sum that is compared wraps.
pub validate_client_iff :
    (lib : Library) (c : Client)
    → c.routing.rule_priority_base < 2 ^ 32
    → (validate lib c ≡ none) ↔ IsClient lib c
unfolding validate
validate_client_iff lib c h =
    let a = err_iff (problems lib c) in
    let b = problems_iff lib c h in (λ e. b.0 (a.0 e), λ v. a.1 (b.1 v))
