-- ===== src/Config/Server/Peers.antt =====
-- internal/config/server.go, `validatePeers`, and the lists of peers that it is to accept.
use red_mpudp.Prelude.{
  ℕ, ◌+◌, ◌≡◌, ◌≢◌, refl, ◌↔◌, true, false, List, [], ◌∷◌, arith, All, if◌then◌else◌, ◌⊎◌,
}
use red_mpudp.Prelude.Int.{pos, ◌≤ℤ◌, ltb_ℤ}
use red_mpudp.Prelude.Bytes.{str_eq, str_eq_iff}
use red_mpudp.Config.Netip.{
  Addr, Prefix, no_addr, v4, v6, is_valid, is4, addr_eq, contains, is_valid_prefix,
}
use red_mpudp.Config.Types.{Peer}
use red_mpudp.Config.Checks.{when, duplicate_name, peer_name_required}
use red_mpudp.Config.Checks.Bounds.{append_iff, when_iff}
use red_mpudp.Config.Client.{has}
use red_mpudp.Config.Server.{
  SeenPeers, has_ip, remember, check_peer_ip, check_peer, check_peers, validate_peers,
}

-- A peer on its own: named, with its key files, an IPv4 address in the subnet (when the subnet is valid)
-- and room for one session.
abbrev pub IsPeer : Prefix → Peer → Type 0
IsPeer subnet p =
    (p.name ≢ [])
    × (p.public_key_file ≢ [])
    × (p.psk_file ≢ [])
    × (is4 p.tunnel_ip ≡ true)
    × ((is_valid_prefix subnet ≡ false) ⊎ (contains subnet p.tunnel_ip ≡ true))
    × (pos 1 ≤ℤ p.max_sessions)

-- Two peers with different names and different tunnel addresses.
abbrev pub Differ : Peer → Peer → Type 0
Differ p q = (p.name ≢ q.name) × (p.tunnel_ip ≢ q.tunnel_ip)

-- Each peer differs from every later one.
abbrev pub AllDiffer : List Peer → Type 0
AllDiffer [] = Unit
AllDiffer (p ∷ ps) = All (Differ p) ps × AllDiffer ps

abbrev Unseen : SeenPeers → Peer → Type 0
Unseen seen p = (has str_eq p.name seen.names ≡ false) × (has addr_eq p.tunnel_ip seen.ips ≡ false)

addr_eq_iff : (a b : Addr) → (addr_eq a b ≡ true) ↔ (a ≡ b)
unfolding addr_eq
addr_eq_iff no_addr no_addr = (λ h. refl, λ h. refl)
addr_eq_iff no_addr (v4 b) = ground arith
addr_eq_iff no_addr (v6 b z) = ground arith
addr_eq_iff (v4 a) no_addr = ground arith
addr_eq_iff (v4 a) (v4 b) = ground arith
addr_eq_iff (v4 a) (v6 b z) = ground arith
addr_eq_iff (v6 a z) no_addr = ground arith
addr_eq_iff (v6 a z) (v4 b) = ground arith
addr_eq_iff (v6 a z) (v6 b y) = ground (arith, str_eq_iff z y)

is4_valid : (a : Addr) → is4 a ≡ true → is_valid a ≡ true
is4_valid no_addr h = cc
is4_valid (v4 a) h = refl
is4_valid (v6 a z) h = refl

has_ip_lem : (p : Peer) → is4 p.tunnel_ip ≡ true → has_ip p ≡ true
has_ip_lem p h = rw (is4_valid p.tunnel_ip h, h) refl

has_ip_iff : (p : Peer) → (has_ip p ≡ true) ↔ (is4 p.tunnel_ip ≡ true)
has_ip_iff p = ground (arith, has_ip_lem p)

check_peer_ip_iff :
    (subnet : Prefix) (ips : List Addr) (p : Peer)
    → (check_peer_ip subnet ips p ≡ []) ↔ (
        (is4 p.tunnel_ip ≡ true)
        × ((is_valid_prefix subnet ≡ false) ⊎ (contains subnet p.tunnel_ip ≡ true))
        × (has addr_eq p.tunnel_ip ips ≡ false))
unfolding check_peer_ip
check_peer_ip_iff subnet ips p = ground (arith, has_ip_lem p)

check_peer_iff :
    (subnet : Prefix) (i : ℕ) (seen : SeenPeers) (p : Peer)
    → (check_peer subnet i seen p ≡ []) ↔ (IsPeer subnet p × Unseen seen p)
unfolding check_peer
check_peer_iff subnet i seen p =
    let named : ((if str_eq p.name []
            then peer_name_required i ∷ []
            else when (has str_eq p.name seen.names) (duplicate_name p.name))
          ≡ [])
        ↔ ((p.name ≢ []) × (has str_eq p.name seen.names ≡ false)) =
      ground (arith, str_eq_iff p.name []) in
    let k = append_iff _ _ named (
      append_iff _ _
        (when_iff {P = p.public_key_file ≢ []} (str_eq p.public_key_file []) _
          (ground (arith, str_eq_iff p.public_key_file [])))
        (append_iff _ _
          (when_iff {P = p.psk_file ≢ []} (str_eq p.psk_file []) _
            (ground (arith, str_eq_iff p.psk_file [])))
          (append_iff _ _ (check_peer_ip_iff subnet seen.ips p) (
            when_iff {P = pos 1 ≤ℤ p.max_sessions} (ltb_ℤ p.max_sessions (pos 1)) _
              (ground arith))))) in
    (
      λ h.
          let (a, b) = k.0 h in
          let (key, c) = b in
          let (psk, d) = c in
          let (ip, room) = d in ((a.0, key, psk, ip.0, ip.1, room), (a.1, ip.2)),
      λ h.
          let (name, key, psk, ip, within, room) = h.0 in
          let (new_name, new_ip) = h.1 in
          k.1 ((name, new_name), (key, (psk, ((ip, within, new_ip), room)))),
    )

-- What one more remembered peer with an address means for the next.
Unseen-remember :
    (seen : SeenPeers) (p q : Peer)
    → is4 p.tunnel_ip ≡ true
    → Unseen (remember seen p) q ↔ (Unseen seen q × Differ p q)
unfolding remember has
Unseen-remember seen p q h =
    rw (has_ip_lem p h)
      (ground (arith, str_eq_iff q.name p.name, addr_eq_iff q.tunnel_ip p.tunnel_ip))

All-Unseen-remember :
    (seen : SeenPeers) (p : Peer) (qs : List Peer)
    → is4 p.tunnel_ip ≡ true
    → All (Unseen (remember seen p)) qs ↔ (All (Unseen seen) qs × All (Differ p) qs)
All-Unseen-remember seen p [] four = (λ h. (tt, tt), λ h. tt)
All-Unseen-remember seen p (q ∷ qs) four =
    let a = Unseen-remember seen p q four in
    let b = All-Unseen-remember seen p qs four in
    (
      λ h. let (x, y) = a.0 h.0 in let (xs, ys) = b.0 h.1 in ((x, xs), (y, ys)),
      λ h. (a.1 (h.0.0, h.1.0), b.1 (h.0.1, h.1.1)),
    )

check_peers_iff :
    (subnet : Prefix) (i : ℕ) (seen : SeenPeers) (ps : List Peer)
    → (check_peers subnet i seen ps ≡ [])
      ↔ (All (IsPeer subnet) ps × AllDiffer ps × All (Unseen seen) ps)
unfolding check_peers
check_peers_iff subnet i seen [] = (λ h. (tt, tt, tt), λ h. refl)
check_peers_iff subnet i seen (p ∷ ps) =
    let a =
      append_iff _ _ (check_peer_iff subnet i seen p)
        (check_peers_iff subnet (i + 1) (remember seen p) ps) in
    (
      λ h.
          let (one, rest) = a.0 h in
          let (well, differ, unseen) = rest in
          let (us, ds) = (All-Unseen-remember seen p ps one.0.3).0 unseen in
          ((one.0, well), (ds, differ), (one.1, us)),
      λ h. a.1 (
        (h.0.0, h.2.0),
        (h.0.1, h.1.1, (All-Unseen-remember seen p ps h.0.0.3).1 (h.2.1, h.1.0)),
      ),
    )

abbrev none_seen : SeenPeers
none_seen = record { names = []; ips = [] }

All-Unseen : (ps : List Peer) → All (Unseen none_seen) ps
unfolding has
All-Unseen [] = tt
All-Unseen (p ∷ ps) = ((refl, refl), All-Unseen ps)

-- At least one peer, each well formed, no two with the same name or tunnel address.
abbrev pub ArePeers : Prefix → List Peer → Type 0
ArePeers subnet ps = (ps ≢ []) × All (IsPeer subnet) ps × AllDiffer ps

-- `validatePeers` adds no problem exactly for one or more peers that are well formed, with addresses
-- inside the subnet, of which no two share a name or an address.
pub validate_peers_iff :
    (ps : List Peer) (subnet : Prefix) → (validate_peers ps subnet ≡ []) ↔ ArePeers subnet ps
unfolding validate_peers
validate_peers_iff [] subnet = (λ h. cc, λ h. absurd (h.0 refl))
validate_peers_iff (p ∷ ps) subnet =
    let k = check_peers_iff subnet 0 none_seen (p ∷ ps) in
    (
      λ h. let (well, differ, _) = k.0 h in (λ e. cc, well, differ),
      λ h. k.1 (h.1, h.2, All-Unseen (p ∷ ps)),
    )
