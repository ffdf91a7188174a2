-- ===== src/Config/Client/Interfaces.antt =====
-- internal/config/client.go, `validateInterfaces`, and the lists of uplinks that it is to accept.
use red_mpudp.Prelude.{
  ℕ, ◌≤◌, ◌≡◌, ◌≢◌, refl, ◌⊎◌, ◌↔◌, Bool, true, false, List, [], ◌∷◌, arith, length, All, ◌==◌, ltb,
  if◌then◌else◌,
}
use red_mpudp.Prelude.Int.{pos, ◌<ℤ◌}
use red_mpudp.Prelude.Bytes.{codes, str_eq, str_eq_iff}
use red_mpudp.Config.Types.{Interface, reserved}
use red_mpudp.Config.Checks.{zero_fwmark, duplicate_fwmark, when, Library}
use red_mpudp.Config.Checks.Bounds.{append_iff, when_iff, IsIfaceName, check_iface_name_iff}
use red_mpudp.Config.Client.{
  Seen, remember, has, nat_eq, check_interface, check_interfaces, validate_interfaces,
}

-- An uplink on its own.
abbrev pub IsInterface : Library → ℕ → Interface → Type 0
IsInterface lib tunnel_table i =
    IsIfaceName i.name
    × (i.fwmark ≢ 0)
    × (reserved i.routing_table ≡ false)
    × (i.routing_table ≢ tunnel_table)
    × ((i.gateway ≡ []) ⊎ (i.gateway ≡ codes "auto") ⊎ (lib.parses_addr i.gateway ≡ true))
    × (pos 0 <ℤ i.max_pacing_rate_mbps)

-- Two uplinks that share nothing that must be unique.
abbrev pub Differ : Interface → Interface → Type 0
Differ i j = (i.name ≢ j.name) × (i.fwmark ≢ j.fwmark) × (i.routing_table ≢ j.routing_table)

-- Each uplink differs from every later one.
abbrev pub AllDiffer : List Interface → Type 0
AllDiffer [] = Unit
AllDiffer (i ∷ is) = All (Differ i) is × AllDiffer is

abbrev Unseen : Seen → Interface → Type 0
Unseen seen i =
    (has str_eq i.name seen.names ≡ false)
    × (has nat_eq i.fwmark seen.marks ≡ false)
    × (has nat_eq i.routing_table seen.tables ≡ false)

same : {b : Bool} → (b ≡ false) ↔ (b ≡ false)
same = (λ h. h, λ h. h)

check_interface_iff :
    (lib : Library) (tunnel_table : ℕ) (seen : Seen) (i : Interface)
    → (check_interface lib tunnel_table seen i ≡ [])
      ↔ (IsInterface lib tunnel_table i × Unseen seen i)
unfolding check_interface
check_interface_iff lib tunnel_table seen i =
    let mark : ((if i.fwmark == 0
            then zero_fwmark i.name ∷ []
            else when (has nat_eq i.fwmark seen.marks) (duplicate_fwmark i.name))
          ≡ [])
        ↔ ((i.fwmark ≢ 0) × (has nat_eq i.fwmark seen.marks ≡ false)) =
      ground arith in
    let k = append_iff _ _ (check_iface_name_iff i.name) (
      append_iff _ _ (when_iff {P = has str_eq i.name seen.names ≡ false} _ _ same) (
        append_iff _ _ mark (
          append_iff _ _ (when_iff {P = reserved i.routing_table ≡ false} _ _ same) (
            append_iff _ _ (when_iff {P = i.routing_table ≢ tunnel_table} _ _ (ground arith)) (
              append_iff _ _
                (when_iff {P = has nat_eq i.routing_table seen.tables ≡ false} _ _ same)
                (append_iff _ _
                  (when_iff
                    {P = (i.gateway ≡ [])
                      ⊎ (i.gateway ≡ codes "auto")
                      ⊎ (lib.parses_addr i.gateway ≡ true)}
                    _ _
                    (ground (arith, str_eq_iff i.gateway [], str_eq_iff i.gateway (codes "auto"))))
                  (when_iff {P = pos 0 <ℤ i.max_pacing_rate_mbps} _ _ (ground arith)))))))) in
    (
      λ h.
          let (name, h1) = k.0 h in
          let (new_name, h2) = h1 in
          let (marks, h3) = h2 in
          let (table, h4) = h3 in
          let (tunnel, h5) = h4 in
          let (new_table, h6) = h5 in
          let (gateway, rate) = h6 in
          ((name, marks.0, table, tunnel, gateway, rate), (new_name, marks.1, new_table)),
      λ h.
          let (name, mark, table, tunnel, gateway, rate) = h.0 in
          let (new_name, new_mark, new_table) = h.1 in
          k.1
            (name, (new_name, ((mark, new_mark), (table, (tunnel, (new_table, (gateway, rate))))))),
    )

-- What one more remembered uplink means for the next.
Unseen-remember :
    (seen : Seen) (i j : Interface) → Unseen (remember seen i) j ↔ (Unseen seen j × Differ i j)
unfolding remember has
Unseen-remember seen i j = ground (arith, str_eq_iff j.name i.name)

All-Unseen-remember :
    (seen : Seen) (i : Interface) (js : List Interface)
    → All (Unseen (remember seen i)) js ↔ (All (Unseen seen) js × All (Differ i) js)
All-Unseen-remember seen i [] = (λ h. (tt, tt), λ h. tt)
All-Unseen-remember seen i (j ∷ js) =
    let a = Unseen-remember seen i j in
    let b = All-Unseen-remember seen i js in
    (
      λ h. let (p, q) = a.0 h.0 in let (ps, qs) = b.0 h.1 in ((p, ps), (q, qs)),
      λ h. (a.1 (h.0.0, h.1.0), b.1 (h.0.1, h.1.1)),
    )

check_interfaces_iff :
    (lib : Library) (t : ℕ) (seen : Seen) (is : List Interface)
    → (check_interfaces lib t seen is ≡ [])
      ↔ (All (IsInterface lib t) is × AllDiffer is × All (Unseen seen) is)
unfolding check_interfaces
check_interfaces_iff lib t seen [] = (λ h. (tt, tt, tt), λ h. refl)
check_interfaces_iff lib t seen (i ∷ is) =
    let a =
      append_iff _ _ (check_interface_iff lib t seen i)
        (check_interfaces_iff lib t (remember seen i) is) in
    let b = All-Unseen-remember seen i is in
    (
      λ h.
          let (one, rest) = a.0 h in
          let (well, differ, unseen) = rest in
          let (us, ds) = b.0 unseen in ((one.0, well), (ds, differ), (one.1, us)),
      λ h. a.1 ((h.0.0, h.2.0), (h.0.1, h.1.1, b.1 (h.2.1, h.1.0))),
    )

abbrev none_seen : Seen
none_seen = record { names = []; marks = []; tables = [] }

All-Unseen : (is : List Interface) → All (Unseen none_seen) is
unfolding has
All-Unseen [] = tt
All-Unseen (i ∷ is) = ((refl, refl, refl), All-Unseen is)

-- One to four uplinks, each well formed, no two of which share a name, a mark or a table.
abbrev pub AreInterfaces : Library → ℕ → List Interface → Type 0
AreInterfaces lib t is = (is ≢ []) × (length is ≤ 4) × All (IsInterface lib t) is × AllDiffer is

-- `validateInterfaces` adds no problem exactly for one to four uplinks that are well formed and share no
-- name, no mark and no routing table.
pub validate_interfaces_iff :
    (lib : Library) (is : List Interface) (t : ℕ)
    → (validate_interfaces lib is t ≡ []) ↔ AreInterfaces lib t is
unfolding validate_interfaces
validate_interfaces_iff lib [] t = (λ h. cc, λ h. absurd (h.0 refl))
validate_interfaces_iff lib (i ∷ is) t =
    let a =
      append_iff _ _ (when_iff {P = length (i ∷ is) ≤ 4} (ltb 4 (length (i ∷ is))) _ (ground arith))
        (check_interfaces_iff lib t none_seen (i ∷ is)) in
    (
      λ h. let (few, rest) = a.0 h in ((λ e. cc), few, rest.0, rest.1),
      λ h. a.1 (h.1, (h.2, h.3, All-Unseen (i ∷ is))),
    )
