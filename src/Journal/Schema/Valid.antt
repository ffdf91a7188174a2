-- ===== src/Journal/Schema/Valid.antt =====
-- internal/journal/schema.go: `Validate` and the well-formed journals, `checkOwner` and the owner.
use red_mpudp.Prelude.{
  ℕ, ◌+◌, ◌≡◌, ◌≢◌, refl, ◌⊎◌, ◌↔◌, inl, inr, true, List, [], ◌∷◌, Option, none, some, All, arith,
  Option-cases, ◌==◌,
}
use red_mpudp.Prelude.Int.{pos}
use red_mpudp.Prelude.Bytes.{Str, codes, str_eq_iff, any_byte}
use red_mpudp.Journal.Schema.{
  Journal, Role, RouteRecord, RuleRecord, NftTableRecord, SysctlRecord, first_error, validate,
  check_owner, check_head, check_route, check_rule, check_table, check_nft, check_sysctl,
  role_client, role_server, instance_id_re, dev_name_re, nft_name_re, sysctl_name_re, ◌orelse◌,
}

-- A route names a CIDR or "default", a device the kernel could have, and a table.
abbrev pub IsRoute : RouteRecord → Type 0
IsRoute r =
    ((r.dst ≡ codes "default") ⊎ (any_byte (λ b. b == b'/') r.dst ≡ true))
    × (dev_name_re r.dev ≡ true)
    × (r.table ≢ 0)

abbrev pub IsRule : RuleRecord → Type 0
IsRule r = ((r.family ≡ codes "ip") ⊎ (r.family ≡ codes "ip6")) × (r.table ≢ 0)

abbrev pub IsNft : NftTableRecord → Type 0
IsNft n =
    ((n.family ≡ codes "inet") ⊎ (n.family ≡ codes "ip") ⊎ (n.family ≡ codes "ip6"))
    × (nft_name_re n.name ≡ true)

abbrev pub IsHead : Journal → Type 0
IsHead j =
    (j.schema ≡ pos 1)
    × ((j.role ≡ codes "client") ⊎ (j.role ≡ codes "server"))
    × (instance_id_re j.instance_id ≡ true)

abbrev pub IsWellFormed : Journal → Type 0
IsWellFormed j =
    IsHead j
    × All IsRoute j.routes
    × All IsRule j.rules
    × All (λ t. t ≢ 0) j.tables
    × All IsNft j.nft_tables
    × All (λ s. sysctl_name_re s.name ≡ true) j.sysctls

first_error-none {ℓ κ μ} :
    {A : Type ℓ} {E : Type κ} (check : ℕ → A → Option E) (P : A → Type μ)
    → ((i : ℕ) (x : A) → (check i x ≡ none) ↔ P x)
    → (i : ℕ) (xs : List A) → (first_error check i xs ≡ none) ↔ All P xs
unfolding first_error
first_error-none check P iff i [] = (λ h. tt, λ h. refl)
first_error-none check P iff i (x ∷ xs) =
    let ih = first_error-none check P iff (i + 1) xs in
    elim (Option-cases (check i x)) [
      | inl e ↦ rw (e, first_error) (λ h. ((iff i x).0 e, ih.0 h), λ h. ih.1 (h.1))
      | inr (a, e) ↦ rw (e, first_error) (λ h. cc, λ h. let c = (iff i x).1 h.0 in cc)
    ]

orelse_iff {ℓ κ μ} :
    {E : Type ℓ} {a b : Option E} {P : Type κ} {Q : Type μ}
    → (a ≡ none) ↔ P
    → (b ≡ none) ↔ Q
    → ((a orelse b) ≡ none) ↔ (P × Q)
orelse_iff {a = none} f g = (λ h. (f.0 refl, g.0 h), λ h. g.1 h.1)
orelse_iff {a = some e} f g = (λ h. cc, λ h. let c = f.1 h.0 in cc)

check_route-none : (i : ℕ) (r : RouteRecord) → (check_route i r ≡ none) ↔ IsRoute r
unfolding check_route
check_route-none i r = ground (arith, str_eq_iff r.dst (codes "default"))

check_rule-none : (i : ℕ) (r : RuleRecord) → (check_rule i r ≡ none) ↔ IsRule r
unfolding check_rule
check_rule-none i r =
    ground (arith, str_eq_iff r.family (codes "ip"), str_eq_iff r.family (codes "ip6"))

check_table-none : (i t : ℕ) → (check_table i t ≡ none) ↔ (t ≢ 0)
unfolding check_table
check_table-none i t = ground arith

check_nft-none : (i : ℕ) (n : NftTableRecord) → (check_nft i n ≡ none) ↔ IsNft n
unfolding check_nft
check_nft-none i n = ground (
  arith,
  str_eq_iff n.family (codes "inet"),
  str_eq_iff n.family (codes "ip"),
  str_eq_iff n.family (codes "ip6"),
)

check_sysctl-none :
    (i : ℕ) (s : SysctlRecord) → (check_sysctl i s ≡ none) ↔ (sysctl_name_re s.name ≡ true)
unfolding check_sysctl
check_sysctl-none i s = ground arith

check_head-none : (j : Journal) → (check_head j ≡ none) ↔ IsHead j
unfolding check_head
check_head-none j = ground (arith, str_eq_iff j.role role_client, str_eq_iff j.role role_server)

-- `Validate` returns nil exactly for a journal of schema version 1 with a known role and a well-formed
-- instance id, in which every route, rule, route table, nftables table and sysctl is well formed.
pub validate_iff : (j : Journal) → (validate j ≡ none) ↔ IsWellFormed j
unfolding validate
validate_iff j =
    let h = check_head-none j in
    let a = first_error-none check_route IsRoute check_route-none 0 j.routes in
    let b = first_error-none check_rule IsRule check_rule-none 0 j.rules in
    let c = first_error-none check_table (λ t. t ≢ 0) check_table-none 0 j.tables in
    let d = first_error-none check_nft IsNft check_nft-none 0 j.nft_tables in
    let e = first_error-none check_sysctl _ check_sysctl-none 0 j.sysctls in
    let k = orelse_iff h (orelse_iff a (orelse_iff b (orelse_iff c (orelse_iff d e)))) in
    (
      λ p. let n = k.0 p in (n.0, n.1.0, n.1.1.0, n.1.1.1.0, n.1.1.1.1.0, n.1.1.1.1.1),
      λ p. k.1 (p.0, (p.1, (p.2, (p.3, (p.4, p.5))))),
    )

-- `checkOwner` returns nil exactly when the role is the journal's, and the instance id is too or is not
-- given.
pub check_owner_iff :
    (j : Journal) (role : Role) (instance_id : Str)
    → (check_owner j role instance_id ≡ none)
      ↔ ((j.role ≡ role) × ((instance_id ≡ []) ⊎ (j.instance_id ≡ instance_id)))
unfolding check_owner
check_owner_iff j role instance_id =
    ground (
      arith,
      str_eq_iff j.role role,
      str_eq_iff instance_id [],
      str_eq_iff j.instance_id instance_id,
    )
