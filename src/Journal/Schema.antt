-- ===== src/Journal/Schema.antt =====
-- internal/journal/schema.go: the journal's records, `Validate` and `checkOwner`. A `uint32` is a number.
-- Each regular expression of the source is a function over the bytes of the text: all of them allow ASCII
-- only, so a text that holds another rune is refused by its first byte from 128 up.
pub mod Valid
use red_mpudp.Prelude.{
  ℕ, ◌≤◌, Bool, true, false, List, [], ◌∷◌, Option, none, some, ◌==◌, leb, not, ◌&&◌, ◌||◌,
  if◌then◌else◌, length, suc, ◌+◌,
}
use red_mpudp.Prelude.Int.{ℤ, pos, negsuc}
use red_mpudp.Prelude.Bytes.{Str, codes, str_eq, any_byte, all_bytes, is_alnum, is_lower, is_digit}

abbrev pub schema_version : ℕ
schema_version = 1

abbrev pub has_schema_version : ℤ → Bool
has_schema_version (pos v) = v == schema_version
has_schema_version (negsuc v) = false

-- `Role` is a string type: a decoded journal may hold any text.
abbrev pub Role : Type 0
Role = Str

abbrev pub role_client : Role
role_client = codes "client"

abbrev pub role_server : Role
role_server = codes "server"

pub record RouteRecord : Type 0 where
  pub table : ℕ
  pub dst : Str
  pub dev : Str
  pub via : Str
  pub priority : ℕ

pub record RuleRecord : Type 0 where
  pub family : Str
  pub priority : ℕ
  pub fwmark : ℕ
  pub table : ℕ

pub record NftTableRecord : Type 0 where
  pub family : Str
  pub name : Str

pub record SysctlRecord : Type 0 where
  pub name : Str
  pub prior : Str
  pub installed : Str

pub record ResolverRecord : Type 0 where
  pub manager : Str
  pub link : Str
  pub prior : Str

pub record Journal : Type 0 where
  pub schema : ℤ
  pub role : Role
  pub instance_id : Str
  pub created_at : ℕ
  pub routes : List RouteRecord
  pub rules : List RuleRecord
  pub tables : List ℕ
  pub nft_tables : List NftTableRecord
  pub sysctls : List SysctlRecord
  pub resolver : Option ResolverRecord

abbrev pub is_id_byte : ℕ → Bool
is_id_byte b = is_alnum b || b == b'.' || b == b'_' || b == b'-'

abbrev pub is_nft_byte : ℕ → Bool
is_nft_byte b = is_alnum b || b == b'_' || b == b'-'

abbrev pub is_sysctl_byte : ℕ → Bool
is_sysctl_byte b = is_lower b || is_digit b || b == b'_'

-- `^[A-Za-z0-9._-]{8,128}$`
unfoldable pub instance_id_re : Str → Bool
instance_id_re s = leb 8 (length s) && leb (length s) 128 && all_bytes is_id_byte s

-- `^[A-Za-z0-9._-]{1,15}$`
unfoldable pub dev_name_re : Str → Bool
dev_name_re s = leb 1 (length s) && leb (length s) 15 && all_bytes is_id_byte s

-- `^[A-Za-z0-9_-]{1,64}$`
unfoldable pub nft_name_re : Str → Bool
nft_name_re s = leb 1 (length s) && leb (length s) 64 && all_bytes is_nft_byte s

-- `^[a-z0-9_]+(\.[a-z0-9_]+)+$`, read from the left: whether the last byte read was in a segment, and
-- whether a dot was read.
unfoldable pub sysctl_name_from : Bool → Bool → Str → Bool
sysctl_name_from in_segment dotted [] = in_segment && dotted
sysctl_name_from in_segment dotted (b ∷ s) =
    let rest = sysctl_name_from (is_sysctl_byte b) (dotted || b == b'.') s in
    (is_sysctl_byte b || (b == b'.' && in_segment)) && rest

unfoldable pub sysctl_name_re : Str → Bool
sysctl_name_re s = sysctl_name_from false false s

pub data JournalError : Type 0 where
  unsupported_schema : ℤ → JournalError
  invalid_role : Role → JournalError
  malformed_instance_id : JournalError
  route_dst route_dev route_table : ℕ → JournalError
  rule_family rule_table : ℕ → JournalError
  zero_route_table : ℕ → JournalError
  nft_family nft_name : ℕ → JournalError
  sysctl_name : ℕ → JournalError
  role_mismatch instance_mismatch : JournalError

-- The first error of a loop over a slice, by a check of the element at each index.
unfoldable pub first_error {ℓ κ} :
    {A : Type ℓ} {E : Type κ} → (ℕ → A → Option E) → ℕ → List A → Option E
first_error check i [] = none
first_error check i (x ∷ xs) =
    let rest = first_error check (i + 1) xs in elim (check i x) [ some e ↦ some e | none ↦ rest ]

check_route : ℕ → RouteRecord → Option JournalError
check_route i r =
    if not (str_eq r.dst (codes "default")) && not (any_byte (λ b. b == b'/') r.dst)
    then some (route_dst i)
    else if not (dev_name_re r.dev)
    then some (route_dev i)
    else if r.table == 0
    then some (route_table i)
    else none

check_rule : ℕ → RuleRecord → Option JournalError
check_rule i r =
    if not (str_eq r.family (codes "ip")) && not (str_eq r.family (codes "ip6"))
    then some (rule_family i)
    else if r.table == 0
    then some (rule_table i)
    else none

check_table : ℕ → ℕ → Option JournalError
check_table i t = if t == 0 then some (zero_route_table i) else none

check_nft : ℕ → NftTableRecord → Option JournalError
check_nft i n =
    if not (
      str_eq n.family (codes "inet")
      || str_eq n.family (codes "ip")
      || str_eq n.family (codes "ip6"))
    then some (nft_family i)
    else if not (nft_name_re n.name)
    then some (nft_name i)
    else none

check_sysctl : ℕ → SysctlRecord → Option JournalError
check_sysctl i s = if not (sysctl_name_re s.name) then some (sysctl_name i) else none

-- The error of `a`, or else of `b`: statements that return early.
infixr 30 ◌orelse◌
abbrev pub ◌orelse◌ {ℓ} : {E : Type ℓ} → Option E → Option E → Option E
none orelse b = b
(some e) orelse b = some e

-- The checks of `Validate` on the journal's own fields.
check_head : Journal → Option JournalError
check_head j =
    if not (has_schema_version j.schema)
    then some (unsupported_schema j.schema)
    else if not (str_eq j.role role_client) && not (str_eq j.role role_server)
    then some (invalid_role j.role)
    else if not (instance_id_re j.instance_id)
    then some malformed_instance_id
    else none

-- `Validate`; `none` is the nil error.
unfoldable pub validate : Journal → Option JournalError
unfolding check_head check_route check_rule check_table check_nft check_sysctl
validate j =
    check_head j
    orelse first_error check_route 0 j.routes
    orelse first_error check_rule 0 j.rules
    orelse first_error check_table 0 j.tables
    orelse first_error check_nft 0 j.nft_tables
    orelse first_error check_sysctl 0 j.sysctls

-- `checkOwner`
unfoldable pub check_owner : Journal → Role → Str → Option JournalError
check_owner j role instance_id =
    if not (str_eq j.role role)
    then some role_mismatch
    else if not (str_eq instance_id []) && not (str_eq j.instance_id instance_id)
    then some instance_mismatch
    else none
