-- ===== src/Journal/Linux.antt =====
-- internal/journal/host_linux.go: the host that runs ip(8) and nft(8) and writes /proc/sys. Running a
-- command, the two calls on files, and the functions of the packages strings and strconv that change or
-- print text are parameters.
pub mod Argv
pub mod Resolver
pub mod Tests
use red_mpudp.Prelude.{
  ℕ, Bool, true, false, ◌||◌, ◌==◌, not, if◌then◌else◌, List, [], ◌∷◌, ◌++◌, map, Option, none,
  some, ◌⊎◌, inl, inr,
}
use red_mpudp.Prelude.Bytes.{Str, codes, str_eq, contains}
use red_mpudp.Journal.Schema.{RouteRecord, RuleRecord, NftTableRecord, ResolverRecord}
use red_mpudp.Journal.Recover.{Host}

-- `execute` is `exec.Command` with its two outputs joined; `decimal` and `hex` print a number.
pub record Tools (W E : Type 0) : Type 0 where
  pub execute : Str → List Str → W → W × (Str × Option E)
  pub read_file : Str → W → W × (Str ⊎ E)
  pub write_file : Str → Str → W → W × Option E
  pub lower : Str → Str
  pub trim_space : Str → Str
  pub decimal : ℕ → Str
  pub hex : ℕ → Str

pub record LinuxHost : Type 0 where
  pub ip_path : Str
  -- `SysctlPath`, which nothing reads.
  pub sysctl_path : Str
  pub nft_path : Str

pub data LinuxError (E : Type 0) : Type 0 where
  command : E → Str → LinuxError E
  file : E → LinuxError E
  resolver_unsupported : Str → LinuxError E

abbrev pub or_default : Str → Str → Str
or_default path fallback = if not (str_eq path []) then path else fallback

abbrev pub absent_texts : List Str
absent_texts =
    codes "no such"
    ∷ codes "does not exist"
    ∷ codes "cannot find"
    ∷ codes "not found"
    ∷ codes "no such process"
    ∷ []

unfoldable pub contains_any : List Str → Str → Bool
contains_any [] s = false
contains_any (sub ∷ subs) s = if contains sub s then true else contains_any subs s

abbrev pub slash_of_dot : ℕ → ℕ
slash_of_dot b = if b == 46 then 47 else b

unfoldable pub proc_path : Str → Str
proc_path key = codes "/proc/sys/" ++ map slash_of_dot key

-- The words of a command, when they are wanted.
abbrev pub optional : Bool → List Str → List Str
optional wanted words = if wanted then words else []

module _ {W E : Type 0} (tools : Tools W E) where
  abbrev pub failed : Str → Option E → Option (LinuxError E)
  failed combined none = none
  failed combined (some e) =
      if contains_any absent_texts (tools.lower combined)
      then none
      else some (command e (tools.trim_space combined))

  unfoldable pub idempotent_delete : W × (Str × Option E) → W × Option (LinuxError E)
  idempotent_delete (w, (combined, err)) = (w, failed combined err)

  unfoldable pub route_args : RouteRecord → List Str
  route_args r =
      codes "route"
        ∷ codes "del"
        ∷ r.dst
        ∷ codes "table"
        ∷ tools.decimal r.table
        ∷ optional (not (str_eq r.dev [])) (codes "dev" ∷ r.dev ∷ [])
      ++ (optional (not (str_eq r.via [])) (codes "via" ∷ r.via ∷ [])
          ++ optional (not (r.priority == 0)) (codes "metric" ∷ tools.decimal r.priority ∷ []))

  abbrev pub family_flag : Str → Str
  family_flag family = if str_eq family (codes "ip6") then codes "-6" else codes "-4"

  unfoldable pub rule_args : RuleRecord → List Str
  rule_args r =
      family_flag r.family
      ∷ codes "rule"
      ∷ codes "del"
      ∷ codes "priority"
      ∷ tools.decimal r.priority
      ∷ codes "table"
      ∷ tools.decimal r.table
      ∷ optional (not (r.fwmark == 0)) (codes "fwmark" ∷ (codes "0x" ++ tools.hex r.fwmark) ∷ [])

  abbrev read_done : W × (Str ⊎ E) → W × (Str ⊎ LinuxError E)
  read_done (w, inl text) = (w, inl (tools.trim_space text))
  read_done (w, inr e) = (w, inr (file e))

  abbrev write_done : W × Option E → W × Option (LinuxError E)
  write_done (w, none) = (w, none)
  write_done (w, some e) = (w, some (file e))

  module _ (host : LinuxHost) where
    abbrev pub ip_cmd : Str
    ip_cmd = or_default host.ip_path (codes "ip")

    abbrev pub nft_cmd : Str
    nft_cmd = or_default host.nft_path (codes "nft")

    abbrev pub linux_host : Host W (LinuxError E)
    linux_host = record {
      get_sysctl = λ key w. read_done (tools.read_file (proc_path key) w);
      set_sysctl =
          λ key value w. write_done (tools.write_file (proc_path key) (value ++ 10 ∷ []) w);
      delete_route = λ r w. idempotent_delete (tools.execute ip_cmd (route_args r) w);
      delete_rule = λ r w. idempotent_delete (tools.execute ip_cmd (rule_args r) w);
      delete_route_table = λ id w. idempotent_delete (
          tools.execute ip_cmd
            (codes "route" ∷ codes "flush" ∷ codes "table" ∷ tools.decimal id ∷ []) w);
      delete_nft_table = λ t w.
          idempotent_delete
            (tools.execute nft_cmd (codes "delete" ∷ codes "table" ∷ t.family ∷ t.name ∷ []) w);
      restore_resolver = λ r w. (w, some (resolver_unsupported r.manager));
    }
