-- ===== src/Journal/Recover.antt =====
-- internal/journal/recover.go: `Recover` against any host.
-- The host is an argument: `World` is its state, and each operation gives the next state and its error.
-- Every call of the host is written to a trace, in order. `logf` only prints and is left out.
pub mod Trace
pub mod Gate
pub mod Order
use red_mpudp.Prelude.{
  ℕ, ◌+◌, Bool, true, false, ◌⊎◌, inl, inr, List, [], ◌∷◌, ◌++◌, Option, none, some, leb, ltb, not,
  if◌then◌else◌, length,
}
use red_mpudp.Prelude.Bytes.{Str, str_eq}
use red_mpudp.Journal.Schema.{
  Journal, Role, RouteRecord, RuleRecord, NftTableRecord, SysctlRecord, ResolverRecord,
  JournalError, validate, check_owner, ◌orelse◌,
}

-- The interface `Host`; `E` is the type of its errors.
pub record Host (World : Type 0) (E : Type 0) : Type 0 where
  pub get_sysctl : Str → World → World × (Str ⊎ E)
  pub set_sysctl : Str → Str → World → World × Option E
  pub delete_route : RouteRecord → World → World × Option E
  pub delete_rule : RuleRecord → World → World × Option E
  pub delete_route_table : ℕ → World → World × Option E
  pub delete_nft_table : NftTableRecord → World → World × Option E
  pub restore_resolver : ResolverRecord → World → World × Option E

pub data Call : Type 0 where
  get_sysctl set_sysctl : Str → Call
  delete_route : RouteRecord → Call
  delete_rule : RuleRecord → Call
  delete_route_table : ℕ → Call
  delete_nft_table : NftTableRecord → Call
  restore_resolver : ResolverRecord → Call

pub record Report : Type 0 where
  pub sysctls_restored : List Str
  pub sysctl_conflicts : List Str
  pub routes_removed : ℕ
  pub rules_removed : ℕ
  pub tables_removed : ℕ
  pub nft_tables_removed : ℕ
  pub resolver_restored : Bool
  pub kill_switch_retained : Bool

abbrev pub no_report : Report
no_report = record {
  sysctls_restored = [];
  sysctl_conflicts = [];
  routes_removed = 0;
  rules_removed = 0;
  tables_removed = 0;
  nft_tables_removed = 0;
  resolver_restored = false;
  kill_switch_retained = false;
}

-- A wrapped error: the call that failed, and the host's error.
abbrev pub Failure : Type 0 → Type 0
Failure E = Call × E

pub data RecoverError (E : Type 0) : Type 0 where
  refused : JournalError → RecoverError E
  halted : List (Failure E) → RecoverError E
  nft_failed : List (Failure E) → RecoverError E

-- A call of the host in the trace, with its error.
abbrev pub Entry : Type 0 → Type 0
Entry E = Call × Option E

-- What the loops of `Recover` carry: the host's state, the calls made, the report, the errors so far.
pub record Progress (World : Type 0) (E : Type 0) : Type 0 where
  pub world : World
  pub calls : List (Entry E)
  pub report : Report
  pub errors : List (Failure E)

module _ {World E : Type 0} where
  -- A call has left the host in state `w`: its error is kept and the loop goes on, a success updates the
  -- report.
  unfoldable pub settle :
      Call → (Report → Report) → World → Progress World E → Option E → Progress World E
  settle call success w p none = record p {
    world = w;
    calls = p.calls ++ ((call, none) ∷ []);
    report = success p.report;
  }
  settle call success w p (some e) = record p {
    world = w;
    calls = p.calls ++ ((call, some e) ∷ []);
    errors = p.errors ++ ((call, e) ∷ []);
  }

  unfoldable pub attempt :
      Call → (World → World × Option E) → (Report → Report) → Progress World E → Progress World E
  attempt call op success p = let (w, e) = op p.world in settle call success w p e

-- A `for` loop over a slice.
unfoldable pub for_each {ℓ κ} : {A : Type ℓ} {S : Type κ} → (A → S → S) → List A → S → S
for_each body [] s = s
for_each body (x ∷ xs) s = for_each body xs (body x s)

module _ {World E : Type 0} (h : Host World E) where
  unfoldable pub route_step : RouteRecord → Progress World E → Progress World E
  route_step r =
      attempt (delete_route r) (h.delete_route r)
        (λ rep. record rep { routes_removed = rep.routes_removed + 1 })

  unfoldable pub rule_step : RuleRecord → Progress World E → Progress World E
  rule_step r =
      attempt (delete_rule r) (h.delete_rule r)
        (λ rep. record rep { rules_removed = rep.rules_removed + 1 })

  unfoldable pub resolver_step : Option ResolverRecord → Progress World E → Progress World E
  resolver_step none p = p
  resolver_step (some r) p =
      attempt (restore_resolver r) (h.restore_resolver r)
        (λ rep. record rep { resolver_restored = true }) p

  -- The rest of a round of the sysctl loop, once the live value is read.
  unfoldable pub sysctl_decide : SysctlRecord → Str → Progress World E → Progress World E
  sysctl_decide s cur p =
      if str_eq cur s.prior
      then p
      else if not (str_eq cur s.installed)
      then record p {
        report = record (p.report) {
          sysctl_conflicts = p.report.sysctl_conflicts ++ (s.name ∷ []);
        };
      }
      else attempt (set_sysctl s.name) (h.set_sysctl s.name s.prior)
          (λ rep. record rep { sysctls_restored = rep.sysctls_restored ++ (s.name ∷ []) }) p

  unfoldable pub sysctl_answer :
      SysctlRecord → World → Progress World E → (Str ⊎ E) → Progress World E
  sysctl_answer s w p (inl cur) =
      sysctl_decide s cur
        (record p { world = w; calls = p.calls ++ ((get_sysctl s.name, none) ∷ []) })
  sysctl_answer s w p (inr e) = record p {
    world = w;
    calls = p.calls ++ ((get_sysctl s.name, some e) ∷ []);
    errors = p.errors ++ ((get_sysctl s.name, e) ∷ []);
  }

  unfoldable pub sysctl_step : SysctlRecord → Progress World E → Progress World E
  sysctl_step s p = let (w, answer) = h.get_sysctl s.name p.world in sysctl_answer s w p answer

  unfoldable pub table_step : ℕ → Progress World E → Progress World E
  table_step id =
      attempt (delete_route_table id) (h.delete_route_table id)
        (λ rep. record rep { tables_removed = rep.tables_removed + 1 })

  unfoldable pub nft_step : NftTableRecord → Progress World E → Progress World E
  nft_step t =
      attempt (delete_nft_table t) (h.delete_nft_table t)
        (λ rep. record rep { nft_tables_removed = rep.nft_tables_removed + 1 })

  abbrev pub start : World → Progress World E
  start w = record { world = w; calls = []; report = no_report; errors = [] }

  -- Phase 1: routes, rules, resolver, sysctls.
  unfoldable pub phase1 : Journal → World → Progress World E
  phase1 j w = for_each sysctl_step j.sysctls (
      resolver_step j.resolver
        (for_each rule_step j.rules (for_each route_step j.routes (start w))))

  abbrev pub Outcome : Type 0
  Outcome = Progress World E × Option (RecoverError E)

  -- A stop before the kill switch is removed.
  unfoldable pub halt : Journal → Progress World E → Outcome
  halt j p = (
    record p { report = record (p.report) { kill_switch_retained = ltb 0 (length j.nft_tables) } },
    some (halted p.errors),
  )

  -- The end of phase 2b, by its errors.
  unfoldable pub after_nft : Journal → Progress World E → List (Failure E) → Outcome
  after_nft j q [] = (q, none)
  after_nft j q (e ∷ es) = (
    record q {
      report = record (q.report) {
        kill_switch_retained = ltb q.report.nft_tables_removed (length j.nft_tables);
      };
    },
    some (nft_failed (e ∷ es)),
  )

  unfoldable pub phase2b : Journal → Progress World E → Outcome
  phase2b j p = let q = for_each nft_step j.nft_tables p in after_nft j q q.errors

  -- The gate after the route tables are flushed.
  unfoldable pub after_tables : Journal → Progress World E → List (Failure E) → Outcome
  after_tables j q [] = phase2b j q
  after_tables j q (e ∷ es) = halt j q

  unfoldable pub phase2 : Journal → Progress World E → Outcome
  phase2 j p = let q = for_each table_step j.tables p in after_tables j q q.errors

  -- The gate between the phases.
  unfoldable pub after_phase1 : Journal → Progress World E → List (Failure E) → Outcome
  after_phase1 j p [] = phase2 j p
  after_phase1 j p (e ∷ es) = halt j p

  -- What stops `Recover` before any call of the host.
  unfoldable pub refusal : Journal → Role → Str → Option JournalError
  refusal j role instance_id = validate j orelse check_owner j role instance_id

  unfoldable pub recover_checked : Journal → World → Option JournalError → Outcome
  recover_checked j w (some e) = (start w, some (refused e))
  recover_checked j w none = let p = phase1 j w in after_phase1 j p p.errors

  unfoldable pub recover : Journal → Role → Str → World → Outcome
  recover j role instance_id w = recover_checked j w (refusal j role instance_id)
