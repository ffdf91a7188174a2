-- ===== src/Journal/Linux/Resolver.antt =====
-- internal/journal/host_linux.go, `RestoreResolver`, in a recovery.
use mathlib.Core.Path.{subst}
use red_mpudp.Prelude.{
  ◌≡◌, ◌≢◌, refl, sym, ◌∙◌, ap, ◌⊎◌, inl, inr, true, List, [], ◌∷◌, Option, none, some, ltb, length,
  All, append-eq_nil,
}
use red_mpudp.Prelude.Bytes.{Str}
use red_mpudp.Journal.Schema.{Journal, Role, ResolverRecord, JournalError}
use red_mpudp.Journal.Recover.{
  Host, Call, restore_resolver, Report, Failure, Entry, Progress, RecoverError, refused, halted,
  settle, attempt, for_each, route_step, rule_step, resolver_step, sysctl_step, start, phase1, halt,
  after_phase1, refusal, recover_checked, recover,
}
use red_mpudp.Journal.Recover.Gate.{Means, recover-Means}
use red_mpudp.Journal.Recover.Trace.{
  is_sysctl, not_nft, failures, for_each-Extends, sysctl_step-Extends,
}
use red_mpudp.Journal.Linux.{Tools, LinuxHost, LinuxError, linux_host}

module _ {World E : Type 0} (h : Host World E) where
  -- The host cannot restore this resolver, in whatever state.
  abbrev CannotRestore : ResolverRecord → Type 0
  CannotRestore r = (w : World) → (e : E) × ((h.restore_resolver r w).1 ≡ some e)

  settle_failed :
      (call : Call) (f : Report → Report) (w : World) (p : Progress World E) (o : Option E) (e : E)
      → o ≡ some e
      → (settle call f w p o).errors ≢ []
  unfolding settle
  settle_failed call f w p none e k = absurd (cc)
  settle_failed call f w p (some x) e k = λ q. cc ((append-eq_nil p.errors _).0 q).1

  resolver_step_failed :
      (r : ResolverRecord) (p : Progress World E)
      → CannotRestore r
      → (resolver_step h (some r) p).errors ≢ []
  unfolding resolver_step attempt
  resolver_step_failed r p cannot =
      let (e, k) = cannot p.world in
      settle_failed (restore_resolver r) _ (h.restore_resolver r p.world).0 p
        (h.restore_resolver r p.world).1 e k

  phase1_failed :
      (j : Journal) (w : World) (r : ResolverRecord)
      → j.resolver ≡ some r
      → CannotRestore r
      → (phase1 h j w).errors ≢ []
  unfolding phase1
  phase1_failed j w r has cannot =
      let p2 = for_each (rule_step h) j.rules (for_each (route_step h) j.routes (start h w)) in
      let p3 = resolver_step h j.resolver p2 in
      let e = for_each-Extends is_sysctl (sysctl_step h) (sysctl_step-Extends h) j.sysctls p3 in
      λ q. resolver_step_failed r p2 cannot (
        ap (λ o. (resolver_step h o p2).errors) (sym has)
        ∙ ((append-eq_nil p3.errors (failures e.made)).0 (sym e.errors ∙ q)).0)

  after_phase1_failed :
      (j : Journal) (p : Progress World E) (fs : List (Failure E))
      → fs ≢ []
      → (after_phase1 h j p fs).1 ≡ some (halted p.errors)
  unfolding after_phase1 halt
  after_phase1_failed j p [] ne = absurd (ne refl)
  after_phase1_failed j p (f ∷ fs) ne = refl

  abbrev Stopped : Option (RecoverError E) → Type 0
  Stopped o =
      ((x : JournalError) × (o ≡ some (refused x)))
      ⊎ ((fs : List (Failure E)) × (o ≡ some (halted fs)))

  recover_checked_failed :
      (j : Journal) (w : World) (o : Option JournalError)
      → (phase1 h j w).errors ≢ []
      → Stopped (recover_checked h j w o).1
  unfolding recover_checked
  recover_checked_failed j w (some x) ne = inl (x, refl)
  recover_checked_failed j w none ne =
      inr ((phase1 h j w).errors, after_phase1_failed j (phase1 h j w) (phase1 h j w).errors ne)

  recover_failed :
      (j : Journal) (role : Role) (instance_id : Str) (w : World) (r : ResolverRecord)
      → j.resolver ≡ some r
      → CannotRestore r
      → Stopped (recover h j role instance_id w).1
  unfolding recover
  recover_failed j role instance_id w r has cannot =
      recover_checked_failed j w (refusal h j role instance_id) (phase1_failed j w r has cannot)

module _ {W E : Type 0} (tools : Tools W E) (host : LinuxHost) where
  -- On the host of Linux, a recovery from a journal that records resolver state never returns without an
  -- error: it is refused before any call, or it halts after failures, among its calls is no removal of the
  -- kill switch, and the kill switch is reported as retained if the journal names one.
  pub recover-linux_host :
      (j : Journal) (role : Role) (instance_id : Str) (w : W) (r : ResolverRecord)
      → j.resolver ≡ some r
      → let (p, e) = recover (linux_host tools host) j role instance_id w in
        ((x : JournalError) × (e ≡ some (refused x)) × (p ≡ start (linux_host tools host) w))
        ⊎ ((fs : List (Failure (LinuxError E))) × (e ≡ some (halted fs))
            × All (λ (c : Entry (LinuxError E)). not_nft c.0 ≡ true) p.calls
            × (p.report.kill_switch_retained ≡ ltb 0 (length j.nft_tables)))
  recover-linux_host j role instance_id w r has =
      let h = linux_host tools host in
      let out = recover h j role instance_id w in
      let means = recover-Means h j w role instance_id in
      elim (recover_failed h j role instance_id w r has (λ v. (_, refl))) [
        | inl (x, e) ↦ inl (x, e, subst (λ o. Means h j w o out.0) e means)
        | inr (fs, e) ↦
            let (_, _, kept, retained) = subst (λ o. Means h j w o out.0) e means in
            inr (fs, e, kept, retained)
      ]
