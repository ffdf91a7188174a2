-- ===== src/Journal/Recover/Trace.antt =====
-- internal/journal/recover.go: how the trace and the errors of a recovery grow, loop by loop.
use mathlib.Core.List.{append-nil}
use red_mpudp.Prelude.{
  ℕ, ◌≡◌, refl, sym, ap, ◌∙◌, ◌⊎◌, inl, inr, Bool, true, false, List, [], ◌∷◌, ◌++◌, Option, none,
  some, append_assoc, All, Bool-cases, not,
}
use red_mpudp.Prelude.Bytes.{Str, str_eq}
use red_mpudp.Journal.Schema.{Journal, NftTableRecord, SysctlRecord, ResolverRecord}
use red_mpudp.Journal.Recover.{
  Host, Call, get_sysctl, set_sysctl, delete_route, delete_rule, delete_route_table,
  delete_nft_table, restore_resolver, Report, Failure, Entry, Progress, start, settle, attempt,
  sysctl_answer, for_each, route_step, rule_step, resolver_step, sysctl_decide, sysctl_step,
  table_step, nft_step, phase1,
}

-- Whether a call removes a kill-switch table.
abbrev pub is_nft : Call → Bool
is_nft (delete_nft_table t) = true
is_nft (get_sysctl s) = false
is_nft (set_sysctl s) = false
is_nft (delete_route r) = false
is_nft (delete_rule r) = false
is_nft (delete_route_table t) = false
is_nft (restore_resolver r) = false

abbrev pub not_nft : Call → Bool
not_nft c = not (is_nft c)

abbrev pub is_sysctl : Call → Bool
is_sysctl (get_sysctl s) = true
is_sysctl (set_sysctl s) = true
is_sysctl (delete_nft_table t) = false
is_sysctl (delete_route r) = false
is_sysctl (delete_rule r) = false
is_sysctl (delete_route_table t) = false
is_sysctl (restore_resolver r) = false

not_nft_of_sysctl : (c : Call) → is_sysctl c ≡ true → not_nft c ≡ true
not_nft_of_sysctl (get_sysctl s) h = refl
not_nft_of_sysctl (set_sysctl s) h = refl
not_nft_of_sysctl (delete_nft_table t) h = cc
not_nft_of_sysctl (delete_route r) h = cc
not_nft_of_sysctl (delete_rule r) h = cc
not_nft_of_sysctl (delete_route_table t) h = cc
not_nft_of_sysctl (restore_resolver r) h = cc

All-map {ℓ κ μ} :
    {A : Type ℓ} (P : A → Type κ) (Q : A → Type μ) (xs : List A)
    → ((x : A) → P x → Q x)
    → All P xs
    → All Q xs
All-map P Q [] f h = tt
All-map P Q (x ∷ xs) f h = (f x h.0, All-map P Q xs f h.1)

pub All-append {ℓ κ} :
    {A : Type ℓ} (P : A → Type κ) (xs ys : List A) → All P xs → All P ys → All P (xs ++ ys)
All-append P [] ys h k = k
All-append P (x ∷ xs) ys h k = (h.0, All-append P xs ys h.1 k)

module _ {E : Type 0} where
  -- The calls of a trace that failed.
  abbrev pub failures : List (Entry E) → List (Failure E)
  failures [] = []
  failures ((c, none) ∷ t) = failures t
  failures ((c, some e) ∷ t) = (c, e) ∷ failures t

  pub failures-append : (t u : List (Entry E)) → failures (t ++ u) ≡ failures t ++ failures u
  failures-append [] u = refl
  failures-append ((c, none) ∷ t) u = failures-append t u
  failures-append ((c, some e) ∷ t) u = ap (λ l. (c, e) ∷ l) (failures-append t u)

module _ {World E : Type 0} where
  -- From `p` to `q` some calls were made, each of which passes the test; the errors grew by those of the
  -- calls that failed, and the report's word on the kill switch is unchanged.
  pub record Extends (test : Call → Bool) (p q : Progress World E) : Type 0 where
    pub made : List (Entry E)
    pub calls : q.calls ≡ p.calls ++ made
    pub kinds : All (λ (c : Entry E). test c.0 ≡ true) made
    pub errors : q.errors ≡ p.errors ++ failures made
    pub retained : q.report.kill_switch_retained ≡ p.report.kill_switch_retained

  pub Extends-refl : (b : Call → Bool) (p : Progress World E) → Extends b p p
  Extends-refl b p = record {
    made = [];
    calls = sym (append-nil _);
    kinds = tt;
    errors = sym (append-nil _);
    retained = refl;
  }

  pub Extends-trans :
      (b : Call → Bool) (p q r : Progress World E) → Extends b p q → Extends b q r → Extends b p r
  Extends-trans b p q r e f = record {
    made = e.made ++ f.made;
    calls = f.calls ∙ ap (λ l. l ++ f.made) e.calls ∙ append_assoc p.calls e.made f.made;
    kinds = All-append _ e.made f.made e.kinds f.kinds;
    errors =
        f.errors
        ∙ ap (λ l. l ++ failures f.made) e.errors
        ∙ append_assoc p.errors (failures e.made) (failures f.made)
        ∙ ap (λ l. p.errors ++ l) (sym (failures-append e.made f.made));
    retained = f.retained ∙ e.retained;
  }

  settle-Extends :
      (b : Call → Bool) (call : Call) (success : Report → Report) (w : World) (p : Progress World E)
      (e : Option E)
      → b call ≡ true
      → ((r : Report) → (success r).kill_switch_retained ≡ r.kill_switch_retained)
      → Extends b p (settle call success w p e)
  unfolding settle
  settle-Extends b call success w p none h k = record {
    made = (call, none) ∷ [];
    calls = refl;
    kinds = (h, tt);
    errors = sym (append-nil _);
    retained = k _;
  }
  settle-Extends b call success w p (some e) h k = record {
    made = (call, some e) ∷ [];
    calls = refl;
    kinds = (h, tt);
    errors = refl;
    retained = refl;
  }

  pub attempt-Extends :
      (b : Call → Bool) (call : Call) (op : World → World × Option E) (success : Report → Report)
      (p : Progress World E)
      → b call ≡ true
      → ((r : Report) → (success r).kill_switch_retained ≡ r.kill_switch_retained)
      → Extends b p (attempt call op success p)
  unfolding attempt
  attempt-Extends b call op success p h k = settle-Extends b call success _ p (op p.world).1 h k

  pub for_each-Extends {ℓ} :
      {A : Type ℓ} (b : Call → Bool) (body : A → Progress World E → Progress World E)
      → ((x : A) (p : Progress World E) → Extends b p (body x p))
      → (xs : List A) (p : Progress World E) → Extends b p (for_each body xs p)
  unfolding for_each
  for_each-Extends b body h [] p = Extends-refl b p
  for_each-Extends b body h (x ∷ xs) p =
      Extends-trans b p (body x p) _ (h x p) (for_each-Extends b body h xs (body x p))

module _ {World E : Type 0} where
  pub Extends-weaken :
      (b c : Call → Bool) (p q : Progress World E)
      → ((call : Call) → b call ≡ true → c call ≡ true)
      → Extends b p q
      → Extends c p q
  Extends-weaken b c p q f e = record {
    made = e.made;
    calls = e.calls;
    kinds = All-map _ _ e.made (λ m. f m.0) e.kinds;
    errors = e.errors;
    retained = e.retained;
  }

module _ {World E : Type 0} (h : Host World E) where
  sysctl_decide-Extends :
      (s : SysctlRecord) (cur : Str) (p : Progress World E)
      → Extends is_sysctl p (sysctl_decide h s cur p)
  unfolding sysctl_decide
  sysctl_decide-Extends s cur p = elim (Bool-cases (str_eq cur s.prior)) [
    | inl e ↦ rw e (Extends-refl is_sysctl p)
    | inr e ↦ elim (Bool-cases (str_eq cur s.installed)) [
      | inl f ↦ rw (e, f) (attempt-Extends is_sysctl (set_sysctl s.name) _ _ p refl (λ r. refl))
      | inr f ↦
          rw (e, f)
            (record {
              made = [];
              calls = sym (append-nil _);
              kinds = tt;
              errors = sym (append-nil _);
              retained = refl;
            })
    ]
  ]

  sysctl_answer-Extends :
      (s : SysctlRecord) (w : World) (p : Progress World E) (a : Str ⊎ E)
      → Extends is_sysctl p (sysctl_answer h s w p a)
  unfolding sysctl_answer
  sysctl_answer-Extends s w p (inl cur) =
      Extends-trans is_sysctl p _ _
        (settle-Extends is_sysctl (get_sysctl s.name) (λ r. r) w p none refl (λ r. refl))
        (unfold settle in sysctl_decide-Extends s cur _)
  sysctl_answer-Extends s w p (inr e) =
      unfold settle in
      settle-Extends is_sysctl (get_sysctl s.name) (λ r. r) w p (some e) refl (λ r. refl)

  pub sysctl_step-Extends :
      (s : SysctlRecord) (p : Progress World E) → Extends is_sysctl p (sysctl_step h s p)
  unfolding sysctl_step
  sysctl_step-Extends s p = sysctl_answer-Extends s _ p _

  pub resolver_step-Extends :
      (r : Option ResolverRecord) (p : Progress World E) → Extends not_nft p (resolver_step h r p)
  unfolding resolver_step
  resolver_step-Extends none p = Extends-refl not_nft p
  resolver_step-Extends (some r) p =
      attempt-Extends not_nft (restore_resolver r) _ _ p refl (λ r. refl)

  -- Phase 1 removes nothing of the kill switch.
  pub phase1-Extends : (j : Journal) (w : World) → Extends not_nft (start h w) (phase1 h j w)
  unfolding phase1 route_step rule_step
  phase1-Extends j w =
      let p1 =
        for_each-Extends not_nft (route_step h)
          (λ r p. attempt-Extends not_nft (delete_route r) _ _ p refl (λ r. refl)) j.routes
          (start h w) in
      let p2 =
        for_each-Extends not_nft (rule_step h)
          (λ r p. attempt-Extends not_nft (delete_rule r) _ _ p refl (λ r. refl)) j.rules _ in
      let p3 = resolver_step-Extends j.resolver _ in
      let p4 =
        Extends-weaken is_sysctl not_nft _ _ not_nft_of_sysctl
          (for_each-Extends is_sysctl (sysctl_step h) sysctl_step-Extends j.sysctls _) in
      Extends-trans not_nft _ _ _ p1
        (Extends-trans not_nft _ _ _ p2 (Extends-trans not_nft _ _ _ p3 p4))

  pub tables-Extends :
      (ids : List ℕ) (p : Progress World E) → Extends not_nft p (for_each (table_step h) ids p)
  unfolding table_step
  tables-Extends ids p =
      for_each-Extends not_nft (table_step h)
        (λ id q. attempt-Extends not_nft (delete_route_table id) _ _ q refl (λ r. refl)) ids p

  pub nft-Extends :
      (ts : List NftTableRecord) (p : Progress World E)
      → Extends is_nft p (for_each (nft_step h) ts p)
  unfolding nft_step
  nft-Extends ts p =
      for_each-Extends is_nft (nft_step h)
        (λ t q. attempt-Extends is_nft (delete_nft_table t) _ _ q refl (λ r. refl)) ts p
