-- ===== src/Journal/Recover/Order.antt =====
-- internal/journal/recover.go: the order in which a recovery without error calls the host.
use mathlib.Core.Path.{subst}
use mathlib.Core.List.{append-nil}
use red_mpudp.Prelude.{
  ◌≡◌, refl, sym, ap, ◌∙◌, true, List, [], ◌∷◌, ◌++◌, map, Option, none, some, All, append_assoc,
}
use red_mpudp.Prelude.Bytes.{Str}
use red_mpudp.Journal.Schema.{Journal, Role, JournalError, ResolverRecord}
use red_mpudp.Journal.Recover.{
  Host, Call, delete_route, delete_rule, delete_route_table, delete_nft_table, restore_resolver,
  Report, Failure, Entry, Progress, Outcome, start, settle, attempt, for_each, route_step,
  rule_step, resolver_step, sysctl_step, table_step, nft_step, phase1, phase2, phase2b, halt,
  after_nft, after_tables, after_phase1, refusal, recover_checked, recover,
}
use red_mpudp.Journal.Recover.Gate.{Means, recover-Means}
use red_mpudp.Journal.Recover.Trace.{failures, is_sysctl, sysctl_step-Extends, for_each-Extends}

module _ {E : Type 0} where
  -- The calls of a trace, without their answers.
  abbrev pub callees : List (Entry E) → List Call
  callees [] = []
  callees ((c, e) ∷ t) = c ∷ callees t

  callees-append : (t u : List (Entry E)) → callees (t ++ u) ≡ callees t ++ callees u
  callees-append [] u = refl
  callees-append ((c, e) ∷ t) u = ap (λ l. c ∷ l) (callees-append t u)

abbrev pub resolver_calls : Option ResolverRecord → List Call
resolver_calls none = []
resolver_calls (some r) = restore_resolver r ∷ []

module _ {World E : Type 0} where
  -- From `p` to `q` the calls `cs` were made, in this order.
  abbrev Makes : Progress World E → List Call → Progress World E → Type 0
  Makes p cs q = callees q.calls ≡ callees p.calls ++ cs

  Makes-trans :
      (p q r : Progress World E) (cs ds : List Call)
      → Makes p cs q
      → Makes q ds r
      → Makes p (cs ++ ds) r
  Makes-trans p q r cs ds e f = f ∙ ap (λ l. l ++ ds) e ∙ append_assoc (callees p.calls) cs ds

  settle-Makes :
      (call : Call) (success : Report → Report) (w : World) (p : Progress World E) (e : Option E)
      → Makes p (call ∷ []) (settle call success w p e)
  unfolding settle
  settle-Makes call success w p none = callees-append p.calls _
  settle-Makes call success w p (some e) = callees-append p.calls _

  attempt-Makes :
      (call : Call) (op : World → World × Option E) (success : Report → Report)
      (p : Progress World E)
      → Makes p (call ∷ []) (attempt call op success p)
  unfolding attempt
  attempt-Makes call op success p = settle-Makes call success _ p (op p.world).1

  for_each-Makes {ℓ} :
      {A : Type ℓ} (call : A → Call) (body : A → Progress World E → Progress World E)
      → ((x : A) (p : Progress World E) → Makes p (call x ∷ []) (body x p))
      → (xs : List A) (p : Progress World E) → Makes p (map call xs) (for_each body xs p)
  unfolding for_each
  for_each-Makes call body h [] p = sym (append-nil _)
  for_each-Makes call body h (x ∷ xs) p =
      Makes-trans p (body x p) (for_each body xs (body x p)) (call x ∷ []) (map call xs) (h x p)
        (for_each-Makes call body h xs (body x p))

All-callees :
    {E : Type 0} (t : List (Entry E))
    → All (λ (m : Entry E). is_sysctl m.0 ≡ true) t
    → All (λ c. is_sysctl c ≡ true) (callees t)
All-callees [] h = tt
All-callees ((c, e) ∷ t) h = (h.0, All-callees t h.1)

module _ {World E : Type 0} (h : Host World E) (j : Journal) (w : World) where
  -- The calls of phase 1 before the sysctls.
  abbrev pub undo_calls : List Call
  undo_calls = map delete_route j.routes ++ (map delete_rule j.rules ++ resolver_calls j.resolver)

  resolver_step-Makes :
      (r : Option ResolverRecord) (p : Progress World E)
      → Makes p (resolver_calls r) (resolver_step h r p)
  unfolding resolver_step
  resolver_step-Makes none p = sym (append-nil _)
  resolver_step-Makes (some r) p = attempt-Makes (restore_resolver r) _ _ p

  -- Phase 1 removes the routes, then the rules, then restores the resolver, then works on sysctls.
  pub phase1_order :
      (sys : List Call) × (callees (phase1 h j w).calls ≡ undo_calls ++ sys)
      × All (λ c. is_sysctl c ≡ true) sys
  unfolding phase1 route_step rule_step
  phase1_order =
      let p1 = for_each (route_step h) j.routes (start h w) in
      let p2 = for_each (rule_step h) j.rules p1 in
      let p3 = resolver_step h j.resolver p2 in
      let e = for_each-Extends is_sysctl (sysctl_step h) (sysctl_step-Extends h) j.sysctls p3 in
      let m1 =
        for_each-Makes delete_route (route_step h) (λ r p. attempt-Makes (delete_route r) _ _ p)
          j.routes (start h w) in
      let m2 =
        for_each-Makes delete_rule (rule_step h) (λ r p. attempt-Makes (delete_rule r) _ _ p)
          j.rules p1 in
      let m3 = resolver_step-Makes j.resolver p2 in
      let m = Makes-trans (start h w) p1 p3 _ _ m1 (Makes-trans p1 p2 p3 _ _ m2 m3) in
      (
        callees e.made,
        ap callees e.calls ∙ callees-append p3.calls e.made ∙ ap (λ l. l ++ callees e.made) m,
        All-callees e.made e.kinds,
      )

  -- With no error, the whole recovery makes the calls of phase 1, then flushes every route table, then
  -- removes every kill-switch table.
  Complete : Outcome h → Type 0
  Complete out =
      out.1 ≡ none
      → (sys : List Call) × (callees out.0.calls
          ≡ undo_calls
            ++ (sys ++ (map delete_route_table j.tables ++ map delete_nft_table j.nft_tables)))
        × All (λ c. is_sysctl c ≡ true) sys

  nft-order :
      (p : Progress World E) (fs : List (Failure E))
      → Makes p
          (map delete_nft_table j.nft_tables)
          (after_nft h j (for_each (nft_step h) j.nft_tables p) fs).0
  unfolding after_nft nft_step
  nft-order p [] =
      for_each-Makes delete_nft_table (nft_step h) (λ t q. attempt-Makes (delete_nft_table t) _ _ q)
        j.nft_tables p
  nft-order p (f ∷ fs) =
      for_each-Makes delete_nft_table (nft_step h) (λ t q. attempt-Makes (delete_nft_table t) _ _ q)
        j.nft_tables p

  tables-order :
      (p : Progress World E)
      → Makes p (map delete_route_table j.tables) (for_each (table_step h) j.tables p)
  unfolding table_step
  tables-order p =
      for_each-Makes delete_route_table (table_step h)
        (λ t q. attempt-Makes (delete_route_table t) _ _ q) j.tables p

  after_tables-order :
      (p : Progress World E) (fs : List (Failure E))
      → let q = for_each (table_step h) j.tables p in
        (after_tables h j q fs).1 ≡ none
        → Makes p
            (map delete_route_table j.tables ++ map delete_nft_table j.nft_tables)
            (after_tables h j q fs).0
  unfolding after_tables phase2b halt
  after_tables-order p [] e =
      let q = for_each (table_step h) j.tables p in
      let r = for_each (nft_step h) j.nft_tables q in
      Makes-trans p q (after_nft h j r r.errors).0 _ _ (tables-order p) (nft-order q r.errors)
  after_tables-order p (f ∷ fs) e = cc

  recover_checked-order : (o : Option JournalError) → Complete (recover_checked h j w o)
  unfolding Complete recover_checked
  recover_checked-order (some x) e = cc
  recover_checked-order none e = go p.errors e
    where
      p : Progress World E
      p = phase1 h j w

      go :
          (fs : List (Failure E))
          → (after_phase1 h j p fs).1 ≡ none
          → (sys : List Call) × (callees (after_phase1 h j p fs).0.calls
              ≡ undo_calls
                ++ (sys ++ (map delete_route_table j.tables ++ map delete_nft_table j.nft_tables)))
            × All (λ c. is_sysctl c ≡ true) sys
      go (f ∷ fs) e = unfold after_phase1 halt in cc
      go [] e =
          let (sys, o, k) = phase1_order in
          let q = for_each (table_step h) j.tables p in
          (
            sys,
            unfold after_phase1 phase2 in
                (after_tables-order p q.errors e
                  ∙ ap
                      (λ l.
                        l ++ (map delete_route_table j.tables ++ map delete_nft_table j.nft_tables))
                      o
                  ∙ append_assoc undo_calls sys _),
            k,
          )

  -- If `Recover` returns no error, its calls of the host were, in this order: the removal of every route
  -- of the journal, of every rule, the resolver's restoration if recorded, calls on sysctls, the flush of
  -- every route table, the removal of every kill-switch table; and none of them failed.
  pub recover_complete :
      (role : Role) (instance_id : Str)
      → (recover h j role instance_id w).1 ≡ none
      → ((sys : List Call) × (callees (recover h j role instance_id w).0.calls
            ≡ undo_calls
              ++ (sys ++ (map delete_route_table j.tables ++ map delete_nft_table j.nft_tables)))
          × All (λ c. is_sysctl c ≡ true) sys)
        × (failures (recover h j role instance_id w).0.calls ≡ [])
  recover_complete role instance_id e = (
    unfold recover Complete in recover_checked-order (refusal h j role instance_id) e,
    (subst (λ o. Means h j w o (recover h j role instance_id w).0) e
        (recover-Means h j w role instance_id)).0,
  )
