-- ===== src/Journal/Recover/Gate.antt =====
-- internal/journal/recover.go: the removal of the kill switch among the calls of a recovery, and what each
-- outcome says of the host.
use mathlib.Core.Path.{subst}
use mathlib.Core.List.{append-nil}
use red_mpudp.Prelude.{
  ◌≡◌, ◌⊎◌, inl, inr, ◌≢◌, refl, sym, ap, ◌∙◌, true, false, List, [], ◌∷◌, ◌++◌, Option, none, some,
  ltb, length, All,
}
use red_mpudp.Prelude.Bytes.{Str}
use red_mpudp.Journal.Schema.{Journal, Role, JournalError}
use red_mpudp.Journal.Recover.{
  Host, Failure, Entry, Progress, RecoverError, refused, halted, nft_failed, Outcome, start,
  for_each, table_step, nft_step, phase1, phase2, phase2b, halt, after_nft, after_tables,
  after_phase1, refusal, recover_checked, recover,
}
use red_mpudp.Journal.Recover.Trace.{
  is_nft, not_nft, failures, failures-append, Extends, Extends-trans, phase1-Extends,
  tables-Extends, nft-Extends,
}

module _ {E : Type 0} where
  -- A trace is gated if it splits into calls that leave the kill switch alone and then calls that remove
  -- it; either there is no removal, or no call before them failed.
  pub record IsGated (trace : List (Entry E)) : Type 0 where
    pub before : List (Entry E)
    pub after : List (Entry E)
    pub whole : trace ≡ before ++ after
    pub kept : All (λ (c : Entry E). not_nft c.0 ≡ true) before
    pub removed : All (λ (c : Entry E). is_nft c.0 ≡ true) after
    pub clean : (after ≡ []) ⊎ (failures before ≡ [])

module _ {World E : Type 0} (h : Host World E) (j : Journal) (w : World) where
  -- What `Recover` says by its error, of its trace and its report.
  abbrev pub Means : Option (RecoverError E) → Progress World E → Type 0
  Means none p = (failures p.calls ≡ []) × (p.report.kill_switch_retained ≡ false)
  Means (some (refused e)) p = p ≡ start h w
  Means (some (halted fs)) p =
      (fs ≡ failures p.calls)
      × (fs ≢ [])
      × All (λ (c : Entry E). not_nft c.0 ≡ true) p.calls
      × (p.report.kill_switch_retained ≡ ltb 0 (length j.nft_tables))
  Means (some (nft_failed fs)) p =
      (fs ≡ failures p.calls)
      × (fs ≢ [])
      × (p.report.kill_switch_retained ≡ ltb p.report.nft_tables_removed (length j.nft_tables))

  abbrev Good : Outcome h → Type 0
  Good out = IsGated out.0.calls × Means out.1 out.0

  -- A stop with no removal made.
  halt-Good :
      (p : Progress World E) → Extends not_nft (start h w) p → p.errors ≢ [] → Good (halt h j p)
  unfolding halt
  halt-Good p e ne = (
    record {
      before = e.made;
      after = [];
      whole = e.calls ∙ sym (append-nil _);
      kept = e.kinds;
      removed = tt;
      clean = inl refl;
    },
    (e.errors ∙ ap failures (sym e.calls), ne, subst (All _) (sym e.calls) e.kinds, refl),
  )

  -- The removals, after calls that all succeeded.
  nft-Good :
      (p : Progress World E) → Extends not_nft (start h w) p → p.errors ≡ [] → Good (phase2b h j p)
  unfolding phase2b
  nft-Good p e clean = go q.errors refl
    where
      q : Progress World E
      q = for_each (nft_step h) j.nft_tables p

      n : Extends is_nft p q
      n = nft-Extends h j.nft_tables p

      calls : q.calls ≡ e.made ++ n.made
      calls = n.calls ∙ ap (λ l. l ++ n.made) e.calls

      none_failed : failures e.made ≡ []
      none_failed = sym e.errors ∙ clean

      errors : q.errors ≡ failures q.calls
      errors =
          n.errors
          ∙ ap (λ l. l ++ failures n.made) e.errors
          ∙ sym (failures-append e.made n.made)
          ∙ ap failures (sym calls)

      gated : IsGated q.calls
      gated = record {
        before = e.made;
        after = n.made;
        whole = calls;
        kept = e.kinds;
        removed = n.kinds;
        clean = inr none_failed;
      }

      go : (fs : List (Failure E)) → q.errors ≡ fs → Good (after_nft h j q fs)
      go [] k = unfold after_nft in (gated, (sym errors ∙ k, n.retained ∙ e.retained))
      go (f ∷ fs) k = unfold after_nft in (gated, (sym k ∙ errors, (λ x. cc), refl))

  tables-Good : (p : Progress World E) → Extends not_nft (start h w) p → Good (phase2 h j p)
  unfolding phase2
  tables-Good p e = go q.errors refl
    where
      q : Progress World E
      q = for_each (table_step h) j.tables p

      e' : Extends not_nft (start h w) q
      e' = Extends-trans not_nft (start h w) p q e (tables-Extends h j.tables p)

      go : (fs : List (Failure E)) → q.errors ≡ fs → Good (after_tables h j q fs)
      go [] k = unfold after_tables in nft-Good q e' k
      go (f ∷ fs) k = unfold after_tables in halt-Good q e' (λ x. cc)

  checked-Good : (o : Option JournalError) → Good (recover_checked h j w o)
  unfolding recover_checked
  checked-Good (some x) = (
    record { before = []; after = []; whole = refl; kept = tt; removed = tt; clean = inl refl },
    refl,
  )
  checked-Good none = go p.errors refl
    where
      p : Progress World E
      p = phase1 h j w

      e : Extends not_nft (start h w) p
      e = phase1-Extends h j w

      go : (fs : List (Failure E)) → p.errors ≡ fs → Good (after_phase1 h j p fs)
      go [] k = unfold after_phase1 in tables-Good p e
      go (f ∷ fs) k = unfold after_phase1 in halt-Good p e (λ x. cc)

  module _ (role : Role) (instance_id : Str) where
    -- On any host, for any journal and caller: the calls of `Recover` split into calls that leave the kill
    -- switch alone and then removals of it; either there is no removal, or no call before them failed.
    pub recover-IsGated : IsGated (recover h j role instance_id w).0.calls
    unfolding recover
    recover-IsGated = (checked-Good (refusal h j role instance_id)).0

    -- What `Recover` returns is true of the calls it made: with no error no call failed and the kill
    -- switch is not reported as retained; refused, it made no call and changed nothing; halted, the error
    -- holds exactly the failures, of which there are some, no removal of the kill switch was made, and it
    -- is reported as retained if the journal names one; after a failed removal the error holds the
    -- failures, and the kill switch is reported as retained if fewer tables were removed than named.
    pub recover-Means : let (p, e) = recover h j role instance_id w in Means e p
    unfolding recover
    recover-Means = (checked-Good (refusal h j role instance_id)).1
