-- ===== src/Cli.antt =====
-- cmd/red-mpudp/cleanup.go: `red-mpudp cleanup`. The parser of the flags is a parameter, and so is the load
-- of a journal; what is printed is left out. The result is the exit code, and what `Recover` did if it ran.
pub mod Main
pub mod Keys
pub mod Dispatch
pub mod Tests
use red_mpudp.Prelude.{
  ℕ, ◌≡◌, ◌≢◌, refl, ◌⊎◌, inl, inr, ◌↔◌, Bool, true, false, [], Option, none, some, arith, ap,
  Bool-cases, not, ◌&&◌, ◌||◌, if◌then◌else◌, List,
}
use red_mpudp.Prelude.Bytes.{Str, codes, str_eq, str_eq_iff}
use red_mpudp.Journal.Schema.{Journal}
use red_mpudp.Journal.Recover.{Host, Progress, RecoverError, recover}

abbrev pub exit_ok : ℕ
exit_ok = 0

abbrev pub exit_usage : ℕ
exit_usage = 2

abbrev pub exit_config : ℕ
exit_config = 3

abbrev pub exit_runtime : ℕ
exit_runtime = 5

-- The three flags; one that is not given is empty.
pub record Flags : Type 0 where
  pub state_file : Str
  pub role : Str
  pub instance_id : Str

abbrev is_role : Str → Bool
is_role r = str_eq r [] || str_eq r (codes "client") || str_eq r (codes "server")

-- A flag that is given differs from the journal.
abbrev differs : Str → Str → Bool
differs flag recorded = not (str_eq flag []) && not (str_eq recorded flag)

module _ {W E L : Type 0} (h : Host W E) (parse : List Str → Option Flags)
    (load : Str → L ⊎ Journal) where
  abbrev pub Cleaned : Type 0
  Cleaned = ℕ × Option (Progress W E)

  abbrev pub recovered : Progress W E × Option (RecoverError E) → Cleaned
  recovered (p, none) = (exit_ok, some p)
  recovered (p, some e) = (exit_runtime, some p)

  unfoldable pub after_load : Flags → W → L ⊎ Journal → Cleaned
  after_load f w (inl e) = (exit_config, none)
  after_load f w (inr j) =
      if differs f.role j.role
      then (exit_config, none)
      else if differs f.instance_id j.instance_id
      then (exit_config, none)
      else recovered (recover h j j.role f.instance_id w)

  unfoldable pub after_parse : W → Option Flags → Cleaned
  after_parse w none = (exit_usage, none)
  after_parse w (some f) =
      if str_eq f.state_file []
      then (exit_usage, none)
      else if not (is_role f.role)
      then (exit_usage, none)
      else after_load f w (load f.state_file)

  unfoldable pub cleanup : List Str → W → Cleaned
  cleanup args w = after_parse w (parse args)

  -- `Recover` ran on a journal that the flags agree with.
  abbrev pub IsPinned : Flags → Journal → Type 0
  IsPinned f j =
      (f.state_file ≢ [])
      × (load f.state_file ≡ inr j)
      × ((f.role ≡ []) ⊎ (j.role ≡ f.role))
      × ((f.instance_id ≡ []) ⊎ (j.instance_id ≡ f.instance_id))

  abbrev pub IsCleanup : List Str → W → Cleaned → Type 0
  IsCleanup args w (code, none) = (code ≡ 2) ⊎ (code ≡ 3)
  IsCleanup args w (code, some p) =
      (f : Flags) × (j : Journal) × (parse args ≡ some f)
      × IsPinned f j
      × ((recover h j j.role f.instance_id w).0 ≡ p)
      × (((code ≡ 0) × ((recover h j j.role f.instance_id w).1 ≡ none))
          ⊎ ((code ≡ 5) × ((recover h j j.role f.instance_id w).1 ≢ none)))

  differs_iff :
      (flag recorded : Str) → (differs flag recorded ≡ false) ↔ ((flag ≡ []) ⊎ (recorded ≡ flag))
  differs_iff flag recorded = ground (arith, str_eq_iff flag [], str_eq_iff recorded flag)

  recovered_lem :
      (args : List Str) (w : W) (f : Flags) (j : Journal)
      (r : Progress W E × Option (RecoverError E))
      → parse args ≡ some f
      → IsPinned f j
      → recover h j j.role f.instance_id w ≡ r
      → IsCleanup args w (recovered r)
  recovered_lem args w f j (p, none) parsed pinned e =
      (f, j, parsed, pinned, ap (λ x. x.0) e, inl (refl, ap (λ x. x.1) e))
  recovered_lem args w f j (p, some e') parsed pinned e =
      let last : (recover h j j.role f.instance_id w).1 ≡ some e' = ap (λ x. x.1) e in
      (f, j, parsed, pinned, ap (λ x. x.0) e, inr (refl, λ no. absurd (cc)))

  after_load_lem :
      (args : List Str) (w : W) (f : Flags) (r : L ⊎ Journal)
      → parse args ≡ some f
      → f.state_file ≢ []
      → load f.state_file ≡ r
      → IsCleanup args w (after_load f w r)
  unfolding after_load
  after_load_lem args w f (inl e) parsed given loaded = inr refl
  after_load_lem args w f (inr j) parsed given loaded = elim (Bool-cases (differs f.role j.role)) [
    | inl d ↦ rw d (inr refl)
    | inr same_role ↦ elim (Bool-cases (differs f.instance_id j.instance_id)) [
      | inl d ↦ rw (same_role, d) (inr refl)
      | inr same_id ↦
          rw (same_role, same_id)
            (recovered_lem args w f j (recover h j j.role f.instance_id w) parsed
              (
                given,
                loaded,
                (differs_iff f.role j.role).0 same_role,
                (differs_iff f.instance_id j.instance_id).0 same_id,
              )
              refl)
    ]
  ]

  after_parse_lem :
      (args : List Str) (w : W) (f : Option Flags)
      → parse args ≡ f
      → IsCleanup args w (after_parse w f)
  unfolding after_parse
  after_parse_lem args w none parsed = inl refl
  after_parse_lem args w (some f) parsed = elim (Bool-cases (str_eq f.state_file [])) [
    | inl e ↦ rw e (inl refl)
    | inr given ↦ elim (Bool-cases (is_role f.role)) [
      | inl role ↦
          rw (given, role)
            (after_load_lem args w f (load f.state_file) parsed
              (ground (arith, str_eq_iff f.state_file [])) refl)
      | inr role ↦ rw (given, role) (inl refl)
    ]
  ]

  -- `cleanup` either exits with 2 or 3 and does nothing to the host; or the flags name a state file that
  -- loads, the role and the instance that are given are those of its journal, what it did to the host is
  -- what `Recover` does for this journal, and it exits with 0 if that returned no error and else with 5.
  pub cleanup-IsCleanup : (args : List Str) (w : W) → IsCleanup args w (cleanup args w)
  unfolding cleanup
  cleanup-IsCleanup args w = after_parse_lem args w (parse args) refl
