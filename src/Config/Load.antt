-- ===== src/Config/Load.antt =====
-- internal/config/load.go. The YAML decoder is a parameter: the states of a decoder, the decoder of some
-- bytes under the strict options, and one step of `Decode` into a configuration or into `any`.
use red_mpudp.Prelude.{
  ◌<◌, ◌^◌, ◌≡◌, refl, ◌↔◌, Bool, true, false, Option, none, some, if◌then◌else◌, ◌⊎◌, inl, inr, ap,
  sym, ◌∙◌, arith,
}
use red_mpudp.Prelude.Bytes.{Str}
use red_mpudp.Config.Types.{Client, Server}
use red_mpudp.Config.Checks.{Library}
use red_mpudp.Config.Client.{
  Message, apply_defaults as client_defaults, validate as validate_client,
}
use red_mpudp.Config.Server.{apply_defaults as server_defaults, validate as validate_server}
use red_mpudp.Config.Client.Valid.{IsClient, validate_client_iff}
use red_mpudp.Config.Server.Valid.{IsServer, validate_server_iff}

-- What one `Decode` gives: the document, the end of the input, or another error.
pub data Decoded {ℓ} (A : Type ℓ) : Type ℓ where
  document : A → Decoded A
  at_eof : Decoded A
  bad : Str → Decoded A

pub record Yaml {ℓ κ} (D : Type ℓ) (A : Type κ) : Type (ℓ ⊔ κ) where
  pub new_decoder : Str → D
  pub decode : D → Decoded A × D
  pub at_end : D → Bool

pub data LoadError : Type 0 where
  empty several_documents : LoadError
  syntax_error : Str → LoadError
  invalid : Message → LoadError

abbrev pub Loaded {ℓ} : Type ℓ → Type ℓ
Loaded A = LoadError ⊎ A

module _ {ℓ κ} {D : Type ℓ} {A : Type κ} (yaml : Yaml D A) where
  -- The second `Decode` must meet the end of the input.
  abbrev pub after_decode : Decoded A × D → Loaded A
  after_decode (document a, d) = if yaml.at_end d then inr a else inl several_documents
  after_decode (at_eof, d) = inl empty
  after_decode (bad e, d) = inl (syntax_error e)

  unfoldable pub decode_strict : Str → Loaded A
  decode_strict data' = after_decode (yaml.decode (yaml.new_decoder data'))

  abbrev pub accept : Option Message → A → Loaded A
  accept none a = inr a
  accept (some m) a = inl (invalid m)

  -- The bytes are one document, and it decodes to `a`.
  abbrev pub IsDocument : Str → A → Type (ℓ ⊔ κ)
  IsDocument data' a =
      (d : D) × (yaml.decode (yaml.new_decoder data') ≡ (document a, d)) × (yaml.at_end d ≡ true)

module _ {ℓ} {D : Type ℓ} (lib : Library) (yaml : Yaml D Client) where
  abbrev check_client : Loaded Client → Loaded Client
  check_client (inl e) = inl e
  check_client (inr c) = accept yaml (validate_client lib (client_defaults c)) (client_defaults c)

  unfoldable pub load_client : Str → Loaded Client
  load_client data' = check_client (decode_strict yaml data')

module _ {ℓ} {D : Type ℓ} (lib : Library) (yaml : Yaml D Server) where
  abbrev check_server : Loaded Server → Loaded Server
  check_server (inl e) = inl e
  check_server (inr s) = accept yaml (validate_server lib (server_defaults s)) (server_defaults s)

  unfoldable pub load_server : Str → Loaded Server
  load_server data' = check_server (decode_strict yaml data')

-- Reading a file first; its error is passed on.
unfoldable pub load_file {ℓ κ} :
    {E : Type ℓ} {A : Type κ} → (Str → E ⊎ Str) → (Str → Loaded A) → Str → E ⊎ Loaded A
load_file read load path = elim (read path) [ inl e ↦ inl e | inr data' ↦ inr (load data') ]

only_iff {ℓ} :
    {A : Type ℓ} (b : Bool) (x a : A)
    → ((if b then inr x else inl several_documents) ≡ inr a) ↔ ((x ≡ a) × (b ≡ true))
only_iff true x a = (λ h. (cc, refl), λ h. ap inr h.0)
only_iff false x a = (λ h. absurd (cc), λ h. absurd (cc))

after_decode_iff {ℓ κ} :
    {D : Type ℓ} {A : Type κ} (yaml : Yaml D A) (r : Decoded A × D) (a : A)
    → (after_decode yaml r ≡ inr a) ↔ ((d : D) × (r ≡ (document a, d)) × (yaml.at_end d ≡ true))
after_decode_iff yaml (document b, d) a =
    let k = only_iff (yaml.at_end d) b a in
    (
      λ h. let (same, e) = k.0 h in (d, ap (λ x. (document x, d)) same, e),
      λ h.
          let first : document b ≡ document a = ap (λ q. q.0) h.1 in
          let second : d ≡ h.0 = ap (λ q. q.1) h.1 in k.1 (cc, ap yaml.at_end second ∙ h.2),
    )
after_decode_iff yaml (at_eof, d) a =
    (λ h. absurd (cc), λ h. let e : at_eof ≡ document a = ap (λ q. q.0) h.1 in absurd (cc))
after_decode_iff yaml (bad m, d) a =
    (λ h. absurd (cc), λ h. let e : bad m ≡ document a = ap (λ q. q.0) h.1 in absurd (cc))

accept_iff {ℓ κ} :
    {D : Type ℓ} {A : Type κ} (yaml : Yaml D A) (m : Option Message) (x a : A)
    → (accept yaml m x ≡ inr a) ↔ ((x ≡ a) × (m ≡ none))
accept_iff yaml none x a = (λ h. (cc, refl), λ h. ap inr h.0)
accept_iff yaml (some m) x a = (λ h. absurd (cc), λ h. absurd (cc))

-- `decodeStrict` succeeds exactly when the bytes are one document.
decode_strict_iff {ℓ κ} :
    {D : Type ℓ} {A : Type κ} (yaml : Yaml D A) (data' : Str) (a : A)
    → (decode_strict yaml data' ≡ inr a) ↔ IsDocument yaml data' a
unfolding decode_strict
decode_strict_iff yaml data' a = after_decode_iff yaml (yaml.decode (yaml.new_decoder data')) a

check_client_iff {ℓ} :
    {D : Type ℓ} (lib : Library) (yaml : Yaml D Client) (r : Loaded Client) (c : Client)
    → (check_client lib yaml r ≡ inr c)
      ↔ ((a : Client) × (r ≡ inr a) × (c ≡ client_defaults a) × (validate_client lib c ≡ none))
check_client_iff lib yaml (inl e) c = (λ h. absurd (cc), λ h. let p = h.1 in absurd (cc))
check_client_iff lib yaml (inr a) c =
    let k = accept_iff yaml (validate_client lib (client_defaults a)) (client_defaults a) c in
    (
      λ h. let (same, e) = k.0 h in (a, refl, sym same, ap (validate_client lib) (sym same) ∙ e),
      λ h.
          let p = h.1 in
          let same : a ≡ h.0 = cc in
          let c_is : client_defaults a ≡ c = ap client_defaults same ∙ sym h.2 in
          k.1 (c_is, ap (validate_client lib) c_is ∙ h.3),
    )

check_server_iff {ℓ} :
    {D : Type ℓ} (lib : Library) (yaml : Yaml D Server) (r : Loaded Server) (s : Server)
    → (check_server lib yaml r ≡ inr s)
      ↔ ((a : Server) × (r ≡ inr a) × (s ≡ server_defaults a) × (validate_server lib s ≡ none))
check_server_iff lib yaml (inl e) s = (λ h. absurd (cc), λ h. let p = h.1 in absurd (cc))
check_server_iff lib yaml (inr a) s =
    let k = accept_iff yaml (validate_server lib (server_defaults a)) (server_defaults a) s in
    (
      λ h. let (same, e) = k.0 h in (a, refl, sym same, ap (validate_server lib) (sym same) ∙ e),
      λ h.
          let p = h.1 in
          let same : a ≡ h.0 = cc in
          let s_is : server_defaults a ≡ s = ap server_defaults same ∙ sym h.2 in
          k.1 (s_is, ap (validate_server lib) s_is ∙ h.3),
    )

-- `LoadServer` returns a configuration exactly when the bytes are one document and the configuration is
-- that document with the defaults filled in, and valid.
pub load_server_iff {ℓ} :
    {D : Type ℓ} (lib : Library) (yaml : Yaml D Server) (data' : Str) (s : Server)
    → (load_server lib yaml data' ≡ inr s)
      ↔ ((a : Server) × IsDocument yaml data' a × (s ≡ server_defaults a) × IsServer lib s)
unfolding load_server
load_server_iff lib yaml data' s =
    let k = check_server_iff lib yaml (decode_strict yaml data') s in
    let v = validate_server_iff lib s in
    (
      λ h. let (a, e, same, ok) = k.0 h in (a, (decode_strict_iff yaml data' a).0 e, same, v.0 ok),
      λ h. k.1 (h.0, (decode_strict_iff yaml data' h.0).1 h.1, h.2, v.1 h.3),
    )

fits_default :
    (a : Client)
    → a.routing.rule_priority_base < 2 ^ 32
    → (client_defaults a).routing.rule_priority_base < 2 ^ 32
unfolding client_defaults
fits_default a h = ground arith

-- With a decoder that fills the `uint32` rule priority with a number below 2^32, `LoadClient` returns a
-- configuration exactly when the bytes are one document and the configuration is that document with the
-- defaults filled in, and valid.
pub load_client_iff {ℓ} :
    {D : Type ℓ} (lib : Library) (yaml : Yaml D Client)
    → ((data' : Str) (a : Client) → IsDocument yaml data' a → a.routing.rule_priority_base < 2 ^ 32)
    → (data' : Str) (c : Client)
    → (load_client lib yaml data' ≡ inr c)
      ↔ ((a : Client) × IsDocument yaml data' a × (c ≡ client_defaults a) × IsClient lib c)
unfolding load_client
load_client_iff lib yaml small data' c =
    let k = check_client_iff lib yaml (decode_strict yaml data') c in
    let fits : (a : Client)
        → IsDocument yaml data' a
        → c ≡ client_defaults a
        → c.routing.rule_priority_base < 2 ^ 32 =
      λ a d same. rw same (fits_default a (small data' a d)) in
    (
      λ h.
          let (a, e, same, ok) = k.0 h in
          let d = (decode_strict_iff yaml data' a).0 e in
          (a, d, same, (validate_client_iff lib c (fits a d same)).0 ok),
      λ h. k.1 (
        h.0,
        (decode_strict_iff yaml data' h.0).1 h.1,
        h.2,
        (validate_client_iff lib c (fits h.0 h.1 h.2)).1 h.3,
      ),
    )
