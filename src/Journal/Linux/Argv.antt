-- ===== src/Journal/Linux/Argv.antt =====
-- internal/journal/host_linux.go: the words of the commands.
use red_mpudp.Prelude.{
  ℕ, ◌≡◌, ◌≢◌, refl, sym, ◌∙◌, ap, Bool, true, false, not, ◌==◌, List, [], ◌∷◌, ◌++◌, arith,
  Bool-cases, inl, inr,
}
use red_mpudp.Prelude.Bytes.{Str, codes, str_eq, str_eq_iff}
use red_mpudp.Journal.Schema.{RouteRecord}
use red_mpudp.Journal.Linux.{Tools, route_args, optional}

-- The words do not begin with this one.
abbrev BeginsElse : Str → List Str → Type 0
BeginsElse tag [] = Unit
BeginsElse tag (w ∷ words) = w ≢ tag

BeginsElse-ne : (tag x : Str) (words rest : List Str) → BeginsElse tag rest → rest ≢ tag ∷ words
BeginsElse-ne tag x words [] h e = absurd (cc)
BeginsElse-ne tag x words (w ∷ rest) h e = h cc

BeginsElse-optional :
    (tag other x : Str) (b : Bool) (rest : List Str)
    → other ≢ tag
    → BeginsElse tag rest
    → BeginsElse tag (optional b (other ∷ x ∷ []) ++ rest)
BeginsElse-optional tag other x true rest ne h = ne
BeginsElse-optional tag other x false rest ne h = h

-- Two optional words after a tag are read back from the words.
optional_eq :
    (tag x y : Str) (a b : Bool) (rest rest' : List Str)
    → BeginsElse tag rest
    → BeginsElse tag rest'
    → optional a (tag ∷ x ∷ []) ++ rest ≡ optional b (tag ∷ y ∷ []) ++ rest'
    → (a ≡ b) × (a ≡ true → x ≡ y) × (rest ≡ rest')
optional_eq tag x y true true rest rest' h k e = (refl, (λ t. cc), cc)
optional_eq tag x y false false rest rest' h k e = (refl, (λ t. absurd (cc)), e)
optional_eq tag x y true false rest rest' h k e =
    absurd (BeginsElse-ne tag x (x ∷ rest) rest' k (sym e))
optional_eq tag x y false true rest rest' h k e = absurd (BeginsElse-ne tag y (y ∷ rest') rest h e)

-- A text that is left out when it is empty.
text_eq :
    (x y : Str) → not (str_eq x []) ≡ not (str_eq y []) → (not (str_eq x []) ≡ true → x ≡ y) → x ≡ y
text_eq x y same read = elim (Bool-cases (str_eq x [])) [
  | inl e ↦
      let x_empty = (str_eq_iff x []).0 e in
      let y_empty = (str_eq_iff y []).0 (ground arith) in x_empty ∙ sym y_empty
  | inr e ↦ read (rw e refl)
]

-- A number that is left out when it is 0.
number_eq : (m n : ℕ) → not (m == 0) ≡ not (n == 0) → (not (m == 0) ≡ true → m ≡ n) → m ≡ n
number_eq m n same read = elim (Bool-cases (m == 0)) [
  | inl e ↦ ground arith
  | inr e ↦ read (rw e refl)
]

BeginsElse-last :
    (tag other x : Str) (b : Bool) → other ≢ tag → BeginsElse tag (optional b (other ∷ x ∷ []))
BeginsElse-last tag other x true ne = ne
BeginsElse-last tag other x false ne = tt

last_eq :
    (tag x y : Str) (a b : Bool)
    → optional a (tag ∷ x ∷ []) ≡ optional b (tag ∷ y ∷ [])
    → (a ≡ b) × (a ≡ true → x ≡ y)
last_eq tag x y true true e = (refl, λ t. cc)
last_eq tag x y false false e = (refl, λ t. absurd (cc))
last_eq tag x y true false e = absurd (cc)
last_eq tag x y false true e = absurd (cc)

str_ne : (s t : Str) → str_eq s t ≡ false → s ≢ t
str_ne s t h e = let k = (str_eq_iff s t).1 e in absurd (cc)

via_ne_dev : codes "via" ≢ codes "dev"
unfolding str_eq
via_ne_dev = str_ne (codes "via") (codes "dev") refl

metric_ne_dev : codes "metric" ≢ codes "dev"
unfolding str_eq
metric_ne_dev = str_ne (codes "metric") (codes "dev") refl

metric_ne_via : codes "metric" ≢ codes "via"
unfolding str_eq
metric_ne_via = str_ne (codes "metric") (codes "via") refl

-- The words after the table.
route_options_eq :
    (dev dev' via via' num num' : Str) (a a' b b' c c' : Bool)
    → optional a (codes "dev" ∷ dev ∷ [])
        ++ (optional b (codes "via" ∷ via ∷ []) ++ optional c (codes "metric" ∷ num ∷ []))
      ≡ optional a' (codes "dev" ∷ dev' ∷ [])
        ++ (optional b' (codes "via" ∷ via' ∷ []) ++ optional c' (codes "metric" ∷ num' ∷ []))
    → ((a ≡ a') × (a ≡ true → dev ≡ dev'))
      × ((b ≡ b') × (b ≡ true → via ≡ via'))
      × ((c ≡ c') × (c ≡ true → num ≡ num'))
route_options_eq dev dev' via via' num num' a a' b b' c c' h =
    let metric = optional c (codes "metric" ∷ num ∷ []) in
    let metric' = optional c' (codes "metric" ∷ num' ∷ []) in
    let (a_eq, dev_eq, rest) =
      optional_eq (codes "dev") dev dev' a a' _ _
        (BeginsElse-optional (codes "dev") (codes "via") via b metric via_ne_dev
          (BeginsElse-last (codes "dev") (codes "metric") num c metric_ne_dev))
        (BeginsElse-optional (codes "dev") (codes "via") via' b' metric' via_ne_dev
          (BeginsElse-last (codes "dev") (codes "metric") num' c' metric_ne_dev))
        h in
    let (b_eq, via_eq, last) =
      optional_eq (codes "via") via via' b b' metric metric'
        (BeginsElse-last (codes "via") (codes "metric") num c metric_ne_via)
        (BeginsElse-last (codes "via") (codes "metric") num' c' metric_ne_via) rest in
    let (c_eq, num_eq) = last_eq (codes "metric") num num' c c' last in
    ((a_eq, dev_eq), (b_eq, via_eq), (c_eq, num_eq))

words_eq :
    {u u' v v' : Str} {tag : Str} {ws ws' : List Str}
    → u ∷ tag ∷ v ∷ ws ≡ u' ∷ tag ∷ v' ∷ ws'
    → (u ≡ u') × (v ≡ v') × (ws ≡ ws')
words_eq h = (cc, cc, cc)

tail : List Str → List Str
tail [] = []
tail (w ∷ ws) = ws

module _ {W E : Type 0} (tools : Tools W E) where
  -- When no two numbers print alike, the words of `ip route del` say every field of the record: two
  -- records with the same words have the same destination, table, device, gateway and metric.
  pub route_args-injective :
      ((m n : ℕ) → tools.decimal m ≡ tools.decimal n → m ≡ n)
      → (r s : RouteRecord) → route_args tools r ≡ route_args tools s
      → (r.table ≡ s.table)
        × (r.dst ≡ s.dst)
        × (r.dev ≡ s.dev)
        × (r.via ≡ s.via)
        × (r.priority ≡ s.priority)
  unfolding route_args tail
  route_args-injective decimal_injective r s h =
      let (dst, table, options) = words_eq (ap tail (ap tail h)) in
      let ((a, dev), (b, via), (c, num)) =
        route_options_eq r.dev s.dev r.via s.via (tools.decimal r.priority)
          (tools.decimal s.priority) (not (str_eq r.dev [])) (not (str_eq s.dev []))
          (not (str_eq r.via [])) (not (str_eq s.via [])) (not (r.priority == 0))
          (not (s.priority == 0)) options in
      (
        decimal_injective r.table s.table table,
        dst,
        text_eq r.dev s.dev a dev,
        text_eq r.via s.via b via,
        number_eq r.priority s.priority c (λ t. decimal_injective r.priority s.priority (num t)),
      )
