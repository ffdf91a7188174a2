-- ===== src/Reason/Labels.antt =====
-- internal/reason/reason.go: the texts of the tables against each other and against those of unknown codes.
use mathlib.Core.List.{append_cancel_left, append_cancel_right}
use red_mpudp.Prelude.{
  ℕ, zero, suc, ◌≤◌, ◌<◌, ◌≡◌, ◌≢◌, refl, sym, ap, ◌↔◌, ◌∙◌, ◌⊎◌, inl, inr, Bool, true, false, List,
  [], ◌∷◌, ◌++◌, arith, tests, ltb, ◌==◌, not, ◌&&◌, ◌||◌, length, get_or, dec_lt,
}
use red_mpudp.Prelude.Bytes.{Str, codes, str_eq, str_eq_iff, all_bytes, is_lower}
use red_mpudp.Reason.{
  lookup, drop_text, handshake_text, close_text, health_text, valid_drop, valid_handshake,
  valid_close, valid_health, drop_string, handshake_string, close_string, health_string,
}

-- Lower-case letters and underscores only.
abbrev pub is_snake_case : Str → Bool
is_snake_case s = all_bytes (λ b. is_lower b || b == 95) s

-- Not among the texts.
abbrev is_new : Str → List Str → Bool
is_new s [] = true
is_new s (t ∷ ts) = not (str_eq s t) && is_new s ts

-- Each text is in snake_case and differs from the later ones.
abbrev pub is_label_table : List Str → Bool
is_label_table [] = true
is_label_table (t ∷ ts) = is_snake_case t && is_new t ts && is_label_table ts

is_new-get_or :
    (s : Str) (ts : List Str) (i : ℕ) → i < length ts → is_new s ts ≡ true → s ≢ get_or ts i []
is_new-get_or s [] i h e = absurd (omega arith)
is_new-get_or s (t ∷ ts) zero h e = ground (arith, str_eq_iff s t)
is_new-get_or s (t ∷ ts) (suc i) h e = is_new-get_or s ts i (omega arith) (ground arith)

get_or_snake_case :
    (ts : List Str) (i : ℕ)
    → i < length ts
    → is_label_table ts ≡ true
    → is_snake_case (get_or ts i []) ≡ true
get_or_snake_case [] i h e = absurd (omega arith)
get_or_snake_case (t ∷ ts) zero h e = ground arith
get_or_snake_case (t ∷ ts) (suc i) h e = get_or_snake_case ts i (omega arith) (ground arith)

get_or_injective :
    (ts : List Str) (i j : ℕ)
    → i < length ts
    → j < length ts
    → is_label_table ts ≡ true
    → get_or ts i [] ≡ get_or ts j []
    → i ≡ j
get_or_injective [] i j hi hj e same = absurd (omega arith)
get_or_injective (t ∷ ts) zero zero hi hj e same = refl
get_or_injective (t ∷ ts) zero (suc j) hi hj e same =
    absurd (is_new-get_or t ts j (omega arith) (ground arith) same)
get_or_injective (t ∷ ts) (suc i) zero hi hj e same =
    absurd (is_new-get_or t ts i (omega arith) (ground arith) (sym same))
get_or_injective (t ∷ ts) (suc i) (suc j) hi hj e same =
    ap suc (get_or_injective ts i j (omega arith) (omega arith) (ground arith) same)

module _ (itoa : ℕ → Str) where
  abbrev unknown : ℕ → Str
  unknown v = codes "unknown(" ++ (itoa v ++ codes ")")

  unknown_snake_case : (v : ℕ) → is_snake_case (unknown v) ≡ false
  unfolding all_bytes
  unknown_snake_case v = refl

  lookup_known : (v : ℕ) (ts : List Str) → v < length ts → lookup itoa v ts ≡ get_or ts v []
  unfolding lookup
  lookup_known v ts h = let e : ltb v (length ts) ≡ true = omega tests in rw e refl

  lookup-unknown : (v : ℕ) (ts : List Str) → length ts ≤ v → lookup itoa v ts ≡ unknown v
  unfolding lookup
  lookup-unknown v ts h = let e : ltb v (length ts) ≡ false = ground arith in rw e refl

  snake_case_iff :
      (v : ℕ) (ts : List Str)
      → is_label_table ts ≡ true
      → (is_snake_case (lookup itoa v ts) ≡ true) ↔ (v < length ts)
  snake_case_iff v ts e = elim (dec_lt v (length ts)) [
    | yes h ↦ (λ k. h, λ k. rw (lookup_known v ts h) (get_or_snake_case ts v h e))
    | no h ↦ (
      λ k.
          let other : is_snake_case (unknown v) ≡ true =
            rw (lookup-unknown v ts (omega arith)) at k in
          let no_label = unknown_snake_case v in absurd (cc),
      λ k. absurd (omega arith),
    )
  ]

  lookup_injective :
      ((a b : ℕ) → itoa a ≡ itoa b → a ≡ b)
      → (ts : List Str) → is_label_table ts ≡ true
      → (v w : ℕ) → lookup itoa v ts ≡ lookup itoa w ts
      → v ≡ w
  lookup_injective inj ts e v w same =
      let kv = snake_case_iff v ts e in
      let kw = snake_case_iff w ts e in
      elim (dec_lt v (length ts)) [
        | yes hv ↦
            let hw = kw.0 (sym (ap is_snake_case same) ∙ kv.1 hv) in
            get_or_injective ts v w hv hw e
              (sym (lookup_known v ts hv) ∙ same ∙ lookup_known w ts hw)
        | no hv ↦ elim (dec_lt w (length ts)) [
          | yes hw ↦ absurd (hv (kv.0 (ap is_snake_case same ∙ kw.1 hw)))
          | no hw ↦
              let texts : unknown v ≡ unknown w =
                sym (lookup-unknown v ts (omega arith))
                ∙ same
                ∙ lookup-unknown w ts (omega arith) in
              inj v w (
                append_cancel_right (itoa v) (itoa w) (codes ")") (
                  append_cancel_left (codes "unknown(") (itoa v ++ codes ")") (itoa w ++ codes ")")
                    texts))
        ]
      ]

  -- With decimal texts that tell numbers apart, two codes of one type with the same text are the same
  -- code, the unknown codes included: for drops, handshake failures, closes and health transitions.
  pub string_injective :
      ((a b : ℕ) → itoa a ≡ itoa b → a ≡ b)
      → (v w : ℕ)
      → (drop_string itoa v ≡ drop_string itoa w
          ⊎ handshake_string itoa v ≡ handshake_string itoa w
          ⊎ close_string itoa v ≡ close_string itoa w
          ⊎ health_string itoa v ≡ health_string itoa w)
      → v ≡ w
  unfolding drop_string handshake_string close_string health_string str_eq all_bytes
  string_injective inj v w (inl e) = lookup_injective inj drop_text refl v w e
  string_injective inj v w (inr (inl e)) = lookup_injective inj handshake_text refl v w e
  string_injective inj v w (inr (inr (inl e))) = lookup_injective inj close_text refl v w e
  string_injective inj v w (inr (inr (inr e))) = lookup_injective inj health_text refl v w e

  -- `Valid` holds of exactly the codes whose text is in snake_case, for all four types.
  pub valid_iff :
      (v : ℕ)
      → ((valid_drop v ≡ true) ↔ (is_snake_case (drop_string itoa v) ≡ true))
        × ((valid_handshake v ≡ true) ↔ (is_snake_case (handshake_string itoa v) ≡ true))
        × ((valid_close v ≡ true) ↔ (is_snake_case (close_string itoa v) ≡ true))
        × ((valid_health v ≡ true) ↔ (is_snake_case (health_string itoa v) ≡ true))
  unfolding drop_string handshake_string close_string health_string str_eq all_bytes
  valid_iff v =
      let d = snake_case_iff v drop_text refl in
      let h = snake_case_iff v handshake_text refl in
      let c = snake_case_iff v close_text refl in
      let t = snake_case_iff v health_text refl in
      (
        (λ e. d.1 (omega tests), λ e. let k = d.0 e in omega tests),
        (λ e. h.1 (omega tests), λ e. let k = h.0 e in omega tests),
        (λ e. c.1 (omega tests), λ e. let k = c.0 e in omega tests),
        (λ e. t.1 (omega tests), λ e. let k = t.0 e in omega tests),
      )
