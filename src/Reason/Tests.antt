-- ===== src/Reason/Tests.antt =====
-- internal/reason with a unary text of numbers.
use red_mpudp.Prelude.{ℕ, zero, suc, ◌≡◌, refl, sym, ap, ◌∙◌, inl, [], ◌∷◌}
use red_mpudp.Prelude.Bytes.{Str, codes}
use red_mpudp.Reason.{lookup, drop_string}
use red_mpudp.Reason.Labels.{string_injective}

-- A number as that many strokes.
abbrev strokes : ℕ → Str
strokes zero = []
strokes (suc n) = 124 ∷ strokes n

abbrev length_back : Str → ℕ
length_back [] = 0
length_back (b ∷ s) = suc (length_back s)

length_back-strokes : (n : ℕ) → length_back (strokes n) ≡ n
length_back-strokes zero = refl
length_back-strokes (suc n) = ap suc (length_back-strokes n)

strokes_injective : (a b : ℕ) → strokes a ≡ strokes b → a ≡ b
strokes_injective a b e = sym (length_back-strokes a) ∙ ap length_back e ∙ length_back-strokes b

unknown_drop : drop_string strokes 13 ≡ codes "unknown(|||||||||||||)"
unfolding drop_string lookup
unknown_drop = refl

string_injective_example : ◌≡◌ {A = ℕ} 13 13
string_injective_example = string_injective strokes strokes_injective 13 13 (inl refl)
