-- ===== src/Prelude/Separators.antt =====
-- Text with a separator: the parts before and after it.
use Prim.Native.Char.{Char}
use Prim.Native.String.{String, ◌++◌}
use text.Mathlib.TextLemmas.{cons-append, nil-append, head-eq_of_cons-eq, tail-eq_of_cons-eq}
use mathlib.Core.Path.{◌≡◌, refl, sym, ap, ap₂, ◌∙◌}

-- No character is the separator.
abbrev pub Lacks : Char → String → Type 0
Lacks sep String.[] = Unit
Lacks sep (String.◌∷◌ c s) = ¬ (c ≡ sep) × Lacks sep s

pub regroup :
    (sep : Char) (s t : String) → s ++ String.◌∷◌ sep t ≡ s ++ String.◌∷◌ sep String.[] ++ t
regroup sep s t =
    ap (λ u. s ++ u) (sym (cons-append sep String.[] t ∙ ap (λ u. String.◌∷◌ sep u) (nil-append t)))

pub split_at :
    (sep : Char) (s t u v : String)
    → Lacks sep s
    → Lacks sep t
    → s ++ String.◌∷◌ sep u ≡ t ++ String.◌∷◌ sep v
    → (s ≡ t) × (u ≡ v)
split_at sep String.[] String.[] u v h k e =
    (refl, tail-eq_of_cons-eq (sym (nil-append _) ∙ e ∙ nil-append _))
split_at sep String.[] (String.◌∷◌ d t) u v h k e =
    absurd (k.0 (sym (head-eq_of_cons-eq (sym (nil-append _) ∙ e ∙ cons-append d t _))))
split_at sep (String.◌∷◌ c s) String.[] u v h k e =
    absurd (h.0 (head-eq_of_cons-eq (sym (cons-append c s _) ∙ e ∙ nil-append _)))
split_at sep (String.◌∷◌ c s) (String.◌∷◌ d t) u v h k e =
    let whole = sym (cons-append c s _) ∙ e ∙ cons-append d t _ in
    let (names, rests) = split_at sep s t u v h.1 k.1 (tail-eq_of_cons-eq whole) in
    (ap₂ String.◌∷◌ (head-eq_of_cons-eq whole) names, rests)
