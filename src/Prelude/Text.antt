-- ===== src/Prelude/Text.antt =====
-- Texts are only compared, so they are native strings.
use Prim.Native.Char.{Char}
use Prim.Native.String.{String, ◌++◌ as append}
use Prim.Native.String.append.{nil as append_nil, cons as append_cons}
use mathlib.Core.Path.{◌≡◌, ap, ◌∙◌}
use mathlib.Core.Logic.{inl, inr}
use mathlib.Core.Bool.{Bool, true, false}
use amr_warehouse_collaborat.Prelude.Tests.{Bool-cases}
pub use text.Mathlib.Text.{◌==◌}
pub use text.Mathlib.TextEquality.{eq_iff}
pub use text.Mathlib.TextPositions.{eq_refl}

-- `text.empty()` in the source.
abbrev pub is_blank : String → Bool
is_blank s = s == ""

pub ==→eq : (s t : String) → (s == t) ≡ true → s ≡ t
==→eq s t h = (eq_iff s t).0 h

is_blank-cons : (c : Char) (s : String) → is_blank (String.◌∷◌ c s) ≡ false
is_blank-cons c s = elim (Bool-cases (is_blank (String.◌∷◌ c s))) [
  | inl e ↦ absurd (cons-ne-nil c s (==→eq (String.◌∷◌ c s) "" e))
  | inr e ↦ e
]
  where
    cons-ne-nil : (d : Char) (t : String) → String.◌∷◌ d t ≡ String.[] → ⊥
    cons-ne-nil d t h = cc

-- A text is not empty when it ends in one that is not.
pub is_blank-append : (s t : String) → is_blank t ≡ false → is_blank (append s t) ≡ false
is_blank-append String.[] t h = ap is_blank (append_nil t) ∙ h
is_blank-append (String.◌∷◌ c s) t h =
    ap is_blank (append_cons c s t) ∙ is_blank-cons c (append s t)

pub is_blank-append_left : (s t : String) → is_blank s ≡ false → is_blank (append s t) ≡ false
is_blank-append_left String.[] t h = absurd (true_ne_false h)
  where
    true_ne_false : true ≡ false → ⊥
    true_ne_false e = cc
is_blank-append_left (String.◌∷◌ c s) t h =
    ap is_blank (append_cons c s t) ∙ is_blank-cons c (append s t)
