-- ===== src/Base/CodeUnits.antt =====
-- JavaScript strings as lists of UTF-16 code units.
use Prim.Native.Nat.{ℕ, ◌+◌}
use Prim.Native.Char.{code}
use Prim.Native.String.{String}
use mathlib.Core.Path.{◌≡◌, refl, ap}
use mathlib.Core.Logic.{◌↔◌, inl, inr}
use mathlib.Core.Bool.{Bool, true, false, ◌&&◌}
use mathlib.Core.List.{List, [], ◌∷◌, ◌++◌}
use native.Mathlib.Omega.{arith}
use lunibee.Base.Tests.{leb, ◌==◌, if◌then◌else◌, Bool-cases}

abbrev pub Text : Type 0
Text = List ℕ

-- The code units of a literal; the model writes ASCII literals only.
abbrev pub codes : String → Text
codes String.[] = []
codes (String.◌∷◌ c s) = code c ∷ codes s

abbrev pub text_eq : Text → Text → Bool
text_eq [] [] = true
text_eq [] (_ ∷ _) = false
text_eq (_ ∷ _) [] = false
text_eq (a ∷ s) (b ∷ t) = if a == b then text_eq s t else false

-- `toLowerCase` on ASCII text.
abbrev pub to_lower : Text → Text
to_lower [] = []
to_lower (c ∷ s) = (if leb 65 c && leb c 90 then c + 32 else c) ∷ to_lower s

-- `s.endsWith(t)`
abbrev pub ends_with : Text → Text → Bool
ends_with [] t = text_eq [] t
ends_with (c ∷ s) t = if text_eq (c ∷ s) t then true else ends_with s t

pub text_eq_self : (s : Text) → text_eq s s ≡ true
text_eq_self [] = refl
text_eq_self (a ∷ s) = ground (arith, text_eq_self s)

pub eq_of_text_eq : (s t : Text) → text_eq s t ≡ true → s ≡ t
eq_of_text_eq [] [] h = refl
eq_of_text_eq [] (b ∷ t) h = ground arith
eq_of_text_eq (a ∷ s) [] h = ground arith
eq_of_text_eq (a ∷ s) (b ∷ t) h = ground (arith, eq_of_text_eq s t)

pub text_eq_iff : (s t : Text) → (text_eq s t ≡ true) ↔ (s ≡ t)
text_eq_iff s t = (eq_of_text_eq s t, λ e. ground (arith, text_eq_self s))

-- A text that ends with `t` is some text followed by `t`.
pub ends_with_split : (s t : Text) → ends_with s t ≡ true → (front : Text) × (s ≡ front ++ t)
ends_with_split [] t h = ([], eq_of_text_eq [] t h)
ends_with_split (c ∷ s) t h = elim (Bool-cases (text_eq (c ∷ s) t)) [
  | inl e ↦ ([], eq_of_text_eq (c ∷ s) t e)
  | inr e ↦ let (front, q) = ends_with_split s t (rw e at h) in (c ∷ front, ap (◌∷◌ c) q)
]

pub ends_with-append : (front t : Text) → ends_with (front ++ t) t ≡ true
ends_with-append [] [] = refl
ends_with-append [] (c ∷ t) = rw (text_eq_self (c ∷ t))
ends_with-append (c ∷ front) t = ground (arith, ends_with-append front t)
