-- ===== src/Prelude/Strings/Lacks.antt =====
-- Texts without a character.
use Prim.Native.Char.{Char, code}
use Prim.Native.String
use Prim.Native.String.{String}
use text.Mathlib.TextLemmas.{cons-append, nil-append}
use mathlib.Core.Path.{◌≡◌, sym, subst}
use mathlib.Core.Bool.{true, false}
use native.Mathlib.Omega.{arith}
use poolbeg.Prelude.Tests.{◌==◌}

-- The character does not stand in the text.
abbrev pub Lacks : Char → String → Type 0
Lacks c String.[] = Unit {0}
Lacks c (String.◌∷◌ x s) = ((code x == code c) ≡ false) × Lacks c s

pub code_self : (c : Char) → (code c == code c) ≡ true
code_self c = ground arith

pub Lacks-append : (c : Char) (s t : String) → Lacks c s → Lacks c t → Lacks c (String.◌++◌ s t)
Lacks-append c String.[] t h k = subst (Lacks c) (sym (nil-append t)) k
Lacks-append c (String.◌∷◌ x s) t (ne, h) k =
    subst (Lacks c) (sym (cons-append x s t)) (ne, Lacks-append c s t h k)
