-- ===== src/Prelude/Text.antt =====
-- String literals as byte strings. The texts of the program are ASCII, but for the em dash
-- of a signature line, which is written out as its three bytes.
use Prim.Native.Nat.{ℕ}
use Prim.Native.Char.{code}
use Prim.Native.String.{String, [], ◌∷◌}
use mathlib.Core.List.{List}

abbrev pub codes : String → List ℕ
codes [] = List.[]
codes (c ∷ s) = List.◌∷◌ (code c) (codes s)
