-- ===== src/Base/Text.antt =====
-- The bytes of a C string literal.
use Prim.Native.Nat.{ℕ}
use Prim.Native.Char.{code}
use Prim.Native.String.{String}
use mathlib.Core.List.{List, [], ◌∷◌}

abbrev pub literal : String → List ℕ
literal String.[] = []
literal (String.◌∷◌ c rest) = code c ∷ literal rest
