-- ===== src/Base/Text.antt =====
-- Equality of strings, `===`.
use mathlib.Core.Bool.{Bool}
use Prim.Native.String.{String}
use text.Mathlib.Text.{◌==◌}

abbrev pub str_eq : String → String → Bool
str_eq a b = a == b
