-- ===== src/Base/Text.antt =====
-- Texts that the program only compares: `strcmp` of native strings.
use Prim.Native.String.{String, ◌++◌}
use mathlib.Core.Path.{◌≡◌}
use mathlib.Core.Logic.{◌↔◌}
use mathlib.Core.Bool.{Bool, true}
use text.Mathlib.Text.{◌==◌}
use text.Mathlib.TextEquality.{eq_iff}

abbrev pub str_eq : String → String → Bool
str_eq s t = s == t

-- snprintf(buffer, BUFFER_LEN, "%s.%s", project, collector).
pub dotted : String → String → String
dotted project collector = project ++ ("." ++ collector)

pub str_eq_iff : (s t : String) → (str_eq s t ≡ true) ↔ (s ≡ t)
str_eq_iff s t = eq_iff s t
