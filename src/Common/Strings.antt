-- ===== src/Common/Strings.antt =====
-- Python's `s.lower()` and `sub in s`, over code points.
use Prim.Native.Nat.{ℕ, ◌+◌}
use Prim.Native.Char.{code}
use Prim.Native.String.{String}
use mathlib.Core.Path.{◌≡◌}
use mathlib.Core.Logic.{◌↔◌}
use mathlib.Core.Bool.{Bool, true, false, ◌&&◌, ◌||◌}
use mathlib.Core.List.{List, [], ◌∷◌, map}
use native.Mathlib.Omega.{arith}
use codex_python_sdk_unoffic.Common.Tests.{leb, nat_beq, if◌then◌else◌}

abbrev pub codes : String → List ℕ
codes String.[] = []
codes (String.◌∷◌ c s) = code c ∷ codes s

-- The ASCII letters fold as in `str.lower`. Other code points are left: the only ones whose
-- lower case holds an ASCII letter are U+0130, which becomes an i with a combining dot, and
-- U+212A, which becomes a k, and none of the texts sought in a lowered string has a k, or an i
-- at its end.
abbrev lower_code : ℕ → ℕ
lower_code c = if leb b'A' c && leb c b'Z' then c + 32 else c

unfoldable pub lower : String → List ℕ
lower s = map lower_code (codes s)

-- `prefix` starts the text
unfoldable pub starts : List ℕ → List ℕ → Bool
starts [] text = true
starts (c ∷ sub) [] = false
starts (c ∷ sub) (d ∷ text) = nat_beq c d && starts sub text

unfoldable pub contains : List ℕ → List ℕ → Bool
unfolding starts
contains sub [] = starts sub []
contains sub (d ∷ text) = starts sub (d ∷ text) || contains sub text

unfoldable pub codes_beq : List ℕ → List ℕ → Bool
codes_beq [] [] = true
codes_beq (c ∷ s) (d ∷ t) = nat_beq c d && codes_beq s t
codes_beq _ _ = false

pub codes_beq_iff : (s t : List ℕ) → (codes_beq s t ≡ true) ↔ (s ≡ t)
unfolding codes_beq
codes_beq_iff [] [] = ground arith
codes_beq_iff (c ∷ s) (d ∷ t) = ground (arith, codes_beq_iff s t)
codes_beq_iff [] (d ∷ t) = ground arith
codes_beq_iff (c ∷ s) [] = ground arith
