-- ===== src/Policy/Compile/Order.antt =====
-- The order of strings is strict, total and transitive.
use Prim.Native.Char.{code}
use Prim.Native.String.{String}
use text.Mathlib.TextEquality.{Char-path}
use permission_center_go.Common.{◌≡◌, refl, ap₂, true, false, arith}
use permission_center_go.Policy.Compile.{str_lt}

pub str_lt_irrefl : (s : String) → str_lt s s ≡ false
unfolding str_lt
str_lt_irrefl String.[] = refl
str_lt_irrefl (String.◌∷◌ c s) = ground (arith, str_lt_irrefl s)

pub str_lt_trans : (s t u : String) → str_lt s t ≡ true → str_lt t u ≡ true → str_lt s u ≡ true
unfolding str_lt
str_lt_trans (String.◌∷◌ c s) (String.◌∷◌ d t) (String.◌∷◌ e u) h k =
    ground (arith, str_lt_trans s t u)
str_lt_trans String.[] (String.◌∷◌ d t) (String.◌∷◌ e u) h k = refl
str_lt_trans _ _ _ h k = cc

-- Two texts of which neither is less are equal.
pub str_lt_antisymm : (s t : String) → str_lt s t ≡ false → str_lt t s ≡ false → s ≡ t
unfolding str_lt
str_lt_antisymm String.[] String.[] h k = refl
str_lt_antisymm (String.◌∷◌ c s) (String.◌∷◌ d t) h k =
    let same : code c ≡ code d = ground arith in
    ap₂ String.◌∷◌ (Char-path c d same) (str_lt_antisymm s t (ground arith) (ground arith))
str_lt_antisymm _ _ h k = cc
