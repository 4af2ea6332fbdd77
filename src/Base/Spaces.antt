-- ===== src/Base/Spaces.antt =====
-- White space as JavaScript's `trim` and the class `\s` know it.
use Prim.Native.Nat.{ℕ}
use mathlib.Core.Bool.{Bool, true, false, not, ◌&&◌, ◌||◌}
use mathlib.Core.List.{[], ◌∷◌}
use vethealth_backend.Base.Tests.{◌==◌, leb, if◌then◌else◌}
use vethealth_backend.Base.Strings.{Text, truthy}

unfoldable pub is_space : ℕ → Bool
is_space c =
    (leb 9 c && leb c 13)
    || (c == 32
        || (c == 160
            || (c == 5760
                || ((leb 8192 c && leb c 8202)
                    || (c == 8232
                        || (c == 8233
                            || (c == 8239 || (c == 8287 || (c == 12288 || c == 65279)))))))))

-- `s.trimStart()`
abbrev pub trim_start : Text → Text
trim_start [] = []
trim_start (c ∷ s) = if is_space c then trim_start s else c ∷ s

-- `s.trimEnd()`
abbrev pub trim_end : Text → Text
trim_end [] = []
trim_end (c ∷ s) = let rest = trim_end s in if is_space c && not (truthy rest) then [] else c ∷ rest

-- `s.trim()`
abbrev pub trim : Text → Text
trim s = trim_end (trim_start s)

-- `s.replace(/\s+/g, ' ')` with what stood before: inside a run of spaces or not
abbrev pub collapse : (in_run : Bool) → Text → Text
collapse b [] = []
collapse b (c ∷ s) =
    if is_space c
    then (if b then collapse true s else 32 ∷ collapse true s)
    else c ∷ collapse false s
