-- ===== src/Base/Text.antt =====
-- Texts: the operations of Python's `str` that the stores use, on native strings.
use Prim.Native.String.{String, [], ◌∷◌, compare}
use Prim.Native.Nat.{ℕ, Ordering}
use Prim.Native.Char.{code}
use mathlib.Core.Bool.{Bool, true, false, ◌&&◌, ◌||◌}
use optimus_os.Base.Tests.{◌==◌, leb}

abbrev pub is_equal : Ordering → Bool
is_equal Ordering.eq = true
is_equal _ = false

abbrev pub same_text : String → String → Bool
same_text s t = is_equal (compare s t)

-- `str.isspace`, of one character by its number.
abbrev pub is_space : ℕ → Bool
is_space n =
    leb 9 n && leb n 13
    || (leb 28 n && leb n 32
        || (n == 133
            || (n == 160
                || (n == 5760
                    || (leb 8192 n && leb n 8202
                        || (n == 8232
                            || (n == 8233 || (n == 8239 || (n == 8287 || n == 12288)))))))))

-- `not text.strip()`
unfoldable pub is_blank : String → Bool
is_blank [] = true
is_blank (c ∷ s) = is_space (code c) && is_blank s
