-- ===== src/Common/Utf8.antt =====
-- The test of UTF-8 that `std::str::from_utf8` makes (RFC 3629).
use Prim.Native.Nat.{ℕ, ◌-◌}
use mathlib.Core.Bool.{Bool, false, not, ◌&&◌}
use mathlib.Core.List.{List, [], ◌∷◌}
use kipuka.Common.Tests.{ltb, leb, ◌==◌, if◌then◌else◌}

-- `std::str::from_utf8` accepts the bytes: the number of bytes of the character that are still to
-- come, the bounds of the next of them, and the bytes.
unfoldable pub is_utf8_from : ℕ → ℕ → ℕ → List ℕ → Bool
is_utf8_from pending low high [] = pending == 0
is_utf8_from pending low high (b ∷ bs) =
    let rest : ℕ → ℕ → ℕ → Bool = λ n l h. is_utf8_from n l h bs in
    if not (pending == 0)
    then leb low b && (leb b high && rest (pending - 1) 0x80 0xBF)
    else if ltb b 0x80
    then rest 0 0x80 0xBF
    else if leb 0xC2 b && leb b 0xDF
    then rest 1 0x80 0xBF
    else if b == 0xE0
    then rest 2 0xA0 0xBF
    else if b == 0xED
    then rest 2 0x80 0x9F
    else if leb 0xE1 b && leb b 0xEF
    then rest 2 0x80 0xBF
    else if b == 0xF0
    then rest 3 0x90 0xBF
    else if leb 0xF1 b && leb b 0xF3
    then rest 3 0x80 0xBF
    else if b == 0xF4
    then rest 3 0x80 0x8F
    else false

unfoldable pub is_utf8 : List ℕ → Bool
is_utf8 bytes = is_utf8_from 0 0x80 0xBF bytes
