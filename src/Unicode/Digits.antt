-- ===== src/Unicode/Digits.antt =====
-- Digits in Python's `str`, by the tables of Unicode 14: `\d` in a pattern, `isdigit` and `int`.
use jenkins_to_actions_migra.Prelude.{
  ℕ, ◌+◌, ◌-◌, ◌*◌, Bool, true, false, ◌&&◌, ◌||◌, List, [], ◌∷◌, ltb, leb, if◌then◌else◌, Option,
  none, some, Text,
}

-- The zeros of the runs of ten decimal digits.
zeros : List ℕ
zeros =
    0x30 ∷ 0x660 ∷ 0x6f0 ∷ 0x7c0 ∷ 0x966 ∷ 0x9e6 ∷ 0xa66 ∷ 0xae6 ∷ 0xb66 ∷ 0xbe6 ∷ 0xc66 ∷ 0xce6
    ∷ 0xd66 ∷ 0xde6 ∷ 0xe50 ∷ 0xed0 ∷ 0xf20 ∷ 0x1040 ∷ 0x1090 ∷ 0x17e0 ∷ 0x1810 ∷ 0x1946 ∷ 0x19d0
    ∷ 0x1a80 ∷ 0x1a90 ∷ 0x1b50 ∷ 0x1bb0 ∷ 0x1c40 ∷ 0x1c50 ∷ 0xa620 ∷ 0xa8d0 ∷ 0xa900 ∷ 0xa9d0
    ∷ 0xa9f0 ∷ 0xaa50 ∷ 0xabf0 ∷ 0xff10 ∷ 0x104a0 ∷ 0x10d30 ∷ 0x11066 ∷ 0x110f0 ∷ 0x11136 ∷ 0x111d0
    ∷ 0x112f0 ∷ 0x11450 ∷ 0x114d0 ∷ 0x11650 ∷ 0x116c0 ∷ 0x11730 ∷ 0x118e0 ∷ 0x11950 ∷ 0x11c50
    ∷ 0x11d50 ∷ 0x11da0 ∷ 0x16a60 ∷ 0x16ac0 ∷ 0x16b50 ∷ 0x1d7ce ∷ 0x1d7d8 ∷ 0x1d7e2 ∷ 0x1d7ec
    ∷ 0x1d7f6 ∷ 0x1e140 ∷ 0x1e2f0 ∷ 0x1e950 ∷ 0x1fbf0 ∷ []

-- The other characters that are digits, such as superscripts, from and to.
other_digits : List (ℕ × ℕ)
other_digits =
    (0xb2, 0xb3)
    ∷ (0xb9, 0xb9)
    ∷ (0x1369, 0x1371)
    ∷ (0x19da, 0x19da)
    ∷ (0x2070, 0x2070)
    ∷ (0x2074, 0x2079)
    ∷ (0x2080, 0x2089)
    ∷ (0x2460, 0x2468)
    ∷ (0x2474, 0x247c)
    ∷ (0x2488, 0x2490)
    ∷ (0x24ea, 0x24ea)
    ∷ (0x24f5, 0x24fd)
    ∷ (0x24ff, 0x24ff)
    ∷ (0x2776, 0x277e)
    ∷ (0x2780, 0x2788)
    ∷ (0x278a, 0x2792)
    ∷ (0x10a40, 0x10a43)
    ∷ (0x10e60, 0x10e68)
    ∷ (0x11052, 0x1105a)
    ∷ (0x1f100, 0x1f10a)
    ∷ []

-- The value of a decimal digit, looked up in the runs that begin at `starts`.
digit_in : List ℕ → ℕ → Option ℕ
digit_in [] c = none
digit_in (z ∷ starts) c =
    let rest = digit_in starts c in if leb z c && ltb c (z + 10) then some (c - z) else rest

unfoldable pub decimal : ℕ → Option ℕ
unfolding digit_in zeros
decimal c = digit_in zeros c

-- `\d` in a pattern
unfoldable pub is_decimal : ℕ → Bool
unfolding decimal
is_decimal c = elim (decimal c) [ none ↦ false | some d ↦ true ]

in_ranges : List (ℕ × ℕ) → ℕ → Bool
in_ranges [] c = false
in_ranges ((lo, hi) ∷ rs) c = leb lo c && leb c hi || in_ranges rs c

is_digit : ℕ → Bool
unfolding is_decimal in_ranges other_digits
is_digit c = is_decimal c || in_ranges other_digits c

all_digits : Text → Bool
unfolding is_digit
all_digits [] = true
all_digits (c ∷ t) = is_digit c && all_digits t

-- `t.isdigit()`
unfoldable pub isdigit : Text → Bool
unfolding all_digits
isdigit [] = false
isdigit (c ∷ t) = all_digits (c ∷ t)

int_from : ℕ → Text → Option ℕ
unfolding decimal
int_from n [] = some n
int_from n (c ∷ t) = elim (decimal c) [ none ↦ none | some d ↦ int_from (n * 10 + d) t ]

-- `int(t)` for a text of digits; `none` is a ValueError, for a digit that is not decimal.
unfoldable pub int : Text → Option ℕ
unfolding int_from
int t = int_from 0 t
