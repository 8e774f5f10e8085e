-- ===== src/Lex/Characters.antt =====
-- toolchain/lex/character_set.h: tests on bytes.
use tinyswift.Prelude.{ℕ, Bool, ◌&&◌, ◌||◌, leb, ◌==◌}

unfoldable pub in_range : ℕ → ℕ → ℕ → Bool
in_range low high c = leb low c && leb c high

unfoldable pub is_alpha : ℕ → Bool
is_alpha c = in_range b'A' b'Z' c || in_range b'a' b'z' c

unfoldable pub is_decimal_digit : ℕ → Bool
is_decimal_digit c = in_range b'0' b'9' c

unfoldable pub is_alnum : ℕ → Bool
is_alnum c = is_alpha c || is_decimal_digit c

unfoldable pub is_hex_digit : ℕ → Bool
is_hex_digit c = is_decimal_digit c || in_range b'A' b'F' c || in_range b'a' b'f' c

unfoldable pub is_identifier_start : ℕ → Bool
is_identifier_start c = is_alpha c || c == b'_'

unfoldable pub is_identifier_continuation : ℕ → Bool
is_identifier_continuation c = is_alnum c || c == b'_'

unfoldable pub is_operator_start_char : ℕ → Bool
is_operator_start_char c =
    c == b'/'
    || c == b'='
    || c == b'-'
    || c == b'+'
    || c == b'*'
    || c == b'%'
    || c == b'<'
    || c == b'>'
    || c == b'!'
    || c == b'&'
    || c == b'|'
    || c == b'^'
    || c == b'~'
    || c == b'.'

unfoldable pub is_operator_continuation_char : ℕ → Bool
is_operator_continuation_char c = is_operator_start_char c

unfoldable pub is_horizontal_whitespace : ℕ → Bool
is_horizontal_whitespace c = c == b' ' || c == 9

unfoldable pub is_vertical_whitespace : ℕ → Bool
is_vertical_whitespace c = c == 10 || c == 13
