-- ===== src/Lex/Strings.antt =====
-- toolchain/lex/lex.cpp: LexStringLiteral, LexMultilineString and the helpers after them. A literal
-- holds its value as a text.
pub mod Width
pub mod Stops
use tinyswift.Prelude.{
  ℕ, zero, suc, ◌+◌, ◌-◌, Bool, true, false, ◌&&◌, List, [], ◌∷◌, ◌++◌, Option, none, some,
  if◌then◌else◌, ◌==◌, length, drop,
}
use tinyswift.Lex.Tokens.{text_payload, string_literal_token, error_token, length_payload}
use tinyswift.Lex.State.{
  Lexer, LineInfo, peek, advance, add_token, payload_token, add_error, emit, unterminated_string,
}
use tinyswift.Lex.Numbers.{is_byte}
use tinyswift.Lex.Trivia.{line_at}

-- The next bytes are `count` hashes: MatchClosingHashes and MatchClosingHashesOnly.
unfoldable pub hashes_match : ℕ → List ℕ → Bool
hashes_match zero rest = true
hashes_match (suc n) [] = false
hashes_match (suc n) (c ∷ rest) = c == b'#' && hashes_match n rest

unfoldable pub process_escape_char : ℕ → ℕ
process_escape_char c =
    if c == b'n'
    then 10
    else if c == b't'
    then 9
    else if c == b'r'
    then 13
    else if c == b'0'
    then 0
    else c

-- Inside `depth` parentheses of an interpolation.
unfoldable pub paren_depth : ℕ → ℕ → ℕ
paren_depth depth c = if c == b'(' then suc depth else if c == b')' then depth - 1 else depth

-- The text of an interpolation and the bytes that it takes, the closing parenthesis included.
unfoldable pub interpolation : ℕ → List ℕ → List ℕ × ℕ
interpolation depth [] = ([], 0)
interpolation depth (c ∷ rest) = elim (paren_depth depth c) [
  | zero ↦ ([], 1)
  | suc d ↦ (let (text, width) = interpolation (suc d) rest in (c ∷ text, suc width))
]

-- What the loop does next: it adds bytes to the value for the bytes that it passes, and may begin a
-- line; or it leaves, after the closing delimiter or at a byte that may not stand in the literal.
pub data StringStep : Type 0 where
  takes : List ℕ → ℕ → Bool → StringStep
  closes : ℕ → StringStep
  breaks : StringStep

-- After a backslash with its hashes: `interpolates` is that a parenthesis opens an interpolation.
unfoldable pub escape_step : Bool → ℕ → List ℕ → StringStep
escape_step interpolates hash_count [] = takes (b'\\' ∷ []) 1 false
escape_step interpolates hash_count (c ∷ rest) =
    if interpolates && c == b'('
    then (let (text, width) = interpolation 1 rest in takes text (suc hash_count + suc width) false)
    else takes (process_escape_char c ∷ []) (suc hash_count + 1) false

unfoldable pub backslash_step : Bool → ℕ → List ℕ → StringStep
backslash_step interpolates hash_count rest =
    if hashes_match hash_count rest
    then escape_step interpolates hash_count (drop hash_count rest)
    else takes (b'\\' ∷ []) 1 false

unfoldable pub string_step : ℕ → List ℕ → StringStep
string_step hash_count [] = breaks
string_step hash_count (c ∷ rest) =
    if c == b'"'
    then (if hashes_match hash_count rest then closes (suc hash_count) else takes (c ∷ []) 1 false)
    else if c == b'\\'
    then backslash_step true hash_count rest
    else if c == 10
    then breaks
    else if c == 13
    then breaks
    else takes (c ∷ []) 1 false

abbrev pub three_quotes : List ℕ
three_quotes = b'"' ∷ b'"' ∷ b'"' ∷ []

unfoldable pub multiline_step : ℕ → List ℕ → StringStep
multiline_step hash_count [] = breaks
multiline_step hash_count (c ∷ rest) =
    if c == b'"' && (is_byte b'"' (peek 0 rest) && is_byte b'"' (peek 1 rest))
    then (if hashes_match hash_count (drop 2 rest)
        then closes (3 + hash_count)
        else takes three_quotes 3 false)
    else if c == 10
    then takes (10 ∷ []) 1 true
    else if c == 13
    then takes (10 ∷ []) (if is_byte 10 (peek 0 rest) then 2 else 1) true
    else if c == b'\\'
    then backslash_step false hash_count rest
    else takes (c ∷ []) 1 false

pub record StringEnd : Type 0 where
  pub value : List ℕ
  pub width : ℕ
  pub is_closed : Bool
  pub lines : List LineInfo

unfoldable pub begin_line : Bool → ℕ → List LineInfo → List LineInfo
begin_line true offset lines = line_at offset ∷ lines
begin_line false offset lines = lines

-- The loop of a literal, from the byte offset `at`.
unfoldable pub string_scan : (List ℕ → StringStep) → ℕ → ℕ → List ℕ → List LineInfo → StringEnd
string_scan step zero at rest lines = record {
  value = [];
  width = 0;
  is_closed = false;
  lines = lines;
}
string_scan step (suc fuel) at rest lines = elim (step rest) [
  | breaks ↦ record { value = []; width = 0; is_closed = false; lines = lines }
  | closes w ↦ record { value = []; width = w; is_closed = true; lines = lines }
  | takes bytes w breaks_line ↦
      (let end =
          string_scan step fuel (at + w) (drop w rest) (begin_line breaks_line (at + w) lines) in
        record end { value = bytes ++ end.value; width = w + end.width })
]

-- The token of a literal whose opening delimiter, hashes left out, has `opening` bytes.
unfoldable pub end_string : StringEnd → Bool → ℕ → ℕ → ℕ → Lexer → Lexer
end_string end leading_space at hash_count opening s =
    let offset = s.cursor - hash_count in
    let t = record s { lines = end.lines } in
    advance (opening + end.width) (
      if end.is_closed
      then add_token
          (payload_token string_literal_token leading_space (text_payload end.value) offset) t
      else record (add_token
          (payload_token error_token leading_space
            (length_payload (opening + end.width + hash_count)) offset)
          (emit at unterminated_string t)) { has_errors = true })

-- The cursor is at the opening quote, after `hash_count` hashes. A literal over several lines is
-- reported at its first hash, one on a line at its quote.
unfoldable pub lex_string_literal : Bool → ℕ → Lexer → Lexer
lex_string_literal leading_space hash_count s =
    let body = drop 1 s.rest in
    let fuel = suc (length s.rest) in
    if is_byte b'"' (peek 0 body) && is_byte b'"' (peek 1 body)
    then end_string
        (string_scan (multiline_step hash_count) fuel (s.cursor + 3) (drop 2 body) s.lines)
        leading_space (s.cursor - hash_count) hash_count 3 s
    else end_string (string_scan (string_step hash_count) fuel (s.cursor + 1) body s.lines)
        leading_space s.cursor hash_count 1 s

unfoldable pub is_hash : ℕ → Bool
is_hash c = c == b'#'
