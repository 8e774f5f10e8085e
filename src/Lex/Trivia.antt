-- ===== src/Lex/Trivia.antt =====
-- toolchain/lex/lex.cpp: SkipWhitespaceAndComments; toolchain/lex/tokenized_buffer.cpp: AddComment.
pub mod Done
use tinyswift.Prelude.{
  ℕ, zero, suc, ◌+◌, ◌-◌, Bool, true, false, not, ◌&&◌, ◌||◌, List, [], ◌∷◌, Option, none, some,
  if◌then◌else◌, ◌==◌, length,
}
use tinyswift.Lex.Characters.{is_horizontal_whitespace, is_vertical_whitespace}
use tinyswift.Lex.State.{
  Lexer, LineInfo, Comment, peek, holds, scan_while, advance, emit, unterminated_block_comment,
}
use tinyswift.Lex.Numbers.{is_byte}

-- A comment that follows the last one directly, its indentation apart, is joined to it.
unfoldable pub add_comment : ℕ → ℕ → ℕ → List Comment → List Comment
add_comment indent start end [] = record { start = start; length = end - start } ∷ []
add_comment indent start end (last ∷ older) =
    if last.start + last.length + indent == start
    then record { start = last.start; length = end - last.start } ∷ older
    else record { start = start; length = end - start } ∷ last ∷ older

unfoldable pub line_start : List LineInfo → ℕ
line_start [] = 0
line_start (line ∷ _) = line.start

unfoldable pub space : Lexer → Lexer
space s = record s { has_leading_space = true }

-- A line break of a width, and the indentation of the line after it.
unfoldable pub new_line : ℕ → Lexer → Lexer
new_line width s =
    let t = advance width s in
    let indent = scan_while is_horizontal_whitespace t.rest in
    advance indent (record t {
      lines = record { start = t.cursor; indent = indent } ∷ t.lines;
      has_leading_space = true;
      at_start_of_line = true;
    })

unfoldable pub in_line_comment : ℕ → Bool
in_line_comment c = not (is_vertical_whitespace c)

unfoldable pub line_comment : Lexer → Lexer
line_comment s =
    let t = advance (scan_while in_line_comment s.rest) s in
    record (space t) {
      comments = add_comment (s.cursor - line_start s.lines) s.cursor t.cursor s.comments;
    }

-- What the bytes at the cursor do inside a block comment.
pub data BlockStep : Type 0 where
  opens closes breaks_line breaks_line_pair passes : BlockStep

unfoldable pub block_step : ℕ → Option ℕ → BlockStep
block_step c next =
    if c == b'/' && is_byte b'*' next
    then opens
    else if c == b'*' && is_byte b'/' next
    then closes
    else if c == 10
    then breaks_line
    else if c == 13
    then (if is_byte 10 next then breaks_line_pair else breaks_line)
    else passes

pub record BlockEnd : Type 0 where
  pub width : ℕ
  pub depth : ℕ
  pub lines : List LineInfo

abbrev pub line_at : ℕ → LineInfo
line_at offset = record { start = offset; indent = 0 }

-- From a position inside `depth` comments: the bytes up to the end, and the lines that start there.
unfoldable pub block_scan : ℕ → ℕ → ℕ → List ℕ → List LineInfo → BlockEnd
block_scan zero at width rest lines = record { width = width; depth = zero; lines = lines }
block_scan (suc d) at width [] lines = record { width = width; depth = suc d; lines = lines }
block_scan (suc d) at width (c ∷ []) lines = elim (block_step c none) [
  | breaks_line ↦ record {
    width = suc width;
    depth = suc d;
    lines = line_at (at + suc width) ∷ lines;
  }
  | _ ↦ record { width = suc width; depth = suc d; lines = lines }
]
block_scan (suc d) at width (c ∷ next ∷ rest) lines = elim (block_step c (some next)) [
  | opens ↦ block_scan (suc (suc d)) at (2 + width) rest lines
  | closes ↦ block_scan d at (2 + width) rest lines
  | breaks_line ↦ block_scan (suc d) at (suc width) (next ∷ rest) (line_at (at + suc width) ∷ lines)
  | breaks_line_pair ↦ block_scan (suc d) at (2 + width) rest (line_at (at + (2 + width)) ∷ lines)
  | passes ↦ block_scan (suc d) at (suc width) (next ∷ rest) lines
]

-- A comment in which the source ends is reported at its start.
unfoldable pub report_open : ℕ → ℕ → Lexer → Lexer
report_open zero start s = s
report_open (suc _) start s = record (emit start unterminated_block_comment s) { has_errors = true }

unfoldable pub block_comment : Lexer → Lexer
block_comment s =
    let inner = advance 2 s in
    let end = block_scan 1 inner.cursor 0 inner.rest s.lines in
    let t = report_open end.depth s.cursor (advance end.width (space inner)) in
    record t {
      lines = end.lines;
      comments = add_comment (s.cursor - line_start s.lines) s.cursor t.cursor s.comments;
    }

-- One turn of the loop, or nothing when the loop is left.
unfoldable pub skip_step : Lexer → Option Lexer
skip_step s =
    let c = peek 0 s.rest in
    let next = peek 1 s.rest in
    if holds is_horizontal_whitespace c
    then some (advance 1 (space s))
    else if is_byte 10 c
    then some (new_line 1 s)
    else if is_byte 13 c
    then some (new_line (if is_byte 10 next then 2 else 1) s)
    else if is_byte b'/' c && is_byte b'/' next
    then some (line_comment s)
    else if is_byte b'/' c && is_byte b'*' next
    then some (block_comment s)
    else none

unfoldable pub skip_turns : ℕ → Lexer → Lexer
skip_turns zero s = s
skip_turns (suc fuel) s = elim (skip_step s) [ none ↦ s | some t ↦ skip_turns fuel t ]

-- Every turn passes a byte, so there are no more turns than bytes left.
unfoldable pub skip_whitespace_and_comments : Lexer → Lexer
skip_whitespace_and_comments s = skip_turns (length s.rest) s
