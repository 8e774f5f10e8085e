-- ===== src/Lex/Tokens.antt =====
-- toolchain/lex/token_kind.def and token_kind.h: the kinds of tokens; token_info.h: a token, whose
-- payload holds the text or the value where the source holds an index into a store of them; and the
-- spellings of LookupKeyword and LookupPoundKeyword of toolchain/lex/lex.cpp.
use Prim.Native.Char.{code}
use tinyswift.Prelude.{ℕ, Bool, true, false, ◌&&◌, List, [], ◌∷◌, String, if◌then◌else◌, ◌==◌}

pub data TokenKind : Type 0 where
  error_token ellipsis_token equal_equal_token exclaim_equal_token : TokenKind
  greater_equal_token less_equal_token minus_greater_token colon_colon_token : TokenKind
  question_question_token comma_token semi_token colon_token equal_token : TokenKind
  period_token at_token pound_token amp_token exclaim_token question_token : TokenKind
  backslash_token open_paren_token open_curly_brace_token : TokenKind
  open_square_bracket_token close_paren_token close_curly_brace_token : TokenKind
  close_square_bracket_token associatedtype_keyword class_keyword deinit_keyword : TokenKind
  enum_keyword extension_keyword func_keyword import_keyword init_keyword : TokenKind
  inout_keyword let_keyword operator_keyword precedencegroup_keyword : TokenKind
  protocol_keyword struct_keyword subscript_keyword typealias_keyword var_keyword : TokenKind
  fileprivate_keyword internal_keyword private_keyword public_keyword : TokenKind
  static_keyword defer_keyword if_keyword guard_keyword do_keyword repeat_keyword : TokenKind
  else_keyword for_keyword in_keyword while_keyword return_keyword break_keyword : TokenKind
  continue_keyword fallthrough_keyword switch_keyword case_keyword default_keyword : TokenKind
  where_keyword catch_keyword throw_keyword yield_keyword as_keyword any_keyword : TokenKind
  false_keyword is_keyword nil_keyword rethrows_keyword super_keyword self_keyword : TokenKind
  capital_self_keyword true_keyword try_keyword throws_keyword async_keyword : TokenKind
  await_keyword comptime_keyword underscore_keyword pound_key_path pound_line : TokenKind
  pound_selector pound_file pound_file_id pound_file_path pound_column : TokenKind
  pound_function pound_dsohandle pound_assert pound_source_location pound_warning : TokenKind
  pound_error pound_if pound_else pound_elseif pound_endif pound_available : TokenKind
  pound_unavailable pound_file_literal pound_image_literal pound_color_literal : TokenKind
  pound_has_symbol integer_literal_token floating_literal_token : TokenKind
  string_literal_token operator_binary_spaced_token operator_binary_unspaced_token : TokenKind
  operator_prefix_token operator_postfix_token identifier_token dollar_ident_token : TokenKind
  escaped_identifier_token string_segment_token string_interpolation_anchor_token : TokenKind
  file_start_token file_end_token : TokenKind

-- The bytes of an ASCII text.
abbrev pub codes : String → List ℕ
codes String.[] = []
codes (String.◌∷◌ c s) = code c ∷ codes s

unfoldable pub bytes_eq : List ℕ → List ℕ → Bool
bytes_eq [] [] = true
bytes_eq (a ∷ more) (b ∷ others) = a == b && bytes_eq more others
bytes_eq _ _ = false

abbrev pub keywords : List (String × TokenKind)
keywords =
    ("associatedtype", associatedtype_keyword)
    ∷ ("class", class_keyword)
    ∷ ("deinit", deinit_keyword)
    ∷ ("enum", enum_keyword)
    ∷ ("extension", extension_keyword)
    ∷ ("func", func_keyword)
    ∷ ("import", import_keyword)
    ∷ ("init", init_keyword)
    ∷ ("inout", inout_keyword)
    ∷ ("let", let_keyword)
    ∷ ("operator", operator_keyword)
    ∷ ("precedencegroup", precedencegroup_keyword)
    ∷ ("protocol", protocol_keyword)
    ∷ ("struct", struct_keyword)
    ∷ ("subscript", subscript_keyword)
    ∷ ("typealias", typealias_keyword)
    ∷ ("var", var_keyword)
    ∷ ("fileprivate", fileprivate_keyword)
    ∷ ("internal", internal_keyword)
    ∷ ("private", private_keyword)
    ∷ ("public", public_keyword)
    ∷ ("static", static_keyword)
    ∷ ("defer", defer_keyword)
    ∷ ("if", if_keyword)
    ∷ ("guard", guard_keyword)
    ∷ ("do", do_keyword)
    ∷ ("repeat", repeat_keyword)
    ∷ ("else", else_keyword)
    ∷ ("for", for_keyword)
    ∷ ("in", in_keyword)
    ∷ ("while", while_keyword)
    ∷ ("return", return_keyword)
    ∷ ("break", break_keyword)
    ∷ ("continue", continue_keyword)
    ∷ ("fallthrough", fallthrough_keyword)
    ∷ ("switch", switch_keyword)
    ∷ ("case", case_keyword)
    ∷ ("default", default_keyword)
    ∷ ("where", where_keyword)
    ∷ ("catch", catch_keyword)
    ∷ ("throw", throw_keyword)
    ∷ ("as", as_keyword)
    ∷ ("Any", any_keyword)
    ∷ ("false", false_keyword)
    ∷ ("is", is_keyword)
    ∷ ("nil", nil_keyword)
    ∷ ("rethrows", rethrows_keyword)
    ∷ ("super", super_keyword)
    ∷ ("self", self_keyword)
    ∷ ("Self", capital_self_keyword)
    ∷ ("true", true_keyword)
    ∷ ("try", try_keyword)
    ∷ ("throws", throws_keyword)
    ∷ ("async", async_keyword)
    ∷ ("await", await_keyword)
    ∷ ("comptime", comptime_keyword)
    ∷ ("_", underscore_keyword)
    ∷ []

abbrev pub pound_keywords : List (String × TokenKind)
pound_keywords =
    ("#keyPath", pound_key_path)
    ∷ ("#line", pound_line)
    ∷ ("#selector", pound_selector)
    ∷ ("#file", pound_file)
    ∷ ("#fileID", pound_file_id)
    ∷ ("#filePath", pound_file_path)
    ∷ ("#column", pound_column)
    ∷ ("#function", pound_function)
    ∷ ("#dsohandle", pound_dsohandle)
    ∷ ("#assert", pound_assert)
    ∷ ("#sourceLocation", pound_source_location)
    ∷ ("#warning", pound_warning)
    ∷ ("#error", pound_error)
    ∷ ("#if", pound_if)
    ∷ ("#else", pound_else)
    ∷ ("#elseif", pound_elseif)
    ∷ ("#endif", pound_endif)
    ∷ ("#available", pound_available)
    ∷ ("#unavailable", pound_unavailable)
    ∷ ("#fileLiteral", pound_file_literal)
    ∷ ("#imageLiteral", pound_image_literal)
    ∷ ("#colorLiteral", pound_color_literal)
    ∷ ("#_hasSymbol", pound_has_symbol)
    ∷ []

-- llvm::StringSwitch: the first case that equals the text, or the default.
unfoldable pub string_switch : List (String × TokenKind) → List ℕ → TokenKind
string_switch [] text = error_token
string_switch ((spelling, kind) ∷ rest) text =
    let other = string_switch rest text in if bytes_eq text (codes spelling) then kind else other

unfoldable pub lookup_keyword : List ℕ → TokenKind
lookup_keyword text = string_switch keywords text

unfoldable pub lookup_pound_keyword : List ℕ → TokenKind
lookup_pound_keyword text = string_switch pound_keywords text

unfoldable pub is_error : TokenKind → Bool
is_error error_token = true
is_error _ = false

unfoldable pub is_opening_symbol : TokenKind → Bool
is_opening_symbol open_paren_token = true
is_opening_symbol open_curly_brace_token = true
is_opening_symbol open_square_bracket_token = true
is_opening_symbol _ = false

unfoldable pub is_closing_symbol : TokenKind → Bool
is_closing_symbol close_paren_token = true
is_closing_symbol close_curly_brace_token = true
is_closing_symbol close_square_bracket_token = true
is_closing_symbol _ = false

-- A kind that is no opening symbol has `Error` in the source's table.
unfoldable pub closing_symbol : TokenKind → TokenKind
closing_symbol open_paren_token = close_paren_token
closing_symbol open_curly_brace_token = close_curly_brace_token
closing_symbol open_square_bracket_token = close_square_bracket_token
closing_symbol _ = error_token

unfoldable pub opening_symbol : TokenKind → TokenKind
opening_symbol close_paren_token = open_paren_token
opening_symbol close_curly_brace_token = open_curly_brace_token
opening_symbol close_square_bracket_token = open_square_bracket_token
opening_symbol _ = error_token

-- A floating literal as `Real` is built from it: the digits of the mantissa, how many digits (bits,
-- for a hexadecimal literal) follow the point, and the sign and the digits of the exponent.
pub record Real : Type 0 where
  pub mantissa : List ℕ
  pub scale : ℕ
  pub exponent_is_negative : Bool
  pub exponent : List ℕ
  pub is_decimal : Bool

-- An integer literal is the radix and the digits that it is parsed from.
pub data Payload : Type 0 where
  no_payload : Payload
  text_payload : List ℕ → Payload
  int_payload : ℕ → List ℕ → Payload
  real_payload : Real → Payload
  length_payload match_payload : ℕ → Payload

pub record Token : Type 0 where
  pub kind : TokenKind
  pub has_leading_space : Bool
  pub payload : Payload
  pub byte_offset : ℕ
