-- ===== src/Lex/Words/Munch.antt =====
-- What LexIdentifierOrKeyword of toolchain/lex/lex.cpp takes, and which kind it gives the token.
use tinyswift.Prelude.{
  ℕ, Bool, true, false, not, List, [], ◌∷◌, ◌++◌, String, if◌then◌else◌, drop, take, all, any, ◌≡◌,
  ◌↔◌, ◌⊎◌, refl, sym, ◌∙◌, ap, arith, &&_split, Bool-cases, inl, inr,
}
use tinyswift.Lex.Characters.{is_identifier_continuation}
use tinyswift.Lex.Tokens.{
  TokenKind, codes, bytes_eq, string_switch, lookup_keyword, keywords, is_error, no_payload,
  text_payload, identifier_token, error_token,
}
use tinyswift.Lex.State.{Lexer, peek, holds, advance, add_token, payload_token, take_token}
use tinyswift.Lex.State.Scan.{take-drop, scan_while-passes, scan_while-stops}
use tinyswift.Lex.Words.{word_length, lex_identifier_or_keyword}

pub bytes_eq_iff : (xs ys : List ℕ) → (bytes_eq xs ys ≡ true) ↔ (xs ≡ ys)
unfolding bytes_eq
bytes_eq_iff [] [] = (λ h. refl, λ h. refl)
bytes_eq_iff [] (y ∷ ys) = (λ h. cc, λ h. cc)
bytes_eq_iff (x ∷ xs) [] = (λ h. cc, λ h. cc)
bytes_eq_iff (x ∷ xs) (y ∷ ys) =
    let ih = bytes_eq_iff xs ys in (λ h. ground (arith, ih.0), λ h. ground (arith, ih.1))

-- The text is one of the spellings.
abbrev pub spells : List (String × TokenKind) → List ℕ → Bool
spells table text = any (λ e. bytes_eq text (codes e.0)) table

error-is_error : is_error error_token ≡ true
unfolding is_error
error-is_error = refl

negated : (b : Bool) → not b ≡ true → b ≡ false
negated b h = ground arith

string_switch-is_error :
    (table : List (String × TokenKind)) (text : List ℕ)
    → all (λ e. not (is_error e.1)) table ≡ true
    → is_error (string_switch table text) ≡ not (spells table text)
unfolding string_switch
string_switch-is_error [] text h = error-is_error
string_switch-is_error ((spelling, kind) ∷ rest) text h =
    let k = &&_split (not (is_error kind)) _ h in
    elim (Bool-cases (bytes_eq text (codes spelling))) [
      | inl e ↦ rw e (negated (is_error kind) k.0)
      | inr e ↦ rw e (string_switch-is_error rest text k.1)
    ]

keyword-kinds : all (λ e. not (is_error e.1)) keywords ≡ true
unfolding is_error
keyword-kinds = refl

lookup_keyword-is_error :
    (text : List ℕ) → is_error (lookup_keyword text) ≡ not (spells keywords text)
unfolding lookup_keyword
lookup_keyword-is_error text = string_switch-is_error keywords text keyword-kinds

-- A word was taken: the longest run of bytes that may stand in an identifier after its first byte.
-- Its token is an identifier with this text if no keyword is spelled so, and the keyword if one is.
pub record IsWord (leading_space : Bool) (s t : Lexer) : Type 0 where
  pub text : List ℕ
  pub taken : s.rest ≡ text ++ t.rest
  pub continues : all is_identifier_continuation (drop 1 text) ≡ true
  pub longest : holds is_identifier_continuation (peek 0 t.rest) ≡ false
  pub kind :
      ((spells keywords text ≡ false)
        × (t.tokens
            ≡ s.tokens
              ++ payload_token identifier_token leading_space (text_payload text) s.cursor ∷ []))
      ⊎ ((spells keywords text ≡ true)
          × (t.tokens
              ≡ s.tokens
                ++ payload_token (lookup_keyword text) leading_space no_payload s.cursor ∷ []))

word-continues :
    (xs : List ℕ) → all is_identifier_continuation (drop 1 (take (word_length xs) xs)) ≡ true
unfolding word_length
word-continues [] = refl
word-continues (x ∷ xs) = scan_while-passes is_identifier_continuation xs

word-longest :
    (xs : List ℕ) → holds is_identifier_continuation (peek 0 (drop (word_length xs) xs)) ≡ false
unfolding word_length holds
word-longest [] = refl
word-longest (x ∷ xs) = scan_while-stops is_identifier_continuation xs

token-IsWord :
    (leading_space : Bool) (s : Lexer) (word : List ℕ) (width : ℕ)
    → s.rest ≡ word ++ drop width s.rest
    → all is_identifier_continuation (drop 1 word) ≡ true
    → holds is_identifier_continuation (peek 0 (drop width s.rest)) ≡ false
    → IsWord leading_space s (
        if is_error (lookup_keyword word)
        then take_token identifier_token leading_space (text_payload word) width s
        else take_token (lookup_keyword word) leading_space no_payload width s)
unfolding take_token advance add_token
token-IsWord leading_space s word width split passes stops =
    let error = lookup_keyword-is_error word in
    elim (Bool-cases (spells keywords word)) [
      | inl f ↦
          (let known : is_error (lookup_keyword word) ≡ false = error ∙ ap not f in
            rw known (record {
              text = word;
              taken = split;
              continues = passes;
              longest = stops;
              kind = inr (f, refl);
            }))
      | inr f ↦
          (let known : is_error (lookup_keyword word) ≡ true = error ∙ ap not f in
            rw known (record {
              text = word;
              taken = split;
              continues = passes;
              longest = stops;
              kind = inl (f, refl);
            }))
    ]

-- The lexer takes the longest word at the cursor, and its token is a keyword exactly when the word
-- is spelled like one.
pub lex_identifier_or_keyword-IsWord :
    (leading_space : Bool) (s : Lexer)
    → IsWord leading_space s (lex_identifier_or_keyword leading_space s)
unfolding lex_identifier_or_keyword
lex_identifier_or_keyword-IsWord leading_space s =
    token-IsWord leading_space s (take (word_length s.rest) s.rest) (word_length s.rest)
      (sym (take-drop (word_length s.rest) s.rest)) (word-continues s.rest) (word-longest s.rest)
