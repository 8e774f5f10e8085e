-- ===== src/Lex/Brackets/Balanced.antt =====
-- Token lists whose brackets are balanced, in MatchOpenCloseTokens of toolchain/lex/lex.cpp.
use tinyswift.Prelude.{
  ℕ, suc, ◌+◌, true, false, List, [], ◌∷◌, ◌++◌, length, ◌≡◌, refl, sym, ◌∙◌, ap, arith,
}
use mathlib.Core.Path.{subst}
use tinyswift.Lex.Tokens.{
  TokenKind, Token, is_opening_symbol, is_closing_symbol, opening_symbol, close_paren_token,
  close_curly_brace_token, close_square_bracket_token,
}
use tinyswift.Lex.State.{Lexer}
use tinyswift.Lex.Brackets.{
  Matching, OpenEntry, same_opening, close_token, match_token, match_tokens, before_matching,
  recover_openings, match_open_close_tokens,
}

-- Tokens without brackets, and groups between brackets of one kind, one beside the other.
pub data Balanced : List Token → Type 0 where
  nothing : Balanced []
  beside :
      (t : Token) (rest : List Token)
      → is_opening_symbol t.kind ≡ false
      → is_closing_symbol t.kind ≡ false
      → Balanced rest
      → Balanced (t ∷ rest)
  group :
      (opener closer : Token) (inner rest : List Token)
      → is_opening_symbol opener.kind ≡ true
      → is_closing_symbol closer.kind ≡ true
      → same_opening opener.kind (opening_symbol closer.kind) ≡ true
      → Balanced inner
      → Balanced rest
      → Balanced (opener ∷ (inner ++ closer ∷ rest))

pub closing-is_opening_symbol :
    (k : TokenKind) → is_closing_symbol k ≡ true → is_opening_symbol k ≡ false
unfolding is_closing_symbol is_opening_symbol
closing-is_opening_symbol close_paren_token h = refl
closing-is_opening_symbol close_curly_brace_token h = refl
closing-is_opening_symbol close_square_bracket_token h = refl
closing-is_opening_symbol _ h = absurd (cc h)

pub match_tokens-append :
    (index : ℕ) (xs ys : List Token) (m : Matching)
    → match_tokens index (xs ++ ys) m
      ≡ match_tokens (index + length xs) ys (match_tokens index xs m)
unfolding match_tokens
match_tokens-append index [] ys m = ap (λ n. match_tokens n ys m) (omega arith)
match_tokens-append index (x ∷ xs) ys m =
    match_tokens-append (suc index) xs ys (match_token index x m)
    ∙ ap (λ n. match_tokens n ys (match_tokens (suc index) xs (match_token index x m)))
        (omega arith)

-- Nothing was reported and no token marked.
abbrev pub IsQuiet : Matching → Matching → Type 0
IsQuiet m r =
    (r.has_errors ≡ m.has_errors)
    × ((r.diagnostics ≡ m.diagnostics) × (r.recovery_tokens ≡ m.recovery_tokens))

IsQuiet-trans : (a b c : Matching) → IsQuiet a b → IsQuiet b c → IsQuiet a c
IsQuiet-trans a b c h k = (k.0 ∙ h.0, (k.1.0 ∙ h.1.0, k.1.1 ∙ h.1.1))

-- The stack is as before, too.
abbrev pub Keeps : Matching → Matching → Type 0
Keeps m r = (r.open_stack ≡ m.open_stack) × IsQuiet m r

close-Keeps :
    (index : ℕ) (closer : Token) (top : OpenEntry) (below : List OpenEntry) (m : Matching)
    → is_closing_symbol closer.kind ≡ true
    → same_opening top.kind (opening_symbol closer.kind) ≡ true
    → m.open_stack ≡ top ∷ below
    → ((match_token index closer m).open_stack ≡ below) × IsQuiet m (match_token index closer m)
unfolding match_token close_token
close-Keeps index closer top below m h same e =
    rw (closing-is_opening_symbol closer.kind h, h, e, same) (refl, (refl, (refl, refl)))

pub beside-match_token :
    (index : ℕ) (t : Token) (m : Matching)
    → is_opening_symbol t.kind ≡ false
    → is_closing_symbol t.kind ≡ false
    → match_token index t m ≡ m
unfolding match_token
beside-match_token index t m no_open no_close = rw (no_open, no_close) refl

-- What an opening symbol does.
pub opener-match_token :
    (index : ℕ) (t : Token) (m : Matching)
    → is_opening_symbol t.kind ≡ true
    → match_token index t m ≡ record m {
      open_stack = record { index = index; kind = t.kind; offset = t.byte_offset } ∷ m.open_stack;
    }
unfolding match_token
opener-match_token index t m is_open = rw is_open refl

pub match_tokens-cons :
    (index : ℕ) (t : Token) (rest : List Token) (m : Matching)
    → match_tokens index (t ∷ rest) m ≡ match_tokens (suc index) rest (match_token index t m)
unfolding match_tokens
match_tokens-cons index t rest m = refl

pub match_tokens-nil : (index : ℕ) (m : Matching) → match_tokens index [] m ≡ m
unfolding match_tokens
match_tokens-nil index m = refl

pub Balanced-Keeps :
    (ts : List Token) → Balanced ts → (index : ℕ) (m : Matching) → Keeps m (match_tokens index ts m)
Balanced-Keeps [] nothing index m = rw match_tokens-nil (refl, (refl, (refl, refl)))
Balanced-Keeps (t ∷ rest) (beside _ _ no_open no_close b) index m =
    subst (Keeps m)
      (sym (
        match_tokens-cons index t rest m
        ∙ ap (match_tokens (suc index) rest) (beside-match_token index t m no_open no_close)))
      (Balanced-Keeps rest b (suc index) m)
Balanced-Keeps _ (group opener closer inner rest is_open is_close same b c) index m =
    let entry : OpenEntry = record {
      index = index;
      kind = opener.kind;
      offset = opener.byte_offset;
    } in
    let pushed : Matching = record m { open_stack = entry ∷ m.open_stack } in
    let inside = Balanced-Keeps inner b (suc index) pushed in
    let at = suc index + length inner in
    let before = match_tokens (suc index) inner pushed in
    let after = match_token at closer before in
    let closed = close-Keeps at closer entry m.open_stack before is_close same inside.0 in
    let path =
      match_tokens-cons index opener (inner ++ closer ∷ rest) m
      ∙ ap (match_tokens (suc index) (inner ++ closer ∷ rest))
          (opener-match_token index opener m is_open)
      ∙ match_tokens-append (suc index) inner (closer ∷ rest) pushed
      ∙ match_tokens-cons at closer rest before in
    let beyond = Balanced-Keeps rest c (suc at) after in
    subst (Keeps m) (sym path) (
      beyond.0 ∙ closed.0,
      IsQuiet-trans m after (match_tokens (suc at) rest after)
          (IsQuiet-trans m before after inside.1 closed.1) beyond.1,
    )

IsQuiet-recover_openings :
    (source_size : ℕ) (stack : List OpenEntry) (m r : Matching)
    → stack ≡ []
    → IsQuiet m r
    → IsQuiet m (recover_openings source_size stack r)
unfolding recover_openings
IsQuiet-recover_openings source_size [] m r e h = h
IsQuiet-recover_openings source_size (entry ∷ below) m r e h = absurd (cc e)

-- No report and no recovery token.
pub match_open_close_tokens-IsQuiet :
    (s : Lexer) → Balanced s.tokens → IsQuiet (before_matching s) (match_open_close_tokens s)
unfolding match_open_close_tokens
match_open_close_tokens-IsQuiet s b =
    let k = Balanced-Keeps s.tokens b 0 (before_matching s) in
    IsQuiet-recover_openings (length s.source) _ (before_matching s) _ k.0 k.1
