-- ===== src/Lex/Brackets/Links.antt =====
-- The partners of balanced brackets, in MatchOpenCloseTokens of toolchain/lex/lex.cpp.
use mathlib.Core.List.{append_assoc, append-nil}
use tinyswift.Prelude.{
  ℕ, suc, ◌+◌, true, List, [], ◌∷◌, ◌++◌, length, length-append, get_elem?, set, some, ◌≡◌, refl,
  sym, ◌∙◌, ap, arith,
}
use tinyswift.Lex.Tokens.{Token, match_payload, is_closing_symbol, opening_symbol}
use tinyswift.Lex.State.{Lexer}
use tinyswift.Lex.Brackets.{
  Matching, OpenEntry, same_opening, set_match, close_token, match_token, match_tokens,
  before_matching, recover_openings, match_open_close_tokens,
}
use tinyswift.Lex.Brackets.Balanced.{
  Balanced, nothing, beside, group, IsQuiet, Balanced-Keeps, beside-match_token, opener-match_token,
  match_tokens-cons, match_tokens-nil, match_tokens-append, match_open_close_tokens-IsQuiet,
  closing-is_opening_symbol,
}

abbrev link : Token → ℕ → Token
link t partner = record t { payload = match_payload partner }

-- Balanced tokens that start at an index, each opening symbol with the index of its closing symbol,
-- and each closing symbol with that of its opening symbol; no other token is changed.
abbrev pub linked : (ts : List Token) → Balanced ts → ℕ → List Token
linked [] nothing index = []
linked (t ∷ rest) (beside _ _ _ _ b) index = t ∷ linked rest b (suc index)
linked _ (group opener closer inner rest _ _ _ b c) index =
    let closing = suc index + length inner in
    link opener closing
    ∷ (linked inner b (suc index) ++ link closer index ∷ linked rest c (suc closing))

length-linked :
    (ts : List Token) (b : Balanced ts) (index : ℕ) → length (linked ts b index) ≡ length ts
length-linked [] nothing index = refl
length-linked (t ∷ rest) (beside _ _ _ _ b) index = ap suc (length-linked rest b (suc index))
length-linked _ (group opener closer inner rest _ _ _ b c) index =
    let closing = suc index + length inner in
    omega (
      arith,
      length-append (linked inner b (suc index)) (link closer index ∷ linked rest c (suc closing)),
      length-append inner (closer ∷ rest),
      length-linked inner b (suc index),
      length-linked rest c (suc closing),
    )

get-middle : (pre post : List Token) (t : Token) → get_elem? (pre ++ t ∷ post) (length pre) ≡ some t
get-middle [] post t = refl
get-middle (x ∷ pre) post t = get-middle pre post t

set-middle :
    (pre post : List Token) (t u : Token) → set (pre ++ t ∷ post) (length pre) u ≡ pre ++ u ∷ post
set-middle [] post t u = refl
set-middle (x ∷ pre) post t u = ap (λ l. x ∷ l) (set-middle pre post t u)

set_match-middle :
    (index partner : ℕ) (pre post : List Token) (t : Token)
    → length pre ≡ index
    → set_match index partner (pre ++ t ∷ post) ≡ pre ++ link t partner ∷ post
unfolding set_match
set_match-middle index partner pre post t e =
    rw (← e) (rw (get-middle pre post t, set_match) (set-middle pre post t (link t partner)))

-- A closing symbol links the two tokens.
close-tokens :
    (index : ℕ) (closer : Token) (top : OpenEntry) (below : List OpenEntry) (m : Matching)
    → is_closing_symbol closer.kind ≡ true
    → same_opening top.kind (opening_symbol closer.kind) ≡ true
    → m.open_stack ≡ top ∷ below
    → (match_token index closer m).tokens
      ≡ set_match index top.index (set_match top.index index m.tokens)
unfolding match_token close_token
close-tokens index closer top below m h same e =
    rw (closing-is_opening_symbol closer.kind h, h, e, same) refl

-- One element moved from after an append to before it.
one_more : (pre ys : List Token) (x : Token) → (pre ++ x ∷ []) ++ ys ≡ pre ++ x ∷ ys
one_more pre ys x = append_assoc pre (x ∷ []) ys

length_one_more :
    (pre : List Token) (x : Token) (n : ℕ) → length pre ≡ n → length (pre ++ x ∷ []) ≡ suc n
length_one_more pre x n e = omega (arith, length-append pre (x ∷ []), e)

Balanced-linked :
    (ts : List Token) (b : Balanced ts) (index : ℕ) (pre post : List Token) (m : Matching)
    → length pre ≡ index
    → m.tokens ≡ pre ++ (ts ++ post)
    → (match_tokens index ts m).tokens ≡ pre ++ (linked ts b index ++ post)
Balanced-linked [] nothing index pre post m l e = ap (λ r. r.tokens) (match_tokens-nil index m) ∙ e
Balanced-linked (t ∷ rest) (beside _ _ no_open no_close b) index pre post m l e =
    ap (λ r. r.tokens)
      (match_tokens-cons index t rest m
        ∙ ap (match_tokens (suc index) rest) (beside-match_token index t m no_open no_close))
    ∙ Balanced-linked rest b (suc index) (pre ++ t ∷ []) post m (length_one_more pre t index l)
        (e ∙ sym (one_more pre (rest ++ post) t))
    ∙ one_more pre (linked rest b (suc index) ++ post) t
Balanced-linked _ (group opener closer inner rest is_open is_close same b c) index pre post m l e =
    let entry : OpenEntry = record {
      index = index;
      kind = opener.kind;
      offset = opener.byte_offset;
    } in
    let pushed : Matching = record m { open_stack = entry ∷ m.open_stack } in
    let at = suc index + length inner in
    let before = match_tokens (suc index) inner pushed in
    let after = match_token at closer before in
    let o' = link opener at in
    let c' = link closer index in
    let l₁ = linked inner b (suc index) in
    let l₂ = linked rest c (suc at) in
    let r = rest ++ post in
    let stack = (Balanced-Keeps inner b (suc index) pushed).0 in
    let path =
      match_tokens-cons index opener (inner ++ closer ∷ rest) m
      ∙ ap (match_tokens (suc index) (inner ++ closer ∷ rest))
          (opener-match_token index opener m is_open)
      ∙ match_tokens-append (suc index) inner (closer ∷ rest) pushed
      ∙ match_tokens-cons at closer rest before in
    let inside : before.tokens ≡ pre ++ opener ∷ (l₁ ++ closer ∷ r) =
      Balanced-linked inner b (suc index) (pre ++ opener ∷ []) (closer ∷ r) pushed
        (length_one_more pre opener index l)
        (e
          ∙ ap (λ x. pre ++ opener ∷ x) (append_assoc inner (closer ∷ rest) post)
          ∙ sym (one_more pre (inner ++ closer ∷ r) opener))
      ∙ one_more pre (l₁ ++ closer ∷ r) opener in
    let until = pre ++ o' ∷ l₁ in
    let long : length until ≡ at =
      omega (arith, length-append pre (o' ∷ l₁), length-linked inner b (suc index), l) in
    let closed : after.tokens ≡ until ++ c' ∷ r =
      close-tokens at closer entry m.open_stack before is_close same stack
      ∙ ap (λ x. set_match at index (set_match index at x)) inside
      ∙ ap (set_match at index) (
          set_match-middle index at pre (l₁ ++ closer ∷ r) opener l
          ∙ sym (append_assoc pre (o' ∷ l₁) (closer ∷ r)))
      ∙ set_match-middle at index until r closer long in
    ap (λ x. x.tokens) path
    ∙ Balanced-linked rest c (suc at) (until ++ c' ∷ []) post after
        (length_one_more until c' at long) (closed ∙ sym (one_more until r c'))
    ∙ one_more until (l₂ ++ post) c'
    ∙ append_assoc pre (o' ∷ l₁) (c' ∷ (l₂ ++ post))
    ∙ ap (λ x. pre ++ o' ∷ x) (sym (append_assoc l₁ (c' ∷ l₂) post))

recover_none :
    (source_size : ℕ) (stack : List OpenEntry) (m : Matching)
    → stack ≡ []
    → recover_openings source_size stack m ≡ m
unfolding recover_openings
recover_none source_size [] m e = refl
recover_none source_size (entry ∷ below) m e = absurd (cc e)

-- When the brackets of the tokens are balanced, the matching links each opening symbol and its
-- closing symbol by their indices, changes no other token, reports nothing and marks no token for
-- recovery.
pub match_open_close_tokens-Balanced :
    (s : Lexer) (b : Balanced s.tokens)
    → ((match_open_close_tokens s).tokens ≡ linked s.tokens b 0)
      × IsQuiet (before_matching s) (match_open_close_tokens s)
unfolding match_open_close_tokens
match_open_close_tokens-Balanced s b =
    let m = match_tokens 0 s.tokens (before_matching s) in
    let k = Balanced-Keeps s.tokens b 0 (before_matching s) in
    (
      ap (λ r. r.tokens) (recover_none (length s.source) m.open_stack m k.0)
          ∙ Balanced-linked s.tokens b 0 [] [] (before_matching s) refl (sym (append-nil s.tokens))
          ∙ append-nil (linked s.tokens b 0),
      match_open_close_tokens-IsQuiet s b,
    )
