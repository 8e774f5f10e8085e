-- ===== src/Lex/Words/Yield.antt =====
-- A kind that no entry of a table of toolchain/lex/lex.cpp has is never the result of a lookup.
use tinyswift.Prelude.{
  ℕ, Bool, true, false, ◌||◌, List, [], ◌∷◌, String, any, ◌≡◌, refl, arith, Bool-cases, inl, inr,
}
use tinyswift.Lex.Tokens.{
  TokenKind, codes, bytes_eq, string_switch, lookup_keyword, keywords, error_token, yield_keyword,
}

unfoldable pub is_yield : TokenKind → Bool
is_yield yield_keyword = true
is_yield _ = false

none_of : (a b : Bool) → (a || b) ≡ false → (a ≡ false) × (b ≡ false)
none_of a b h = ground arith

string_switch-avoids :
    (avoided : TokenKind → Bool) (table : List (String × TokenKind)) (text : List ℕ)
    → avoided error_token ≡ false
    → any (λ e. avoided e.1) table ≡ false
    → avoided (string_switch table text) ≡ false
unfolding string_switch
string_switch-avoids avoided [] text no_error no_entry = no_error
string_switch-avoids avoided ((spelling, kind) ∷ rest) text no_error no_entry =
    let parts = none_of (avoided kind) _ no_entry in
    elim (Bool-cases (bytes_eq text (codes spelling))) [
      | inl e ↦ rw e parts.0
      | inr e ↦ rw e (string_switch-avoids avoided rest text no_error parts.1)
    ]

error-is_yield : is_yield error_token ≡ false
unfolding is_yield
error-is_yield = refl

keywords-is_yield : any (λ e. is_yield e.1) keywords ≡ false
unfolding is_yield
keywords-is_yield = refl

-- Whatever the text, the keyword lookup never gives the kind of `yield`.
pub lookup_keyword-is_yield : (text : List ℕ) → is_yield (lookup_keyword text) ≡ false
unfolding lookup_keyword
lookup_keyword-is_yield text =
    string_switch-avoids is_yield keywords text error-is_yield keywords-is_yield
