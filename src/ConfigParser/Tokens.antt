-- ===== src/ConfigParser/Tokens.antt =====
-- What the lexer gives is a token.

use foxy_4_web_server.ConfigParser.{
  TokenType, normal, initial_whitespace, single_quote, double_quote, token_type_comment,
  token_type_normal, emits, ungets, continues, at_end,
}
use foxy_4_web_server.Base.{
  ◌==◌, if◌then◌else◌, All, All-append, ℕ, ◌≡◌, refl, ap, Bool, true, false, ◌||◌, [], ◌∷◌, ◌++◌,
  arith,
}
use foxy_4_web_server.Base.Bytes.{Bytes}
use foxy_4_web_server.ConfigParser.{
  TokenType, TokenParserState, Action, token_step, at_end, token_loop, parse_token, normal,
  initial_whitespace, single_quote, double_quote, token_type_comment, token_type_normal, emits,
  ungets, continues,
}
use foxy_4_web_server.ConfigParser.Lexing.{
  is_blank, ends_word, is_mark, IsToken, word, double_quoted, single_quoted,
}

-- A word without what ends it.
abbrev IsWord : Bytes → Type 0
IsWord v =
    (c : ℕ) × (s : Bytes) × (v ≡ c ∷ s)
    × (is_blank c ≡ false)
    × (is_mark c ≡ false)
    × All (λ d. ends_word d ≡ false) s

IsWord-IsToken : (v : Bytes) → IsWord v → IsToken v
IsWord-IsToken v (c, s, form, blank, mark, inner) = rw form (word c s blank mark inner)

-- The value of a token that is not complete.
abbrev IsPart : TokenParserState → Bytes → Type 0
IsPart initial_whitespace v = v ≡ []
IsPart single_quote v = (s : Bytes) × (v ≡ b'\'' ∷ s) × All (λ d. (d == b'\'') ≡ false) s
IsPart double_quote v = (s : Bytes) × (v ≡ b'"' ∷ s) × All (λ d. (d == b'"') ≡ false) s
IsPart token_type_comment v = Unit
IsPart token_type_normal v = IsWord v

-- The value of a token of a type.
abbrev pub IsValue : TokenType → Bytes → Type 0
IsValue normal v = IsToken v
IsValue _ v = Unit

abbrev IsAction : Action → Type 0
IsAction (emits type v) = IsValue type v
IsAction (ungets type v) = IsValue type v
IsAction (continues state v) = IsPart state v

if-IsAction :
    (b : Bool) (x y : Action)
    → (b ≡ true → IsAction x)
    → (b ≡ false → IsAction y)
    → IsAction (if b then x else y)
if-IsAction true x y then_x else_y = then_x refl
if-IsAction false x y then_x else_y = else_y refl

initial-IsAction : (c : ℕ) → IsAction (token_step initial_whitespace [] c)
unfolding token_step
initial-IsAction c =
    if-IsAction (c == b'{') _ _ (λ _. tt)
      λ h1.
        if-IsAction (c == b'}') _ _ (λ _. tt)
          λ h2.
            if-IsAction (c == b'#') _ _ (λ _. tt)
              λ h3.
                if-IsAction (c == b'"') _ _ (λ h. ([], ap (λ x. x ∷ []) (ground arith), tt))
                  λ h4.
                    if-IsAction (c == b'\'') _ _ (λ h. ([], ap (λ x. x ∷ []) (ground arith), tt))
                      λ h5.
                        if-IsAction (c == b';') _ _ (λ _. tt)
                          λ h6.
                            if-IsAction (is_blank c) _ _ (λ _. refl)
                              λ h7. (c, [], refl, h7, ground arith, tt)

token_step-IsAction :
    (st : TokenParserState) (v : Bytes) (c : ℕ) → IsPart st v → IsAction (token_step st v c)
unfolding token_step
token_step-IsAction initial_whitespace v c h = rw h (initial-IsAction c)
token_step-IsAction single_quote v c (s, form, inner) =
    if-IsAction (c == b'\'') _ _
      (λ h. let same : c ≡ b'\'' = ground arith in single_quoted s _ (rw (form, same) refl) inner)
      (λ h. (s ++ c ∷ [], rw form refl, All-append _ s (c ∷ []) inner (h, tt)))
token_step-IsAction double_quote v c (s, form, inner) =
    if-IsAction (c == b'"') _ _
      (λ h. let same : c ≡ b'"' = ground arith in double_quoted s _ (rw (form, same) refl) inner)
      (λ h. (s ++ c ∷ [], rw form refl, All-append _ s (c ∷ []) inner (h, tt)))
token_step-IsAction token_type_comment v c h =
    if-IsAction (c == b'\n' || c == b'\r') _ _ (λ _. tt) (λ _. tt)
token_step-IsAction token_type_normal v c (d, s, form, blank, mark, inner) =
    if-IsAction (ends_word c) _ _ (λ _. IsWord-IsToken v (d, s, form, blank, mark, inner))
      (λ e. (d, s ++ c ∷ [], rw form refl, blank, mark, All-append _ s (c ∷ []) inner (e, tt)))

-- The value of the next token.
abbrev pub IsRead : TokenType × Bytes × Bytes → Type 0
IsRead (type, v, rest) = IsValue type v

at_end-IsValue : (st : TokenParserState) (v : Bytes) → IsValue (at_end st) v
unfolding at_end
at_end-IsValue initial_whitespace v = tt
at_end-IsValue single_quote v = tt
at_end-IsValue double_quote v = tt
at_end-IsValue token_type_comment v = tt
at_end-IsValue token_type_normal v = tt

token_loop-IsRead :
    (st : TokenParserState) (v input : Bytes) → IsPart st v → IsRead (token_loop st v input)
unfolding token_loop
token_loop-IsRead st v [] h = at_end-IsValue st v
token_loop-IsRead st v (c ∷ cs) h =
    go (token_step st v c) refl (token_step-IsAction st v c h)
      (λ st' v'. token_loop-IsRead st' v' cs)
  where
    go :
        (a : Action)
        → token_step st v c ≡ a
        → IsAction a
        → ((st' : TokenParserState) (v' : Bytes) → IsPart st' v' → IsRead (token_loop st' v' cs))
        → IsRead (token_loop st v (c ∷ cs))
    go (emits type w) e k later = rw (token_loop, e) k
    go (ungets type w) e k later = rw (token_loop, e) k
    go (continues st' w) e k later = rw (token_loop, e) (later st' w k)

pub parse_token-IsRead : (input : Bytes) → IsRead (parse_token input)
unfolding parse_token
parse_token-IsRead input = token_loop-IsRead initial_whitespace [] input refl
