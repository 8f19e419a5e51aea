-- ===== src/ConfigParser/Lexing.antt =====
-- The lexer on the text of a token.
use foxy_4_web_server.Base.{
  ◌==◌, All, ℕ, zero, suc, ◌≡◌, refl, ◌∙◌, Bool, true, false, ◌||◌, [], ◌∷◌, ◌++◌, append_assoc,
  append-nil, arith,
}
use foxy_4_web_server.Base.Bytes.{Bytes, codes}
use foxy_4_web_server.Config.{tabs}
use foxy_4_web_server.ConfigParser.{
  token_step, token_loop, parse_token, normal, initial_whitespace, single_quote, double_quote,
  token_type_normal, continues,
}

-- White space in front of a token.
abbrev pub is_blank : ℕ → Bool
is_blank c = c == b' ' || c == b'\t' || c == b'\n' || c == b'\r'

-- What ends a word.
abbrev pub ends_word : ℕ → Bool
ends_word c = c == b' ' || c == b'\t' || c == b'\n' || c == b';' || c == b'{' || c == b'}'

-- What a word may not begin with, beside white space.
abbrev pub is_mark : ℕ → Bool
is_mark c = c == b'{' || c == b'}' || c == b'#' || c == b'"' || c == b'\'' || c == b';'

-- A token as the lexer gives it: a word, or a text between two quotation marks, with them.
pub data IsToken : Bytes → Type 0 where
  word :
      (c : ℕ) (s : Bytes)
      → is_blank c ≡ false
      → is_mark c ≡ false
      → All (λ d. ends_word d ≡ false) s
      → IsToken (c ∷ s)
  double_quoted :
      (s t : Bytes) → t ≡ b'"' ∷ (s ++ codes "\"") → All (λ d. (d == b'"') ≡ false) s → IsToken t
  single_quoted :
      (s t : Bytes) → t ≡ b'\'' ∷ (s ++ codes "'") → All (λ d. (d == b'\'') ≡ false) s → IsToken t

blank_step :
    (c : ℕ)
    → is_blank c ≡ true
    → token_step initial_whitespace [] c ≡ continues initial_whitespace []
unfolding token_step
blank_step c blank = ground arith

pub parse_token-blank :
    (c : ℕ) (input : Bytes) → is_blank c ≡ true → parse_token (c ∷ input) ≡ parse_token input
unfolding parse_token token_loop token_step
parse_token-blank c input blank = rw (token_loop, blank_step c blank) refl

pub parse_token-tabs :
    (depth : ℕ) (input : Bytes) → parse_token (tabs depth ++ input) ≡ parse_token input
unfolding tabs
parse_token-tabs zero input = refl
parse_token-tabs (suc depth) input =
    parse_token-blank b'\t' (tabs depth ++ input) refl ∙ parse_token-tabs depth input

token_loop-word :
    (v s : Bytes) (d : ℕ) (rest : Bytes)
    → All (λ c. ends_word c ≡ false) s
    → ends_word d ≡ true
    → token_loop token_type_normal v (s ++ d ∷ rest) ≡ (normal, v ++ s, d ∷ rest)
unfolding token_loop token_step
token_loop-word v [] d rest h e = rw (token_loop, e, append-nil v) refl
token_loop-word v (c ∷ s) d rest (plain, h) e =
    rw (token_loop, plain)
      (token_loop-word (v ++ c ∷ []) s d rest h e ∙ rw (append_assoc v (c ∷ [])) refl)

token_loop-double :
    (v s rest : Bytes)
    → All (λ c. (c == b'"') ≡ false) s
    → token_loop double_quote v (s ++ b'"' ∷ rest) ≡ (normal, v ++ (s ++ codes "\""), rest)
unfolding token_loop token_step
token_loop-double v [] rest h = refl
token_loop-double v (c ∷ s) rest (plain, h) =
    rw (token_loop, plain)
      (token_loop-double (v ++ c ∷ []) s rest h ∙ rw (append_assoc v (c ∷ [])) refl)

token_loop-single :
    (v s rest : Bytes)
    → All (λ c. (c == b'\'') ≡ false) s
    → token_loop single_quote v (s ++ b'\'' ∷ rest) ≡ (normal, v ++ (s ++ codes "'"), rest)
unfolding token_loop token_step
token_loop-single v [] rest h = refl
token_loop-single v (c ∷ s) rest (plain, h) =
    rw (token_loop, plain)
      (token_loop-single (v ++ c ∷ []) s rest h ∙ rw (append_assoc v (c ∷ [])) refl)

initial_step :
    (c : ℕ)
    → is_blank c ≡ false
    → is_mark c ≡ false
    → token_step initial_whitespace [] c ≡ continues token_type_normal (c ∷ [])
unfolding token_step
initial_step c blank mark = ground arith

pub token_loop-initial :
    (c : ℕ) (input : Bytes)
    → is_blank c ≡ false
    → is_mark c ≡ false
    → token_loop initial_whitespace [] (c ∷ input) ≡ token_loop token_type_normal (c ∷ []) input
unfolding token_loop token_step
token_loop-initial c input blank mark = rw (token_loop, initial_step c blank mark) refl

-- A token and what ends a word: the lexer gives the token and leaves the rest.
pub parse_token-IsToken :
    (t : Bytes) (d : ℕ) (rest : Bytes)
    → IsToken t
    → ends_word d ≡ true
    → parse_token (t ++ d ∷ rest) ≡ (normal, t, d ∷ rest)
unfolding parse_token token_loop token_step
parse_token-IsToken t d rest (word c s blank mark plain) e =
    token_loop-initial c (s ++ d ∷ rest) blank mark ∙ token_loop-word (c ∷ []) s d rest plain e
parse_token-IsToken t d rest (double_quoted s _ form plain) e =
    rw (form, append_assoc s) (token_loop-double (b'"' ∷ []) s (d ∷ rest) plain)
parse_token-IsToken t d rest (single_quoted s _ form plain) e =
    rw (form, append_assoc s) (token_loop-single (b'\'' ∷ []) s (d ∷ rest) plain)
