-- ===== src/ConfigParser/Reparse.antt =====
-- What `Parse` gives, `ToString` and `Parse` give again.
use mathlib.Core.Path.{subst}
use foxy_4_web_server.Config.{Config, end}
use foxy_4_web_server.ConfigParser.{
  TokenType, start, normal, start_block, end_block, comment, statement_end, eof, error, stops, goes,
}
use foxy_4_web_server.Base.{◌>>=◌, ok, throws, undefined, Outcome}
use foxy_4_web_server.Base.{
  if◌then◌else◌, Outcome, ◌>>=◌, ok, throws, undefined, ℕ, zero, suc, ◌≡◌, refl, sym, Bool, true,
  false, Option, none, some, List, [], ◌∷◌, arith,
}
use foxy_4_web_server.Base.Bytes.{Bytes}
use foxy_4_web_server.Config.{Config, to_text}
use foxy_4_web_server.ConfigParser.{
  TokenType, parse_token, Blocks, add_statement, add_token, change_top, pop, open_block,
  is_empty_stack, Turn, on_normal, is_normal, ends_block, ends_file, turn, close_all, finish,
  parse_loop, parse, start, normal, start_block, end_block, comment, statement_end, eof, error,
  stops, goes,
}
use foxy_4_web_server.ConfigParser.Lexing.{IsToken}
use foxy_4_web_server.ConfigParser.Statements.{append_config}
use foxy_4_web_server.ConfigParser.Reads.{IsReadable}
use foxy_4_web_server.ConfigParser.RoundTrip.{parse-to_text}
use foxy_4_web_server.ConfigParser.Tokens.{IsValue, parse_token-IsRead}
use foxy_4_web_server.ConfigParser.Rounds.{read_by, after, parse_loop-suc}
use foxy_4_web_server.ConfigParser.Parsed.{
  Gives, bind-Gives, add_token-IsReadable, begin-IsReadable, AreReadable, change_top-AreReadable,
  open_block-AreReadable, pop-AreReadable,
}

-- What a round leaves: after a success the stack is empty.
abbrev IsTurn : Turn → Type 0
IsTurn (stops true s) = (s.stack ≡ []) × IsReadable s.root
IsTurn (stops false s) = Unit
IsTurn (goes last s) = AreReadable s

-- A test chooses between two outcomes.
if-Gives :
    {A : Type 0} (P : A → Type 0) (b : Bool) (x y : Outcome A)
    → (b ≡ true → Gives P x)
    → (b ≡ false → Gives P y)
    → Gives P (if b then x else y)
if-Gives P true x y then_x else_y = then_x refl
if-Gives P false x y then_x else_y = else_y refl

begins :
    (t : Bytes) (s : Blocks)
    → IsToken t
    → AreReadable s
    → Gives IsTurn (do s' ← change_top (λ c. add_token t (add_statement c)) s; ok (goes normal s'))
begins t s token h =
    bind-Gives AreReadable IsTurn (change_top (λ c. add_token t (add_statement c)) s) _
      (change_top-AreReadable _ s (λ c. begin-IsReadable t c token) h) (λ s' k. k)

on_normal-IsTurn :
    (last : TokenType) (t : Bytes) (s : Blocks)
    → IsToken t
    → AreReadable s
    → Gives IsTurn (on_normal last t s)
unfolding on_normal
on_normal-IsTurn normal t s token h =
    bind-Gives AreReadable IsTurn (change_top (add_token t) s) _
      (change_top-AreReadable (add_token t) s (λ c. add_token-IsReadable t c token) h) (λ s' k. k)
on_normal-IsTurn start t s token h = begins t s token h
on_normal-IsTurn statement_end t s token h = begins t s token h
on_normal-IsTurn start_block t s token h = begins t s token h
on_normal-IsTurn end_block t s token h = begins t s token h
on_normal-IsTurn comment t s token h = tt
on_normal-IsTurn eof t s token h = tt
on_normal-IsTurn error t s token h = tt

-- At the end of the file.
closes :
    (s : Blocks)
    → AreReadable s
    → Gives IsTurn (if is_empty_stack s.stack then ok (stops true s) else ok (goes eof s))
closes s h = if-Gives IsTurn (is_empty_stack s.stack) _ _ (λ e. (go s.stack e, h.1)) (λ _. h)
  where
    go : (stack : List Config) → is_empty_stack stack ≡ true → stack ≡ []
    go [] e = refl
    go (c ∷ cs) e = absurd (ground arith)

turn-IsTurn :
    (type last : TokenType) (t : Bytes) (s : Blocks)
    → IsValue type t
    → AreReadable s
    → Gives IsTurn (turn type last t s)
unfolding turn
turn-IsTurn error last t s v h = tt
turn-IsTurn comment last t s v h = h
turn-IsTurn start last t s v h = tt
turn-IsTurn normal last t s v h = on_normal-IsTurn last t s v h
turn-IsTurn statement_end last t s v h = if-Gives IsTurn (is_normal last) _ _ (λ _. h) (λ _. tt)
turn-IsTurn start_block last t s v h =
    if-Gives IsTurn (is_normal last) _ _
      (λ _. bind-Gives AreReadable IsTurn (open_block s) _ (open_block-AreReadable s h) (λ s' k. k))
      (λ _. tt)
turn-IsTurn end_block last t s v h =
    if-Gives IsTurn (ends_block last) _ _
      (λ _. bind-Gives AreReadable IsTurn (pop s) _ (pop-AreReadable s h) (λ s' k. k)) (λ _. tt)
turn-IsTurn eof last t s v h =
    if-Gives IsTurn (ends_file last) _ _
      (λ _. bind-Gives AreReadable IsTurn (pop s) _ (pop-AreReadable s h) closes) (λ _. tt)

-- A configuration that was read is readable.
abbrev IsResult : Option (Outcome (Bool × Config)) → Type 0
IsResult none = Unit
IsResult (some o) = Gives (λ (result, c). result ≡ true → IsReadable c) o

any : {A : Type 0} (o : Outcome A) → Gives (λ _. Unit) o
any (ok x) = tt
any (throws e) = tt
any undefined = tt

finish-IsResult :
    (result : Bool) (s : Blocks) → IsTurn (stops result s) → IsResult (some (finish result s))
unfolding finish
finish-IsResult true s (e, h) = rw (finish, e) (λ _. h)
finish-IsResult false s h = go s.stack s.root
  where
    go :
        (stack : List Config) (root : Config)
        → IsResult (some (finish false (record { stack = stack; root = root })))
    go [] root = λ e. absurd (ground arith)
    go (top ∷ below) root =
        bind-Gives (λ _. Unit) _ (close_all root below top) _ (any (close_all root below top))
          (λ c _ e. absurd (ground arith))

after-IsResult :
    (f : ℕ) (rest : Bytes) (t : Outcome Turn)
    → Gives IsTurn t
    → ((last : TokenType) (s : Blocks) → AreReadable s → IsResult (parse_loop f last s rest))
    → IsResult (after f rest t)
unfolding after
after-IsResult f rest (ok (stops result s)) h later = finish-IsResult result s h
after-IsResult f rest (ok (goes last s)) h later = later last s h
after-IsResult f rest (throws e) h later = tt
after-IsResult f rest undefined h later = tt

parse_loop-IsResult :
    (f : ℕ) (last : TokenType) (s : Blocks) (input : Bytes)
    → AreReadable s
    → IsResult (parse_loop f last s input)
unfolding parse_loop read_by
parse_loop-IsResult zero last s input h = tt
parse_loop-IsResult (suc f) last s input h = subst IsResult (sym (parse_loop-suc f last s input)) (
    after-IsResult f (parse_token input).2 _
      (turn-IsTurn (parse_token input).0 last (parse_token input).1 s (parse_token-IsRead input) h)
      (λ last' s' k. parse_loop-IsResult f last' s' (parse_token input).2 k))

-- A configuration that `Parse` gives is one that it can read from its text.
pub parse-IsReadable :
    (file : Bytes) (before c : Config)
    → IsReadable before
    → parse file before ≡ some (ok (true, c))
    → IsReadable c
unfolding parse
parse-IsReadable file before c h e =
    subst IsResult e (parse_loop-IsResult _ start _ file ((h, tt), h)) refl

-- When a file is parsed into a new configuration, the text of the result, at any depth, is parsed to
-- the same configuration.
pub parse-parse :
    (file : Bytes) (c : Config) (depth : ℕ)
    → parse file end ≡ some (ok (true, c))
    → parse (to_text c depth) end ≡ some (ok (true, c))
unfolding append_config
parse-parse file c depth h = parse-to_text c end depth (parse-IsReadable file end c tt h)
