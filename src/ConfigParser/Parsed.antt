-- ===== src/ConfigParser/Parsed.antt =====
-- What `Parse` gives, the printer and the parser can take again.
use mathlib.Core.Path.{subst}
use foxy_4_web_server.Config.{Statement, plain, with_block, Config, end, next}
use foxy_4_web_server.Base.{◌>>=◌, ok, throws, undefined, Outcome}
use foxy_4_web_server.Base.{
  All, All-append, Outcome, ◌>>=◌, ok, throws, undefined, sym, List, [], ◌∷◌, ◌++◌,
}
use foxy_4_web_server.Base.Bytes.{Bytes}
use foxy_4_web_server.Config.{Statement, Config}
use foxy_4_web_server.ConfigParser.{
  Blocks, add_statement, add_token, set_block, change_top, pop, open_block,
}
use foxy_4_web_server.ConfigParser.Lexing.{IsToken}
use foxy_4_web_server.ConfigParser.Statements.{
  append_config, add_statement_lem, add_token_later, add_token-snoc, set_block_later,
}
use foxy_4_web_server.ConfigParser.Reads.{AreTokens, IsReadable}

-- A property of the value, where there is one.
abbrev pub Gives : {A : Type 0} → (A → Type 0) → Outcome A → Type 0
Gives P (ok x) = P x
Gives P (throws e) = Unit
Gives P undefined = Unit

pub bind-Gives :
    {A B : Type 0} (P : A → Type 0) (Q : B → Type 0) (o : Outcome A) (f : A → Outcome B)
    → Gives P o
    → ((x : A) → P x → Gives Q (f x))
    → Gives Q (o >>= f)
bind-Gives P Q (ok x) f h k = k x h
bind-Gives P Q (throws e) f h k = tt
bind-Gives P Q undefined f h k = tt

append_config-IsReadable :
    (a b : Config) → IsReadable a → IsReadable b → IsReadable (append_config a b)
unfolding append_config
append_config-IsReadable end b h k = k
append_config-IsReadable (next (plain ts) a) b (tokens, h) k =
    (tokens, append_config-IsReadable a b h k)
append_config-IsReadable (next (with_block ts child) a) b (tokens, inner, h) k =
    (tokens, inner, append_config-IsReadable a b h k)

snoc-AreTokens : (ts : List Bytes) (t : Bytes) → AreTokens ts → IsToken t → AreTokens (ts ++ t ∷ [])
snoc-AreTokens [] t h k = absurd h
snoc-AreTokens (u ∷ ts) t (token, h) k = (token, All-append _ ts (t ∷ []) h (k, tt))

-- A readable statement in front of readable ones.
next-IsReadable :
    (s : Statement) (a b : Config) → IsReadable (next s a) → IsReadable b → IsReadable (next s b)
next-IsReadable (plain ts) a b (tokens, h) k = (tokens, k)
next-IsReadable (with_block ts child) a b (tokens, inner, h) k = (tokens, inner, k)

tail-IsReadable : (s : Statement) (a : Config) → IsReadable (next s a) → IsReadable a
tail-IsReadable (plain ts) a (tokens, h) = h
tail-IsReadable (with_block ts child) a (tokens, inner, h) = h

pub add_token-IsReadable :
    (t : Bytes) (c : Config) → IsToken t → IsReadable c → Gives IsReadable (add_token t c)
unfolding add_token
add_token-IsReadable t end token h = tt
add_token-IsReadable t (next (plain ts) end) token (tokens, h) =
    (snoc-AreTokens ts t tokens token, tt)
add_token-IsReadable t (next (with_block ts b) end) token (tokens, inner, h) =
    (snoc-AreTokens ts t tokens token, inner, tt)
add_token-IsReadable t (next s (next u more)) token h =
    subst (Gives IsReadable) (sym (add_token_later t s u more)) (
      bind-Gives IsReadable IsReadable (add_token t (next u more)) _
        (add_token-IsReadable t (next u more) token (tail-IsReadable s (next u more) h))
        (λ c k. next-IsReadable s (next u more) c h k))

set_block-IsReadable :
    (b c : Config) → IsReadable b → IsReadable c → Gives IsReadable (set_block b c)
unfolding set_block
set_block-IsReadable b end block h = tt
set_block-IsReadable b (next (plain ts) end) block (tokens, h) = (tokens, block, tt)
set_block-IsReadable b (next (with_block ts b') end) block (tokens, inner, h) = (tokens, block, tt)
set_block-IsReadable b (next s (next u more)) block h =
    subst (Gives IsReadable) (sym (set_block_later b s u more)) (
      bind-Gives IsReadable IsReadable (set_block b (next u more)) _
        (set_block-IsReadable b (next u more) block (tail-IsReadable s (next u more) h))
        (λ c k. next-IsReadable s (next u more) c h k))

-- The first token of a statement.
pub begin-IsReadable :
    (t : Bytes) (c : Config)
    → IsToken t
    → IsReadable c
    → Gives IsReadable (add_token t (add_statement c))
begin-IsReadable t c token h =
    rw (add_statement_lem c, add_token-snoc t [] c)
      (append_config-IsReadable c (next (plain (t ∷ [])) end) h ((token, tt), tt))

-- Every block that is open and the configuration are readable.
abbrev pub AreReadable : Blocks → Type 0
AreReadable s = All IsReadable s.stack × IsReadable s.root

pub change_top-AreReadable :
    (f : Config → Outcome Config) (s : Blocks)
    → ((c : Config) → IsReadable c → Gives IsReadable (f c))
    → AreReadable s
    → Gives AreReadable (change_top f s)
unfolding change_top
change_top-AreReadable f s h = go s.stack s.root
  where
    go :
        (stack : List Config) (root : Config)
        → AreReadable (record { stack = stack; root = root })
        → Gives AreReadable (change_top f (record { stack = stack; root = root }))
    go [] root k = tt
    go (c ∷ below) root ((top, all_below), r) =
        bind-Gives IsReadable AreReadable (f c) _ (h c top) (λ c' k. ((k, all_below), r))

pub open_block-AreReadable : (s : Blocks) → AreReadable s → Gives AreReadable (open_block s)
unfolding open_block
open_block-AreReadable s h =
    bind-Gives AreReadable AreReadable (change_top (set_block end) s) _
      (change_top-AreReadable (set_block end) s (λ c. set_block-IsReadable end c tt) h)
      (λ s' (stack, root). ((tt, stack), root))

pub pop-AreReadable : (s : Blocks) → AreReadable s → Gives AreReadable (pop s)
unfolding pop
pop-AreReadable s = go s.stack s.root
  where
    go :
        (stack : List Config) (root : Config)
        → AreReadable (record { stack = stack; root = root })
        → Gives AreReadable (pop (record { stack = stack; root = root }))
    go [] root h = tt
    go (c ∷ []) root ((top, _), r) = (tt, top)
    go (c ∷ p ∷ more) root ((top, (parent, all_more)), r) =
        bind-Gives IsReadable AreReadable (set_block c p) _ (set_block-IsReadable c p top parent)
          (λ c' k. ((k, all_more), r))
