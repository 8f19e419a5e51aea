-- ===== src/ConfigParser/Statements.antt =====
-- The statements of the innermost block: tokens and blocks go to the last one.
use foxy_4_web_server.Config.{Statement, plain, with_block, Config, end, next}
use foxy_4_web_server.Base.{◌>>=◌}
use foxy_4_web_server.Base.{Outcome, ◌>>=◌, ok, ◌≡◌, refl, ap, List, [], ◌∷◌, ◌++◌}
use foxy_4_web_server.Base.Bytes.{Bytes}
use foxy_4_web_server.ConfigParser.{add_statement, add_token, set_block}

-- The statements of a block, then those of another.
unfoldable pub append_config : Config → Config → Config
append_config end b = b
append_config (next s a) b = next s (append_config a b)

pub append_config_assoc :
    (a b c : Config) → append_config (append_config a b) c ≡ append_config a (append_config b c)
unfolding append_config
append_config_assoc end b c = refl
append_config_assoc (next s a) b c = ap (next s) (append_config_assoc a b c)

pub append_config-end : (a : Config) → append_config a end ≡ a
unfolding append_config
append_config-end end = refl
append_config-end (next s a) = ap (next s) (append_config-end a)

-- One statement more.
abbrev pub snoc : Config → Statement → Config
snoc c s = append_config c (next s end)

-- A function on the last statement of a block that leaves the others.
last_lem :
    (f : Config → Outcome Config) (s : Statement) (s' : Statement)
    → ((t u : Statement) (more : Config)
        → f (next t (next u more)) ≡ (do rest ← f (next u more); ok (next t rest)))
    → f (next s end) ≡ ok (next s' end)
    → (c : Config) → f (snoc c s) ≡ ok (snoc c s')
unfolding append_config
last_lem f s s' inner base end = base
last_lem f s s' inner base (next t end) = rw (inner t s end, base) refl
last_lem f s s' inner base (next t (next u more)) =
    rw (inner t u (snoc more s), last_lem f s s' inner base (next u more)) refl

pub add_statement_lem : (c : Config) → add_statement c ≡ snoc c (plain [])
unfolding add_statement append_config
add_statement_lem end = refl
add_statement_lem (next s more) = ap (next s) (add_statement_lem more)

pub add_token_later :
    (token : Bytes) (t u : Statement) (more : Config)
    → add_token token (next t (next u more))
      ≡ (do rest ← add_token token (next u more); ok (next t rest))
unfolding add_token
add_token_later token (plain _) u more = refl
add_token_later token (with_block _ _) u more = refl

pub add_token-snoc :
    (token : Bytes) (ts : List Bytes) (c : Config)
    → add_token token (snoc c (plain ts)) ≡ ok (snoc c (plain (ts ++ token ∷ [])))
unfolding add_token
add_token-snoc token ts c =
    last_lem (add_token token) (plain ts) (plain (ts ++ token ∷ [])) (add_token_later token) refl c

pub set_block_later :
    (b : Config) (t u : Statement) (more : Config)
    → set_block b (next t (next u more)) ≡ (do rest ← set_block b (next u more); ok (next t rest))
unfolding set_block
set_block_later b (plain _) u more = refl
set_block_later b (with_block _ _) u more = refl

pub set_block-snoc :
    (b : Config) (ts : List Bytes) (c : Config)
    → set_block b (snoc c (plain ts)) ≡ ok (snoc c (with_block ts b))
unfolding set_block
set_block-snoc b ts c =
    last_lem (set_block b) (plain ts) (with_block ts b) (set_block_later b) refl c

pub set_block_again :
    (b b' : Config) (ts : List Bytes) (c : Config)
    → set_block b (snoc c (with_block ts b')) ≡ ok (snoc c (with_block ts b))
unfolding set_block
set_block_again b b' ts c =
    last_lem (set_block b) (with_block ts b') (with_block ts b) (set_block_later b) refl c
