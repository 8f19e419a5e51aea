-- ===== src/Config/Errors.antt =====
-- Reads past the end of a statement's tokens.
use foxy_4_web_server.Base.{false, [], ◌∷◌, ◌≡◌, ◌≢◌, refl, arith, undefined}
use foxy_4_web_server.Base.Bytes.{Bytes, codes, same, same_iff}
use foxy_4_web_server.Config.{Config, next, plain, get_port, Ports}

unequal : (a b : Bytes) → a ≢ b → same a b ≡ false
unequal a b ne = ground (arith, same_iff a b)

-- `get_port` takes the port from two tokens behind the first `listen`: in a first statement without a
-- block, of three tokens, whose second is that word and whose first is not, that is past the end, and
-- the read is undefined.
pub get_port_past_end :
    (a b : Bytes) (more : Config) (vec : Ports)
    → a ≢ codes "listen"
    → get_port (next (plain (a ∷ codes "listen" ∷ b ∷ [])) more) vec ≡ undefined
unfolding get_port same
get_port_past_end a b more vec ne =
    let other : same a (codes "listen") ≡ false = unequal a (codes "listen") ne in rw other refl
