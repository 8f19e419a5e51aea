-- ===== src/HandlerGenerator/Errors.antt =====
-- Configurations that `get_map` does not refuse.
use foxy_4_web_server.Base.{true, [], ◌∷◌, ◌≡◌, refl, ok, undefined, throws, out_of_range}
use foxy_4_web_server.Base.Bytes.{Bytes, codes, same}
use foxy_4_web_server.Boost.{Boost}
use foxy_4_web_server.Config.{Config, next, plain, with_block, token_at}
use foxy_4_web_server.DataCollector.{DataCollector}
use foxy_4_web_server.HandlerGenerator.{
  HandlerMap, add_location, get_map, invalid_config, block_of, is_location,
}
use foxy_4_web_server.Utility.{is_quoted}
use foxy_4_web_server.Utility.Quoted.{is_quoted_of_one}

-- A location whose path is a single quotation mark makes the call throw, for every block and every
-- method: the mark is at both ends of the path, and is erased twice.
pub get_map_of_one_mark :
    ⦃b : Boost⦄ (method : Bytes) (block more : Config) (m : HandlerMap) (c : DataCollector)
    → get_map (next (with_block (codes "location" ∷ codes "\"" ∷ method ∷ []) block) more) m c
      ≡ throws out_of_range
unfolding get_map add_location invalid_config token_at is_location same
get_map_of_one_mark method block more m c = rw is_quoted_of_one refl

-- A location of three tokens without a block passes the test of `invalid_config`, and its null
-- block is then used: the call is undefined, for every quoted path and every method.
pub get_map_without_block :
    ⦃b : Boost⦄ (token path method : Bytes) (more : Config) (m : HandlerMap) (c : DataCollector)
    → is_quoted token ≡ ok (true, path)
    → get_map (next (plain (codes "location" ∷ token ∷ method ∷ [])) more) m c ≡ undefined
unfolding get_map add_location invalid_config block_of token_at is_location same
get_map_without_block token path method more m c q = rw q refl
