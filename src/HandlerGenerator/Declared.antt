-- ===== src/HandlerGenerator/Declared.antt =====
-- The map that `get_map` makes of a configuration.
use mathlib.Core.Option
use foxy_4_web_server.Base.{ok, refl, none, some, true}
use foxy_4_web_server.Config.{Statement, with_block, Config, end, next, tokens_of, token_at}
use foxy_4_web_server.Handlers.Init.{Handler, create_handler}
use foxy_4_web_server.Base.{ok, ◌≡◌, refl, true, false, none, some, [], ◌∷◌, arith}
use foxy_4_web_server.Base.Bytes.{Bytes, codes, same}
use foxy_4_web_server.Base.Dict.{Dict, lookup, insert, lookup-insert}
use foxy_4_web_server.Boost.{Boost}
use foxy_4_web_server.DataCollector.{DataCollector}
use foxy_4_web_server.HandlerGenerator.{
  HandlerMap, invalid_config, block_of, is_location, add_location, get_map,
}
use foxy_4_web_server.Utility.{with_slash}
use foxy_4_web_server.Utility.Quoted.{quoted, is_quoted-quoted}

-- The locations of a configuration at its top, with the handlers that the calls of `createHandler`
-- make, whatever the collector: other statements are left aside.
pub data Declares ⦃b : Boost⦄ : Config → Dict Handler → Type 0 where
  nothing : Declares end []
  other :
      (s : Statement) (more : Config) (locations : Dict Handler)
      → is_location (tokens_of s) ≡ false
      → Declares more locations
      → Declares (next s more) locations
  location :
      (path method : Bytes) (block : Config) (h : Handler) (more : Config)
      (locations : Dict Handler)
      → ((c : DataCollector)
          → (c' : DataCollector) × (create_handler (with_slash path) method block c
              ≡ ok (some h, c')))
      → Declares more locations
      → Declares
          (next (with_block (codes "location" ∷ quoted path ∷ method ∷ []) block) more)
          ((with_slash path, h) ∷ locations)

-- A map with the locations entered, of which the first of a path counts.
abbrev pub Enters : HandlerMap → Dict Handler → HandlerMap → Type 0
Enters m locations m' =
    (path : Bytes)
    → lookup path m'
      ≡ elim (lookup path m) [ some h ↦ some h | none ↦ Option.map some (lookup path locations) ]

Enters-insert :
    (m m' : HandlerMap) (path : Bytes) (h : Handler) (locations : Dict Handler)
    → Enters (insert path (some h) m) locations m'
    → Enters m ((path, h) ∷ locations) m'
unfolding lookup
Enters-insert m m' path h locations entered p =
    ground (arith, entered p, lookup-insert path p (some h) m)

add_location-with_block :
    ⦃b : Boost⦄ (path method : Bytes) (block : Config) (h : Handler) (m : HandlerMap)
    (c c' : DataCollector)
    → create_handler (with_slash path) method block c ≡ ok (some h, c')
    → add_location (with_block (codes "location" ∷ quoted path ∷ method ∷ []) block) m c
      ≡ ok (some (insert (with_slash path) (some h) m), c')
unfolding add_location invalid_config token_at block_of
add_location-with_block path method block h m c c' made = rw (is_quoted-quoted path, made) refl

-- A configuration whose locations have three tokens, a quoted path and a block, and make their
-- handlers, is accepted. Each path then has the handler of its first location, unless the map had
-- one before; there are no other paths.
pub get_map-Declares :
    ⦃b : Boost⦄ (config : Config) (locations : Dict Handler) (m : HandlerMap) (c : DataCollector)
    → Declares config locations
    → (m' : HandlerMap) × (c' : DataCollector) × (get_map config m c ≡ ok (true, m', c'))
      × Enters m locations m'
unfolding get_map is_location same lookup
get_map-Declares _ _ m c nothing = (m, c, refl, λ path. ground arith)
get_map-Declares _ _ m c (other s more locations no_location declared) =
    let (m', c', e, entered) = get_map-Declares more locations m c declared in
    (m', c', rw (get_map, no_location) e, entered)
get_map-Declares _ _ m c (location path method block h more locations makes declared) =
    let (c1, made) = makes c in
    let (m', c', e, entered) =
      get_map-Declares more locations (insert (with_slash path) (some h) m) c1 declared in
    (
      m',
      c',
      rw (get_map, add_location-with_block path method block h m c c1 made) e,
      Enters-insert m m' (with_slash path) h locations entered,
    )
