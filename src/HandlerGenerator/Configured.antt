-- ===== src/HandlerGenerator/Configured.antt =====
-- From the text of a configuration to the handler of a URI.
use mathlib.Core.Option
use mathlib.Core.Path.{subst}
use foxy_4_web_server.Base.{ok, refl, none, some, true, inl, inr, ◌⊎◌}
use foxy_4_web_server.Config.{Config, end, to_text}
use foxy_4_web_server.Handlers.Init.{Handler}
use foxy_4_web_server.HandlerGenerator.Declared.{Declares}
use foxy_4_web_server.ConfigParser.{parse}
use foxy_4_web_server.Base.{
  Bool-cases, Option-cases, All, All-map, ok, ℕ, ◌<◌, ◌≡◌, refl, sym, ap, ◌∙◌, ◌⊎◌, inl, inr, true,
  Option, none, some, [], ◌∷◌, arith,
}
use foxy_4_web_server.Base.Bytes.{Bytes, codes, same, same_iff}
use foxy_4_web_server.Base.Dict.{Dict, lookup}
use foxy_4_web_server.Boost.{Boost}
use foxy_4_web_server.DataCollector.{DataCollector}
use foxy_4_web_server.HandlerGenerator.{
  common_prefix_length, HandlerMap, handler_at, dispatch_handler, get_map,
}
use foxy_4_web_server.HandlerGenerator.Dispatch.{
  Beats, HasPath, All-HasPath, Dispatched, dispatch_handler_best,
}
use foxy_4_web_server.HandlerGenerator.Declared.{Enters, get_map-Declares}
use foxy_4_web_server.ConfigParser.Reads.{IsReadable}
use foxy_4_web_server.ConfigParser.RoundTrip.{parse-to_text}
use foxy_4_web_server.ConfigParser.Statements.{append_config}

module _ {V : Type 0} (P : Bytes → Type 0) where
  -- What holds of every key of a map holds of a key that is found.
  All-lookup : (k : Bytes) (m : Dict V) {v : V} → All (λ e. P e.0) m → lookup k m ≡ some v → P k
  unfolding lookup
  All-lookup k [] h e = cc
  All-lookup k ((j, w) ∷ m) (p, h) e = elim (Bool-cases (same j k)) [
    | inl here ↦ let equal : j ≡ k = ground (arith, same_iff j k) in subst P equal p
    | inr there ↦ All-lookup k m h (rw (lookup, there) at e)
  ]

-- What holds of the paths of a map holds of the locations that were entered.
All-Enters :
    (P : Bytes → Type 0) (m : HandlerMap) (locations : Dict Handler)
    → Enters [] locations m
    → All (λ e. P e.0) m
    → All (λ e. P e.0) locations
unfolding lookup
All-Enters P m locations entered h =
    All-map (λ e. HasPath locations e.0) (λ e. P e.0) locations
      (λ (k, _) (v, found). All-lookup P k m h (entered k ∙ ap (Option.map some) found))
      (All-HasPath locations)

-- The handler that the declared locations give a URI.
abbrev pub Serves : Bytes → Dict Handler → Option Handler → Type 0
Serves uri locations handler =
    ((path : Bytes) × (h : Handler) × (lookup path locations ≡ some h)
      × (handler ≡ some h)
      × (0 < common_prefix_length uri path)
      × All (λ e. Beats uri (common_prefix_length uri path, path) e.0) locations)
    ⊎ (All (λ e. common_prefix_length uri e.0 ≡ 0) locations
        × (handler ≡ lookup (codes "/") locations))

handler_at-Enters :
    (path : Bytes) (m : HandlerMap) (locations : Dict Handler)
    → Enters [] locations m
    → (handler_at path m).0 ≡ lookup path locations
unfolding lookup handler_at
handler_at-Enters path m locations entered = elim (Option-cases (lookup path locations)) [
  | inl missing ↦
      let nowhere : lookup path m ≡ none = entered path ∙ ap (Option.map some) missing in
      rw (handler_at, nowhere, missing) refl
  | inr (h, declared) ↦
      let there : lookup path m ≡ some (some h) = entered path ∙ ap (Option.map some) declared in
      rw (handler_at, there, declared) refl
]

Dispatched-Serves :
    (uri : Bytes) (m : HandlerMap) (locations : Dict Handler)
    → Enters [] locations m
    → Dispatched uri m (dispatch_handler uri m)
    → Serves uri locations (dispatch_handler uri m).0
unfolding lookup handler_at
Dispatched-Serves uri m locations entered (inl (path, h, found, gives, shares, best)) =
    elim (Option-cases (lookup path locations)) [
      | inl missing ↦
          let nowhere : Option.some h ≡ none =
            sym found ∙ entered path ∙ ap (Option.map some) missing in
          cc nowhere
      | inr (h', declared) ↦
          let same_handler : Option.some h ≡ some (some h') =
            sym found ∙ entered path ∙ ap (Option.map some) declared in
          inl (
            path,
            h',
            declared,
            rw gives (ground arith),
            shares,
            All-Enters (Beats uri (common_prefix_length uri path, path)) m locations entered best,
          )
    ]
Dispatched-Serves uri m locations entered (inr (gives, none_shared)) = inr (
  All-Enters (λ k. common_prefix_length uri k ≡ 0) m locations entered none_shared,
  rw gives (handler_at-Enters (codes "/") m locations entered),
)

-- A configuration that is written out, whose locations make their handlers: its text is parsed to it
-- again, `get_map` accepts it, and a URI gets the handler of a location that no other location
-- beats by segments in common with the URI, or by a shorter path at as many; where no location
-- shares a segment it gets the handler of `/`, or a null pointer if there is none.
pub configured :
    ⦃b : Boost⦄ (config : Config) (locations : Dict Handler) (depth : ℕ) (c : DataCollector)
    → IsReadable config
    → Declares config locations
    → (m : HandlerMap) × (c' : DataCollector) × (parse (to_text config depth) end
        ≡ some (ok (true, config)))
      × (get_map config [] c ≡ ok (true, m, c'))
      × ((uri : Bytes) → Serves uri locations (dispatch_handler uri m).0)
unfolding append_config
configured config locations depth c readable declared =
    let (m, c', made, entered) = get_map-Declares config locations [] c declared in
    (
      m,
      c',
      parse-to_text config end depth readable,
      made,
      λ uri. Dispatched-Serves uri m locations entered (dispatch_handler_best uri m),
    )
