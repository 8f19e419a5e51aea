-- ===== src/HandlerGenerator/Dispatch.antt =====
-- The location that `dispatch_handler` chooses.
use foxy_4_web_server.Base.{
  ℕ, zero, suc, ◌≤◌, ◌<◌, Option, some, [], ◌∷◌, ◌≡◌, refl, ◌⊎◌, inl, inr, arith, length,
  if◌then◌else◌, ◌==◌, All, All-map, Bool-cases,
}
use foxy_4_web_server.Base.Bytes.{Bytes, codes, same, same_refl}
use foxy_4_web_server.Base.Dict.{Dict, lookup}
use foxy_4_web_server.Handlers.Init.{Handler}
use foxy_4_web_server.HandlerGenerator.{
  common_prefix_length, HandlerMap, Longest, consider, longest_match, handler_at, dispatch_handler,
}

-- `best` is at least as good as the path: it has more segments in common with the URI, or as many
-- and is no longer.
abbrev pub Beats : Bytes → Longest → Bytes → Type 0
Beats uri (n, path) k =
    (common_prefix_length uri k < n)
    ⊎ ((common_prefix_length uri k ≡ n) × ((n ≡ 0) ⊎ (length path ≤ length k)))

consider_self : (uri k : Bytes) (best : Longest) → Beats uri (consider uri k best) k
unfolding consider
consider_self uri k (n, path) = ground arith

consider_mono :
    (uri k j : Bytes) (best : Longest) → Beats uri best j → Beats uri (consider uri k best) j
unfolding consider
consider_mono uri k j (n, path) h = ground arith

longest_match_mono :
    (uri j : Bytes) (m : HandlerMap) (best : Longest)
    → Beats uri best j
    → Beats uri (longest_match uri m best) j
unfolding longest_match
longest_match_mono uri j [] best h = h
longest_match_mono uri j ((k, _) ∷ m) best h =
    longest_match_mono uri j m (consider uri k best) (consider_mono uri k j best h)

longest_match-Beats :
    (uri : Bytes) (m : HandlerMap) (best : Longest)
    → All (λ e. Beats uri (longest_match uri m best) e.0) m
unfolding longest_match
longest_match-Beats uri [] best = tt
longest_match-Beats uri ((k, _) ∷ m) best = (
  longest_match_mono uri k m (consider uri k best) (consider_self uri k best),
  longest_match-Beats uri m (consider uri k best),
)

-- The map has the path.
abbrev pub HasPath : {V : Type 0} → Dict V → Bytes → Type 0
HasPath {V} m path = (h : V) × (lookup path m ≡ some h)

HasPath-cons :
    {V : Type 0} (k j : Bytes) (h : V) (m : Dict V) → HasPath m j → HasPath ((k, h) ∷ m) j
unfolding lookup
HasPath-cons k j h m (g, e) = elim (Bool-cases (same k j)) [
  | inl here ↦ (h, rw here refl)
  | inr later ↦ (g, rw later e)
]

pub All-HasPath : {V : Type 0} (m : Dict V) → All (λ e. HasPath m e.0) m
unfolding lookup
All-HasPath [] = tt
All-HasPath ((k, h) ∷ m) = (
  (h, rw (same_refl k) refl),
  All-map (λ e. HasPath m e.0) (λ e. HasPath ((k, h) ∷ m) e.0) m (λ e. HasPath-cons k e.0 h m)
      (All-HasPath m),
)

-- A choice is the initial one, or a path of the whole map with its count.
abbrev IsChosen : Bytes → HandlerMap → Longest → Type 0
IsChosen uri whole (n, path) = (n ≡ 0) ⊎ ((common_prefix_length uri path ≡ n) × HasPath whole path)

consider-IsChosen :
    (uri k : Bytes) (whole : HandlerMap) (best : Longest)
    → HasPath whole k
    → IsChosen uri whole best
    → IsChosen uri whole (consider uri k best)
unfolding consider
consider-IsChosen uri k whole (n, path) p h = ground arith

longest_match-IsChosen :
    (uri : Bytes) (whole m : HandlerMap) (best : Longest)
    → All (λ e. HasPath whole e.0) m
    → IsChosen uri whole best
    → IsChosen uri whole (longest_match uri m best)
unfolding longest_match
longest_match-IsChosen uri whole [] best _ h = h
longest_match-IsChosen uri whole ((k, _) ∷ m) best (p, ps) h =
    longest_match-IsChosen uri whole m (consider uri k best) ps
      (consider-IsChosen uri k whole best p h)

-- The handler of a path that the map has.
handler_at_found :
    (path : Bytes) (m : HandlerMap) {h : Option Handler}
    → lookup path m ≡ some h
    → handler_at path m ≡ (h, m)
unfolding handler_at
handler_at_found path m e = rw (e, handler_at) refl

abbrev pub SharesNone : Bytes → Bytes × Option Handler → Type 0
SharesNone uri (k, _) = common_prefix_length uri k ≡ 0

Beats-zero :
    (uri k path : Bytes) (n : ℕ) → n ≡ 0 → Beats uri (n, path) k → common_prefix_length uri k ≡ 0
Beats-zero uri k path n z b = ground arith

-- What `dispatch_handler` promises.
abbrev pub Dispatched : Bytes → HandlerMap → Option Handler × HandlerMap → Type 0
Dispatched uri m result =
    ((path : Bytes) × (h : Option Handler) × (lookup path m ≡ some h)
      × (result ≡ (h, m))
      × (0 < common_prefix_length uri path)
      × All (λ e. Beats uri (common_prefix_length uri path, path) e.0) m)
    ⊎ ((result ≡ handler_at (codes "/") m) × All (SharesNone uri) m)

choice_Dispatched :
    (uri : Bytes) (m : HandlerMap) (best : Longest)
    → All (λ e. Beats uri best e.0) m
    → IsChosen uri m best
    → Dispatched uri m (if best.0 == 0 then handler_at (codes "/") m else handler_at best.1 m)
choice_Dispatched uri m (zero, path) beats chosen = inr (
  refl,
  All-map (λ e. Beats uri (0, path) e.0) (SharesNone uri) m (λ e. Beats-zero uri e.0 path 0 refl)
      beats,
)
choice_Dispatched uri m (suc n, path) beats (inl z) = absurd (omega arith)
choice_Dispatched uri m (suc n, path) beats (inr (count, (h, found))) = inl (
  path,
  h,
  found,
  ground (arith, handler_at_found path m found),
  rw count (omega arith),
  rw count beats,
)

-- Where some location has a segment in common with the URI, the handler is that of a location of
-- the map that no other location beats, and the map stays: none has more segments in common with
-- the URI, and none with as many is shorter. Otherwise the handler is that of `/`.
pub dispatch_handler_best :
    (uri : Bytes) (m : HandlerMap) → Dispatched uri m (dispatch_handler uri m)
unfolding dispatch_handler
dispatch_handler_best uri m =
    choice_Dispatched uri m (longest_match uri m (0, [])) (longest_match-Beats uri m (0, []))
      (longest_match-IsChosen uri m m (0, []) (All-HasPath m) (inl refl))
