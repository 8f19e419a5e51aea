-- ===== src/Handlers/Static/Safety.antt =====
-- What the paths of files are.
use foxy_4_web_server.Base.{
  true, false, Option, some, [], ◌∷◌, ◌++◌, ◌≡◌, refl, arith, append_assoc, length, drop,
  Bool-cases, Option-cases, inl, inr,
}
use native.Mathlib.Nat.{zero-add}
use foxy_4_web_server.Base.Bytes.{
  Bytes, codes, contains, last?, starts_with, same, before_nul, last?-append_one,
}
use foxy_4_web_server.Base.Bytes.Occurs.{
  HasNoDots, HasNoDots-append, HasNoDots-drop, HasNoDots-before_nul, find_of_prefix,
}
use foxy_4_web_server.Boost.{Boost}
use foxy_4_web_server.Handlers.Static.Decode.{url_decode}
use foxy_4_web_server.Handlers.Static.Paths.{
  check_decoded, check_request_path, replace_path, is_absolute, ends_in_slash,
}
use foxy_4_web_server.Handlers.Static.{
  StaticHandler, Outside, send_file, serve_path, wants_login, check_cookie, handle_request,
}
use foxy_4_web_server.Http.{Request}

-- A path that passes the check is absolute, has no `..`, and names no directory.
pub record IsChecked (p : Bytes) : Type 0 where
  pub absolute : is_absolute p ≡ true
  pub no_dots : HasNoDots p
  pub no_slash : ends_in_slash p ≡ false

last_of_slash : (p : Bytes) → ends_in_slash p ≡ true → last? p ≡ some b'/'
last_of_slash p h = ground arith

last_of_index : (p : Bytes) → last? (p ++ codes "index.html") ≡ some b'l'
last_of_index p =
    rw (← append_assoc p (codes "index.htm") (b'l' ∷ []))
      (last?-append_one (p ++ codes "index.htm") b'l')

absolute-append : (p q : Bytes) → is_absolute p ≡ true → is_absolute (p ++ q) ≡ true
absolute-append [] q h = cc
absolute-append (c ∷ p) q h = h

index-IsChecked :
    (p : Bytes)
    → is_absolute p ≡ true
    → HasNoDots p
    → ends_in_slash p ≡ true
    → IsChecked (p ++ codes "index.html")
index-IsChecked p a h e = record {
  absolute = absolute-append p (codes "index.html") a;
  no_dots = HasNoDots-append p (codes "index.html") h (unfold contains in refl) (last_of_slash p e);
  no_slash = rw (ends_in_slash, last_of_index p) refl;
}

check_decoded-IsChecked : (p q : Bytes) → check_decoded p ≡ some q → IsChecked q
unfolding check_decoded
check_decoded-IsChecked p q e = elim (Bool-cases (ends_in_slash p)) [
  | inl slash ↦
      let same : p ++ codes "index.html" ≡ q = ground arith in
      rw (← same) (index-IsChecked p (ground arith) (ground arith) slash)
  | inr file ↦
      let same : p ≡ q = ground arith in
      rw (← same) (record { absolute = ground arith; no_dots = ground arith; no_slash = file })
]

-- A URI that the check accepts gives a path that is absolute, has no `..`, and does not end in a
-- slash.
pub check_request_path-IsChecked : (uri p : Bytes) → check_request_path uri ≡ some p → IsChecked p
unfolding check_request_path
check_request_path-IsChecked uri p e = elim (Option-cases (url_decode uri)) [
  | inl bad ↦ ground arith
  | inr (d, decoded) ↦ check_decoded-IsChecked d p (ground arith)
]

-- The members of a handler whose root is a directory without `..`.
abbrev HasSafeRoot : StaticHandler → Type 0
HasSafeRoot h = HasNoDots h.root × (last? h.root ≡ some b'/')

-- The checked paths begin with the location.
abbrev pub IsBelow : StaticHandler → Bytes → Type 0
IsBelow h uri = (p : Bytes) → check_request_path uri ≡ some p → starts_with p h.path ≡ true

-- The names of files below a root: no `..`, and the root in front.
abbrev IsInside : Bytes → Bytes → Type 0
IsInside root name = (rest : Bytes) × (name ≡ before_nul (root ++ rest)) × HasNoDots name

pub replace_path-prefix :
    (path root p : Bytes)
    → starts_with p path ≡ true
    → replace_path path root p ≡ some (root ++ drop (length path) p)
unfolding replace_path
replace_path-prefix path root p h = rw (find_of_prefix p path h, zero-add) refl

-- Two file systems that agree on the names below the root.
abbrev pub AgreeInside : Bytes → (Bytes → Option Bytes) → (Bytes → Option Bytes) → Type 0
AgreeInside root f g = (name : Bytes) → IsInside root name → f name ≡ g name

abbrev pub with_files : Outside → (Bytes → Option Bytes) → Outside
with_files o g = record o { open_file = g }

module _ (root : Bytes) (o : Outside) (g : Bytes → Option Bytes)
    (agree : AgreeInside root o.open_file g) where
  send_file-inside :
      (rest : Bytes)
      → HasNoDots (root ++ rest)
      → send_file o (root ++ rest) ≡ send_file (with_files o g) (root ++ rest)
  unfolding send_file
  send_file-inside rest h =
      rw
        (
          send_file,
          agree (before_nul (root ++ rest)) (rest, refl, HasNoDots-before_nul (root ++ rest) h),
        )
        refl

serve_path-inside :
    (h : StaticHandler) (o : Outside) (g : Bytes → Option Bytes) (p : Bytes)
    → HasSafeRoot h
    → AgreeInside h.root o.open_file g
    → IsChecked p
    → starts_with p h.path ≡ true
    → serve_path h o p ≡ serve_path h (with_files o g) p
unfolding serve_path same
serve_path-inside h o g [] safe agree w below = cc (w.absolute)
serve_path-inside h o g (c ∷ p) (no_dots, slash) agree w below =
    let rest = drop (length h.path) (c ∷ p) in
    let clean = HasNoDots-append h.root rest no_dots (HasNoDots-drop _ (c ∷ p) w.no_dots) slash in
    rw (serve_path, replace_path-prefix h.path h.root (c ∷ p) below)
      (send_file-inside h.root o g agree rest clean)

-- The response depends on no file outside the root: with a root that is a directory without `..`,
-- and a URI whose checked path begins with the handler's location, the handler answers the same
-- under two file systems that agree on the names made of the root and a rest (up to the first 0),
-- without `..`.
pub handle_request_inside :
    ⦃b : Boost⦄ (h : StaticHandler) (o : Outside) (g : Bytes → Option Bytes) (request : Request)
    → HasSafeRoot h
    → IsBelow h request.uri
    → AgreeInside h.root o.open_file g
    → handle_request h o request ≡ handle_request h (with_files o g) request
unfolding handle_request wants_login check_cookie
handle_request_inside h o g request safe below agree =
    elim (Option-cases (check_request_path request.uri)) [
      | inl bad ↦ rw bad refl
      | inr (p, checked) ↦
          rw
            (
              checked,
              serve_path-inside h o g p safe agree
                  (check_request_path-IsChecked request.uri p checked) (below p checked),
            )
            refl
    ]
