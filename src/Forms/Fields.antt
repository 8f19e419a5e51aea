-- ===== src/Forms/Fields.antt =====
-- The fields of a form that a browser sends.

use foxy_4_web_server.Base.{
  ◌==◌, All, ℕ, ◌≡◌, refl, ◌∙◌, true, false, Option, some, [], ◌∷◌, ◌++◌, arith,
}
use foxy_4_web_server.Base.Bytes.{Bytes, codes, starts_with, contains}
use foxy_4_web_server.Forms.{
  lower, starts_with_key, is_line_end, until_ampersand, until_end, search_group, extract_username,
  extract_password,
}

-- A byte of a name or a password: it ends no field and no line, and is no `=`.
abbrev pub IsFieldByte : ℕ → Type 0
IsFieldByte c = ((c == b'&') ≡ false) × ((c == b'=') ≡ false) × (is_line_end c ≡ false)

-- The body of the form.
abbrev pub form : Bytes → Bytes → Bytes
form u p = codes "username=" ++ (u ++ (codes "&password=" ++ p))

until_ampersand-append :
    (u rest : Bytes) → All IsFieldByte u → until_ampersand (u ++ (b'&' ∷ rest)) ≡ some u
unfolding until_ampersand
until_ampersand-append [] rest h = refl
until_ampersand-append (c ∷ u) rest ((amp, eq, line), h) =
    rw (amp, line, until_ampersand-append u rest h)

until_end_self : (p : Bytes) → All IsFieldByte p → until_end p ≡ some p
unfolding until_end
until_end_self [] h = refl
until_end_self (c ∷ p) ((amp, eq, line), h) = rw (amp, line, until_end_self p h)

-- A key that has an `=` and no `&` does not match inside a field and what follows it.
starts_with_key-field :
    (u key rest : Bytes)
    → All IsFieldByte u
    → All (λ k. (b'&' == k) ≡ false) key
    → contains key (codes "=") ≡ true
    → starts_with_key (u ++ (b'&' ∷ rest)) key ≡ false
unfolding starts_with_key lower contains
starts_with_key-field u [] rest h free found = cc
starts_with_key-field [] (k ∷ key) rest h (amp, free) found = ground arith
starts_with_key-field (c ∷ u) (k ∷ key) rest (field, h) (amp, free) found =
    ground (arith, starts_with_key-field u key rest h free)

search_group-field :
    (group : Bytes → Option Bytes) (u key rest : Bytes)
    → All IsFieldByte u
    → All (λ k. (b'&' == k) ≡ false) key
    → contains key (codes "=") ≡ true
    → search_group group key (u ++ (b'&' ∷ rest)) ≡ search_group group key rest
unfolding search_group
search_group-field group [] key rest h free found =
    rw (search_group, starts_with_key-field [] key rest h free found)
search_group-field group (c ∷ u) key rest (field, h) free found =
    rw (search_group, starts_with_key-field (c ∷ u) key rest (field, h) free found)
      (search_group-field group u key rest h free found)

username_skip :
    (s : Bytes)
    → search_group until_end (codes "password=") (codes "username=" ++ s)
      ≡ search_group until_end (codes "password=") s
unfolding search_group starts_with_key lower
username_skip s = refl

username_found :
    (s u : Bytes)
    → until_ampersand s ≡ some u
    → search_group until_ampersand (codes "username=") (codes "username=" ++ s) ≡ some u
unfolding search_group starts_with_key lower
username_found s u e = rw e

password_found :
    (p : Bytes)
    → All IsFieldByte p
    → search_group until_end (codes "password=") (codes "password=" ++ p) ≡ some p
unfolding search_group starts_with_key lower
password_found p h = rw (until_end_self p h)

-- The handler reads the name and the password of a form back, where neither has an `&`, an `=` or
-- an end of a line.
pub extract-form :
    (u p : Bytes)
    → All IsFieldByte u
    → All IsFieldByte p
    → (extract_username (form u p) ≡ u) × (extract_password (form u p) ≡ p)
unfolding extract_username extract_password
extract-form u p hu hp =
    let rest = codes "password=" ++ p in
    let name = username_found (u ++ (b'&' ∷ rest)) u (until_ampersand-append u rest hu) in
    let word =
      username_skip (u ++ (b'&' ∷ rest))
      ∙ search_group-field until_end u (codes "password=") rest hu
          (refl, (refl, (refl, (refl, (refl, (refl, (refl, (refl, (refl, tt)))))))))
          (unfold contains starts_with in refl)
      ∙ password_found p hp in
    (rw name refl, rw word refl)
