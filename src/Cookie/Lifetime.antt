-- ===== src/Cookie/Lifetime.antt =====
-- How long a token is accepted.
use foxy_4_web_server.Base.{some, refl, false}
use foxy_4_web_server.Base.{
  leb, ◌==◌, All, ℕ, ◌+◌, ◌*◌, ◌/◌, ◌≡◌, refl, Bool, false, ◌&&◌, some, [], ◌∷◌,
}
use foxy_4_web_server.Base.Bytes.{Bytes, codes, same}
use foxy_4_web_server.Cookie.{
  Claims, Verifier, Jwt, second, time_to_live, secret, verifier, generate_cookie, verify_cookie,
}

-- A date of a token has whole seconds.
abbrev pub whole : ℕ → ℕ
whole time = time / second * second

-- A byte that ends no cookie in a header.
abbrev pub IsCookieByte : ℕ → Type 0
IsCookieByte c = ((c == b';') ≡ false) × ((c == b' ') ≡ false)

-- The documented behaviour of jwt-cpp: a token that was signed is decoded; under its secret it is
-- accepted where its issuer is the expected one, it has been issued and has not expired; and its
-- bytes are those of base64 for URLs, and points.
pub record IsJwt (j : Jwt) : Type 0 where
  pub decodes : (c : Claims) (s : Bytes) → (d : j.Decoded) × (j.decode (j.sign c s) ≡ some d)
  pub verifies :
      (c : Claims) (v : Verifier) (d : j.Decoded) (time : ℕ)
      → j.decode (j.sign c v.secret) ≡ some d
      → j.verify v time d
        ≡ (same v.issuer c.issuer && leb (whole c.issued_at) time && leb time (whole c.expires_at))
  pub cookie_bytes : (c : Claims) (s : Bytes) → All IsCookieByte (j.sign c s)

-- The time of a token that was made at the times `first` and `now` of the clock: from the whole
-- second in which it was made to the whole second in which two hours have passed.
abbrev pub is_current : ℕ → ℕ → ℕ → Bool
is_current first now time = leb (whole first) time && leb time (whole (now + time_to_live * second))

-- A token is accepted from the second in which it was made to the whole second in which the two
-- hours end.
pub verify_cookie-generate_cookie :
    (j : Jwt) (username : Bytes) (first now time : ℕ)
    → IsJwt j
    → verify_cookie j time (generate_cookie j username first now) ≡ is_current first now time
unfolding verify_cookie generate_cookie verifier same
verify_cookie-generate_cookie j username first now time law =
    let claims : Claims = record {
      issuer = codes "foxy-4";
      issued_at = first;
      expires_at = now + time_to_live * second;
      payload = (codes "username", username) ∷ [];
    } in
    let (d, decoded) = law.decodes claims secret in
    rw (verify_cookie, decoded, law.verifies claims verifier d time decoded) refl
