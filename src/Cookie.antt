-- ===== src/Cookie.antt =====
-- src/cookie.cc: the token of a user, as calls of jwt-cpp.
pub mod Lifetime
use foxy_4_web_server.Base.{ℕ, ◌+◌, ◌*◌, Bool, false, Option, none, some, [], ◌∷◌}
use foxy_4_web_server.Base.Bytes.{Bytes, codes}
use foxy_4_web_server.Base.Dict.{Dict}

-- What `jwt::create()` collects. A date is a time of the system clock.
pub record Claims : Type 0 where
  pub issuer : Bytes
  pub issued_at : ℕ
  pub expires_at : ℕ
  pub payload : Dict Bytes

-- What `jwt::verify()` collects: the secret of HS256, and the issuer.
pub record Verifier : Type 0 where
  pub secret : Bytes
  pub issuer : Bytes

-- The library: `sign` with HS256 and a secret, `jwt::decode`, and the test of a decoded token at a
-- time. `none` and `false` are its exceptions.
pub record Jwt : Type 1 where
  pub Decoded : Type 0
  pub sign : Claims → Bytes → Bytes
  pub decode : Bytes → Option Decoded
  pub verify : Verifier → ℕ → Decoded → Bool

-- `std::chrono::seconds{1}` on a clock that counts nanoseconds.
abbrev pub second : ℕ
second = 1000000000

-- `TIME_TO_LIVE`, in seconds
abbrev pub time_to_live : ℕ
time_to_live = 2 * 60 * 60

-- `SECRET`
unfoldable pub secret : Bytes
secret = codes "1uXX4cW#00&xCZPY@IQ*Lf#cAYj#45q~"

-- `Cookie::verifier`
unfoldable pub verifier : Verifier
verifier = record { secret = secret; issuer = codes "foxy-4" }

-- `generate_cookie(username)`: `first` and `now` are what its two calls of the clock give.
unfoldable pub generate_cookie : Jwt → Bytes → ℕ → ℕ → Bytes
generate_cookie j username first now =
    j.sign
      (record {
        issuer = codes "foxy-4";
        issued_at = first;
        expires_at = now + time_to_live * second;
        payload = (codes "username", username) ∷ [];
      })
      secret

-- `verify_cookie(cookie)` at a time; an exception makes it `false`.
unfoldable pub verify_cookie : Jwt → ℕ → Bytes → Bool
unfolding verifier
verify_cookie j time cookie = elim (j.decode cookie) [
  | none ↦ false
  | some decoded ↦ j.verify verifier time decoded
]
