-- ===== src/Tests/Visits.antt =====
-- A client with a cookie at concrete inputs.
use foxy_4_web_server.Handlers.Static
use foxy_4_web_server.Http.{Method, Request}
use foxy_4_web_server.Handlers.Static.{StaticHandler}
use foxy_4_web_server.Base.{some, none, refl, ◌≡◌, ◌-◌}
use foxy_4_web_server.Base.{
  leb, ◌==◌, if◌then◌else◌, length, All, ℕ, ◌+◌, ◌-◌, ◌≡◌, refl, sym, ap, not, ◌&&◌, Option, none,
  some, [], ◌∷◌, arith,
}
use foxy_4_web_server.Base.Bytes.{Bytes, codes, same, starts_with, contains}
use foxy_4_web_server.Base.Dict.{lookup}
use foxy_4_web_server.Cookie.{Claims, Jwt}
use foxy_4_web_server.Cookie.Lifetime.{whole, IsCookieByte, IsJwt, is_current}
use foxy_4_web_server.Handlers.Static.{StaticHandler, prepare_redirect}
use foxy_4_web_server.Handlers.Login.{Services}
use foxy_4_web_server.Handlers.Visits.{
  outside_at, kept, with_cookies, set_cookie, visited, signed_in_visits,
}
use foxy_4_web_server.Tests.Accounts.{
  Rows, has_table, view_rows, tables-IsTable, services, pages, sign_up, sign_in, sign_up-IsForm,
  sign_in-IsForm,
}
use foxy_4_web_server.Tests.Library.{string_tests}

-- Tokens of numbers above 99: the two dates and the issuer.
abbrev shift_up : Bytes → Bytes
shift_up [] = []
shift_up (c ∷ s) = (c + 100) ∷ shift_up s

abbrev shift_down : Bytes → Bytes
shift_down [] = []
shift_down (c ∷ s) = (c - 100) ∷ shift_down s

shift_down-shift_up : (s : Bytes) → shift_down (shift_up s) ≡ s
shift_down-shift_up [] = refl
shift_down-shift_up (c ∷ s) =
    let same_code : c + 100 - 100 ≡ c = omega arith in rw (same_code, shift_down-shift_up s) refl

shift_up-IsCookieByte : (s : Bytes) → All IsCookieByte (shift_up s)
shift_up-IsCookieByte [] = tt
shift_up-IsCookieByte (c ∷ s) = ((ground arith, ground arith), shift_up-IsCookieByte s)

abbrev read_claims : Bytes → Option (Bytes × ℕ × ℕ)
read_claims (a ∷ b ∷ s) = some (shift_down s, a - 100, b - 100)
read_claims _ = none

abbrev numbers : Jwt
numbers = record {
  Decoded = Bytes × ℕ × ℕ;
  sign = λ c s. shift_up (c.issued_at ∷ c.expires_at ∷ c.issuer);
  decode = read_claims;
  verify = λ v time (issuer, issued, expires).
      same v.issuer issuer && leb (whole issued) time && leb time (whole expires);
}

numbers-decodes :
    (c : Claims) (s : Bytes)
    → numbers.decode (numbers.sign c s) ≡ some (c.issuer, c.issued_at, c.expires_at)
numbers-decodes c s =
    let issued : c.issued_at + 100 - 100 ≡ c.issued_at = omega arith in
    let expires : c.expires_at + 100 - 100 ≡ c.expires_at = omega arith in
    rw (shift_down-shift_up c.issuer, issued, expires) refl

numbers-IsJwt : IsJwt numbers
numbers-IsJwt = record {
  decodes = λ c s. ((c.issuer, c.issued_at, c.expires_at), numbers-decodes c s);
  verifies = λ c v d time e.
      let same_token : (c.issuer, c.issued_at, c.expires_at) ≡ d =
        cc (numbers-decodes c v.secret, e) in
      ap (numbers.verify v time) (sym same_token);
  cookie_bytes = λ c s. shift_up-IsCookieByte (c.issued_at ∷ c.expires_at ∷ c.issuer);
}

-- What the clock gives to the two calls.
abbrev opened : Rows → ℕ
opened w = 5

abbrev ended : Rows → ℕ
ended w = 6

abbrev guarded : StaticHandler
guarded = record { root = codes "/data/"; path = codes "/static/"; auth_path = codes "/auth/" }

abbrev signed_in : Services Rows
signed_in = with_cookies numbers opened ended services

abbrev visitor : Request
visitor = record {
  method = Method.get;
  uri = codes "/static/x";
  http_version = codes "1.1";
  headers =
      (codes "Cookie", kept (set_cookie (visited signed_in pages sign_up [] sign_in (some [])).0))
      ∷ [];
  body = [];
}

signed_in_visits_example :
    Static.handle_request ⦃b = string_tests⦄ guarded (outside_at numbers (λ name. none) 10) visitor
    ≡ (if not (length guarded.auth_path == 0)
          && not (
              is_current
                (opened (visited signed_in pages sign_up [] sign_in (some [])).1)
                (ended (visited signed_in pages sign_up [] sign_in (some [])).1)
                10)
        then prepare_redirect guarded
        else Static.handle_request ⦃b = string_tests⦄
            (record guarded { auth_path = [] })
            (outside_at numbers (λ name. none) 10)
            visitor)
unfolding lookup contains starts_with same
signed_in_visits_example =
    signed_in_visits ⦃b = string_tests⦄ numbers opened ended services has_table view_rows
      tables-IsTable pages sign_up sign_in [] (codes "ann") (codes "pw") (some []) guarded
      (λ name. none) 10 visitor numbers-IsJwt sign_up-IsForm sign_in-IsForm refl refl refl refl refl
      refl
