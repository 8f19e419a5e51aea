-- ===== src/RequestParser/Runs.antt =====
-- Runs of the loop over a piece of the input, whatever follows it.
use foxy_4_web_server.Base.{ℕ, ◌+◌, ◌%◌, ◌^◌, [], ◌∷◌, ◌++◌, ◌≡◌, refl, ◌∙◌, append_assoc}
use foxy_4_web_server.Base.Bytes.{Bytes}
use foxy_4_web_server.Http.{Request}
use foxy_4_web_server.RequestParser.{RequestParser, indeterminate, consume, parse, count_char}

abbrev pub at : ℕ → RequestParser → RequestParser
at n p = record p { n_char_parsed = n }

-- From `p` and `r` the parser reads `s` and goes on from `q` and `r'`; only the count of bytes is
-- left open.
pub record Runs (p : RequestParser) (r : Request) (s : Bytes) (q : RequestParser) (r' : Request)
    : Type 0 where
  pub run :
      (n : ℕ) (rest : Bytes) → (m : ℕ) × (parse (at n p) r (s ++ rest) ≡ parse (at m q) r' rest)

module _ {p q : RequestParser} {r r' : Request} where
  pub Runs-one :
      (c : ℕ)
      → ((n : ℕ) → consume (at n p) r c ≡ (indeterminate, at n q, r'))
      → Runs p r (c ∷ []) q r'
  unfolding parse count_char
  Runs-one c h = record { run = λ n rest. ((n + 1) % 2 ^ 32, rw (h n)) }

  pub Runs-append :
      {t : RequestParser} {r'' : Request} {a b : Bytes}
      → Runs p r a q r'
      → Runs q r' b t r''
      → Runs p r (a ++ b) t r''
  Runs-append {b} h k = record {
    run = λ n rest.
        let (m, e) = h.run n (b ++ rest) in
        let (l, f) = k.run m rest in (l, rw append_assoc (e ∙ f));
  }

pub Runs-stop : (p : RequestParser) (r : Request) → Runs p r [] p r
Runs-stop p r = record { run = λ n rest. (n, refl) }

-- The same bytes, grouped another way.
pub Runs-eq :
    {p q : RequestParser} {r r' : Request} {a b : Bytes} → a ≡ b → Runs p r a q r' → Runs p r b q r'
Runs-eq e h = rw e at h
