-- ===== src/Handlers/Proxy/Links.antt =====
-- The links of a page.
use foxy_4_web_server.Base.{
  ℕ, zero, suc, ◌+◌, ◌-◌, ◌<◌, ◌≤◌, Option, none, some, true, false, [], ◌∷◌, ◌++◌, ◌≡◌, ◌≢◌, refl,
  arith, length, drop, leb, Outcome, ok, Option-cases, Bool-cases, inl, inr, ◌==◌, All,
  if◌then◌else◌,
}
use foxy_4_web_server.Base.Bytes.{Bytes, codes, find, last?, drop_last}
use foxy_4_web_server.Base.Bytes.{starts_with-append}
use foxy_4_web_server.Base.Bytes.Occurs.{find_of_prefix}
use foxy_4_web_server.Handlers.Proxy.{before_quote, next_link, clean_loop, clean_html}

length-drop : (n : ℕ) (s : Bytes) → length (drop n s) ≤ length s - n
length-drop zero s = omega arith
length-drop (suc n) [] = omega arith
length-drop (suc n) (c ∷ s) = omega (arith, length-drop n s)

clean_loop_ends :
    (f : ℕ) (path cleaned body : Bytes) → length body < f → clean_loop f path cleaned body ≢ none
unfolding clean_loop
clean_loop_ends zero path cleaned body h e = omega arith
clean_loop_ends (suc f) path cleaned body h e = elim (Option-cases (next_link body)) [
  | inl last ↦
      let other : Option.some (cleaned ++ body) ≡ none = rw (clean_loop, last) at e in cc other
  | inr (start, linked) ↦
      let j = start + before_quote (drop start body) in
      let back = drop (j + 1) body in
      let there = rw (clean_loop, linked) at e in
      elim (Bool-cases (leb (length body) (j + 1))) [
        | inl over ↦
            let other : Option.some ((cleaned ++ body) ++ body) ≡ none = rw over at there in
            cc other
        | inr on ↦
            let less : length body ≤ j + 1 → ⊥ = ground arith in
            clean_loop_ends f path _ back (omega (arith, length-drop (j + 1) body)) (rw on at there)
      ]
]

-- Without a link the page is as it was, whatever the location.
clean_loop_plain :
    (f : ℕ) (path cleaned body : Bytes)
    → next_link body ≡ none
    → clean_loop (suc f) path cleaned body ≡ some (cleaned ++ body)
unfolding clean_loop
clean_loop_plain f path cleaned body e = rw (clean_loop, e)

-- The rewriting of links ends on every page within its fuel.
pub clean_html_ends : (path body : Bytes) → clean_html path body ≢ none
unfolding clean_html
clean_html_ends path body e = elim (Option-cases (last? path)) [
  | inl missing ↦
      let other : Option.some Outcome.undefined ≡ none = rw (clean_html, missing) at e in cc other
  | inr (c, found) ↦
      let location = (if c == b'/' then drop_last path else path) in
      elim (Option-cases (clean_loop (length body + 1) location [] body)) [
        | inl out ↦ clean_loop_ends (length body + 1) location [] body (omega arith) out
        | inr (cleaned, ended) ↦
            let other : Option.some (Outcome.ok cleaned) ≡ none =
              rw (clean_html, found, ended) at e in
            cc other
      ]
]

unquoted-length : (s : Bytes) → All (λ c. (c == b'"') ≡ false) s → before_quote s ≡ length s
unfolding before_quote
unquoted-length [] h = refl
unquoted-length (c ∷ s) (other, h) = rw (other, unquoted-length s h)

last?-cons : (c : ℕ) (s : Bytes) → (x : ℕ) × (last? (c ∷ s) ≡ some x)
unfolding last?
last?-cons c [] = (c, refl)
last?-cons c (d ∷ s) = last?-cons d s

next_link-href :
    (rest : Bytes)
    → find (codes "href" ++ rest) (codes "src") ≡ none
    → next_link (codes "href" ++ rest) ≡ some 4
unfolding next_link
next_link-href rest no_src =
    let first =
      find_of_prefix (codes "href" ++ rest) (codes "href")
        (starts_with-append (codes "href") rest) in
    rw (next_link, first, no_src)

clean_loop_doubles :
    (f : ℕ) (path cleaned rest : Bytes)
    → find (codes "href" ++ rest) (codes "src") ≡ none
    → All (λ c. (c == b'"') ≡ false) rest
    → clean_loop (suc f) path cleaned (codes "href" ++ rest)
      ≡ some ((cleaned ++ (codes "href" ++ rest)) ++ (codes "href" ++ rest))
unfolding clean_loop
clean_loop_doubles f path cleaned rest no_src unquoted =
    let over : leb (length (codes "href" ++ rest)) (4 + length rest + 1) ≡ true = ground arith in
    rw (clean_loop, next_link-href rest no_src, unquoted-length rest unquoted, over) refl

-- A page whose last link has no quotation mark behind it is sent twice: here one that begins with
-- `href`, and has no `src` and no quotation mark.
pub clean_html_doubles :
    (c : ℕ) (path rest : Bytes)
    → find (codes "href" ++ rest) (codes "src") ≡ none
    → All (λ c. (c == b'"') ≡ false) rest
    → clean_html (c ∷ path) (codes "href" ++ rest)
      ≡ some (ok ((codes "href" ++ rest) ++ (codes "href" ++ rest)))
unfolding clean_html
clean_html_doubles c path rest no_src unquoted =
    let (x, found) = last?-cons c path in
    let one : length (codes "href" ++ rest) + 1 ≡ suc (length (codes "href" ++ rest)) =
      omega arith in
    let body = codes "href" ++ rest in
    let location = (if x == b'/' then drop_last (c ∷ path) else c ∷ path) in
    let looped : clean_loop (length body + 1) location [] body ≡ some (body ++ body) =
      rw one (clean_loop_doubles (length body) location [] rest no_src unquoted) in
    rw (clean_html, found, looped) refl
