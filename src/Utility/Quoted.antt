-- ===== src/Utility/Quoted.antt =====
-- `utility::is_quoted` on a text in quotation marks, and on a single one.
use foxy_4_web_server.Base.{throws, ok, refl, true, false, none, some}
use foxy_4_web_server.Base.{
  ◌==◌, out_of_range, ok, throws, ℕ, ◌≡◌, refl, ap, ◌∙◌, true, false, none, some, [], ◌∷◌, ◌++◌,
}
use foxy_4_web_server.Base.Bytes.{
  Bytes, codes, last?, drop_last, last?-append_one, drop_last-append_one,
}
use foxy_4_web_server.Boost.{begins, ends, Boost}
use foxy_4_web_server.Utility.{erase_last, with_slash, is_quoted}

-- A text in quotation marks.
abbrev pub quoted : Bytes → Bytes
quoted s = b'"' ∷ (s ++ codes "\"")

erase_last-append : (s : Bytes) (c : ℕ) → erase_last (s ++ c ∷ []) ≡ ok s
unfolding erase_last drop_last
erase_last-append [] c = refl
erase_last-append (x ∷ s) c = ap ok (drop_last-append_one (x ∷ s) c)

-- A quoted text is accepted, without its marks and with a slash at its end.
pub is_quoted-quoted : ⦃b : Boost⦄ (s : Bytes) → is_quoted (quoted s) ≡ ok (true, with_slash s)
unfolding is_quoted begins ends with_slash
is_quoted-quoted ⦃b⦄ s =
    let starts : b.starts_with (quoted s) (codes "\"") ≡ true = b.starts_with_one (quoted s) b'"' in
    let end_mark : b.ends_with (quoted s) (codes "\"") ≡ true =
      b.ends_with_one (quoted s) b'"'
      ∙ ap (λ o. elim o [ none ↦ false | some x ↦ x == b'"' ]) (last?-append_one (b'"' ∷ s) b'"') in
    rw (is_quoted, starts, end_mark, erase_last-append s b'"') refl

-- One quotation mark is at both ends, and erasing it twice throws.
pub is_quoted_of_one : ⦃b : Boost⦄ → is_quoted (codes "\"") ≡ throws out_of_range
unfolding is_quoted erase_last begins ends last?
is_quoted_of_one ⦃b⦄ =
    rw (is_quoted, b.starts_with_one (codes "\"") b'"', b.ends_with_one (codes "\"") b'"') refl
