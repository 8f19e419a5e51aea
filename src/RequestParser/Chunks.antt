-- ===== src/RequestParser/Chunks.antt =====
-- What the loop has read, and the count of it.
use foxy_4_web_server.Base.{
  ℕ, ◌+◌, ◌<◌, ◌^◌, [], ◌∷◌, ◌++◌, ◌∙◌, ◌≡◌, refl, ap, arith, length, length-append, Bool-cases,
  inl, inr,
}
use foxy_4_web_server.Base.Bytes.{Bytes}
use foxy_4_web_server.Http.{Request}
use foxy_4_web_server.RequestParser.{
  State, RequestParser, consume, consume_in, ends_parse, parse, count_char,
}

-- What is not read is the end of the input.
parse_splits :
    (s : Bytes) (p : RequestParser) (r : Request) → (read : Bytes) × (s ≡ read ++ (parse p r s).3)
unfolding parse
parse_splits [] p r = ([], refl)
parse_splits (c ∷ s) p r =
    let step = consume p r c in
    elim (Bool-cases (ends_parse step.0)) [
      | inl ended ↦ (c ∷ [], rw ended refl)
      | inr on ↦
          let (read, e) = parse_splits s (count_char step.1) step.2 in
          (c ∷ read, rw on (ap (◌∷◌ c) e))
    ]

-- No case of the switch touches the count.
consume_in-n_char_parsed :
    (st : State) (p : RequestParser) (r : Request) (c : ℕ)
    → (consume_in st p r c).1.n_char_parsed ≡ p.n_char_parsed
unfolding consume_in
consume_in-n_char_parsed State.method_start p r c = ground arith
consume_in-n_char_parsed _ p r c = ground arith

consume-n_char_parsed :
    (p : RequestParser) (r : Request) (c : ℕ) → (consume p r c).1.n_char_parsed ≡ p.n_char_parsed
consume-n_char_parsed p r c = consume_in-n_char_parsed p.state p r c

-- The count grows by what the loop reads.
pub parse-n_char_parsed :
    (s : Bytes) (p : RequestParser) (r : Request)
    → p.n_char_parsed + length s < 2 ^ 32
    → (parse p r s).1.n_char_parsed + length (parse p r s).3 ≡ p.n_char_parsed + length s
unfolding parse count_char
parse-n_char_parsed [] p r h = refl
parse-n_char_parsed (c ∷ s) p r h =
    let step = consume p r c in
    let same = consume-n_char_parsed p r c in
    elim (Bool-cases (ends_parse step.0)) [
      | inl ended ↦ rw ended (omega arith)
      | inr on ↦
          rw on (omega (arith, parse-n_char_parsed s (count_char step.1) step.2 (omega arith)))
    ]

-- The loop reads at least one byte of a text that is not empty.
pub parse_reads :
    (c : ℕ) (s : Bytes) (p : RequestParser) (r : Request)
    → length (parse p r (c ∷ s)).3 < length (c ∷ s)
unfolding parse
parse_reads c s p r =
    let step = consume p r c in
    elim (Bool-cases (ends_parse step.0)) [
      | inl ended ↦ rw ended (omega arith)
      | inr on ↦
          let (read, e) = parse_splits s (count_char step.1) step.2 in
          let rest = (parse (count_char step.1) step.2 s).3 in
          let sum : length s ≡ length read + length rest = ap length e ∙ length-append read rest in
          rw on (omega arith)
    ]
