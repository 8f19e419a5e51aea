-- ===== src/Base/Text/RoundTrip.antt =====
-- `std::stoi` reads what `std::to_string` writes.
use Prim.Native.Nat.{ℕ, zero, suc, ◌+◌, ◌-◌, ◌*◌, ◌/◌, ◌%◌, ◌≤◌, ◌<◌}
use mathlib.Core.Path.{◌≡◌, ◌∙◌, ap}
use mathlib.Core.Bool.{Bool, true, false}
use mathlib.Core.Logic.{inl, inr}
use mathlib.Core.List.{[], ◌∷◌, ◌++◌}
use native.Mathlib.Omega.{arith}
use foxy_4_web_server.Base.Tests.{ltb, ◌==◌, Bool-cases, ltb→lt}
use foxy_4_web_server.Base.Lists.{all}
use foxy_4_web_server.Base.Results.{ok}
use foxy_4_web_server.Base.Bytes.{Bytes}
use foxy_4_web_server.Base.Int.{pos}
use foxy_4_web_server.Base.Text.{
  int_max, is_decimal, digits, to_string, scan, unsigned, signed, skip_space, magnitude, stoi,
  is_space,
}

all-append_one :
    (p : ℕ → Bool) (s : Bytes) (c : ℕ) → all p s ≡ true → p c ≡ true → all p (s ++ c ∷ []) ≡ true
all-append_one p [] c h k = ground arith
all-append_one p (x ∷ s) c h k = ground (arith, all-append_one p s c)

scan-append_one :
    (acc : ℕ) (s : Bytes) (c : ℕ)
    → all is_decimal s ≡ true
    → is_decimal c ≡ true
    → scan acc (s ++ c ∷ []) ≡ scan acc s * 10 + (c - b'0')
unfolding scan
scan-append_one acc [] c h k = ground arith
scan-append_one acc (x ∷ s) c h k = ground (arith, scan-append_one (acc * 10 + (x - b'0')) s c)

digit-is_decimal : (n : ℕ) → n < 10 → is_decimal (b'0' + n) ≡ true
unfolding is_decimal
digit-is_decimal n h = ground arith

-- All the bytes are digits, and their value is the number.
digits_lem : (f n : ℕ) → n < f → (all is_decimal (digits f n) ≡ true) × (scan 0 (digits f n) ≡ n)
unfolding digits scan
digits_lem zero n h = absurd (omega arith)
digits_lem (suc f) n h = elim (Bool-cases (ltb n 10)) [
  | inl small ↦ rw small (
    ground (arith, digit-is_decimal n (ltb→lt n 10 small)),
    ground (arith, digit-is_decimal n (ltb→lt n 10 small)),
  )
  | inr large ↦
      let (d, v) = digits_lem f (n / 10) (ground arith) in
      let k = digit-is_decimal (n % 10) (omega arith) in
      rw large (all-append_one is_decimal _ _ d k, scan-append_one 0 _ _ d k ∙ rw v (omega arith))
]

-- A number has a digit in front.
digits_head :
    (f n : ℕ) → n < f → (c : ℕ) × (s : Bytes) × (digits f n ≡ c ∷ s) × (is_decimal c ≡ true)
unfolding digits
digits_head zero n h = absurd (omega arith)
digits_head (suc f) n h = elim (Bool-cases (ltb n 10)) [
  | inl small ↦ (b'0' + n, [], rw small, digit-is_decimal n (ltb→lt n 10 small))
  | inr large ↦
      let (c, s, e, d) = digits_head f (n / 10) (ground arith) in
      (c, s ++ (b'0' + n % 10) ∷ [], rw (large, e), d)
]

decimal_not_space : (c : ℕ) → is_decimal c ≡ true → is_space c ≡ false
unfolding is_decimal is_space
decimal_not_space c h = ground arith

decimal_not_sign : (c : ℕ) → is_decimal c ≡ true → ((c == b'-') ≡ false) × ((c == b'+') ≡ false)
unfolding is_decimal
decimal_not_sign c h = (ground arith, ground arith)

stoi_of_decimal :
    (c : ℕ) (s : Bytes)
    → is_decimal c ≡ true
    → scan 0 (c ∷ s) ≤ int_max
    → stoi (c ∷ s) ≡ ok (pos (scan 0 (c ∷ s)))
unfolding stoi skip_space signed unsigned magnitude
stoi_of_decimal c s d h =
    let (minus, plus) = decimal_not_sign c d in
    let small = rw (d, scan) at h in
    rw (decimal_not_space c d, skip_space)
      (rw (minus, signed) (rw (plus, signed) (rw (d, unsigned) (ground (arith, small)))))

-- A number that fits an `int` is read back.
pub stoi-to_string : (n : ℕ) → n ≤ int_max → stoi (to_string n) ≡ ok (pos n)
unfolding to_string
stoi-to_string n h =
    let (c, s, e, d) = digits_head (n + 1) n (omega arith) in
    let v = (digits_lem (n + 1) n (omega arith)).1 in
    rw e (stoi_of_decimal c s d (rw (← e) (rw v h)) ∙ ap (λ x. ok (pos x)) (rw (← e) v))
