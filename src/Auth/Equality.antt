-- ===== src/Auth/Equality.antt =====
-- Equality in constant time is equality.
use Prim.Native.Nat.{bit_or, bit_xor}
use rdws_us.Prelude.{
  if◌then◌else◌, ℕ, Bool, true, ◌&&◌, not, List, [], ◌∷◌, eqb, ltb, length, ◌≡◌, refl, arith, All,
  ◌↔◌, eqb_iff, ap, get_or, Bool-cases, inl, inr,
}
use rdws_us.Prelude.Text.{all_below, all_below_sound}
use rdws_us.Auth.Base64.{difference, constant_time_equal}
use rdws_us.Auth.RoundTrip.{IsByte}

abbrev tail : List ℕ → List ℕ
tail [] = []
tail (x ∷ xs) = xs

beq : Bool → Bool → Bool
beq a b = if a then b else not b

bits_agree : ℕ → ℕ → Bool
bits_agree a b =
    beq (eqb (bit_xor a b) 0) (eqb a b)
    && beq (eqb (bit_or a b) 0) (eqb a 0 && eqb b 0)
    && ltb (bit_xor a b) 256
    && ltb (bit_or a b) 256

bits_row : ℕ → Bool
bits_row a = all_below 256 (bits_agree a)

bits_table : all_below 256 bits_row ≡ true
unfolding all_below bits_row bits_agree beq
bits_table = refl

bits_lem : (a b : ℕ) → IsByte a → IsByte b → bits_agree a b ≡ true
unfolding bits_row
bits_lem a b ha hb =
    all_below_sound 256 (bits_agree a) b (all_below_sound 256 bits_row a bits_table ha) hb

xor_lem : (a b : ℕ) → IsByte a → IsByte b → (eqb (bit_xor a b) 0 ≡ eqb a b) × IsByte (bit_xor a b)
unfolding bits_agree beq
xor_lem a b ha hb = ground (arith, bits_lem a b ha hb)

or_lem :
    (a b : ℕ)
    → IsByte a
    → IsByte b
    → (eqb (bit_or a b) 0 ≡ (eqb a 0 && eqb b 0)) × IsByte (bit_or a b)
unfolding bits_agree beq
or_lem a b ha hb = ground (arith, bits_lem a b ha hb)

step_lem :
    (d x y : ℕ)
    → IsByte d
    → IsByte x
    → IsByte y
    → IsByte (bit_or d (bit_xor x y)) × ((bit_or d (bit_xor x y) ≡ 0) ↔ ((d ≡ 0) × (x ≡ y)))
step_lem d x y hd hx hy =
    let (xor, xor_byte) = xor_lem x y hx hy in
    let (or, or_byte) = or_lem d (bit_xor x y) hd xor_byte in
    (or_byte, ((λ h. ground (arith, xor, or, h)), (λ h. ground (arith, xor, or, h))))

difference_lem :
    (d : ℕ) (a b : List ℕ)
    → IsByte d
    → All IsByte a
    → All IsByte b
    → length a ≡ length b
    → (difference d a b ≡ 0) ↔ ((d ≡ 0) × (a ≡ b))
unfolding difference
difference_lem d [] [] hd ha hb same = ((λ h. (h, refl)), (λ h. h.0))
difference_lem d [] (y ∷ ys) hd ha hb same = absurd (omega arith)
difference_lem d (x ∷ xs) [] hd ha hb same = absurd (omega arith)
difference_lem d (x ∷ xs) (y ∷ ys) hd ha hb same =
    let (byte, step) = step_lem d x y hd ha.0 hb.0 in
    let rest = difference_lem (bit_or d (bit_xor x y)) xs ys byte ha.1 hb.1 (omega arith) in
    (
      (λ h.
          let (zero_now, tails) = rest.0 h in
          let (zero_before, heads) = step.0 zero_now in (zero_before, cc)),
      (λ h. rest.1 (step.1 (h.0, ap (λ l. get_or l 0 0) h.1), ap tail h.1)),
    )

-- For bytes, equality in constant time is equality.
pub constant_time_equal_iff :
    (a b : List ℕ) → All IsByte a → All IsByte b → (constant_time_equal a b ≡ true) ↔ (a ≡ b)
unfolding constant_time_equal
constant_time_equal_iff a b ha hb = elim (Bool-cases (eqb (length a) (length b))) [
  | inl same ↦
      let rest =
        difference_lem 0 a b (omega arith) ha hb ((eqb_iff (length a) (length b)).0 same) in
      rw same (
        (λ h. (rest.0 ((eqb_iff (difference 0 a b) 0).0 h)).1),
        (λ h. (eqb_iff (difference 0 a b) 0).1 (rest.1 (refl, h))),
      )
  | inr differ ↦ ((λ h. ground (arith, differ, h)), (λ h. ground (arith, differ, ap length h)))
]
