-- ===== src/TenantContext/HexDecoding.antt =====
-- Hexadecimal texts decode to the bytes that they were written for.
use multi_tenant_subscriptio.Base.{
  &&-eq-true, ==_iff, ==_refl, List, [], arith, ltb, refl, some, true, ℕ, ◌%◌, ◌*◌, ◌+◌, ◌/◌, ◌<◌,
  ◌==◌, ◌∷◌, ◌≡◌,
}
use multi_tenant_subscriptio.TenantContext.Hex.{
  are_bytes, eq_bytes, from_hex, hex_digit, hex_value, to_hex,
}

hex_value-hex_digit : (d : ℕ) → d < 16 → hex_value (hex_digit d) ≡ some d
hex_value-hex_digit d small = ground arith

-- A byte is made of its two digits.
digits : (b : ℕ) → ltb b 256 ≡ true → (b / 16 < 16) × (b % 16 < 16) × (16 * (b / 16) + b % 16 ≡ b)
digits b small = (ground arith, ground arith, omega arith)

-- What `digest('hex')` writes of bytes is read back as the same bytes.
pub from_hex-to_hex : (bs : List ℕ) → are_bytes bs ≡ true → from_hex (to_hex bs) ≡ bs
from_hex-to_hex [] ok = refl
from_hex-to_hex (b ∷ bs) ok =
    let (small, rest) = &&-eq-true (ltb b 256) (are_bytes bs) ok in
    let (hi, lo, sum) = digits b small in
    let h1 = hex_value-hex_digit (b / 16) hi in
    let h2 = hex_value-hex_digit (b % 16) lo in let again = from_hex-to_hex bs rest in ground arith

pub eq_bytes_refl : (bs : List ℕ) → eq_bytes bs bs ≡ true
eq_bytes_refl [] = refl
eq_bytes_refl (b ∷ bs) = let self = ==_refl b in let rest = eq_bytes_refl bs in ground arith

pub eq_bytes_sound : (as' bs : List ℕ) → eq_bytes as' bs ≡ true → as' ≡ bs
eq_bytes_sound [] [] same = refl
eq_bytes_sound [] (b ∷ bs) same = ground arith
eq_bytes_sound (a ∷ as') [] same = ground arith
eq_bytes_sound (a ∷ as') (b ∷ bs) same =
    let (head, tail) = &&-eq-true (a == b) (eq_bytes as' bs) same in
    let here : a ≡ b = (==_iff a b).0 head in
    let rest = eq_bytes_sound as' bs tail in rw here (rw rest refl)
