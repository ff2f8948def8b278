-- ===== src/TenantContext/Hex.antt =====
-- What store/internal-context.signer.ts uses of node's Buffer: hexadecimal texts, as lists of
-- character codes, and the bytes that they stand for.
use multi_tenant_subscriptio.Base.{
  Bool, List, Option, [], false, if◌then◌else◌, leb, ltb, none, some, true, ℕ, ◌%◌, ◌&&◌, ◌*◌, ◌+◌,
  ◌-◌, ◌/◌, ◌==◌, ◌∷◌,
}

-- `digest('hex')` writes small letters.
abbrev pub hex_digit : ℕ → ℕ
hex_digit d = if ltb d 10 then 48 + d else 87 + d

abbrev pub to_hex : List ℕ → List ℕ
to_hex [] = []
to_hex (b ∷ bs) = hex_digit (b / 16) ∷ hex_digit (b % 16) ∷ to_hex bs

abbrev pub hex_value : ℕ → Option ℕ
hex_value c =
    if leb 48 c && leb c 57
    then some (c - 48)
    else (if leb 97 c && leb c 102
        then some (c - 87)
        else (if leb 65 c && leb c 70 then some (c - 55) else none))

-- `Buffer.from(text, 'hex')` reads pairs of digits, and stops at the first pair that is none.
abbrev pub from_hex : List ℕ → List ℕ
from_hex [] = []
from_hex (c ∷ []) = []
from_hex (c ∷ c' ∷ cs) = elim (hex_value c) [
  | none ↦ []
  | some hi ↦ elim (hex_value c') [ none ↦ [] | some lo ↦ (16 * hi + lo) ∷ from_hex cs ]
]

-- `timingSafeEqual` of buffers of one length.
abbrev pub eq_bytes : List ℕ → List ℕ → Bool
eq_bytes [] [] = true
eq_bytes (a ∷ as') (b ∷ bs) = (a == b) && eq_bytes as' bs
eq_bytes _ _ = false

-- The list is one of bytes.
abbrev pub are_bytes : List ℕ → Bool
are_bytes [] = true
are_bytes (b ∷ bs) = ltb b 256 && are_bytes bs
