-- ===== src/Codes.antt =====
-- bridge/src/codes.ts: payment codes, their memo, and the Apple account token that is derived from
-- a code. The base58 decoder and SHA-256 are packages: they are arguments.
use Prim.Native.Nat.{bit_and, bit_or}
use Prim.Native.Char.{code}
use Prim.Native.String
use cumulusvpn.Common.{
  ℕ, zero, suc, ◌+◌, ◌-◌, ◌/◌, ◌%◌, String, Bool, false, ◌||◌, Option, none, some, List, [], ◌∷◌,
  ◌++◌, ltb, ◌==◌, if◌then◌else◌, length, take, drop,
}
use cumulusvpn.Common.Decimal.{codes}

-- `code.length`: the UTF-16 units of a text
abbrev pub units : String → ℕ
units String.[] = 0
units (String.◌∷◌ c s) = (if ltb (code c) 0x10000 then 1 else 2) + units s

-- `base58.decode`: the bytes, or `none` where it throws
abbrev pub Decoder : Type 0
Decoder = String → Option (List ℕ)

abbrev pub is_twenty_bytes : Option (List ℕ) → Bool
is_twenty_bytes none = false
is_twenty_bytes (some bytes) = length bytes == 20

unfoldable pub is_valid_payment_code : Decoder → String → Bool
is_valid_payment_code decode s =
    if ltb (units s) 20 || ltb 40 (units s) then false else is_twenty_bytes (decode s)

-- `none`: the call throws
unfoldable pub memo_for_code : Decoder → String → Option String
unfolding is_valid_payment_code
memo_for_code decode s =
    if is_valid_payment_code decode s then some (String.◌++◌ "CVPN1:" s) else none

-- `x.toString(16).padStart(2, '0')` of a byte
abbrev pub hex_digit : ℕ → ℕ
hex_digit d = if ltb d 10 then b'0' + d else b'a' + (d - 10)

unfoldable pub hex_bytes : List ℕ → List ℕ
hex_bytes [] = []
hex_bytes (b ∷ bs) = hex_digit (b / 16) ∷ (hex_digit (b % 16) ∷ hex_bytes bs)

-- `b[i] = f(b[i])`
unfoldable pub modify_at : ℕ → (ℕ → ℕ) → List ℕ → List ℕ
modify_at i f [] = []
modify_at zero f (b ∷ bs) = f b ∷ bs
modify_at (suc i) f (b ∷ bs) = b ∷ modify_at i f bs

abbrev pub stamp_version : ℕ → ℕ
stamp_version b = bit_or (bit_and b 0x0f) 0x40

abbrev pub stamp_variant : ℕ → ℕ
stamp_variant b = bit_or (bit_and b 0x3f) 0x80

-- `hex.slice(0, 8)-hex.slice(8, 12)-…`
abbrev pub dashed : List ℕ → List ℕ
dashed h =
    take 8 h
    ++ b'-'
      ∷ (take 4 (drop 8 h)
          ++ b'-' ∷ (take 4 (drop 12 h) ++ b'-' ∷ (take 4 (drop 16 h) ++ b'-' ∷ drop 20 h)))

unfoldable pub uuid_for_code : (List ℕ → List ℕ) → List ℕ → List ℕ
unfolding hex_bytes modify_at
uuid_for_code sha256 s = dashed (
    hex_bytes (
      modify_at 8 stamp_variant
        (modify_at 6 stamp_version (take 16 (sha256 (codes "cvpn-appaccount:" ++ s))))))
