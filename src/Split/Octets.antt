-- ===== src/Split/Octets.antt =====
-- The text of an IPv4 address, read back.
use cumulusvpn.Common.{
  ℕ, ◌+◌, ◌*◌, ◌/◌, ◌%◌, ◌^◌, ◌<◌, ◌≡◌, refl, ap, ◌∙◌, Bool, true, false, ◌||◌, none, some, List,
  [], ◌∷◌, ◌==◌, All, arith,
}
use cumulusvpn.Common.Decimal.{decimal}
use cumulusvpn.Common.Numeral.{is_digit}
use cumulusvpn.Common.Text.{Text}
use cumulusvpn.Split.Address.{octet, join_octets, parse_ipv4, format_ipv4}
use cumulusvpn.Split.Digits.{octet-decimal, decimal-IsDigits}
use cumulusvpn.Split.Pieces.{Avoids, split_unit-join, split_unit-Avoids, All-imp, join-All}

abbrev pub is_dotted : ℕ → Bool
is_dotted c = is_digit c || c == 46

digit_avoids_dot : (c : ℕ) → is_digit c ≡ true → (c == 46) ≡ false
digit_avoids_dot c h = ground (arith, h)

dotless : (n : ℕ) → Avoids 46 (decimal (n % 256))
dotless n = All-imp digit_avoids_dot _ (decimal-IsDigits (n % 256) (omega arith))

pub join_octets_cons :
    (out : ℕ) (part : Text) (parts : List Text) (n : ℕ)
    → octet part ≡ some n
    → join_octets out (part ∷ parts) ≡ join_octets (out * 256 + n) parts
unfolding join_octets
join_octets_cons out part parts n e = rw (join_octets, e) refl

join_octets-decimal :
    (a b c d : ℕ)
    → a < 256
    → b < 256
    → c < 256
    → d < 256
    → join_octets 0 (decimal a ∷ decimal b ∷ decimal c ∷ decimal d ∷ [])
      ≡ some ((((0 * 256 + a) * 256 + b) * 256 + c) * 256 + d)
unfolding join_octets
join_octets-decimal a b c d la lb lc ld =
    join_octets_cons 0 (decimal a) (decimal b ∷ decimal c ∷ decimal d ∷ []) a (octet-decimal a la)
    ∙ (join_octets_cons (0 * 256 + a) (decimal b) (decimal c ∷ decimal d ∷ []) b
          (octet-decimal b lb)
        ∙ (join_octets_cons ((0 * 256 + a) * 256 + b) (decimal c) (decimal d ∷ []) c
              (octet-decimal c lc)
            ∙ join_octets_cons (((0 * 256 + a) * 256 + b) * 256 + c) (decimal d) [] d
                (octet-decimal d ld)))

pub parse_ipv4-format_ipv4 : (v : ℕ) → v < 2 ^ 32 → parse_ipv4 (format_ipv4 v) ≡ some v
unfolding parse_ipv4 format_ipv4
parse_ipv4-format_ipv4 v l =
    rw
      (split_unit-join 46 (decimal (v / 16777216 % 256))
        (decimal (v / 65536 % 256) ∷ decimal (v / 256 % 256) ∷ decimal (v % 256) ∷ []) refl
        (dotless (v / 16777216), (dotless (v / 65536), (dotless (v / 256), (dotless v, tt)))))
      (join_octets-decimal _ _ _ _ (omega arith) (omega arith) (omega arith) (omega arith)
        ∙ ap some (omega (arith, l)))

digit_is_dotted : (c : ℕ) → is_digit c ≡ true → is_dotted c ≡ true
digit_is_dotted c h = ground (arith, h)

dotted : (n : ℕ) → All (λ c. is_dotted c ≡ true) (decimal (n % 256))
dotted n = All-imp digit_is_dotted _ (decimal-IsDigits (n % 256) (omega arith))

pub format_ipv4_dotted : (v : ℕ) → All (λ c. is_dotted c ≡ true) (format_ipv4 v)
unfolding format_ipv4
format_ipv4_dotted v =
    join-All _ (46 ∷ []) _ (refl, tt)
      (dotted (v / 16777216), (dotted (v / 65536), (dotted (v / 256), (dotted v, tt))))

-- A text without a dot is not an IPv4 address.
pub parse_ipv4_without_dot : (s : Text) → Avoids 46 s → parse_ipv4 s ≡ none
unfolding parse_ipv4
parse_ipv4_without_dot s h = rw (split_unit-Avoids 46 s h) refl
