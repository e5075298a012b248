-- ===== src/Split/RoundTrip.antt =====
-- Blocks of clients/core-ts/src/split.ts as texts and back: `formatCidr` and `parseCidr`.
use native.Mathlib.Nat.{mul-div_left}
use cumulusvpn.Common.{
  ℕ, ◌-◌, ◌*◌, ◌/◌, ◌^◌, ◌≤◌, ◌<◌, ◌≡◌, refl, sym, ap, ◌∙◌, Bool, true, false, ◌||◌, some, ltb,
  ◌==◌, All, arith,
}
use cumulusvpn.Common.Decimal.{decimal}
use cumulusvpn.Common.ListLaws.{All-append}
use cumulusvpn.Common.Numeral.{is_digit, before_unit}
use cumulusvpn.Common.Text.{Text, is_space}
use cumulusvpn.Split.Address.{
  with_prefix, of_address, parse_cidr, format_ipv6, format_address, format_cidr,
}
use cumulusvpn.Split.Blocks.{Family, v4, v6, family_bits, Cidr}
use cumulusvpn.Split.Covering.{IsAligned, pow_pos}
use cumulusvpn.Split.Digits.{number_up_to-decimal, decimal-IsDigits}
use cumulusvpn.Split.Groups.{is_grouped, parse_ipv6-format_ipv6, format_ipv6_grouped}
use cumulusvpn.Split.Octets.{
  is_dotted, parse_ipv4-format_ipv4, format_ipv4_dotted, parse_ipv4_without_dot,
}
use cumulusvpn.Split.Pieces.{
  Avoids, All-imp, IsUnspaced, trim-IsUnspaced, before_unit-append, after_unit-append,
  has_unit-append,
}

-- An address of its family, aligned to its prefix.
abbrev pub IsBlock : Cidr → Type 0
IsBlock c = IsAligned c × (c.net < 2 ^ family_bits c.family)

abbrev is_address_unit : ℕ → Bool
is_address_unit c = is_dotted c || is_grouped c

dotted_unit : (c : ℕ) → is_dotted c ≡ true → is_address_unit c ≡ true
dotted_unit c h = ground (arith, h)

grouped_unit : (c : ℕ) → is_grouped c ≡ true → is_address_unit c ≡ true
grouped_unit c h = ground (arith, h)

format_address_units :
    (fam : Family) (net : ℕ) → All (λ c. is_address_unit c ≡ true) (format_address fam net)
format_address_units v4 net = All-imp dotted_unit _ (format_ipv4_dotted net)
format_address_units v6 net = All-imp grouped_unit _ (format_ipv6_grouped net)

unit_no_slash : (c : ℕ) → is_address_unit c ≡ true → (c == 47) ≡ false
unit_no_slash c h = ground (arith, h)

unit_no_space : (c : ℕ) → is_address_unit c ≡ true → is_space c ≡ false
unfolding is_space
unit_no_space c h = ground (arith, h)

digit_no_space : (c : ℕ) → is_digit c ≡ true → is_space c ≡ false
unfolding is_space
digit_no_space c h = ground (arith, h)

grouped_no_dot : (c : ℕ) → is_grouped c ≡ true → (c == 46) ≡ false
grouped_no_dot c h = ground (arith, h)

family_bits_le : (fam : Family) → family_bits fam ≤ 128
family_bits_le v4 = omega arith
family_bits_le v6 = omega arith

prefix_lt_256 : (c : Cidr) → IsAligned c → c.prefix < 256
prefix_lt_256 c h = omega (arith, h.2, family_bits_le c.family)

format_cidr-IsUnspaced : (c : Cidr) → IsAligned c → IsUnspaced (format_cidr c)
unfolding format_cidr is_space
format_cidr-IsUnspaced c h =
    All-append _ (format_address c.family c.net) _
      (All-imp unit_no_space _ (format_address_units c.family c.net))
      (refl, All-imp digit_no_space _ (decimal-IsDigits c.prefix (prefix_lt_256 c h)))

masked_again : (net q size : ℕ) → 0 < size → net ≡ q * size → net / size * size ≡ net
masked_again net q size pos e =
    ap (λ n. n / size * size) e ∙ (ap (λ n. n * size) (mul-div_left q pos) ∙ sym e)

address-Avoids_slash : (c : Cidr) → Avoids 47 (format_address c.family c.net)
address-Avoids_slash c = All-imp unit_no_slash _ (format_address_units c.family c.net)

with_prefix-format_cidr :
    (c : Cidr) → IsAligned c → with_prefix c.family c.net (format_cidr c) ≡ some c
unfolding with_prefix format_cidr
with_prefix-format_cidr c h =
    rw
      (
        has_unit-append 47 (format_address c.family c.net) (decimal c.prefix) refl,
        after_unit-append 47 (format_address c.family c.net) (decimal c.prefix)
            (address-Avoids_slash c) refl,
        number_up_to-decimal c.prefix (prefix_lt_256 c h),
        within,
        masked_again c.net h.0 (2 ^ (family_bits c.family - c.prefix))
            (pow_pos (family_bits c.family - c.prefix)) h.1,
      )
      refl
  where
    within : ltb (family_bits c.family) c.prefix ≡ false
    within = ground (arith, h.2)

address_before : (c : Cidr) → before_unit 47 (format_cidr c) ≡ format_address c.family c.net
unfolding format_cidr
address_before c =
    before_unit-append 47 (format_address c.family c.net) (decimal c.prefix)
      (address-Avoids_slash c) refl

-- The parser of the family's addresses is the one that is taken.
take_family :
    (fam : Family) (net : ℕ) (t : Text)
    → net < 2 ^ family_bits fam
    → of_address (format_address fam net) t ≡ with_prefix fam net t
unfolding of_address
take_family v4 net t l = rw (of_address, parse_ipv4-format_ipv4 net l) refl
take_family v6 net t l =
    rw
      (
        of_address,
        parse_ipv4_without_dot (format_ipv6 net)
            (All-imp grouped_no_dot _ (format_ipv6_grouped net)),
        parse_ipv6-format_ipv6 net l,
      )
      refl

-- A block of its family, whose address is a multiple of its size, is read back from its text.
pub parse_cidr-format_cidr : (c : Cidr) → IsBlock c → parse_cidr (format_cidr c) ≡ some c
unfolding parse_cidr
parse_cidr-format_cidr c h =
    ap (λ t. of_address (before_unit 47 t) t) (trim-IsUnspaced _ (format_cidr-IsUnspaced c h.0))
    ∙ (ap (λ a. of_address a (format_cidr c)) (address_before c)
        ∙ (take_family c.family c.net (format_cidr c) h.1 ∙ with_prefix-format_cidr c h.0))
