-- ===== src/Vouchers/Code.antt =====
-- Voucher codes of bridge/src/db/vouchers.ts: `normalizeCode`, `displayCode`, `generateCode`. A text is
-- the list of its UTF-16 units. `toUpperCase` is the runtime's Unicode table: an argument, of which the
-- theorems use that it is the ASCII mapping on ASCII texts.
use cumulusvpn.Common.{
  ℕ, zero, suc, ◌-◌, ◌%◌, ◌≤◌, ◌<◌, ◌≡◌, ◌⊎◌, refl, ◌∙◌, ap, inl, inr, Bool, true, false, ◌&&◌,
  ◌||◌, Option, none, some, List, [], ◌∷◌, ◌++◌, map, ltb, leb, ◌==◌, if◌then◌else◌, keep, not,
  length, take, drop, All, arith,
}
use mathlib.Core.Option
use cumulusvpn.Common.Decimal.{codes}
use cumulusvpn.Common.ListLaws.{All-append}

-- 31 characters, no 0 O 1 I L
abbrev pub code_alphabet : List ℕ
code_alphabet = codes "23456789ABCDEFGHJKMNPQRSTUVWXYZ"

abbrev pub generated_len : ℕ
generated_len = 10

-- `CODE_ALPHABET.includes(ch)` of one unit
unfoldable pub in_alphabet : ℕ → Bool
in_alphabet c =
    (leb b'2' c && leb c b'9')
    || (leb b'A' c && leb c b'H')
    || (c == b'J')
    || (c == b'K')
    || (c == b'M')
    || (c == b'N')
    || (leb b'P' c && leb c b'Z')

-- `\s` and the dash of `/[\s-]+/g`
unfoldable pub is_separator : ℕ → Bool
is_separator c =
    c == b'-'
    || c == 32
    || (leb 9 c && leb c 13)
    || c == 0xa0
    || c == 0x1680
    || (leb 0x2000 c && leb c 0x200a)
    || c == 0x2028
    || c == 0x2029
    || c == 0x202f
    || c == 0x205f
    || c == 0x3000
    || c == 0xfeff

unfoldable pub strip_separators : List ℕ → List ℕ
strip_separators s = keep (λ c. not (is_separator c)) s

-- `s.startsWith('CVPN')`
abbrev pub starts_cvpn : List ℕ → Bool
starts_cvpn (a ∷ (b ∷ (c ∷ (d ∷ _)))) = a == b'C' && (b == b'V' && (c == b'P' && d == b'N'))
starts_cvpn _ = false

unfoldable pub undress : List ℕ → List ℕ
undress s = if starts_cvpn s && ltb generated_len (length s) then drop 4 s else s

unfoldable pub all_in_alphabet : List ℕ → Bool
all_in_alphabet [] = true
all_in_alphabet (c ∷ s) = in_alphabet c && all_in_alphabet s

unfoldable pub check_code : List ℕ → Option (List ℕ)
unfolding all_in_alphabet
check_code s =
    if ltb (length s) 6 || ltb 20 (length s)
    then none
    else if all_in_alphabet s
    then some s
    else none

unfoldable pub normalize_code : (List ℕ → List ℕ) → List ℕ → Option (List ℕ)
unfolding strip_separators undress check_code
normalize_code upper input = check_code (undress (strip_separators (upper input)))

unfoldable pub display_code : List ℕ → List ℕ
display_code canonical =
    if length canonical == generated_len
    then codes "CVPN-" ++ (take 5 canonical ++ b'-' ∷ drop 5 canonical)
    else canonical

-- `randomChar` over the bytes that the generator draws: bytes from 248 on are rejected. `none`: the
-- bytes given ran out.
abbrev nth : ℕ → List ℕ → ℕ
nth i [] = 0
nth zero (c ∷ s) = c
nth (suc i) (c ∷ s) = nth i s

unfoldable pub generate_code : ℕ → List ℕ → Option (List ℕ)
generate_code zero bytes = some []
generate_code (suc n) [] = none
generate_code (suc n) (b ∷ bytes) =
    let taken = Option.map (λ s. nth (b % 31) code_alphabet ∷ s) (generate_code n bytes) in
    let rejected = generate_code (suc n) bytes in if ltb b 248 then taken else rejected

-- The ASCII part of `toUpperCase`.
abbrev pub ascii_upper : ℕ → ℕ
ascii_upper c = if leb b'a' c && leb c b'z' then c - 32 else c

abbrev pub IsAscii : List ℕ → Type 0
IsAscii s = All (λ c. c < 128) s

abbrev pub IsUpper : (List ℕ → List ℕ) → Type 0
IsUpper upper = (s : List ℕ) → IsAscii s → upper s ≡ map ascii_upper s

abbrev pub InAlphabet : List ℕ → Type 0
InAlphabet s = All (λ c. in_alphabet c ≡ true) s

in_alphabet_range : (c : ℕ) → in_alphabet c ≡ true → (50 ≤ c) × (c ≤ 90)
unfolding in_alphabet
in_alphabet_range c h = ground arith

separator_range : (c : ℕ) → 50 ≤ c → c ≤ 90 → is_separator c ≡ false
unfolding is_separator
separator_range c lo hi = ground arith

separator_not : (c : ℕ) → in_alphabet c ≡ true → is_separator c ≡ false
separator_not c h = let (lo, hi) = in_alphabet_range c h in separator_range c lo hi

InAlphabet-check : (s : List ℕ) → InAlphabet s → all_in_alphabet s ≡ true
unfolding all_in_alphabet
InAlphabet-check [] h = refl
InAlphabet-check (c ∷ s) h = rw (h.0, InAlphabet-check s h.1)

strip-append : (s t : List ℕ) → strip_separators (s ++ t) ≡ strip_separators s ++ strip_separators t
unfolding strip_separators
strip-append [] t = refl
strip-append (c ∷ s) t = ground (arith, strip-append s t)

strip_same : (s : List ℕ) → InAlphabet s → strip_separators s ≡ s
unfolding strip_separators
strip_same [] h = refl
strip_same (c ∷ s) h = ground (arith, separator_not c h.0, strip_same s h.1)

-- What `display_code` prints: canonical characters and dashes.
abbrev IsPrinted : List ℕ → Type 0
IsPrinted s = All (λ c. (c ≡ b'-') ⊎ (in_alphabet c ≡ true)) s

printed_unit : (c : ℕ) → (c ≡ b'-') ⊎ (in_alphabet c ≡ true) → (c < 128) × (ascii_upper c ≡ c)
printed_unit c (inl e) = rw e (omega arith, refl)
printed_unit c (inr h) = let (lo, hi) = in_alphabet_range c h in (omega arith, ground arith)

printed_upper : (s : List ℕ) → IsPrinted s → IsAscii s × (map ascii_upper s ≡ s)
printed_upper [] h = (tt, refl)
printed_upper (c ∷ s) h =
    let (small, same) = printed_unit c h.0 in
    let (smalls, sames) = printed_upper s h.1 in ((small, smalls), rw (same, sames))

take-append-drop : (n : ℕ) (s : List ℕ) → take n s ++ drop n s ≡ s
take-append-drop zero s = refl
take-append-drop (suc n) [] = refl
take-append-drop (suc n) (c ∷ s) = rw (take-append-drop n s)

All-take : (P : ℕ → Type 0) (n : ℕ) (s : List ℕ) → All P s → All P (take n s)
All-take P zero s h = tt
All-take P (suc n) [] h = tt
All-take P (suc n) (c ∷ s) h = (h.0, All-take P n s h.1)

All-drop : (P : ℕ → Type 0) (n : ℕ) (s : List ℕ) → All P s → All P (drop n s)
All-drop P zero s h = h
All-drop P (suc n) [] h = tt
All-drop P (suc n) (c ∷ s) h = All-drop P n s h.1

IsPrinted-of : (s : List ℕ) → InAlphabet s → IsPrinted s
IsPrinted-of [] h = tt
IsPrinted-of (c ∷ s) h = (inr h.0, IsPrinted-of s h.1)

abbrev dressed : List ℕ → List ℕ
dressed s = codes "CVPN-" ++ (take 5 s ++ b'-' ∷ drop 5 s)

cvpn-IsPrinted : IsPrinted (codes "CVPN-")
unfolding in_alphabet
cvpn-IsPrinted = (inr refl, (inr refl, (inr refl, (inr refl, (inl refl, tt)))))

dressed-IsPrinted : (s : List ℕ) → InAlphabet s → IsPrinted (dressed s)
dressed-IsPrinted s h =
    All-append (λ c. (c ≡ b'-') ⊎ (in_alphabet c ≡ true)) (codes "CVPN-") _ cvpn-IsPrinted
      (All-append (λ c. (c ≡ b'-') ⊎ (in_alphabet c ≡ true)) (take 5 s) _
        (IsPrinted-of _ (All-take (λ c. in_alphabet c ≡ true) 5 s h))
        (inl refl, IsPrinted-of _ (All-drop (λ c. in_alphabet c ≡ true) 5 s h)))

cvpn_stripped : strip_separators (codes "CVPN-") ≡ codes "CVPN"
unfolding strip_separators is_separator
cvpn_stripped = refl

dash_stripped : (s : List ℕ) → strip_separators (b'-' ∷ s) ≡ strip_separators s
unfolding strip_separators is_separator
dash_stripped s = refl

strip-dressed : (s : List ℕ) → InAlphabet s → strip_separators (dressed s) ≡ codes "CVPN" ++ s
strip-dressed s h =
    strip-append (codes "CVPN-") (take 5 s ++ b'-' ∷ drop 5 s)
    ∙ (ap (λ t. strip_separators (codes "CVPN-") ++ t) halves ∙ rw cvpn_stripped)
  where
    halves : strip_separators (take 5 s ++ b'-' ∷ drop 5 s) ≡ s
    halves =
        strip-append (take 5 s) (b'-' ∷ drop 5 s)
        ∙ (rw
            (
              dash_stripped,
              strip_same (take 5 s) (All-take (λ c. in_alphabet c ≡ true) 5 s h),
              strip_same (drop 5 s) (All-drop (λ c. in_alphabet c ≡ true) 5 s h),
            )
            (take-append-drop 5 s))

undress-cvpn : (s : List ℕ) → 6 < length s → undress (codes "CVPN" ++ s) ≡ s
unfolding undress
undress-cvpn s h = ground arith

check_same : (s : List ℕ) → InAlphabet s → 6 ≤ length s → length s ≤ 20 → check_code s ≡ some s
unfolding check_code
check_same s h lo hi = ground (arith, InAlphabet-check s h)

-- What is printed for a generated code, ten characters of the alphabet, is read back as that code:
-- the CVPN dressing and the dashes are dropped and nothing else changes.
pub normalize_code-display_code :
    (upper : List ℕ → List ℕ) (s : List ℕ)
    → IsUpper upper
    → InAlphabet s
    → length s ≡ generated_len
    → normalize_code upper (display_code s) ≡ some s
unfolding normalize_code display_code
normalize_code-display_code upper s u h e =
    let (ascii, same) = printed_upper (dressed s) (dressed-IsPrinted s h) in
    let shown : (if length s == generated_len then dressed s else s) ≡ dressed s = ground arith in
    let raised : upper (dressed s) ≡ dressed s = u (dressed s) ascii ∙ same in
    rw (shown, raised, strip-dressed s h, undress-cvpn s (omega arith))
      (check_same s h (omega arith) (omega arith))

-- For a text of 7 to 16 characters of the alphabet: the vanity code that is CVPN twice and that text
-- is stored as CVPN and the text, and what is printed for the stored code is read back as the text
-- alone, which is another code.
pub normalize_code_twice :
    (upper : List ℕ → List ℕ) (s : List ℕ)
    → IsUpper upper
    → InAlphabet s
    → 6 < length s
    → length s ≤ 16
    → (normalize_code upper (codes "CVPNCVPN" ++ s) ≡ some (codes "CVPN" ++ s))
      × (normalize_code upper (display_code (codes "CVPN" ++ s)) ≡ some s)
unfolding normalize_code display_code
normalize_code_twice upper s u h lo hi = (
  read (codes "CVPN" ++ s) cvpn_s (omega arith) (omega arith),
  rw shown (read s h (omega arith) (omega arith)),
)
  where
    shown :
        (if length (codes "CVPN" ++ s) == generated_len
          then dressed (codes "CVPN" ++ s)
          else codes "CVPN" ++ s)
        ≡ codes "CVPN" ++ s
    shown = ground arith

    cvpn_s : InAlphabet (codes "CVPN" ++ s)
    cvpn_s = unfold in_alphabet in (refl, (refl, (refl, (refl, h))))

    read :
        (t : List ℕ)
        → InAlphabet t
        → 6 < length t
        → length t ≤ 20
        → check_code (undress (strip_separators (upper (codes "CVPN" ++ t)))) ≡ some t
    read t k a b =
        let q : InAlphabet (codes "CVPN" ++ t) =
          unfold in_alphabet in (refl, (refl, (refl, (refl, k)))) in
        let (ascii, same) =
          printed_upper (codes "CVPN" ++ t) (IsPrinted-of (codes "CVPN" ++ t) q) in
        let raised : upper (codes "CVPN" ++ t) ≡ codes "CVPN" ++ t =
          u (codes "CVPN" ++ t) ascii ∙ same in
        rw (raised, strip_same (codes "CVPN" ++ t) q, undress-cvpn t a)
          (check_same t k (omega arith) b)
