-- ===== src/Price/Window.antt =====
-- What the effective price of bridge/src/price.ts is: the least price in force in the last 72 h.
use cumulusvpn.Common.{
  ℕ, ◌+◌, ◌-◌, ◌≤◌, ◌<◌, ◌≡◌, refl, sym, ◌∙◌, ap, min, ◌⊎◌, inl, inr, ltb, leb, Bool-cases, arith,
  ltb→lt,
}
use cumulusvpn.Price.{
  PriceEntry, grace_blocks, Schedule, base, entry, start_of, IsIncreasing, zats_of, index, at,
  grace, effective,
}

index-index : (h k : ℕ) (s : Schedule) → k ≤ h → index k (index h s) ≡ index k s
unfolding index
index-index h k (base z) le = refl
index-index h k (entry e s) le = ground (arith, index-index h k s)

pub at-index : (h k : ℕ) (s : Schedule) → k ≤ h → at k (index h s) ≡ at k s
unfolding at
at-index h k s le = ap zats_of (index-index h k s le)

index-IsIncreasing : (h : ℕ) (s : Schedule) → IsIncreasing s → IsIncreasing (index h s)
unfolding index
index-IsIncreasing h (base z) i = tt
index-IsIncreasing h (entry e s) i = ground (arith, index-IsIncreasing h s)

start-index-le : (h : ℕ) (s : Schedule) → start_of (index h s) ≤ h
unfolding index
start-index-le h (base z) = omega arith
start-index-le h (entry e s) = ground (arith, start-index-le h s)

grace-le : (h p : ℕ) (s : Schedule) → grace h p s ≤ p
unfolding grace
grace-le h p (base z) = omega arith
grace-le h p (entry e s) = ground (arith, grace-le h (min p (zats_of s)) s)

grace-le-at :
    (h k p : ℕ) (s : Schedule) → k ≤ h → h ≤ k + grace_blocks → p ≤ zats_of s → grace h p s ≤ at k s
unfolding grace at index
grace-le-at h k p (base z) a b c = c
grace-le-at h k p (entry e s) a b c = ground (
  arith,
  grace-le-at h k (min p (zats_of s)) s,
  grace-le h p (entry e s),
  grace-le h (min p (zats_of s)) s,
)

-- The loop ends with the price that it began with, or with one of the window, in force before the
-- newest entry.
abbrev Found : ℕ → ℕ → Schedule → Type 0
Found h v s = (k : ℕ) × (k ≤ h) × (k < start_of s) × (h ≤ k + grace_blocks) × (v ≡ at k s)

at_before_start : (k : ℕ) (e : PriceEntry) (s : Schedule) → k < e.start → at k (entry e s) ≡ at k s
unfolding at index
at_before_start k e s h = ground arith

at_since_start : (k : ℕ) (s : Schedule) → start_of s ≤ k → at k s ≡ zats_of s
unfolding at index
at_since_start k (base z) h = refl
at_since_start k (entry e s) h = ground arith

Found-entry :
    (h v : ℕ) (e : PriceEntry) (s : Schedule)
    → start_of s < e.start
    → Found h v s
    → Found h v (entry e s)
Found-entry h v e s i (k, a, b, c, q) =
    (k, a, omega arith, c, q ∙ sym (at_before_start k e s (omega arith)))

-- The price just before the newest entry began.
Found-before :
    (h p : ℕ) (e : PriceEntry) (s : Schedule)
    → start_of s < e.start
    → e.start ≤ h
    → h < e.start + grace_blocks
    → (min p (zats_of s) ≡ p) ⊎ Found h (min p (zats_of s)) (entry e s)
Found-before h p e s i a b = elim (Bool-cases (leb p (zats_of s))) [
  | inl small ↦ inl (ground arith)
  | inr large ↦
      let q : at (e.start - 1) (entry e s) ≡ zats_of s =
        at_before_start (e.start - 1) e s (omega arith)
        ∙ at_since_start (e.start - 1) s (omega arith) in
      inr (e.start - 1, omega arith, omega arith, omega arith, ground arith)
]

grace-Found :
    (h p : ℕ) (s : Schedule)
    → IsIncreasing s
    → start_of s ≤ h
    → (grace h p s ≡ p) ⊎ Found h (grace h p s) s
unfolding grace
grace-Found h p (base z) i le = inl refl
grace-Found h p (entry e s) i le = elim (Bool-cases (ltb h (e.start + grace_blocks))) [
  | inr done ↦ rw done (inl refl)
  | inl more ↦ rw more (elim (grace-Found h (min p (zats_of s)) s i.1 (omega arith)) [
    | inl same ↦ rw same (Found-before h p e s i.0 le (ltb→lt h (e.start + grace_blocks) more))
    | inr found ↦ inr (Found-entry h _ e s i.0 found)
  ])
]

-- No height of the grace window that ends at a height had a price below the effective one.
pub effective-le-at :
    (h k : ℕ) (s : Schedule) → k ≤ h → h ≤ k + grace_blocks → effective h s ≤ at k s
unfolding effective
effective-le-at h k s a b =
    rw (← at-index h k s a) (grace-le-at h k (at h s) (index h s) a b (at_start h s))
  where
    at_start : (h : ℕ) (s : Schedule) → at h s ≤ zats_of (index h s)
    at_start h s = unfold at in omega arith

-- With increasing entries, the effective price at a height was in force at some height of the grace
-- window that ends there.
pub effective_attained :
    (h : ℕ) (s : Schedule)
    → IsIncreasing s
    → (k : ℕ) × (k ≤ h) × (h ≤ k + grace_blocks) × (effective h s ≡ at k s)
unfolding effective
effective_attained h s i =
    elim (grace-Found h (at h s) (index h s) (index-IsIncreasing h s i) (start-index-le h s)) [
      | inl same ↦ (h, omega arith, omega arith, same)
      | inr (k, a, b, c, q) ↦ (k, a, c, q ∙ at-index h k s a)
    ]
