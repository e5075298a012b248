-- ===== src/Price.antt =====
-- bridge/src/price.ts: the FLUX price schedule. A price is counted in zats (10^-8 FLUX), which every
-- price that the parser accepts is a whole number of; heights are block numbers. The lists are kept
-- newest entry first: the index `i` of the source stands for the entries i, i-1, …, 0.
pub mod Window
pub mod Boundaries
pub mod Payout
pub mod Parse
mod Examples
use cumulusvpn.Common.{
  ℕ, zero, suc, ◌+◌, ◌≤◌, ◌<◌, ◌≡◌, min, max, Bool, true, false, ◌&&◌, ◌||◌, List, [], ◌∷◌, ltb,
  leb, if◌then◌else◌,
}

-- 72 h of blocks
abbrev pub grace_blocks : ℕ
grace_blocks = 8640

pub record PriceEntry : Type 0 where
  pub start : ℕ
  pub zats : ℕ

-- A schedule has a first entry, which starts at height 0: the oldest one, the last of the list.
pub data Schedule : Type 0 where
  base : ℕ → Schedule
  entry : PriceEntry → Schedule → Schedule

-- What the parser enforces: heights strictly increase.
abbrev pub start_of : Schedule → ℕ
start_of (base z) = 0
start_of (entry e s) = e.start

abbrev pub IsIncreasing : Schedule → Type 0
IsIncreasing (base z) = Unit
IsIncreasing (entry e s) = (start_of s < e.start) × IsIncreasing s

abbrev pub zats_of : Schedule → ℕ
zats_of (base z) = z
zats_of (entry e s) = e.zats

-- `latest()`
unfoldable pub latest : Schedule → ℕ
latest s = zats_of s

-- `index(h)`: `while (i > 0 && entries[i].from > h) i--`
unfoldable pub index : ℕ → Schedule → Schedule
index h (base z) = base z
index h (entry e s) = if ltb h e.start then index h s else entry e s

-- `at(h)`
unfoldable pub at : ℕ → Schedule → ℕ
unfolding index
at h s = zats_of (index h s)

-- The loop of `effective(h)`: `entries[j + 1].from > h - GRACE_BLOCKS`, without the subtraction.
unfoldable pub grace : ℕ → ℕ → Schedule → ℕ
grace h p (base z) = p
grace h p (entry e s) = if ltb h (e.start + grace_blocks) then grace h (min p (zats_of s)) s else p

-- `effective(h)`
unfoldable pub effective : ℕ → Schedule → ℕ
unfolding index grace
effective h s = grace h (at h s) (index h s)

-- One boundary of `maxEffective`: `if (b > from && b <= to) p = max(p, effective(b))`
unfoldable pub raise : Schedule → ℕ → ℕ → ℕ → ℕ → ℕ
raise all lo hi b p = if ltb lo b && leb b hi then max p (effective b all) else p

-- The loop of `maxEffective` over the entries from `s` on.
unfoldable pub raise_all : Schedule → ℕ → ℕ → Schedule → ℕ → ℕ
raise_all all lo hi (base z) p = raise all lo hi grace_blocks (raise all lo hi 0 p)
raise_all all lo hi (entry e s) p =
    raise all lo hi (e.start + grace_blocks) (raise all lo hi e.start (raise_all all lo hi s p))

-- `maxEffective(from, to)`
unfoldable pub max_effective : ℕ → ℕ → Schedule → ℕ
unfolding raise_all
max_effective lo hi s = raise_all s lo hi s (effective lo s)
