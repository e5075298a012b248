-- ===== src/Split.antt =====
-- clients/core-ts/src/split.ts: split tunneling. The parts are the interval arithmetic, the covering of
-- an interval by CIDR blocks, the texts of addresses, and the compiler of policies.
pub mod Interval
pub mod Merging
pub mod Subtracting
pub mod Blocks
pub mod Address
pub mod Rules
pub mod Domain
pub mod Punycode
pub mod Loading
pub mod Compile
pub mod Pieces
pub mod Digits
pub mod Runs
pub mod RoundTrip
pub mod Bounds
pub mod Policies
pub mod Wanted
pub mod Allowed
pub mod Refinement
pub mod Sanitized
pub mod Gate
pub mod Routes
pub mod Within
pub mod Accepted
pub mod Octets
pub mod Groups
pub mod Covering
mod Examples
