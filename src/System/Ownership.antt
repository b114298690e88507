-- ===== src/System/Ownership.antt =====
-- Which session an id was given to: ids are given out one by one, each for one request to subscribe
-- of one session at one destination.
use little_stomper.Prelude.{ℕ, ◌<◌, ◌≡◌, String, ℕ_discrete}
use little_stomper.Ids.{DestinationId, from_str}
use little_stomper.Stomp.{Frames, StompParser}
use little_stomper.System.Moves.{System}
use little_stomper.System.Policy.{Policy, Ledger, IsAllowedSystem}
pub mod Growth
pub mod Giving
pub mod Proxies
pub mod Removal
pub mod Listing
pub mod Untouched
pub mod Keeping

-- For each number that an id is made from, who got the id, and where.
abbrev pub Owners : Type 0
Owners = ℕ → ℕ × DestinationId

-- The first `n` ids are held by their owners.
abbrev pub owned_by : (ℕ → String) → Owners → ℕ → Ledger
owned_by name own n = record {
  holds = λ k d c i. (m : ℕ) × (m < n) × (i ≡ from_str (name m)) × (own m ≡ (k, d));
  from = n;
}

-- Some owners hold all ids given out so far.
abbrev pub IsOwned : {F : Frames} → StompParser F → (ℕ → String) → Policy → System F → Type 0
IsOwned P name L sys = (own : Owners) × IsAllowedSystem P L (owned_by name own sys.shared.next) sys

-- Documented behaviour of `Uuid::new_v4`: no two ids are made of the same text.
abbrev pub AreDistinct : (ℕ → String) → Type 0
AreDistinct name = (m n : ℕ) → name m ≡ name n → m ≡ n
