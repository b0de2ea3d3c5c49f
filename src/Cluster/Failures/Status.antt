-- ===== src/Cluster/Failures/Status.antt =====
-- What one round of agent/src/gossip/mod.rs does to each node.
use mathlib.Core.Option
use all4one.Prelude.{ℕ, ◌+◌, ◌≤◌, ◌<◌, ◌≡◌, ◌↔◌, Bool, true, false, Option, none, some, nat_eq}
use all4one.Common.{NodeInfo, NodeStatus, online, suspected, offline}
use all4one.Cluster.Failures.{set_status}

-- The status that a node is to have: online for the node itself, suspected without a sign of life, and
-- else by the bounds of 35 and 100 seconds on the time of the last one.
abbrev pub IsDue : (is_self : Bool) (now : ℕ) → Option ℕ → NodeStatus → Type 0
IsDue true now last s = s ≡ online
IsDue false now none s = s ≡ suspected
IsDue false now (some last) s =
    ((s ≡ online) ↔ (now < last + 35000))
    × ((s ≡ suspected) ↔ ((last + 35000 ≤ now) × (now < last + 100000)))
    × ((s ≡ offline) ↔ (last + 100000 ≤ now))

-- An unknown node stays unknown, and a known one is as before, with the status that is due.
abbrev pub IsAfterRound :
    (is_self : Bool) (now : ℕ) → Option ℕ → (before after : Option NodeInfo) → Type 0
IsAfterRound is_self now last none after = after ≡ none
IsAfterRound is_self now last (some node) after =
    (s : NodeStatus) × (after ≡ some (set_status node s)) × IsDue is_self now last s
