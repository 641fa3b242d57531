-- ===== src/Config/DataSpecs/Link.antt =====
-- Reading the points of a station leaves its addresses and its unsolicited setting as they are.
use ics_trafficgen.Base.{String, ◌≡◌}
use ics_trafficgen.Node.{Node}
use ics_trafficgen.Config.{PropTree}
use ics_trafficgen.Config.DataSpecs.{add_point}
use ics_trafficgen.Config.DataSpecs.Preserved.{IsKept}

-- The name and the role of a node.
abbrev pub title : {F : Type 0} → Node F → String × String
title n = (n.name, n.role)

-- The two nodes have the same addresses, the same unsolicited setting, and the same name and role.
abbrev pub SameLink : {F : Type 0} → Node F → Node F → Type 0
SameLink n₀ n =
    (n.local_dnp3_addr ≡ n₀.local_dnp3_addr)
    × (n.remote_dnp3_addr ≡ n₀.remote_dnp3_addr)
    × (n.local_ip_address ≡ n₀.local_ip_address)
    × (n.remote_ip_address ≡ n₀.remote_ip_address)
    × (n.allow_unsolicited ≡ n₀.allow_unsolicited)
    × (title n ≡ title n₀)

pub SameLink-IsKept : (pt : PropTree) (n₀ : Node pt.Float) → IsKept pt (SameLink n₀)
unfolding add_point
SameLink-IsKept pt n₀ = record {
  pushed = λ dp n b s. s;
  joined = λ source dp input n w s. s;
  buffered = λ b n s. s;
  polled = λ ps n s. s;
  bound = λ bs n s. s;
}
