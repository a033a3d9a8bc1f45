-- ===== src/Consensus/Servers.antt =====
-- consensus/node.go: the Raft configuration, the servers that have the log, as the node reads and changes it.
-- hashicorp/raft is a parameter: whether GetConfiguration fails, and what AddVoter, AddNonvoter and
-- RemoveServer make of the configuration, with the future's error.
use clusdr.Prelude.{
  ℕ, Bool, false, ◌||◌, Option, none, some, List, [], ◌∷◌, String, str_eq, if◌then◌else◌, length,
}
use clusdr.Fault.{Error, server_missing}

-- raft.Server.
pub record Server : Type 0 where
  pub id : String
  pub address : String
  pub is_voter : Bool

pub data Change : Type 0 where
  adds_voter adds_nonvoter : String → String → Change
  removes : String → Change

pub record Configurator : Type 0 where
  pub unreadable : List Server → Option Error
  pub change : Change → List Server → List Server × Option Error

-- AddVoter.
abbrev pub add_voter : Configurator → String → String → List Server → List Server × Option Error
add_voter conf id addr servers = conf.change (adds_voter id addr) servers

-- AddNonvoter.
abbrev pub add_nonvoter : Configurator → String → String → List Server → List Server × Option Error
add_nonvoter conf id addr servers = conf.change (adds_nonvoter id addr) servers

-- RemoveVoter.
abbrev pub remove_voter : Configurator → String → List Server → List Server × Option Error
remove_voter conf id servers = conf.change (removes id) servers

-- The loop of PromoteToVoter.
unfoldable pub find_server : String → List Server → Option Server
find_server id [] = none
find_server id (s ∷ ss) = let rest = find_server id ss in if str_eq s.id id then some s else rest

-- PromoteToVoter.
unfoldable pub promote_to_voter : Configurator → String → List Server → List Server × Option Error
promote_to_voter conf id servers = elim (conf.unreadable servers) [
  | some e ↦ (servers, some e)
  | none ↦ elim (find_server id servers) [
    | none ↦ (servers, some server_missing)
    | some s ↦ if s.is_voter then (servers, none) else add_voter conf id s.address servers
  ]
]

unfoldable pub among : String → List Server → Bool
among id [] = false
among id (s ∷ ss) = str_eq s.id id || among id ss

-- HasServer, on a node that has Raft.
unfoldable pub has_server : Configurator → String → List Server → Bool
unfolding among
has_server conf id servers =
    if str_eq id ""
    then false
    else elim (conf.unreadable servers) [ some e ↦ false | none ↦ among id servers ]

-- ServerCount, on a node that has Raft.
unfoldable pub server_count : Configurator → List Server → ℕ
server_count conf servers = elim (conf.unreadable servers) [ some e ↦ 0 | none ↦ length servers ]
