-- ===== src/RandomX/Superscalar/Schedule.antt =====
-- The execution ports of src/randomx/superscalar.rs. A search that returns -1 is none.
use miner_tim.Common.{
  ℕ, zero, suc, ◌-◌, ◌%◌, ◌/◌, max, Bool, true, false, ◌&&◌, Option, none, some, List, get_or, set,
  ◌==◌, if◌then◌else◌,
}
use miner_tim.RandomX.Superscalar.{MacroOp, is_eliminated, is_simple, cycle_map_size}

-- A cycle's ports: the micro-operations that keep them busy, or 0.
pub record Ports : Type 0 where
  pub p0 : ℕ
  pub p1 : ℕ
  pub p5 : ℕ

abbrev pub idle : Ports
idle = record { p0 = 0; p1 = 0; p5 = 0 }

-- A free port that the micro-operation can take, in the order of the tests.
abbrev pub take_port : ℕ → Ports → Option Ports
take_port uop row =
    if uop / 4 % 2 == 1 && row.p5 == 0
    then some (record row { p5 = uop })
    else if uop % 2 == 1 && row.p0 == 0
    then some (record row { p0 = uop })
    else if uop / 2 % 2 == 1 && row.p1 == 0
    then some (record row { p1 = uop })
    else none

-- From cycle `c` on, `left` cycles before the end of the map.
unfoldable pub schedule_from : ℕ → ℕ → ℕ → List Ports → Bool → Option ℕ × List Ports
schedule_from uop zero c port_busy commit = (none, port_busy)
schedule_from uop (suc left) c port_busy commit = elim (take_port uop (get_or port_busy c idle)) [
  | none ↦ schedule_from uop left (suc c) port_busy commit
  | some row ↦ (some c, if commit then set port_busy c row else port_busy)
]

unfoldable pub schedule_uop : ℕ → List Ports → ℕ → Bool → Option ℕ × List Ports
unfolding schedule_from
schedule_uop uop port_busy cycle commit =
    schedule_from uop (cycle_map_size - cycle) cycle port_busy commit

abbrev pub same_cycle : Option ℕ → Option ℕ → Bool
same_cycle (some a) (some b) = a == b
same_cycle (some a) none = false
same_cycle none o = false

-- The cycle of a search that succeeded.
abbrev pub found_cycle : Option ℕ → ℕ
found_cycle none = 0
found_cycle (some c) = c

-- Both micro-operations in one cycle.
unfoldable pub schedule_pair : MacroOp → ℕ → ℕ → List Ports → Bool → Option ℕ × List Ports
unfolding schedule_uop
schedule_pair mop zero c port_busy commit = (none, port_busy)
schedule_pair mop (suc left) c port_busy commit =
    let first = (schedule_uop mop.uop1 port_busy c false).0 in
    let second = (schedule_uop mop.uop2 port_busy c false).0 in
    elim (same_cycle first second) [
      | false ↦ schedule_pair mop left (suc c) port_busy commit
      | true ↦ (
        first,
        if commit
            then (let after = (schedule_uop mop.uop1 port_busy (found_cycle first) true).1 in
                (schedule_uop mop.uop2 after (found_cycle second) true).1)
            else port_busy,
      )
    ]

unfoldable pub schedule_mop : MacroOp → List Ports → ℕ → ℕ → Bool → Option ℕ × List Ports
unfolding schedule_uop schedule_pair
schedule_mop mop port_busy cycle dep_cycle commit =
    let c = if mop.dependent then max cycle dep_cycle else cycle in
    if is_eliminated mop
    then (some c, port_busy)
    else if is_simple mop
    then schedule_uop mop.uop1 port_busy c commit
    else schedule_pair mop (cycle_map_size - c) c port_busy commit
