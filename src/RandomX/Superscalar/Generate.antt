-- ===== src/RandomX/Superscalar/Generate.antt =====
-- `generate_superscalar` of src/randomx/superscalar.rs. An index out of range and a loop out of fuel
-- are none. The variables that the source only counts with (`_code_size`, `_macro_op_count`,
-- `retire_cycle`) are left out.
use miner_tim.Common.{
  ℕ, zero, suc, ◌+◌, ◌-◌, ◌*◌, ◌^◌, max, Bool, true, false, ◌||◌, Option, none, some, ◌>>=◌, u8,
  List, [], ◌∷◌, ◌++◌, get_elem?, length, replicate, leb, ltb, ◌==◌, if◌then◌else◌,
}
use miner_tim.RandomX.Machine.{write}
use miner_tim.RandomX.Generator.{Digest, Blake2Generator}
use miner_tim.RandomX.Superscalar.{
  SuperscalarInstruction, SuperscalarProgram, MacroOp, DecodeBuffer, code_of, is_multiplication,
  randomx_superscalar_latency, superscalar_max_size, cycle_map_size, look_forward_cycles,
  max_throwaway_count,
}
use miner_tim.RandomX.Superscalar.Select.{
  WorkingInstruction, RegisterInfo, null, new, fetch_next, select_for_slot, create, select_source,
  select_destination,
}
use miner_tim.RandomX.Superscalar.Schedule.{Ports, idle, schedule_mop}

-- `WorkingInstruction::to_output`
abbrev pub to_output : WorkingInstruction → SuperscalarInstruction
to_output w = record {
  opcode = u8 (code_of w.info.inst_type);
  dst = u8 w.dst;
  src = if ltb w.src (2 ^ 31) then u8 w.src else u8 w.dst;
  mod_ = w.mod_;
  imm32 = w.imm32;
}

-- The variables of the generation.
pub record State : Type 0 where
  pub generator : Blake2Generator
  pub port_busy : List Ports
  pub registers : List RegisterInfo
  pub current : WorkingInstruction
  pub macro_op_index : ℕ
  pub cycle : ℕ
  pub dep_cycle : ℕ
  pub ports_saturated : Bool
  pub program_size : ℕ
  pub mul_count : ℕ
  pub throw_away_count : ℕ
  pub output_instructions : List SuperscalarInstruction

-- What a turn of the inner loop ends with: another turn, at a slot, or a `break`.
pub data Turn : Type 0 where
  next : ℕ → State → Turn
  leave : State → Turn

-- `while forward < LOOK_FORWARD_CYCLES`, from a cycle on: the cycle in which a register was found.
unfoldable pub look_forward : {A : Type 0} → (ℕ → A → Bool × A) → ℕ → ℕ → A → Option ℕ × A
look_forward select zero cycle a = (none, a)
look_forward select (suc left) cycle a =
    let tried = select cycle a in
    let rest = look_forward select left (suc cycle) (tried.1) in
    if tried.0 then (some cycle, tried.1) else rest

abbrev pub is_full : State → Bool
is_full s = s.ports_saturated || leb superscalar_max_size s.program_size

abbrev pub all_issued : State → Bool
all_issued s = leb (length s.current.info.ops) s.macro_op_index

-- No register is free: the instruction is thrown away, up to 256 times in a row.
unfoldable pub give_up : ℕ → State → Turn
give_up i s =
    if ltb s.throw_away_count max_throwaway_count
    then next i (record s {
      throw_away_count = s.throw_away_count + 1;
      macro_op_index = length s.current.info.ops;
    })
    else leave (record s { current = null })

-- The instruction is complete once its last macro-op is issued.
unfoldable pub emit : State → State
emit s =
    if all_issued s
    then record s {
      output_instructions = s.output_instructions ++ to_output s.current ∷ [];
      program_size = s.program_size + 1;
      mul_count = s.mul_count + (if is_multiplication s.current.info.inst_type then 1 else 0);
    }
    else s

-- The registers after a macro-op, which may be the one with the result.
unfoldable pub settle : ℕ → State → Option (List RegisterInfo)
settle dep_cycle s =
    if s.macro_op_index == s.current.info.result_op
    then write s.registers s.current.dst (record {
      latency = dep_cycle;
      last_op_group = s.current.op_group;
      last_op_par = s.current.op_group_par;
    })
    else some s.registers

-- A macro-op that is scheduled.
unfoldable pub retire : ℕ → MacroOp → ℕ → ℕ → State → Option Turn
unfolding settle emit
retire top_cycle mop i schedule_cycle s = settle (schedule_cycle + mop.latency) s >>= λ registers.
    some (
      next (i + 1) (
        emit (record s {
          registers = registers;
          dep_cycle = schedule_cycle + mop.latency;
          macro_op_index = s.macro_op_index + 1;
          ports_saturated = s.ports_saturated || leb randomx_superscalar_latency schedule_cycle;
          cycle = top_cycle;
        })))

unfoldable pub commit : ℕ → MacroOp → ℕ → ℕ → State → Option Turn
unfolding retire
commit top_cycle mop i schedule_cycle s =
    let scheduled = schedule_mop mop s.port_busy schedule_cycle schedule_cycle true in
    let kept = record s { throw_away_count = 0; port_busy = scheduled.1 } in
    elim (scheduled.0) [
      | none ↦ some (leave (record kept { ports_saturated = true }))
      | some c ↦ retire top_cycle mop i c kept
    ]

-- The state after a search for a register that used some cycles.
abbrev pub with_choice : WorkingInstruction × Blake2Generator → ℕ → State → State
with_choice (w, g) used s = record s { current = w; generator = g; cycle = s.cycle + used }

module _ (D : Digest) (draws : ℕ) where
  unfoldable pub pick_destination : ℕ → MacroOp → ℕ → ℕ → State → Option Turn
  unfolding commit give_up
  pick_destination top_cycle mop i schedule_cycle s =
      let found =
        look_forward (select_destination D (ltb 0 s.throw_away_count) s.registers)
          look_forward_cycles schedule_cycle (s.current, s.generator) in
      let chosen : Option Turn = elim (found.0) [
        | none ↦ some (give_up i (with_choice (found.1) look_forward_cycles s))
        | some c ↦ commit top_cycle mop i c (with_choice (found.1) (c - schedule_cycle) s)
      ] in
      if s.macro_op_index == s.current.info.dst_op
      then chosen
      else commit top_cycle mop i schedule_cycle s

  unfoldable pub pick_source : ℕ → MacroOp → ℕ → ℕ → State → Option Turn
  unfolding pick_destination give_up
  pick_source top_cycle mop i schedule_cycle s =
      let found =
        look_forward (select_source D s.registers) look_forward_cycles schedule_cycle
          (s.current, s.generator) in
      let chosen : Option Turn = elim (found.0) [
        | none ↦ some (give_up i (with_choice (found.1) look_forward_cycles s))
        | some c ↦ pick_destination top_cycle mop i c (with_choice (found.1) (c - schedule_cycle) s)
      ] in
      if s.macro_op_index == s.current.info.src_op
      then chosen
      else pick_destination top_cycle mop i schedule_cycle s

  -- The macro-op in turn.
  unfoldable pub issue : ℕ → State → Option Turn
  unfolding pick_source
  issue i s = get_elem? s.current.info.ops s.macro_op_index >>= λ mop.
      elim (schedule_mop mop s.port_busy s.cycle s.dep_cycle false).0 [
        | none ↦ some (leave (record s { ports_saturated = true }))
        | some c ↦ pick_source s.cycle mop i c s
      ]

  -- A new instruction for the slot.
  unfoldable pub begin : DecodeBuffer → ℕ → State → Option State
  begin buffer i s = get_elem? buffer.slots i >>= λ slot_size.
      select_for_slot D slot_size buffer.index (i + 1 == length buffer.slots) s.generator
      >>= λ selected. create D draws (selected.0) (selected.1) >>= λ made.
          some (record s { current = made.0; generator = made.1; macro_op_index = 0 })

  unfoldable pub turn : DecodeBuffer → ℕ → State → Option Turn
  unfolding begin issue
  turn buffer i s =
      if all_issued s
      then if is_full s then some (leave s) else (begin buffer i s >>= λ begun. issue i begun)
      else issue i s

  -- `while buffer_index < buffer.slots.len()`
  unfoldable pub fill_buffer : ℕ → DecodeBuffer → ℕ → State → Option State
  unfolding turn
  fill_buffer zero buffer i s = none
  fill_buffer (suc fuel) buffer i s =
      if ltb i (length buffer.slots)
      then (turn buffer i s >>= λ t. elim t [
        | next j s' ↦ fill_buffer fuel buffer j s'
        | leave s' ↦ some s'
      ])
      else some s

  -- Turns that are enough for a buffer.
  abbrev pub buffer_fuel : DecodeBuffer → ℕ
  buffer_fuel buffer = 257 * length buffer.slots + 257

  unfoldable pub decode_cycles : ℕ → ℕ → State → Option State
  unfolding fill_buffer
  decode_cycles zero decode_cycle s = some s
  decode_cycles (suc left) decode_cycle s =
      let fetched = fetch_next D s.current.info.inst_type decode_cycle s.mul_count s.generator in
      if is_full s
      then some s
      else (fill_buffer (buffer_fuel (fetched.0)) (fetched.0) 0 (record s { generator = fetched.1 })
          >>= λ s'. decode_cycles left (suc decode_cycle) (record s' { cycle = s'.cycle + 1 }))

unfoldable pub asic_latencies : List SuperscalarInstruction → List ℕ → Option (List ℕ)
asic_latencies [] latencies = some latencies
asic_latencies (inst ∷ rest) latencies = get_elem? latencies inst.dst >>= λ d.
    get_elem? latencies inst.src >>= λ s.
    write latencies inst.dst (max (d + 1) (if inst.dst == inst.src then 0 else s + 1))
    >>= λ updated. asic_latencies rest updated

-- The first register of the highest latency, from register `i` on.
unfoldable pub highest : ℕ → ℕ → ℕ → List ℕ → ℕ
highest i best max_latency [] = best
highest i best max_latency (x ∷ latencies) =
    highest (suc i) (if ltb max_latency x then i else best) (max max_latency x) latencies

unfoldable pub start : Blake2Generator → State
start g = record {
  generator = g;
  port_busy = replicate cycle_map_size idle;
  registers = replicate 8 new;
  current = null;
  macro_op_index = 0;
  cycle = 0;
  dep_cycle = 0;
  ports_saturated = false;
  program_size = 0;
  mul_count = 0;
  throw_away_count = 0;
  output_instructions = [];
}

-- The program, and the generator for the next one.
unfoldable pub generate_superscalar :
    Digest → ℕ → Blake2Generator → Option (SuperscalarProgram × Blake2Generator)
unfolding decode_cycles asic_latencies highest start
generate_superscalar D draws g =
    decode_cycles D draws randomx_superscalar_latency 0 (start g) >>= λ s.
    asic_latencies s.output_instructions (replicate 8 0) >>= λ latencies. some (
      record { instructions = s.output_instructions; address_register = highest 0 0 0 latencies },
      s.generator,
    )
