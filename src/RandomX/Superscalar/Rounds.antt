-- ===== src/RandomX/Superscalar/Rounds.antt =====
-- `generate_superscalar` of src/randomx/superscalar.rs ends with a program that is well formed.
use miner_tim.Common.{
  ℕ, zero, suc, ◌+◌, ◌≤◌, ◌<◌, ◌≡◌, refl, arith, max, some, List, [], ◌∷◌, length, replicate,
  length-replicate, All, ltb, ltb→lt, ◌==◌, if◌then◌else◌,
}
use miner_tim.RandomX.Safety.{Post, bind-Post, Post-map, get-then}
use miner_tim.RandomX.Generator.{Digest, Blake2Generator, IsValid}
use miner_tim.RandomX.Superscalar.{
  SuperscalarInstruction, SuperscalarProgram, DecodeBuffer, code_of, superscalar_max_size,
  randomx_superscalar_latency,
}
use miner_tim.RandomX.Superscalar.Safety.{IsGenerated, if-either, execute_all-Post, set-Post}
use miner_tim.RandomX.Superscalar.Operands.{
  IsSlot, IsFit, get-All, IsEnough, select_for_slot-Post, create-Post, fetch_next-Post,
}
use miner_tim.RandomX.Superscalar.Select.{RegisterInfo, new, fetch_next}
use miner_tim.RandomX.Superscalar.Execute.{execute_superscalar}
use miner_tim.RandomX.Superscalar.Formed.{issue-Good}
use miner_tim.RandomX.Superscalar.Sound.{IsSound, IsBusy, turns_left, Good}
use miner_tim.RandomX.Superscalar.Generate.{
  State, next, leave, is_full, all_issued, begin, turn, fill_buffer, buffer_fuel, decode_cycles,
  asic_latencies, highest, start, generate_superscalar,
}

module _ (D : Digest) (draws : ℕ) (enough : IsEnough D draws) where
  fetched-IsSound :
      (s : State) (g : Blake2Generator) (cycle : ℕ)
      → IsSound D s
      → IsValid D g
      → IsSound D (record s { generator = g; cycle = cycle })
  fetched-IsSound s g cycle h v = record {
    registers_length = h.registers_length;
    size = h.size;
    size_bound = h.size_bound;
    outputs = h.outputs;
    valid = v;
    thrown = h.thrown;
    pending = h.pending;
  }

  begin-IsBusy :
      (buffer : DecodeBuffer) (i : ℕ) (s : State)
      → All IsSlot buffer.slots
      → i < length buffer.slots
      → IsSound D s
      → s.program_size < superscalar_max_size
      → Post
          (λ t. IsBusy D t × (t.throw_away_count ≡ s.throw_away_count))
          (begin D draws buffer i s)
  unfolding begin
  begin-IsBusy buffer i s slots lt h room =
      bind-Post IsSlot _ _ _ (get-All IsSlot buffer.slots i lt slots) (λ size slot.
        bind-Post (λ r. (code_of (r.0) ≤ 13) × IsValid D (r.1)) _ _ _
          (select_for_slot-Post D buffer.index (i + 1 == length buffer.slots) s.generator slot
            h.valid)
          (λ selected k.
            bind-Post (λ r. IsFit (r.0) × IsValid D (r.1)) _ _ _
              (create-Post D draws (selected.0) (selected.1) enough k.0 k.1)
              (λ made f. (
                record {
                  registers_length = h.registers_length;
                  size = h.size;
                  room = room;
                  outputs = h.outputs;
                  valid = f.1;
                  thrown = h.thrown;
                  left = omega (arith, f.0.last);
                  pending = record { fit = f.0; chosen = λ e. absurd (omega arith) };
                },
                refl,
              ))))

  again-IsBusy :
      (s : State) → IsSound D s → s.macro_op_index < length s.current.info.ops → IsBusy D s
  again-IsBusy s h lt = record {
    registers_length = h.registers_length;
    size = h.size;
    room = (h.pending lt).1;
    outputs = h.outputs;
    valid = h.valid;
    thrown = h.thrown;
    left = lt;
    pending = (h.pending lt).0;
  }

  turn-Good :
      (buffer : DecodeBuffer) (i : ℕ) (s : State)
      → All IsSlot buffer.slots
      → i < length buffer.slots
      → IsSound D s
      → Post
          (Good D (length buffer.slots) (turns_left D (length buffer.slots) i s))
          (turn D draws buffer i s)
  unfolding turn
  turn-Good buffer i s slots lt h =
      let n = length buffer.slots in
      let m = turns_left D n i s in
      if-either (Post (Good D n m)) (all_issued s) _ _
        (λ e.
          if-either (Post (Good D n m)) (is_full s) _ _ (λ k. h)
            (λ k.
              bind-Post (λ t. IsBusy D t × (t.throw_away_count ≡ s.throw_away_count)) _ _ _
                (begin-IsBusy buffer i s slots lt h (ground arith))
                (λ t b. issue-Good D n m i lt draws t b.0 (omega (arith, b.1)))))
        (λ e. issue-Good D n m i lt draws s (again-IsBusy s h (ground arith)) (omega arith))

  fill_buffer-IsSound :
      (fuel : ℕ) (buffer : DecodeBuffer) (i : ℕ) (s : State)
      → All IsSlot buffer.slots
      → IsSound D s
      → turns_left D (length buffer.slots) i s < fuel
      → Post (IsSound D) (fill_buffer D draws fuel buffer i s)
  unfolding fill_buffer
  fill_buffer-IsSound zero buffer i s slots h lt = absurd (omega arith)
  fill_buffer-IsSound (suc fuel) buffer i s slots h lt =
      let n = length buffer.slots in
      let goal = Post (IsSound D) in
      if-either goal (ltb i n) _ _
        (λ e.
          bind-Post (Good D n (turns_left D n i s)) _ _ _
            (turn-Good buffer i s slots (ltb→lt i n e) h)
            (λ t.
              elim t
                as (λ x.
                  Good D n (turns_left D n i s) x
                  → goal (elim x [
                    | next j s' ↦ fill_buffer D draws fuel buffer j s'
                    | leave s' ↦ some s'
                  ])) [
                    | next j s' ↦ λ g. fill_buffer-IsSound fuel buffer j s' slots g.0 (omega arith)
                    | leave s' ↦ λ g. g
                  ]))
        (λ e. h)

  decode_cycles-IsSound :
      (left decode_cycle : ℕ) (s : State)
      → IsSound D s
      → Post (IsSound D) (decode_cycles D draws left decode_cycle s)
  unfolding decode_cycles
  decode_cycles-IsSound zero c s h = h
  decode_cycles-IsSound (suc left) c s h =
      let fetched = fetch_next D s.current.info.inst_type c s.mul_count s.generator in
      let (slots, valid) =
        fetch_next-Post D s.current.info.inst_type c s.mul_count s.generator h.valid in
      if-either (Post (IsSound D)) (is_full s) _ _ (λ e. h)
        (λ e.
          bind-Post (IsSound D) _ _ _
            (fill_buffer-IsSound (buffer_fuel D draws (fetched.0)) (fetched.0) 0
              (record s { generator = fetched.1 }) slots
              (fetched-IsSound s (fetched.1) s.cycle h valid) (omega arith))
            (λ s' k.
              decode_cycles-IsSound left (suc c) (record s' { cycle = s'.cycle + 1 })
                (fetched-IsSound s' s'.generator (s'.cycle + 1) k k.valid)))

asic_latencies-Post :
    (insts : List SuperscalarInstruction) (latencies : List ℕ)
    → All IsGenerated insts
    → length latencies ≡ 8
    → Post (λ l. length l ≡ 8) (asic_latencies insts latencies)
unfolding asic_latencies
asic_latencies-Post [] latencies h e = e
asic_latencies-Post (inst ∷ rest) latencies h e =
    let (lt, k) : (inst.dst < 8) × (inst.src < 8) = (h.0.dst_in, h.0.src_in) in
    get-then latencies inst.dst _ _ (omega arith) (λ d.
      get-then latencies inst.src _ _ (omega arith) (λ s.
        bind-Post (λ l. length l ≡ 8) _ _ _ (set-Post latencies inst.dst _ e lt)
          (λ l w. asic_latencies-Post rest l h.1 w)))

highest-below :
    (i best top : ℕ) (latencies : List ℕ)
    → best < 8
    → i + length latencies ≤ 8
    → highest i best top latencies < 8
unfolding highest
highest-below i best top [] lt le = lt
highest-below i best top (x ∷ latencies) lt le =
    highest-below (suc i) (if ltb top x then i else best) (max top x) latencies
      (if-either (λ b. b < 8) (ltb top x) i best (λ e. omega arith) (λ e. lt)) (omega arith)

-- What a program and the generator behind it are worth.
pub record IsProgram (D : Digest) (r : SuperscalarProgram × Blake2Generator) : Type 0 where
  pub instructions_are : All IsGenerated r.0.instructions
  pub size : length r.0.instructions ≤ superscalar_max_size
  pub address : r.0.address_register < 8
  pub valid : IsValid D (r.1)

pub generate_superscalar-IsProgram :
    (D : Digest) (draws : ℕ) (g : Blake2Generator)
    → IsEnough D draws
    → IsValid D g
    → Post (IsProgram D) (generate_superscalar D draws g)
unfolding generate_superscalar start
generate_superscalar-IsProgram D draws g enough v =
    let first : IsSound D (start g) = record {
      registers_length = length-replicate {A = RegisterInfo} 8 new;
      size = refl;
      size_bound = omega arith;
      outputs = tt;
      valid = v;
      thrown = omega arith;
      pending = λ lt. absurd (omega arith);
    } in
    bind-Post (IsSound D) _ _ _
      (decode_cycles-IsSound D draws enough randomx_superscalar_latency 0 (start g) first)
      (λ s h.
        bind-Post (λ l. length l ≡ 8) _ _ _
          (asic_latencies-Post s.output_instructions (replicate 8 0) h.outputs
            (length-replicate {A = ℕ} 8 0))
          (λ l e. record {
            instructions_are = h.outputs;
            size = omega (arith, h.size, h.size_bound);
            address = highest-below 0 0 0 l (omega arith) (omega arith);
            valid = h.valid;
          }))

-- Given a valid generator and enough numbers for each draw, generating a superscalar program
-- completes. The program has at most 512 instructions, whose registers exist and whose constants
-- suit them: a rotation by 1 to 63 bits, a divisor that is neither 0 nor a power of 2. Its address
-- register is one of the eight, and the generator stays valid. Executing the program on any eight
-- registers completes with eight registers.
pub generate_superscalar-execute_superscalar :
    (D : Digest) (draws : ℕ) (g : Blake2Generator) (registers : List ℕ)
    → IsEnough D draws
    → IsValid D g
    → length registers ≡ 8
    → Post
        (λ r.
          IsProgram D r × Post (λ after. length after ≡ 8) (execute_superscalar registers (r.0)))
        (generate_superscalar D draws g)
unfolding execute_superscalar
generate_superscalar-execute_superscalar D draws g registers enough v e =
    Post-map (IsProgram D) _ (generate_superscalar D draws g)
      (generate_superscalar-IsProgram D draws g enough v)
      (λ r h. (h, execute_all-Post r.0.instructions registers h.instructions_are e))
