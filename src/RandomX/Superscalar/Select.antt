-- ===== src/RandomX/Superscalar/Select.antt =====
-- The choice of slots, instructions and operands of src/randomx/superscalar.rs. `unreachable!` is
-- none, and so are the loops that draw until a number fits, when `draws` numbers did not.
use miner_tim.Common.{
  ℕ, zero, suc, ◌+◌, ◌-◌, ◌%◌, bit_and, Bool, true, false, not, ◌&&◌, ◌||◌, Option, none, some,
  ◌>>=◌, List, [], ◌∷◌, get_elem?, length, leb, ltb, ◌==◌, if◌then◌else◌,
}
use miner_tim.RandomX.Generator.{Digest, Blake2Generator, get_byte, get_u32}
use miner_tim.RandomX.Superscalar.{
  SsType, isub_r, ixor_r, iadd_rs, imul_r, iror_c, iadd_c7, ixor_c7, iadd_c8, ixor_c8, iadd_c9,
  ixor_c9, imulh_r, ismulh_r, imul_rcp, invalid, is_type, InstructionInfo, info_of, DecodeBuffer,
  buf_484, buf_7333, buf_3733, buf_493, buf_4444, buf_3310, minus_one, register_needs_displacement,
}

pub record WorkingInstruction : Type 0 where
  pub info : InstructionInfo
  pub src : ℕ
  pub dst : ℕ
  pub mod_ : ℕ
  pub imm32 : ℕ
  pub op_group : SsType
  pub op_group_par : ℕ
  pub can_reuse : Bool
  pub group_par_is_source : Bool

-- What `create` starts from; of no information, it is `null`.
abbrev pub blank : InstructionInfo → WorkingInstruction
blank info = record {
  info = info;
  src = minus_one;
  dst = minus_one;
  mod_ = 0;
  imm32 = 0;
  op_group = invalid;
  op_group_par = minus_one;
  can_reuse = false;
  group_par_is_source = false;
}

abbrev pub null : WorkingInstruction
null = blank (info_of invalid)

pub record RegisterInfo : Type 0 where
  pub latency : ℕ
  pub last_op_group : SsType
  pub last_op_par : ℕ

abbrev pub new : RegisterInfo
new = record { latency = 0; last_op_group = invalid; last_op_par = minus_one }

abbrev pub is_zero_or_power_of_2 : ℕ → Bool
is_zero_or_power_of_2 x = x == 0 || bit_and x (x - 1) == 0

module _ (D : Digest) where
  -- `DEFAULT_BUFFERS[i]`
  abbrev pub default_buffer : ℕ → DecodeBuffer
  default_buffer i =
      if i == 0 then buf_484 else if i == 1 then buf_7333 else if i == 2 then buf_3733 else buf_493

  unfoldable pub fetch_next : SsType → ℕ → ℕ → Blake2Generator → DecodeBuffer × Blake2Generator
  fetch_next prev_type decode_cycle mul_count g =
      let (b, g') = get_byte D g in
      if is_type prev_type imulh_r || is_type prev_type ismulh_r
      then (buf_3310, g)
      else if ltb mul_count (decode_cycle + 1)
      then (buf_4444, g)
      else if is_type prev_type imul_rcp
      then (if b % 2 == 0 then buf_493 else buf_484, g')
      else (default_buffer (b % 4), g')

  -- One of two types, by a bit.
  abbrev pub either : SsType → SsType → Blake2Generator → SsType × Blake2Generator
  either t u g = let (b, g') = get_byte D g in (if b % 2 == 0 then t else u, g')

  unfoldable pub select_for_slot :
      ℕ → ℕ → Bool → Blake2Generator → Option (SsType × Blake2Generator)
  select_for_slot slot_size fetch_type is_last g =
      let (b, g') = get_byte D g in
      if slot_size == 3
      then some (
          if is_last
          then (
            if b % 4 == 0
                then isub_r
                else if b % 4 == 1
                then ixor_r
                else if b % 4 == 2
                then imulh_r
                else ismulh_r,
            g',
          )
          else either isub_r ixor_r g)
      else if slot_size == 4
      then some (if fetch_type == 4 && not is_last then (imul_r, g) else either iror_c iadd_rs g)
      else if slot_size == 7
      then some (either ixor_c7 iadd_c7 g)
      else if slot_size == 8
      then some (either ixor_c8 iadd_c8 g)
      else if slot_size == 9
      then some (either ixor_c9 iadd_c9 g)
      else if slot_size == 10
      then some (imul_rcp, g)
      else none

  -- The rotation count: draws until one is not 0.
  unfoldable pub draw_rotation : ℕ → Blake2Generator → Option (ℕ × Blake2Generator)
  draw_rotation zero g = none
  draw_rotation (suc draws) g =
      let (b, g') = get_byte D g in
      let rest = draw_rotation draws g' in if b % 64 == 0 then rest else some (b % 64, g')

  -- The divisor: draws until one has a reciprocal.
  unfoldable pub draw_divisor : ℕ → Blake2Generator → Option (ℕ × Blake2Generator)
  draw_divisor zero g = none
  draw_divisor (suc draws) g =
      let (x, g') = get_u32 D g in
      let rest = draw_divisor draws g' in if is_zero_or_power_of_2 x then rest else some (x, g')

  -- An addition or an exclusive or of a constant.
  abbrev with_imm :
      SsType → WorkingInstruction → Blake2Generator → WorkingInstruction × Blake2Generator
  with_imm group w g =
      let (x, g') = get_u32 D g in
      (record w { imm32 = x; op_group = group; op_group_par = minus_one }, g')

  abbrev with_par :
      SsType → WorkingInstruction → Blake2Generator → WorkingInstruction × Blake2Generator
  with_par group w g =
      let (x, g') = get_u32 D g in
      (record w { can_reuse = true; op_group = group; op_group_par = x }, g')

  abbrev from_source : SsType → WorkingInstruction → WorkingInstruction
  from_source group w = record w { op_group = group; group_par_is_source = true }

  unfoldable pub create_as :
      ℕ
      → SsType
      → WorkingInstruction
      → Blake2Generator
      → Option (WorkingInstruction × Blake2Generator)
  create_as draws isub_r w g = some (from_source iadd_rs w, g)
  create_as draws ixor_r w g = some (from_source ixor_r w, g)
  create_as draws iadd_rs w g =
      let (b, g') = get_byte D g in some (record (from_source iadd_rs w) { mod_ = b }, g')
  create_as draws imul_r w g = some (from_source imul_r w, g)
  create_as draws iror_c w g = draw_rotation draws g >>= λ drawn.
      some (record w { imm32 = drawn.0; op_group = iror_c; op_group_par = minus_one }, drawn.1)
  create_as draws iadd_c7 w g = some (with_imm iadd_c7 w g)
  create_as draws iadd_c8 w g = some (with_imm iadd_c7 w g)
  create_as draws iadd_c9 w g = some (with_imm iadd_c7 w g)
  create_as draws ixor_c7 w g = some (with_imm ixor_c7 w g)
  create_as draws ixor_c8 w g = some (with_imm ixor_c7 w g)
  create_as draws ixor_c9 w g = some (with_imm ixor_c7 w g)
  create_as draws imulh_r w g = some (with_par imulh_r w g)
  create_as draws ismulh_r w g = some (with_par ismulh_r w g)
  create_as draws imul_rcp w g = draw_divisor draws g >>= λ drawn.
      some (record w { imm32 = drawn.0; op_group = imul_rcp; op_group_par = minus_one }, drawn.1)
  create_as draws invalid w g = some (w, g)

  unfoldable pub create :
      ℕ → SsType → Blake2Generator → Option (WorkingInstruction × Blake2Generator)
  unfolding create_as
  create draws t g = create_as draws t (blank (info_of t)) g

  unfoldable pub select_register : List ℕ → Blake2Generator → Option ℕ × Blake2Generator
  select_register [] g = (none, g)
  select_register (x ∷ []) g = (some x, g)
  select_register (x ∷ y ∷ rest) g =
      let (n, g') = get_u32 D g in (get_elem? (x ∷ y ∷ rest) (n % length (x ∷ y ∷ rest)), g')

  -- The registers, from `i` on, that a test allows.
  unfoldable pub available_from : (ℕ → RegisterInfo → Bool) → ℕ → List RegisterInfo → List ℕ
  available_from test i [] = []
  available_from test i (r ∷ registers) =
      let rest = available_from test (suc i) registers in if test i r then i ∷ rest else rest

  -- `available.len() == 2 && (available[0] == 5 || available[1] == 5)`
  abbrev pub is_displaced_pair : List ℕ → Bool
  is_displaced_pair [] = false
  is_displaced_pair (x ∷ []) = false
  is_displaced_pair (x ∷ y ∷ []) =
      x == register_needs_displacement || y == register_needs_displacement
  is_displaced_pair (x ∷ y ∷ z ∷ rest) = false

  abbrev pub take_source :
      WorkingInstruction
      → Option ℕ × Blake2Generator
      → Bool × (WorkingInstruction × Blake2Generator)
  take_source w (none, g) = (false, (w, g))
  take_source w (some reg, g) = (
    true,
    (
      record w { src = reg; op_group_par = if w.group_par_is_source then reg else w.op_group_par },
      g,
    ),
  )

  unfoldable pub select_source :
      List RegisterInfo
      → ℕ
      → WorkingInstruction × Blake2Generator
      → Bool × (WorkingInstruction × Blake2Generator)
  unfolding available_from select_register
  select_source registers cycle (w, g) =
      let available = available_from (λ i r. leb r.latency cycle) 0 registers in
      if is_type w.info.inst_type iadd_rs && is_displaced_pair available
      then (
        true,
        (
          record w {
            op_group_par = register_needs_displacement;
            src = register_needs_displacement;
          },
          g,
        ),
      )
      else take_source w (select_register available g)

  -- Whether a register can be the destination.
  abbrev pub allowed : ℕ → Bool → WorkingInstruction → ℕ → RegisterInfo → Bool
  allowed cycle allow_chained_mul w i r =
      leb r.latency cycle
      && (w.can_reuse || not (i == w.src))
      && (allow_chained_mul
          || not (is_type w.op_group imul_r)
          || not (is_type r.last_op_group imul_r))
      && (not (is_type r.last_op_group w.op_group) || not (r.last_op_par == w.op_group_par))
      && (not (is_type w.info.inst_type iadd_rs) || not (i == register_needs_displacement))

  abbrev pub take_destination :
      WorkingInstruction
      → Option ℕ × Blake2Generator
      → Bool × (WorkingInstruction × Blake2Generator)
  take_destination w (none, g) = (false, (w, g))
  take_destination w (some reg, g) = (true, (record w { dst = reg }, g))

  unfoldable pub select_destination :
      Bool
      → List RegisterInfo
      → ℕ
      → WorkingInstruction × Blake2Generator
      → Bool × (WorkingInstruction × Blake2Generator)
  unfolding available_from select_register
  select_destination allow_chained_mul registers cycle (w, g) =
      take_destination w
        (select_register (available_from (allowed cycle allow_chained_mul w) 0 registers) g)
