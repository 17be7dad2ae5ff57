-- ===== src/RandomX/Superscalar/Sound.antt =====
-- What the variables of `generate_superscalar` (src/randomx/superscalar.rs) keep to between the turns
-- of its inner loop, and in the middle of one.
use miner_tim.Common.{
  ℕ, ◌+◌, ◌-◌, ◌*◌, ◌^◌, ◌≤◌, ◌<◌, ◌≡◌, refl, arith, inl, inr, [], ◌∷◌, length, length-append, All,
  All-append, ltb, ltb→lt, leb→le, u8,
}
use miner_tim.RandomX.Generator.{Digest, IsValid}
use miner_tim.RandomX.Superscalar.{code_of, superscalar_max_size, max_throwaway_count}
use miner_tim.RandomX.Superscalar.Safety.{IsGenerated, if-either}
use miner_tim.RandomX.Superscalar.Operands.{IsFit}
use miner_tim.RandomX.Superscalar.Registers.{IsPending}
use miner_tim.RandomX.Superscalar.Select.{WorkingInstruction}
use miner_tim.RandomX.Superscalar.Generate.{State, Turn, next, leave, to_output, all_issued, emit}

source-below : (w : WorkingInstruction) → IsFit w → w.src < 2 ^ 31 → u8 w.src < 8
source-below w f lt = elim f.source [ inl e ↦ absurd (omega arith) | inr k ↦ omega arith ]

to_output-IsGenerated : (w : WorkingInstruction) → IsFit w → w.dst < 8 → IsGenerated (to_output w)
to_output-IsGenerated w f lt =
    let same : u8 (code_of w.info.inst_type) ≡ code_of w.info.inst_type = omega (arith, f.kind) in
    record {
      kind = omega (arith, f.kind);
      dst_in = omega arith;
      src_in =
          if-either (λ x. x < 8) (ltb w.src (2 ^ 31)) (u8 w.src) (u8 w.dst)
            (λ e. source-below w f (ltb→lt w.src (2 ^ 31) e)) (λ e. omega arith);
      constant = f.constant;
      rotation = λ e. f.rotation (omega arith);
      divisor = λ e. f.divisor (omega arith);
    }

module _ (D : Digest) where
  -- The variables fit each other. An instruction that has macro-ops left is fit for them.
  pub record IsSound (s : State) : Type 0 where
    pub registers_length : length s.registers ≡ 8
    pub size : s.program_size ≡ length s.output_instructions
    pub size_bound : s.program_size ≤ superscalar_max_size
    pub outputs : All IsGenerated s.output_instructions
    pub valid : IsValid D s.generator
    pub thrown : s.throw_away_count ≤ max_throwaway_count
    pub pending :
        s.macro_op_index < length s.current.info.ops
        → IsPending s.macro_op_index s.current × (s.program_size < superscalar_max_size)

  -- In the middle of a turn: the instruction has macro-ops left.
  pub record IsBusy (s : State) : Type 0 where
    pub registers_length : length s.registers ≡ 8
    pub size : s.program_size ≡ length s.output_instructions
    pub room : s.program_size < superscalar_max_size
    pub outputs : All IsGenerated s.output_instructions
    pub valid : IsValid D s.generator
    pub thrown : s.throw_away_count ≤ max_throwaway_count
    pub left : s.macro_op_index < length s.current.info.ops
    pub pending : IsPending s.macro_op_index s.current

  -- After a macro-op, which may have been the last.
  pub record IsIssued (s : State) : Type 0 where
    pub registers_length : length s.registers ≡ 8
    pub size : s.program_size ≡ length s.output_instructions
    pub room : s.program_size < superscalar_max_size
    pub outputs : All IsGenerated s.output_instructions
    pub valid : IsValid D s.generator
    pub thrown : s.throw_away_count ≤ max_throwaway_count
    pub pending : IsPending s.macro_op_index s.current

  pub emit-IsSound :
      (s : State) → IsIssued s → IsSound (emit s) × ((emit s).throw_away_count ≡ s.throw_away_count)
  unfolding emit
  emit-IsSound s h =
      let f = h.pending.fit in
      if-either (λ t. IsSound t × (t.throw_away_count ≡ s.throw_away_count)) (all_issued s) _ _
        (λ e.
          let done = leb→le (length s.current.info.ops) s.macro_op_index e in
          let aimed : s.current.dst < 8 = h.pending.chosen (omega (arith, f.order, f.last)) in
          (
            record {
              registers_length = h.registers_length;
              size =
                  omega
                    (arith, h.size, length-append s.output_instructions (to_output s.current ∷ []));
              size_bound = omega (arith, h.room);
              outputs =
                  All-append IsGenerated s.output_instructions (to_output s.current ∷ []) h.outputs
                    (to_output-IsGenerated s.current f aimed, tt);
              valid = h.valid;
              thrown = h.thrown;
              pending = λ k. absurd (omega arith);
            },
            refl,
          ))
        (λ e. (
          record {
            registers_length = h.registers_length;
            size = h.size;
            size_bound = omega (arith, h.room);
            outputs = h.outputs;
            valid = h.valid;
            thrown = h.thrown;
            pending = λ k. (h.pending, h.room);
          },
          refl,
        ))

  -- A turn that goes on leaves fewer than `m` turns for `n` slots.
  abbrev pub turns_left : ℕ → ℕ → State → ℕ
  turns_left n i s = (n - i) * 257 + (256 - s.throw_away_count)

  abbrev pub Good : ℕ → ℕ → Turn → Type 0
  Good n m (next j s) = IsSound s × (turns_left n j s < m)
  Good n m (leave s) = IsSound s

  pub busy-IsSound : (s : State) → IsBusy s → IsSound s
  busy-IsSound s b = record {
    registers_length = b.registers_length;
    size = b.size;
    size_bound = omega (arith, b.room);
    outputs = b.outputs;
    valid = b.valid;
    thrown = b.thrown;
    pending = λ lt. (b.pending, b.room);
  }
