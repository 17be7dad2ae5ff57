-- ===== src/RandomX/Steps.antt =====
-- Every arm of `execute_bytecode` (src/randomx/vm.rs), on operands within bounds.
use miner_tim.Common.{
  ℕ, ◌+◌, ◌-◌, ◌^◌, ◌≤◌, ◌<◌, Bool, false, ◌||◌, Option, ◌≡◌, ◌≢◌, refl, arith, ◌==◌, ◌>>=◌, inl,
  inr, Bool-cases,
}
use miner_tim.RandomX.Instruction.{
  InstructionType, BytecodeInstruction, RxVersion, iadd_rs, iadd_m, isub_r, isub_m, imul_r, imul_m,
  imulh_r, imulh_m, ismulh_r, ismulh_m, ineg_r, ixor_r, ixor_m, iror_r, irol_r, iswap_r, fswap_r,
  fadd_r, fadd_m, fsub_r, fsub_m, fscal_r, fmul_r, fdiv_m, fsqrt_r, cbranch, cfround, istore, nop,
  scratchpad_l3_mask,
}
use miner_tim.RandomX.Machine.{FloatUnit, Machine, ProgramConfiguration, wrapping_add, load}
use miner_tim.RandomX.Execute.{address, float_source, arm}
use miner_tim.RandomX.Safety.{
  writes, Within, IsReady, Post, bind-Post, get-then, load-Post, address-fits,
}
use miner_tim.RandomX.Arms.{
  Keeps, update-Post, register-Post, with_source-Post, memory-Post, swap-Post, f-Post, e-Post,
  store_arm-Post, round-Post,
}

==-false : (c d : ℕ) → (c == d) ≡ false → d ≢ c
==-false c d h e = ground arith

or-false : (x y : Bool) → (x || y) ≡ false → (x ≡ false) × (y ≡ false)
or-false x y h = ground arith

module _ (U : FloatUnit) (config : ProgramConfiguration) (version : RxVersion) where
  float_source-Post :
      (b : BytecodeInstruction) (m : Machine (U.F64))
      → IsReady m
      → b.src < 8
      → b.mem_mask ≤ scratchpad_l3_mask
      → Post (λ s. Unit {0}) (float_source U config version b m)
  unfolding IsReady float_source
  float_source-Post b m ready hs hm = get-then m.r b.src _ _ (omega arith) (λ x.
      bind-Post _ _ (load 4 m.scratchpad (address b x)) _
        (load-Post 4 m.scratchpad (address b x) (omega (arith, address-fits b x hm)))
        (λ lo u.
          bind-Post _ _ (load 4 m.scratchpad (address b x + 4)) _
            (load-Post 4 m.scratchpad (address b x + 4) (omega (arith, address-fits b x hm)))
            (λ hi v. tt)))

  -- Reading a pair from the scratchpad, and what is done with it.
  float_source-then :
      {B : Type 0} (b : BytecodeInstruction) (m : Machine (U.F64)) (P : B → Type 0)
      (f : U.F64 × U.F64 → Option B)
      → IsReady m
      → b.src < 8
      → b.mem_mask ≤ scratchpad_l3_mask
      → ((s : U.F64 × U.F64) → Post P (f s))
      → Post P (float_source U config version b m >>= f)
  float_source-then b m P f ready hs hm k =
      bind-Post _ P (float_source U config version b m) f (float_source-Post b m ready hs hm)
        (λ s u. k s)

  pub arm-Post :
      (t : InstructionType) (b : BytecodeInstruction) (m : Machine (U.F64))
      → IsReady m
      → Within t b
      → Post (Keeps b t m) (arm U config version t b m)
  unfolding IsReady Within Keeps writes arm
  arm-Post iadd_rs b m ready w =
      register-Post b iadd_rs _ m ready (w.0) (w.1) (λ c. ==-false c b.dst)
  arm-Post iadd_m b m ready w = memory-Post b iadd_m _ m ready (w.0) (w.1) (λ c. ==-false c b.dst)
  arm-Post isub_r b m ready w = with_source-Post b isub_r _ m ready w (λ c. ==-false c b.dst)
  arm-Post isub_m b m ready w = memory-Post b isub_m _ m ready (w.0) (w.1) (λ c. ==-false c b.dst)
  arm-Post imul_r b m ready w = with_source-Post b imul_r _ m ready w (λ c. ==-false c b.dst)
  arm-Post imul_m b m ready w = memory-Post b imul_m _ m ready (w.0) (w.1) (λ c. ==-false c b.dst)
  arm-Post imulh_r b m ready w =
      register-Post b imulh_r _ m ready (w.0) (w.1) (λ c. ==-false c b.dst)
  arm-Post imulh_m b m ready w = memory-Post b imulh_m _ m ready (w.0) (w.1) (λ c. ==-false c b.dst)
  arm-Post ismulh_r b m ready w =
      register-Post b ismulh_r _ m ready (w.0) (w.1) (λ c. ==-false c b.dst)
  arm-Post ismulh_m b m ready w =
      memory-Post b ismulh_m _ m ready (w.0) (w.1) (λ c. ==-false c b.dst)
  arm-Post ineg_r b m ready w =
      update-Post b ineg_r (λ d x. wrapping_add (2 ^ 64 - 1 - d) 1) 0 m ready w
        (λ c. ==-false c b.dst)
  arm-Post ixor_r b m ready w = with_source-Post b ixor_r _ m ready w (λ c. ==-false c b.dst)
  arm-Post ixor_m b m ready w = memory-Post b ixor_m _ m ready (w.0) (w.1) (λ c. ==-false c b.dst)
  arm-Post iror_r b m ready w = with_source-Post b iror_r _ m ready w (λ c. ==-false c b.dst)
  arm-Post irol_r b m ready w = with_source-Post b irol_r _ m ready w (λ c. ==-false c b.dst)
  arm-Post iswap_r b m ready w = swap-Post b iswap_r m ready (w.0) (w.1) (λ c h.
      let (d, s) = or-false (c == b.dst) (c == b.src) h in (==-false c b.dst d, ==-false c b.src s))
  arm-Post fswap_r b m ready w = elim (Bool-cases b.fswap_is_e) [
    | inl e ↦ rw (e) (e-Post b fswap_r _ m ready w)
    | inr e ↦ rw (e) (f-Post b fswap_r _ m ready w)
  ]
  arm-Post fadd_r b m ready w =
      get-then m.a b.src _ _ (omega arith) (λ s. f-Post b fadd_r _ m ready (w.0))
  arm-Post fadd_m b m ready w =
      float_source-then b m _ _ ready (w.1.0) (w.1.1) (λ s. f-Post b fadd_m _ m ready (w.0))
  arm-Post fsub_r b m ready w =
      get-then m.a b.src _ _ (omega arith) (λ s. f-Post b fsub_r _ m ready (w.0))
  arm-Post fsub_m b m ready w =
      float_source-then b m _ _ ready (w.1.0) (w.1.1) (λ s. f-Post b fsub_m _ m ready (w.0))
  arm-Post fscal_r b m ready w = f-Post b fscal_r _ m ready w
  arm-Post fmul_r b m ready w =
      get-then m.a b.src _ _ (omega arith) (λ s. e-Post b fmul_r _ m ready (w.0))
  arm-Post fdiv_m b m ready w =
      float_source-then b m _ _ ready (w.1.0) (w.1.1) (λ s. e-Post b fdiv_m _ m ready (w.0))
  arm-Post fsqrt_r b m ready w = e-Post b fsqrt_r _ m ready w
  arm-Post cbranch b m ready w = update-Post b cbranch wrapping_add b.imm m ready w (λ c h. cc)
  arm-Post cfround b m ready w = round-Post b cfround version m ready w
  arm-Post istore b m ready w = store_arm-Post b istore m ready (w.0) (w.1.0) (w.1.1)
  arm-Post nop b m ready w = (ready, λ c h. refl)
