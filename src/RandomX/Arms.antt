-- ===== src/RandomX/Arms.antt =====
-- The kinds of arm of `execute_bytecode` (src/randomx/vm.rs) on operands within bounds.
use miner_tim.Common.{
  ℕ, ◌≤◌, ◌<◌, bit_and, false, ◌≡◌, ◌≢◌, refl, ap, ◌∙◌, arith, u32, get_or, set, length, length-set,
  get_or-set_ne, ltb, ltb→lt, ◌==◌, inl, inr, Bool-cases,
}
use miner_tim.RandomX.Instruction.{
  InstructionType, BytecodeInstruction, RxVersion, v1, v2, scratchpad_l3_mask,
}
use miner_tim.RandomX.Machine.{Machine, write, load64, rotate_right, store64}
use miner_tim.RandomX.Execute.{
  address, source_or, update, with_register, with_source, with_memory, swap, update_f, update_e,
  write_memory, round, apply_cfround,
}
use miner_tim.RandomX.Safety.{
  writes, IsReady, Post, get-Post, bind-Post, get-then, write-Post, load-Post, store-Post,
  address-fits,
}

module _ {F : Type 0} (b : BytecodeInstruction) where
  -- The machine stays ready, and the integer registers an instruction of type `t` does not write
  -- stay as they are.
  unfoldable pub Keeps : InstructionType → Machine F → Machine F → Type 0
  unfolding IsReady writes
  Keeps t m after =
      IsReady after × ((c : ℕ) → writes t b c ≡ false → get_or after.r c 0 ≡ get_or m.r c 0)

  pub update-Post :
      (t : InstructionType) (op : ℕ → ℕ → ℕ) (x : ℕ) (m : Machine F)
      → IsReady m
      → b.dst < 8
      → ((c : ℕ) → writes t b c ≡ false → b.dst ≢ c)
      → Post (Keeps t m) (update b op x m)
  unfolding IsReady Keeps update
  update-Post t op x m ready hd apart = get-then m.r b.dst _ _ (omega arith) (λ d.
      bind-Post (λ r. r ≡ set m.r b.dst (op d x)) _ (write m.r b.dst (op d x)) _
        (write-Post m.r b.dst (op d x) (omega arith))
        (λ r e. (
          (omega (arith, ap length e, length-set m.r b.dst (op d x)), ready.1),
          λ c hc. ap (λ s. get_or s c 0) e ∙ get_or-set_ne m.r b.dst c (op d x) 0 (apart c hc),
        )))

  pub register-Post :
      (t : InstructionType) (op : ℕ → ℕ → ℕ) (m : Machine F)
      → IsReady m
      → b.dst < 8
      → b.src < 8
      → ((c : ℕ) → writes t b c ≡ false → b.dst ≢ c)
      → Post (Keeps t m) (with_register b op m)
  unfolding IsReady with_register
  register-Post t op m ready hd hs apart =
      get-then m.r b.src _ _ (omega arith) (λ x. update-Post t op x m ready hd apart)

  pub source-Post :
      (other : ℕ) (m : Machine F) → IsReady m → Post (λ x. Unit {0}) (source_or b other m)
  unfolding IsReady source_or
  source-Post other m ready = elim (Bool-cases (ltb b.src 8)) [
    | inl e ↦ rw (e) (get-Post m.r b.src (omega (arith, ltb→lt b.src 8 e)))
    | inr e ↦ rw (e) tt
  ]

  pub with_source-Post :
      (t : InstructionType) (op : ℕ → ℕ → ℕ) (m : Machine F)
      → IsReady m
      → b.dst < 8
      → ((c : ℕ) → writes t b c ≡ false → b.dst ≢ c)
      → Post (Keeps t m) (with_source b op m)
  unfolding IsReady with_source
  with_source-Post t op m ready hd apart =
      bind-Post _ _ (source_or b b.imm m) _ (source-Post b.imm m ready)
        (λ x u. update-Post t op x m ready hd apart)

  pub memory-Post :
      (t : InstructionType) (op : ℕ → ℕ → ℕ) (m : Machine F)
      → IsReady m
      → b.dst < 8
      → b.mem_mask ≤ scratchpad_l3_mask
      → ((c : ℕ) → writes t b c ≡ false → b.dst ≢ c)
      → Post (Keeps t m) (with_memory b op m)
  unfolding IsReady with_memory
  memory-Post t op m ready hd hm apart =
      bind-Post _ _ (source_or b 0 m) _ (source-Post 0 m ready) (λ base u.
        bind-Post _ _ (load64 m.scratchpad (address b base)) _
          (load-Post 8 m.scratchpad (address b base) (omega (arith, address-fits b base hm)))
          (λ x v. update-Post t op x m ready hd apart))

  pub swap-Post :
      (t : InstructionType) (m : Machine F)
      → IsReady m
      → b.dst < 8
      → b.src < 8
      → ((c : ℕ) → writes t b c ≡ false → (b.dst ≢ c) × (b.src ≢ c))
      → Post (Keeps t m) (swap b m)
  unfolding IsReady Keeps swap
  swap-Post t m ready hd hs apart = get-then m.r b.dst _ _ (omega arith) (λ d.
      get-then m.r b.src _ _ (omega arith) (λ s.
        bind-Post _ _ (write m.r b.dst s) _ (write-Post m.r b.dst s (omega arith)) (λ r e.
          bind-Post _ _ (write r b.src d) _
            (write-Post r b.src d (omega (arith, ap length e, length-set m.r b.dst s)))
            (λ r' e'. (
              (
                omega (
                  arith,
                  ap length e,
                  length-set m.r b.dst s,
                  ap length e',
                  length-set r b.src d,
                ),
                ready.1,
              ),
              λ c hc.
                  ap (λ x. get_or x c 0) e'
                  ∙ get_or-set_ne r b.src c d 0 ((apart c hc).1)
                  ∙ ap (λ x. get_or x c 0) e
                  ∙ get_or-set_ne m.r b.dst c s 0 ((apart c hc).0),
            )))))

  pub f-Post :
      (t : InstructionType) (op : F × F → F × F) (m : Machine F)
      → IsReady m
      → b.dst < 4
      → Post (Keeps t m) (update_f b op m)
  unfolding IsReady Keeps update_f
  f-Post t op m ready hd = get-then m.f b.dst _ _ (omega arith) (λ d.
      bind-Post _ _ (write m.f b.dst (op d)) _ (write-Post m.f b.dst (op d) (omega arith)) (λ f e. (
        (ready.0, (omega (arith, ap length e, length-set m.f b.dst (op d)), ready.1.1)),
        λ c hc. refl,
      )))

  pub e-Post :
      (t : InstructionType) (op : F × F → F × F) (m : Machine F)
      → IsReady m
      → b.dst < 4
      → Post (Keeps t m) (update_e b op m)
  unfolding IsReady Keeps update_e
  e-Post t op m ready hd = get-then m.e b.dst _ _ (omega arith) (λ d.
      bind-Post _ _ (write m.e b.dst (op d)) _ (write-Post m.e b.dst (op d) (omega arith)) (λ es e.
        (
          (
            ready.0,
            (ready.1.0, (omega (arith, ap length e, length-set m.e b.dst (op d)), ready.1.1.1)),
          ),
          λ c hc. refl,
        )))

  pub store_arm-Post :
      (t : InstructionType) (m : Machine F)
      → IsReady m
      → b.dst < 8
      → b.src < 8
      → b.mem_mask ≤ scratchpad_l3_mask
      → Post (Keeps t m) (write_memory b m)
  unfolding IsReady Keeps write_memory
  store_arm-Post t m ready hd hs hm = get-then m.r b.dst _ _ (omega arith) (λ d.
      get-then m.r b.src _ _ (omega arith) (λ s.
        bind-Post _ _ (store64 m.scratchpad (address b d) s) _
          (store-Post m.scratchpad (address b d) s (omega (arith, address-fits b d hm)))
          (λ pad e. (
            (ready.0, (ready.1.0, (ready.1.1.0, (ready.1.1.1.0, omega (arith, e))))),
            λ c hc. refl,
          ))))

  apply_cfround-Keeps :
      (t : InstructionType) (version : RxVersion) (rotated : ℕ) (m : Machine F)
      → IsReady m
      → Keeps t m (apply_cfround version rotated m)
  unfolding IsReady Keeps apply_cfround
  apply_cfround-Keeps t v1 rotated m ready = (ready, λ c hc. refl)
  apply_cfround-Keeps t v2 rotated m ready = elim (Bool-cases (bit_and rotated 60 == 0)) [
    | inl e ↦ rw (e) (ready, λ c hc. refl)
    | inr e ↦ rw (e) (ready, λ c hc. refl)
  ]

  pub round-Post :
      (t : InstructionType) (version : RxVersion) (m : Machine F)
      → IsReady m
      → b.src < 8
      → Post (Keeps t m) (round b version m)
  unfolding IsReady round
  round-Post t version m ready hs =
      get-then m.r b.src _ _ (omega arith)
        (λ s. apply_cfround-Keeps t version (rotate_right s (u32 b.imm)) m ready)
