-- ===== src/RandomX/Vm/Loops.antt =====
-- The register loops of an iteration of `execute_vm_inner` (src/randomx/vm.rs) stay within bounds.
use miner_tim.Common.{
  ℕ, zero, suc, ◌+◌, ◌*◌, ◌≤◌, ◌<◌, bit_xor, Option, some, ◌>>=◌, ap, ◌∙◌, arith, List, length,
  length-set,
}
use miner_tim.RandomX.Instruction.{RxVersion, v1, v2, scratchpad_l3_size}
use miner_tim.RandomX.Machine.{
  FloatUnit, Machine, ProgramConfiguration, Scratchpad, write, load, load64, store64,
  cvt_packed_int_vec_f128, mask_register_exponent_mantissa,
}
use miner_tim.RandomX.Safety.{Post, IsReady, bind-Post, get-then, write-Post, load-Post, store-Post}
use miner_tim.RandomX.Vm.{
  for_from, load_r, load_f, load_e, xor_item, store_r, combine, store_f, load_all, store_all,
}

-- A loop whose body keeps a property at each index it takes.
pub for_from-Post :
    {A : Type 0} (P : A → Type 0) (body : ℕ → A → Option A) (bound count first : ℕ) (a : A)
    → first + count ≤ bound
    → ((i : ℕ) (x : A) → i < bound → P x → Post P (body i x))
    → P a
    → Post P (for_from body count first a)
unfolding for_from
for_from-Post P body bound zero first a h step p = p
for_from-Post P body bound (suc count) first a h step p =
    bind-Post P P (body first a) _ (step first a (omega arith) p)
      (λ next q. for_from-Post P body bound count (suc first) next (omega arith) step q)

module _ (U : FloatUnit) (mix : ℕ → List (U.F64 × U.F64) → U.F64 × U.F64 → U.F64 × U.F64)
    (item : ℕ → ℕ → ℕ) where
  -- A register written in place.
  write_r-Post :
      (m : Machine (U.F64)) (i v : ℕ)
      → IsReady m
      → i < 8
      → Post IsReady (write m.r i v >>= λ r. some (record m { r = r }))
  unfolding IsReady
  write_r-Post m i v ready h =
      bind-Post _ IsReady (write m.r i v) _ (write-Post m.r i v (omega arith))
        (λ r e. (ap length e ∙ length-set m.r i v ∙ ready.0, ready.1))

  write_f-Post :
      (m : Machine (U.F64)) (i : ℕ) (v : U.F64 × U.F64)
      → IsReady m
      → i < 4
      → Post IsReady (write m.f i v >>= λ f. some (record m { f = f }))
  unfolding IsReady
  write_f-Post m i v ready h =
      bind-Post _ IsReady (write m.f i v) _ (write-Post m.f i v (omega arith))
        (λ f e. (ready.0, (ap length e ∙ length-set m.f i v ∙ ready.1.0, ready.1.1)))

  write_e-Post :
      (m : Machine (U.F64)) (i : ℕ) (v : U.F64 × U.F64)
      → IsReady m
      → i < 4
      → Post IsReady (write m.e i v >>= λ e. some (record m { e = e }))
  unfolding IsReady
  write_e-Post m i v ready h =
      bind-Post _ IsReady (write m.e i v) _ (write-Post m.e i v (omega arith)) (λ es e.
        (ready.0, (ready.1.0, (ap length e ∙ length-set m.e i v ∙ ready.1.1.0, ready.1.1.1))))

  cvt-Post :
      (pad : Scratchpad) (offset : ℕ)
      → offset + 8 ≤ pad.size
      → Post (λ v. Unit {0}) (cvt_packed_int_vec_f128 U pad offset)
  cvt-Post pad offset h =
      bind-Post _ _ (load 4 pad offset) _ (load-Post 4 pad offset (omega arith)) (λ lo u.
        bind-Post _ _ (load 4 pad (offset + 4)) _ (load-Post 4 pad (offset + 4) (omega arith))
          (λ hi v. tt))

  module _ (addr : ℕ) (fits : addr + 64 ≤ scratchpad_l3_size) where
    load_r-Post :
        (i : ℕ) (m : Machine (U.F64))
        → i < 8
        → IsReady m
        → Post IsReady (load_r U mix item addr i m)
    unfolding IsReady load_r
    load_r-Post i m h ready = get-then m.r i _ _ (omega arith) (λ x.
        bind-Post _ _ (load64 m.scratchpad (addr + 8 * i)) _
          (load-Post 8 m.scratchpad (addr + 8 * i) (omega arith))
          (λ y u. write_r-Post m i (bit_xor x y) ready h))

    load_f-Post :
        (i : ℕ) (m : Machine (U.F64))
        → i < 4
        → IsReady m
        → Post IsReady (load_f U mix item addr i m)
    unfolding IsReady load_f
    load_f-Post i m h ready =
        bind-Post _ _ (cvt_packed_int_vec_f128 U m.scratchpad (addr + 8 * i)) _
          (cvt-Post m.scratchpad (addr + 8 * i) (omega arith)) (λ v u. write_f-Post m i v ready h)

    load_e-Post :
        (config : ProgramConfiguration) (i : ℕ) (m : Machine (U.F64))
        → i < 4
        → IsReady m
        → Post IsReady (load_e U mix item config addr i m)
    unfolding IsReady load_e
    load_e-Post config i m h ready =
        bind-Post _ _ (cvt_packed_int_vec_f128 U m.scratchpad (addr + 8 * (4 + i))) _
          (cvt-Post m.scratchpad (addr + 8 * (4 + i)) (omega arith))
          (λ v u. write_e-Post m i (mask_register_exponent_mantissa U config v) ready h)

    store_r-Post :
        (i : ℕ) (m : Machine (U.F64))
        → i < 8
        → IsReady m
        → Post IsReady (store_r U mix item addr i m)
    unfolding IsReady store_r
    store_r-Post i m h ready = get-then m.r i _ _ (omega arith) (λ x.
        bind-Post _ _ (store64 m.scratchpad (addr + 8 * i) x) _
          (store-Post m.scratchpad (addr + 8 * i) x (omega arith))
          (λ pad e. (ready.0, (ready.1.0, (ready.1.1.0, (ready.1.1.1.0, omega (arith, e)))))))

    store_f-Post :
        (i : ℕ) (m : Machine (U.F64))
        → i < 4
        → IsReady m
        → Post IsReady (store_f U mix item addr i m)
    unfolding IsReady store_f
    store_f-Post i m h ready = get-then m.f i _ _ (omega arith) (λ x.
        bind-Post _ _ (store64 m.scratchpad (addr + 16 * i) (U.to_bits (x.0))) _
          (store-Post m.scratchpad (addr + 16 * i) (U.to_bits (x.0)) (omega arith))
          (λ lo e.
            bind-Post _ _ (store64 lo (addr + 16 * i + 8) (U.to_bits (x.1))) _
              (store-Post lo (addr + 16 * i + 8) (U.to_bits (x.1)) (omega (arith, e)))
              (λ pad e'.
                (ready.0, (ready.1.0, (ready.1.1.0, (ready.1.1.1.0, omega (arith, e, e'))))))))

  pub xor_item-Post :
      (item_number i : ℕ) (m : Machine (U.F64))
      → i < 8
      → IsReady m
      → Post IsReady (xor_item U mix item item_number i m)
  unfolding IsReady xor_item
  xor_item-Post item_number i m h ready =
      get-then m.r i _ _ (omega arith)
        (λ x. write_r-Post m i (bit_xor x (item item_number i)) ready h)

  combine-Post :
      (version : RxVersion) (i : ℕ) (m : Machine (U.F64))
      → i < 4
      → IsReady m
      → Post IsReady (combine U mix item version i m)
  unfolding IsReady combine
  combine-Post v1 i m h ready =
      get-then m.f i _ _ (omega arith)
        (λ x. get-then m.e i _ _ (omega arith) (λ y. write_f-Post m i _ ready h))
  combine-Post v2 i m h ready =
      get-then m.f i _ _ (omega arith) (λ x. write_f-Post m i (mix i m.e x) ready h)

  pub load_all-Post :
      (config : ProgramConfiguration) (addr0 addr1 : ℕ) (m : Machine (U.F64))
      → addr0 + 64 ≤ scratchpad_l3_size
      → addr1 + 64 ≤ scratchpad_l3_size
      → IsReady m
      → Post IsReady (load_all U mix item config addr0 addr1 m)
  unfolding load_all
  load_all-Post config addr0 addr1 m h0 h1 ready =
      bind-Post IsReady _ (for_from (load_r U mix item addr0) 8 0 m) _
        (for_from-Post IsReady (load_r U mix item addr0) 8 8 0 m (omega arith)
          (load_r-Post addr0 h0) ready)
        (λ m1 r1.
          bind-Post IsReady _ (for_from (load_f U mix item addr1) 4 0 m1) _
            (for_from-Post IsReady (load_f U mix item addr1) 4 4 0 m1 (omega arith)
              (load_f-Post addr1 h1) r1)
            (λ m2 r2.
              for_from-Post IsReady (load_e U mix item config addr1) 4 4 0 m2 (omega arith)
                (load_e-Post addr1 h1 config) r2))

  pub store_all-Post :
      (version : RxVersion) (addr0 addr1 : ℕ) (m : Machine (U.F64))
      → addr0 + 64 ≤ scratchpad_l3_size
      → addr1 + 64 ≤ scratchpad_l3_size
      → IsReady m
      → Post IsReady (store_all U mix item version addr0 addr1 m)
  unfolding store_all
  store_all-Post version addr0 addr1 m h0 h1 ready =
      bind-Post IsReady _ (for_from (store_r U mix item addr1) 8 0 m) _
        (for_from-Post IsReady (store_r U mix item addr1) 8 8 0 m (omega arith)
          (store_r-Post addr1 h1) ready)
        (λ m1 r1.
          bind-Post IsReady _ (for_from (combine U mix item version) 4 0 m1) _
            (for_from-Post IsReady (combine U mix item version) 4 4 0 m1 (omega arith)
              (combine-Post version) r1)
            (λ m2 r2.
              for_from-Post IsReady (store_f U mix item addr0) 4 4 0 m2 (omega arith)
                (store_f-Post addr0 h0) r2))
