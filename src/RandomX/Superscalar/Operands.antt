-- ===== src/RandomX/Superscalar/Operands.antt =====
-- What src/randomx/superscalar.rs draws for an instruction is within bounds: its slot, its constant
-- and its registers.
use miner_tim.Common.{
  ℕ, zero, suc, ◌+◌, ◌%◌, ◌^◌, ◌≤◌, ◌<◌, ◌≡◌, ◌⊎◌, refl, arith, Bool, false, inl, inr, Bool-cases,
  List, [], ◌∷◌, get_elem?, length, All, ltb, ◌==◌, ◌&&◌, ◌||◌, not,
}
use miner_tim.RandomX.Safety.{Post, bind-Post}
use miner_tim.RandomX.Generator.{
  Digest, Blake2Generator, get_byte, get_u32, IsValid, get_byte-IsValid, get_u32-IsValid,
}
use miner_tim.RandomX.Superscalar.{
  SsType, isub_r, ixor_r, iadd_rs, imul_r, iror_c, iadd_c7, ixor_c7, iadd_c8, ixor_c8, iadd_c9,
  ixor_c9, imulh_r, ismulh_r, imul_rcp, invalid, is_type, code_of, DecodeBuffer, minus_one, buf_484,
  buf_7333, buf_3733, buf_493, buf_4444, buf_3310,
}
use miner_tim.RandomX.Superscalar.Safety.{if-either}
use miner_tim.RandomX.Superscalar.Select.{
  WorkingInstruction, is_zero_or_power_of_2, fetch_next, either, select_for_slot, draw_rotation,
  draw_divisor, create_as, create,
}

-- The sizes of the slots.
pub data IsSlot : ℕ → Type 0 where
  slot_3 : IsSlot 3
  slot_4 : IsSlot 4
  slot_7 : IsSlot 7
  slot_8 : IsSlot 8
  slot_9 : IsSlot 9
  slot_10 : IsSlot 10

-- An instruction whose constant suits it, and whose destination is chosen no later than its result.
pub record IsFit (w : WorkingInstruction) : Type 0 where
  pub kind : code_of w.info.inst_type ≤ 13
  pub order : w.info.dst_op ≤ w.info.result_op
  pub last : w.info.result_op < length w.info.ops
  pub source : (w.src ≡ minus_one) ⊎ (w.src < 8)
  pub constant : w.imm32 < 2 ^ 32
  pub rotation : code_of w.info.inst_type ≡ 4 → (0 < w.imm32) × (w.imm32 < 64)
  pub divisor : code_of w.info.inst_type ≡ 13 → is_zero_or_power_of_2 w.imm32 ≡ false

pub get-All :
    {A : Type 0} (P : A → Type 0) (xs : List A) (i : ℕ)
    → i < length xs
    → All P xs
    → Post P (get_elem? xs i)
get-All P [] i lt h = absurd (omega arith)
get-All P (x ∷ xs) zero lt h = h.0
get-All P (x ∷ xs) (suc i) lt h = get-All P xs i (omega arith) h.1

module _ (D : Digest) where
  -- `draws` numbers are enough to meet one that fits.
  pub record IsEnough (draws : ℕ) : Type 0 where
    pub for_rotation :
        (g : Blake2Generator) → IsValid D g → Post (λ r. Unit {0}) (draw_rotation D draws g)
    pub for_divisor :
        (g : Blake2Generator) → IsValid D g → Post (λ r. Unit {0}) (draw_divisor D draws g)

  pub fetch_next-Post :
      (t : SsType) (c n : ℕ) (g : Blake2Generator)
      → IsValid D g
      → All IsSlot (fetch_next D t c n g).0.slots × IsValid D (fetch_next D t c n g).1
  unfolding fetch_next
  fetch_next-Post t c n g v =
      let w = (get_byte-IsValid D g v).0 in
      let P : DecodeBuffer × Blake2Generator → Type 0 = λ r. All IsSlot r.0.slots × IsValid D r.1 in
      let S : DecodeBuffer → Type 0 = λ b. All IsSlot b.slots in
      let b_484 : S buf_484 = (slot_4, (slot_8, (slot_4, tt))) in
      let b_7333 : S buf_7333 = (slot_7, (slot_3, (slot_3, (slot_3, tt)))) in
      let b_3733 : S buf_3733 = (slot_3, (slot_7, (slot_3, (slot_3, tt)))) in
      let b_493 : S buf_493 = (slot_4, (slot_9, (slot_3, tt))) in
      let b_4444 : S buf_4444 = (slot_4, (slot_4, (slot_4, (slot_4, tt)))) in
      let b_3310 : S buf_3310 = (slot_3, (slot_3, (slot_10, tt))) in
      let b = (get_byte D g).0 in
      if-either P (is_type t imulh_r || is_type t ismulh_r) _ _ (λ e. (b_3310, v))
        (λ e.
          if-either P (ltb n (c + 1)) _ _ (λ e. (b_4444, v))
            (λ e.
              if-either P (is_type t imul_rcp) _ _
                (λ e. (if-either S (b % 2 == 0) _ _ (λ e. b_493) (λ e. b_484), w))
                (λ e. (
                  if-either S (b % 4 == 0) _ _ (λ e. b_484)
                      (λ e.
                        if-either S (b % 4 == 1) _ _ (λ e. b_7333)
                          (λ e. if-either S (b % 4 == 2) _ _ (λ e. b_3733) (λ e. b_493))),
                  w,
                ))))

  abbrev IsChoice : SsType × Blake2Generator → Type 0
  IsChoice r = (code_of (r.0) ≤ 13) × IsValid D (r.1)

  either-Post :
      (t u : SsType) (g : Blake2Generator)
      → IsValid D g
      → code_of t ≤ 13
      → code_of u ≤ 13
      → IsChoice (either D t u g)
  either-Post t u g v h k = (
    if-either (λ x. code_of x ≤ 13) ((get_byte D g).0 % 2 == 0) t u (λ e. h) (λ e. k),
    (get_byte-IsValid D g v).0,
  )

  pub select_for_slot-Post :
      {size : ℕ} (fetch_type : ℕ) (is_last : Bool) (g : Blake2Generator)
      → IsSlot size
      → IsValid D g
      → Post
          (λ r. (code_of (r.0) ≤ 13) × IsValid D (r.1))
          (select_for_slot D size fetch_type is_last g)
  unfolding select_for_slot
  select_for_slot-Post f is_last g slot_3 v =
      let C : SsType → Type 0 = λ t. code_of t ≤ 13 in
      let b = (get_byte D g).0 in
      if-either IsChoice is_last _ _
        (λ e. (
          if-either C (b % 4 == 0) _ _ (λ e. omega arith)
              (λ e.
                if-either C (b % 4 == 1) _ _ (λ e. omega arith)
                  (λ e. if-either C (b % 4 == 2) _ _ (λ e. omega arith) (λ e. omega arith))),
          (get_byte-IsValid D g v).0,
        ))
        (λ e. either-Post isub_r ixor_r g v (omega arith) (omega arith))
  select_for_slot-Post f is_last g slot_4 v =
      if-either IsChoice (f == 4 && not is_last) _ _ (λ e. (omega arith, v))
        (λ e. either-Post iror_c iadd_rs g v (omega arith) (omega arith))
  select_for_slot-Post f is_last g slot_7 v =
      either-Post ixor_c7 iadd_c7 g v (omega arith) (omega arith)
  select_for_slot-Post f is_last g slot_8 v =
      either-Post ixor_c8 iadd_c8 g v (omega arith) (omega arith)
  select_for_slot-Post f is_last g slot_9 v =
      either-Post ixor_c9 iadd_c9 g v (omega arith) (omega arith)
  select_for_slot-Post f is_last g slot_10 v = (omega arith, v)

  draw_rotation-Post :
      (draws : ℕ) (g : Blake2Generator)
      → IsValid D g
      → Post (λ r. Unit {0}) (draw_rotation D draws g)
      → Post (λ r. ((0 < r.0) × (r.0 < 64)) × IsValid D (r.1)) (draw_rotation D draws g)
  unfolding draw_rotation
  draw_rotation-Post zero g v h = h
  draw_rotation-Post (suc draws) g v h =
      let w = (get_byte-IsValid D g v).0 in
      elim (Bool-cases ((get_byte D g).0 % 64 == 0)) [
        | inl e ↦ rw (e) (draw_rotation-Post draws (get_byte D g).1 w (rw e at h))
        | inr e ↦ rw (e) ((ground arith, omega arith), w)
      ]

  draw_divisor-Post :
      (draws : ℕ) (g : Blake2Generator)
      → IsValid D g
      → Post (λ r. Unit {0}) (draw_divisor D draws g)
      → Post
          (λ r. ((r.0 < 2 ^ 32) × (is_zero_or_power_of_2 (r.0) ≡ false)) × IsValid D (r.1))
          (draw_divisor D draws g)
  unfolding draw_divisor
  draw_divisor-Post zero g v h = h
  draw_divisor-Post (suc draws) g v h =
      let w = get_u32-IsValid D g v in
      elim (Bool-cases (is_zero_or_power_of_2 (get_u32 D g).0)) [
        | inl e ↦ rw (e) (draw_divisor-Post draws (get_u32 D g).1 w.0 (rw e at h))
        | inr e ↦ rw (e) ((w.1, e), w.0)
      ]

  -- A constant that any instruction but a rotation and a reciprocal can have.
  plain-IsFit :
      (w : WorkingInstruction)
      → code_of w.info.inst_type ≤ 13
      → (code_of w.info.inst_type == 4 || code_of w.info.inst_type == 13) ≡ false
      → w.info.dst_op ≤ w.info.result_op
      → w.info.result_op < length w.info.ops
      → w.src ≡ minus_one
      → w.imm32 < 2 ^ 32
      → IsFit w
  plain-IsFit w kind other order last src imm = record {
    kind = kind;
    order = order;
    last = last;
    source = inl src;
    constant = imm;
    rotation = λ e. absurd (ground arith);
    divisor = λ e. absurd (ground arith);
  }

  pub create-Post :
      (draws : ℕ) (t : SsType) (g : Blake2Generator)
      → IsEnough draws
      → code_of t ≤ 13
      → IsValid D g
      → Post (λ r. IsFit (r.0) × IsValid D (r.1)) (create D draws t g)
  unfolding create create_as
  create-Post draws isub_r g enough h v =
      (plain-IsFit _ h refl (omega arith) (omega arith) refl (omega arith), v)
  create-Post draws ixor_r g enough h v =
      (plain-IsFit _ h refl (omega arith) (omega arith) refl (omega arith), v)
  create-Post draws iadd_rs g enough h v = (
    plain-IsFit _ h refl (omega arith) (omega arith) refl (omega arith),
    (get_byte-IsValid D g v).0,
  )
  create-Post draws imul_r g enough h v =
      (plain-IsFit _ h refl (omega arith) (omega arith) refl (omega arith), v)
  create-Post draws iror_c g enough h v =
      bind-Post (λ r. ((0 < r.0) × (r.0 < 64)) × IsValid D (r.1)) _ (draw_rotation D draws g) _
        (draw_rotation-Post draws g v (enough.for_rotation g v))
        (λ r w. (
          record {
            kind = h;
            order = omega arith;
            last = omega arith;
            source = inl refl;
            constant = omega arith;
            rotation = λ e. w.0;
            divisor = λ e. absurd (omega arith);
          },
          w.1,
        ))
  create-Post draws iadd_c7 g enough h v = (
    plain-IsFit _ h refl (omega arith) (omega arith) refl (get_u32-IsValid D g v).1,
    (get_u32-IsValid D g v).0,
  )
  create-Post draws iadd_c8 g enough h v = (
    plain-IsFit _ h refl (omega arith) (omega arith) refl (get_u32-IsValid D g v).1,
    (get_u32-IsValid D g v).0,
  )
  create-Post draws iadd_c9 g enough h v = (
    plain-IsFit _ h refl (omega arith) (omega arith) refl (get_u32-IsValid D g v).1,
    (get_u32-IsValid D g v).0,
  )
  create-Post draws ixor_c7 g enough h v = (
    plain-IsFit _ h refl (omega arith) (omega arith) refl (get_u32-IsValid D g v).1,
    (get_u32-IsValid D g v).0,
  )
  create-Post draws ixor_c8 g enough h v = (
    plain-IsFit _ h refl (omega arith) (omega arith) refl (get_u32-IsValid D g v).1,
    (get_u32-IsValid D g v).0,
  )
  create-Post draws ixor_c9 g enough h v = (
    plain-IsFit _ h refl (omega arith) (omega arith) refl (get_u32-IsValid D g v).1,
    (get_u32-IsValid D g v).0,
  )
  create-Post draws imulh_r g enough h v = (
    plain-IsFit _ h refl (omega arith) (omega arith) refl (omega arith),
    (get_u32-IsValid D g v).0,
  )
  create-Post draws ismulh_r g enough h v = (
    plain-IsFit _ h refl (omega arith) (omega arith) refl (omega arith),
    (get_u32-IsValid D g v).0,
  )
  create-Post draws imul_rcp g enough h v =
      bind-Post (λ r. ((r.0 < 2 ^ 32) × (is_zero_or_power_of_2 (r.0) ≡ false)) × IsValid D (r.1)) _
        (draw_divisor D draws g) _ (draw_divisor-Post draws g v (enough.for_divisor g v))
        (λ r w. (
          record {
            kind = h;
            order = omega arith;
            last = omega arith;
            source = inl refl;
            constant = w.0.0;
            rotation = λ e. absurd (omega arith);
            divisor = λ e. w.0.1;
          },
          w.1,
        ))
  create-Post draws invalid g enough h v = absurd (omega arith)
