-- ===== src/RandomX/Superscalar/Registers.antt =====
-- The registers that src/randomx/superscalar.rs chooses for an instruction exist.
use miner_tim.Common.{
  ℕ, zero, suc, ◌+◌, ◌%◌, ◌≤◌, ◌<◌, ◌≡◌, arith, Bool, true, false, inr, Option, none, some, List,
  [], ◌∷◌, get_elem?, length, All, leb, ◌&&◌, if◌then◌else◌,
}
use miner_tim.RandomX.Generator.{Digest, Blake2Generator, get_u32, IsValid, get_u32-IsValid}
use miner_tim.RandomX.Superscalar.{is_type, iadd_rs, InstructionInfo, register_needs_displacement}
use miner_tim.RandomX.Superscalar.Safety.{if-either}
use miner_tim.RandomX.Superscalar.Operands.{IsFit}
use miner_tim.RandomX.Superscalar.Select.{
  WorkingInstruction, RegisterInfo, select_register, available_from, is_displaced_pair, take_source,
  select_source, allowed, take_destination, select_destination,
}
use miner_tim.RandomX.Superscalar.Generate.{look_forward}

-- The instruction is fit after `k` of its macro-ops, one of which may have chosen its destination.
pub record IsPending (k : ℕ) (w : WorkingInstruction) : Type 0 where
  pub fit : IsFit w
  pub chosen : w.info.dst_op < k → w.dst < 8

with_register-IsPending :
    (k : ℕ) (w : WorkingInstruction) (reg par : ℕ)
    → IsPending k w
    → reg < 8
    → IsPending k (record w { src = reg; op_group_par = par })
with_register-IsPending k w reg par h lt =
    let f = h.fit in
    record {
      fit = record {
        kind = f.kind;
        order = f.order;
        last = f.last;
        source = inr lt;
        constant = f.constant;
        rotation = f.rotation;
        divisor = f.divisor;
      };
      chosen = h.chosen;
    }

-- The property of an element that is there.
abbrev IfSome : {A : Type 0} → (A → Type 0) → Option A → Type 0
IfSome P none = Unit
IfSome P (some a) = P a

get-IfSome :
    {A : Type 0} (P : A → Type 0) (xs : List A) (i : ℕ) → All P xs → IfSome P (get_elem? xs i)
get-IfSome P [] i h = tt
get-IfSome P (x ∷ xs) zero h = h.0
get-IfSome P (x ∷ xs) (suc i) h = get-IfSome P xs i h.1

-- What a search for a register ends with: `P` of the state when it failed, and `Q` when it did not.
abbrev pub Found : {A C : Type 0} → (A → Type 0) → (A → Type 0) → Option C × A → Type 0
Found P Q (none, a) = P a
Found P Q (some c, a) = Q a

pub found-either :
    {A B C : Type 0} (P Q : A → Type 0) (R : B → Type 0) (found : Option C × A) (f : A → B)
    (g : C → A → B)
    → Found P Q found
    → ((a : A) → P a → R (f a))
    → ((c : C) (a : A) → Q a → R (g c a))
    → R (elim (found.0) [ none ↦ f (found.1) | some c ↦ g c (found.1) ])
found-either P Q R (none, a) f g h k l = k a h
found-either P Q R (some c, a) f g h k l = l c a h

-- The same of a single try.
abbrev pub Tried : {A : Type 0} → (A → Type 0) → (A → Type 0) → Bool × A → Type 0
Tried P Q (false, a) = P a
Tried P Q (true, a) = Q a

Tried-Found :
    {A C : Type 0} (P Q : A → Type 0) (tried : Bool × A) (c : C) (rest : Option C × A)
    → Tried P Q tried
    → (P (tried.1) → Found P Q rest)
    → Found P Q (if tried.0 then (some c, tried.1) else rest)
Tried-Found P Q (true, x) c rest h k = h
Tried-Found P Q (false, x) c rest h k = k h

pub look_forward-Found :
    {A : Type 0} (P Q : A → Type 0) (select : ℕ → A → Bool × A) (left cycle : ℕ) (a : A)
    → P a
    → ((c : ℕ) (x : A) → P x → Tried P Q (select c x))
    → Found P Q (look_forward select left cycle a)
unfolding look_forward
look_forward-Found P Q select zero cycle a h try = h
look_forward-Found P Q select (suc left) cycle a h try =
    Tried-Found P Q (select cycle a) cycle (look_forward select left (suc cycle) (select cycle a).1)
      (try cycle a h) (λ k. look_forward-Found P Q select left (suc cycle) (select cycle a).1 k try)

module _ (D : Digest) where
  available_from-below :
      (test : ℕ → RegisterInfo → Bool) (i : ℕ) (registers : List RegisterInfo)
      → i + length registers ≤ 8
      → All (λ x. x < 8) (available_from D test i registers)
  unfolding available_from
  available_from-below test i [] h = tt
  available_from-below test i (r ∷ registers) h =
      let rest = available_from-below test (suc i) registers (omega arith) in
      if-either (All (λ x. x < 8)) (test i r) (i ∷ available_from D test (suc i) registers)
        (available_from D test (suc i) registers) (λ e. (omega arith, rest)) (λ e. rest)

  select_register-below :
      (available : List ℕ) (g : Blake2Generator)
      → All (λ x. x < 8) available
      → IsValid D g
      → IfSome (λ x. x < 8) (select_register D available g).0
        × IsValid D (select_register D available g).1
  unfolding select_register
  select_register-below [] g h v = (tt, v)
  select_register-below (x ∷ []) g h v = (h.0, v)
  select_register-below (x ∷ y ∷ rest) g h v = (
    get-IfSome (λ x. x < 8) (x ∷ y ∷ rest) ((get_u32 D g).0 % length (x ∷ y ∷ rest)) h,
    (get_u32-IsValid D g v).0,
  )

  -- The search that chooses for `info`, before its macro-op `k`.
  pub record IsSearch (info : InstructionInfo) (k : ℕ) (p : WorkingInstruction × Blake2Generator)
      : Type 0 where
    pub same : p.0.info ≡ info
    pub pending : IsPending k (p.0)
    pub valid : IsValid D (p.1)

  source-Found :
      (info : InstructionInfo) (k : ℕ) (w : WorkingInstruction) (r : Option ℕ × Blake2Generator)
      → w.info ≡ info
      → IsPending k w
      → IfSome (λ x. x < 8) (r.0) × IsValid D (r.1)
      → Tried (IsSearch info k) (IsSearch info k) (take_source D w r)
  source-Found info k w (none, g) same h v = record { same = same; pending = h; valid = v.1 }
  source-Found info k w (some reg, g) same h v = record {
    same = same;
    pending =
        with_register-IsPending k w reg (if w.group_par_is_source then reg else w.op_group_par) h
          v.0;
    valid = v.1;
  }

  pub select_source-Found :
      (info : InstructionInfo) (k : ℕ) (registers : List RegisterInfo) (c : ℕ)
      (p : WorkingInstruction × Blake2Generator)
      → length registers ≡ 8
      → IsSearch info k p
      → Tried (IsSearch info k) (IsSearch info k) (select_source D registers c p)
  unfolding select_source
  select_source-Found info k registers c (w, g) len h =
      let available = available_from D (λ i r. leb r.latency c) 0 registers in
      let T = Tried (IsSearch info k) (IsSearch info k) in
      if-either T (is_type w.info.inst_type iadd_rs && is_displaced_pair D available) _ _
        (λ e. record {
          same = h.same;
          pending =
              with_register-IsPending k w register_needs_displacement register_needs_displacement
                h.pending (omega arith);
          valid = h.valid;
        })
        (λ e. source-Found info k w (select_register D available g) h.same h.pending (
          select_register-below available g
            (available_from-below (λ i r. leb r.latency c) 0 registers (omega arith)) h.valid))

  -- The search has a destination.
  pub record IsAimed (info : InstructionInfo) (k : ℕ) (p : WorkingInstruction × Blake2Generator)
      : Type 0 where
    pub search : IsSearch info k p
    pub aimed : p.0.dst < 8

  destination-Found :
      (info : InstructionInfo) (k : ℕ) (w : WorkingInstruction) (r : Option ℕ × Blake2Generator)
      → w.info ≡ info
      → IsPending k w
      → IfSome (λ x. x < 8) (r.0) × IsValid D (r.1)
      → Tried (IsSearch info k) (IsAimed info k) (take_destination D w r)
  destination-Found info k w (none, g) same h v = record { same = same; pending = h; valid = v.1 }
  destination-Found info k w (some reg, g) same h v =
      let f = h.fit in
      record {
        search = record {
          same = same;
          pending = record {
            fit = record {
              kind = f.kind;
              order = f.order;
              last = f.last;
              source = f.source;
              constant = f.constant;
              rotation = f.rotation;
              divisor = f.divisor;
            };
            chosen = λ e. v.0;
          };
          valid = v.1;
        };
        aimed = v.0;
      }

  pub select_destination-Found :
      (info : InstructionInfo) (k : ℕ) (chained : Bool) (registers : List RegisterInfo) (c : ℕ)
      (p : WorkingInstruction × Blake2Generator)
      → length registers ≡ 8
      → IsSearch info k p
      → Tried (IsSearch info k) (IsAimed info k) (select_destination D chained registers c p)
  unfolding select_destination
  select_destination-Found info k chained registers c (w, g) len h =
      destination-Found info k w _ h.same h.pending (
        select_register-below (available_from D (allowed D c chained w) 0 registers) g
          (available_from-below (allowed D c chained w) 0 registers (omega arith)) h.valid)
