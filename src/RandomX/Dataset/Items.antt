-- ===== src/RandomX/Dataset/Items.antt =====
-- The dataset of src/randomx/dataset.rs is made within the bounds of the cache, and the number of
-- threads does not change it.
use miner_tim.Common.{
  ℕ, zero, suc, ◌+◌, ◌-◌, ◌*◌, ◌/◌, ◌≤◌, ◌<◌, ◌≡◌, ◌≢◌, refl, sym, ap, ap₂, ◌∙◌, arith, false, inl,
  inr, Bool-cases, min, max, Option, none, some, ◌>>=◌, Bytes, List, [], ◌∷◌, ◌++◌, length, All,
  ◌==◌, ◌||◌, ltb, ltb→lt, subst, ==_iff,
}
use native.Mathlib.Nat.{div-lt_iff_lt-mul}
use miner_tim.RandomX.Program.{IsByte}
use miner_tim.RandomX.Safety.{Post, bind-Post, Post-map, get-then, load-Post, bit_and-le_below}
use miner_tim.RandomX.Machine.{Scratchpad}
use miner_tim.RandomX.Generator.{Digest, Blake2Generator, new, IsValid, new-IsValid}
use miner_tim.RandomX.Superscalar.{SuperscalarProgram}
use miner_tim.RandomX.Superscalar.Safety.{IsGenerated, if-either, execute_all-Post}
use miner_tim.RandomX.Superscalar.Operands.{IsEnough, get-All}
use miner_tim.RandomX.Superscalar.Rounds.{IsProgram, generate_superscalar-IsProgram}
use miner_tim.RandomX.Superscalar.Execute.{execute_superscalar}
use miner_tim.RandomX.Dataset.{
  cache_size, cache_line_mask, cache_accesses, get_mix_block_offset, first_registers, xor_line,
  access_from, init_dataset_item, fill_chunk, fill_chunks, generate, programs_from, ss_programs,
}

-- A program that stays within the registers.
pub record IsRunnable (program : SuperscalarProgram) : Type 0 where
  pub instructions_are : All IsGenerated program.instructions
  pub address : program.address_register < 8

module _ (cache_memory : Scratchpad) (full : cache_memory.size ≡ cache_size) where
  xor_line-Post :
      (value q : ℕ) (rl : List ℕ)
      → q + length rl ≤ 8
      → Post
          (λ after. length after ≡ length rl)
          (xor_line cache_memory (get_mix_block_offset value) q rl)
  unfolding xor_line
  xor_line-Post value q [] le = refl
  xor_line-Post value q (x ∷ rl) le =
      let within = bit_and-le_below cache_line_mask value cache_line_mask (omega arith) in
      bind-Post (λ w. Unit {0}) _ _ _
        (load-Post 8 cache_memory (get_mix_block_offset value + 8 * q)
          (omega (arith, within, full)))
        (λ w u.
          bind-Post (λ after. length after ≡ length rl) _ _ _
            (xor_line-Post value (suc q) rl (omega arith)) (λ rest e. ap suc e))

  access_from-Post :
      (programs : List SuperscalarProgram) (left i value : ℕ) (rl : List ℕ)
      → All IsRunnable programs
      → i + left ≤ length programs
      → length rl ≡ 8
      → Post (λ after. length after ≡ 8) (access_from cache_memory programs left i value rl)
  unfolding access_from execute_superscalar
  access_from-Post programs zero i value rl h le e = e
  access_from-Post programs (suc left) i value rl h le e =
      bind-Post IsRunnable _ _ _ (get-All IsRunnable programs i (omega arith) h) (λ program k.
        bind-Post (λ after. length after ≡ 8) _ _ _
          (execute_all-Post program.instructions rl k.instructions_are e)
          (λ ran r.
            bind-Post (λ after. length after ≡ length ran) _ _ _
              (xor_line-Post value 0 ran (omega arith))
              (λ mixed m.
                get-then mixed program.address_register _ _ (omega (arith, k.address))
                  (λ next_value.
                    access_from-Post programs left (suc i) next_value mixed h (omega arith)
                      (m ∙ r)))))

  pub init_dataset_item-Post :
      (programs : List SuperscalarProgram) (item_number : ℕ)
      → All IsRunnable programs
      → length programs ≡ 8
      → Post (λ after. length after ≡ 8) (init_dataset_item cache_memory programs item_number)
  unfolding init_dataset_item first_registers
  init_dataset_item-Post programs item_number h e =
      access_from-Post programs cache_accesses 0 item_number (first_registers item_number) h
        (omega arith) refl

with_nothing : (o : Option (List (List ℕ))) → (o >>= λ rest. some rest) ≡ o
with_nothing none = refl
with_nothing (some rest) = refl

prepend :
    (line : Option (List ℕ)) (chunk rest : Option (List (List ℕ)))
    → ((line >>= λ x. chunk >>= λ xs. some (x ∷ xs)) >>= λ ys. rest >>= λ zs. some (ys ++ zs))
      ≡ (line >>= λ x. (chunk >>= λ xs. rest >>= λ zs. some (xs ++ zs)) >>= λ ys. some (x ∷ ys))
prepend none chunk rest = refl
prepend (some x) none rest = refl
prepend (some x) (some xs) none = refl
prepend (some x) (some xs) (some zs) = refl

same_chunk :
    (item : ℕ → Option (List ℕ)) (a b first other : ℕ)
    → a ≡ b
    → first ≡ other
    → fill_chunk item a first ≡ fill_chunk item b other
same_chunk item a b first other e k = ap₂ (fill_chunk item) e k

-- A chunk and the items behind it are one longer chunk.
fill_chunk-append :
    (item : ℕ → Option (List ℕ)) (a b first next_item : ℕ)
    → (b ≢ 0 → next_item ≡ first + a)
    → (fill_chunk item a first >>= λ chunk.
        fill_chunk item b next_item >>= λ rest. some (chunk ++ rest))
      ≡ fill_chunk item (a + b) first
unfolding fill_chunk
fill_chunk-append item zero zero first next_item h = refl
fill_chunk-append item zero (suc b) first next_item h =
    with_nothing (fill_chunk item (suc b) next_item)
    ∙ same_chunk item (suc b) (0 + suc b) next_item first (omega arith)
        (omega (arith, h (omega arith)))
fill_chunk-append item (suc a) b first next_item h =
    prepend (item first) (fill_chunk item a (suc first)) (fill_chunk item b next_item)
    ∙ ap (λ (o : Option (List (List ℕ))). item first >>= λ line. o >>= λ rest. some (line ∷ rest))
        (fill_chunk-append item a b (suc first) next_item (λ k. omega (arith, h k)))
    ∙ same_chunk item (suc (a + b)) (suc a + b) first first (omega arith) refl

no_items : (item : ℕ → Option (List ℕ)) (first : ℕ) → some [] ≡ fill_chunk item 0 first
unfolding fill_chunk
no_items item first = refl

-- The chunks together are all the items in order.
fill_chunks-fill_chunk :
    (item : ℕ → Option (List ℕ)) (chunk_size fuel left thread_idx : ℕ)
    → 0 < chunk_size
    → left < fuel
    → fill_chunks item chunk_size fuel left thread_idx
      ≡ fill_chunk item left (thread_idx * chunk_size)
unfolding fill_chunks
fill_chunks-fill_chunk item chunk_size zero left thread_idx some_size lt = absurd (omega arith)
fill_chunks-fill_chunk item chunk_size (suc fuel) left thread_idx some_size lt =
    let first = thread_idx * chunk_size in
    let size = min chunk_size left in
    if-either (λ o. o ≡ fill_chunk item left first) (left == 0) _ _
      (λ e. no_items item first ∙ ap (λ n. fill_chunk item n first) (sym ((==_iff left 0).0 e)))
      (λ e.
        ap
          (λ (o : Option (List (List ℕ))).
            fill_chunk item size first >>= λ chunk. o >>= λ rest. some (chunk ++ rest))
          (fill_chunks-fill_chunk item chunk_size fuel (left - chunk_size) (suc thread_idx)
            some_size (ground arith))
        ∙ fill_chunk-append item size (left - chunk_size) first (suc thread_idx * chunk_size)
            (λ k. omega arith)
        ∙ same_chunk item (size + (left - chunk_size)) left first first (omega arith) refl)

at_least_one : (a t : ℕ) → 0 < t → t ≤ a → 0 < a / t
at_least_one a t some_t le = elim (Bool-cases (ltb (a / t) 1)) [
  | inl e ↦
      absurd
        (omega (arith, (div-lt_iff_lt-mul {k = t} {x = a} {y = 1} some_t).0 (ltb→lt (a / t) 1 e)))
  | inr e ↦ ground arith
]

tests_fail : (a b : ℕ) → 0 < a → 0 < b → (a == 0 || b == 0) ≡ false
tests_fail a b h k = ground arith

generate-fill_chunk :
    (count : ℕ) (cache_memory : Scratchpad) (programs : List SuperscalarProgram) (num_threads : ℕ)
    → cache_memory.size ≡ cache_size
    → 0 < count
    → generate count cache_memory programs num_threads
      ≡ fill_chunk (init_dataset_item cache_memory programs) count 0
unfolding generate
generate-fill_chunk count cache_memory programs num_threads full some_items =
    let threads = max num_threads 1 in
    let chunk_size = (count + (threads - 1)) / threads in
    let some_size : 0 < chunk_size =
      at_least_one (count + (threads - 1)) threads (omega arith) (omega arith) in
    let e : (cache_memory.size == 0 || chunk_size == 0) ≡ false =
      tests_fail cache_memory.size chunk_size (omega (arith, full)) some_size in
    rw (e) (
      fill_chunks-fill_chunk (init_dataset_item cache_memory programs) chunk_size (suc count) count
        0 some_size (omega arith)
      ∙ same_chunk (init_dataset_item cache_memory programs) count count (0 * chunk_size) 0 refl
          (omega arith))

fill_chunk-Post :
    (item : ℕ → Option (List ℕ)) (size first : ℕ)
    → ((n : ℕ) → Post (λ line. length line ≡ 8) (item n))
    → Post
        (λ items. (length items ≡ size) × All (λ (line : List ℕ). length line ≡ 8) items)
        (fill_chunk item size first)
unfolding fill_chunk
fill_chunk-Post item zero first h = (refl, tt)
fill_chunk-Post item (suc size) first h =
    bind-Post (λ line. length line ≡ 8) _ _ _ (h first)
      (λ line e.
        bind-Post (λ items. (length items ≡ size) × All (λ (line : List ℕ). length line ≡ 8) items)
          _ _ _ (fill_chunk-Post item size (suc first) h) (λ rest k. (ap suc k.0, (e, k.1))))

module _ (D : Digest) (draws : ℕ) (enough : IsEnough D draws) where
  programs_from-Post :
      (n : ℕ) (g : Blake2Generator)
      → IsValid D g
      → Post
          (λ programs. All IsRunnable programs × (length programs ≡ n))
          (programs_from D draws n g)
  unfolding programs_from
  programs_from-Post zero g v = (tt, refl)
  programs_from-Post (suc n) g v =
      bind-Post (IsProgram D) _ _ _ (generate_superscalar-IsProgram D draws g enough v) (λ made p.
        bind-Post (λ programs. All IsRunnable programs × (length programs ≡ n)) _ _ _
          (programs_from-Post n (made.1) p.valid)
          (λ rest h. (
            (record { instructions_are = p.instructions_are; address = p.address }, h.0),
            ap suc h.1,
          )))

-- Given enough numbers for each draw of the generator, and a cache of 256 MiB, the programs of any key
-- are made, and with them the dataset is generated, of any number of items but none and by any number
-- of threads: it has the items in order, as one thread computes them one by one, and each of them
-- is eight words.
pub ss_programs-generate :
    (D : Digest) (draws : ℕ) (key : Bytes) (cache_memory : Scratchpad) (count num_threads : ℕ)
    → IsEnough D draws
    → All IsByte key
    → cache_memory.size ≡ cache_size
    → 0 < count
    → Post
        (λ programs.
          (generate count cache_memory programs num_threads
            ≡ fill_chunk (init_dataset_item cache_memory programs) count 0)
          × Post
              (λ items. (length items ≡ count) × All (λ (line : List ℕ). length line ≡ 8) items)
              (generate count cache_memory programs num_threads))
        (ss_programs D draws key)
unfolding ss_programs
ss_programs-generate D draws key cache_memory count num_threads enough bytes full some_items =
    Post-map (λ programs. All IsRunnable programs × (length programs ≡ 8)) _ _
      (programs_from-Post D draws enough 8 (new key 0) (new-IsValid D key 0 bytes))
      (λ programs h.
        let e = generate-fill_chunk count cache_memory programs num_threads full some_items in
        (
          e,
          subst
              (Post
                (λ items. (length items ≡ count) × All (λ (line : List ℕ). length line ≡ 8) items))
              (sym e)
              (fill_chunk-Post (init_dataset_item cache_memory programs) count 0
                (λ n. init_dataset_item-Post cache_memory full programs n h.0 h.1)),
        ))
