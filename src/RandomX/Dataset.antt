-- ===== src/RandomX/Dataset.antt =====
-- The items of src/randomx/dataset.rs and the programs that src/randomx/vm.rs makes for them. A read
-- past the cache is none. The threads of `generate` write disjoint chunks, here one after the other.
pub mod Items
use miner_tim.Common.{
  ℕ, zero, suc, ◌+◌, ◌-◌, ◌*◌, ◌/◌, ◌^◌, min, max, bit_and, bit_xor, Option, none, some, ◌>>=◌,
  Bytes, List, [], ◌∷◌, ◌++◌, get_elem?, map, ◌==◌, ◌||◌, if◌then◌else◌,
}
use miner_tim.RandomX.Machine.{Scratchpad, load64, wrapping_add, wrapping_mul}
use miner_tim.RandomX.Generator.{Digest, Blake2Generator, new}
use miner_tim.RandomX.Superscalar.{SuperscalarProgram}
use miner_tim.RandomX.Superscalar.Generate.{generate_superscalar}
use miner_tim.RandomX.Superscalar.Execute.{execute_superscalar}

abbrev pub cache_size : ℕ
cache_size = 262144 * 1024

abbrev pub cache_line_mask : ℕ
cache_line_mask = cache_size / 64 - 1

abbrev pub cache_accesses : ℕ
cache_accesses = 8

abbrev superscalar_mul0 : ℕ
superscalar_mul0 = 6364136223846793005

abbrev superscalar_add : List ℕ
superscalar_add =
    9298411001130361340 ∷ 12065312585734608966 ∷ 9306329213124626780 ∷ 5281919268842080866
    ∷ 10536153434571861004 ∷ 3398623926847679864 ∷ 9549104520008361294 ∷ []

abbrev pub get_mix_block_offset : ℕ → ℕ
get_mix_block_offset register_value = bit_and register_value cache_line_mask * 64

-- The registers that an item starts from.
unfoldable pub first_registers : ℕ → List ℕ
first_registers item_number =
    let r0 = wrapping_mul (wrapping_add item_number 1) superscalar_mul0 in
    r0 ∷ map (bit_xor r0) superscalar_add

-- The line of the cache, xored into the registers from `q` on.
unfoldable pub xor_line : Scratchpad → ℕ → ℕ → List ℕ → Option (List ℕ)
xor_line cache_memory mix_offset q [] = some []
xor_line cache_memory mix_offset q (x ∷ rl) = load64 cache_memory (mix_offset + 8 * q) >>= λ w.
    xor_line cache_memory mix_offset (suc q) rl >>= λ rest. some (bit_xor x w ∷ rest)

-- The accesses from `i` on, `left` of them.
unfoldable pub access_from :
    Scratchpad → List SuperscalarProgram → ℕ → ℕ → ℕ → List ℕ → Option (List ℕ)
access_from cache_memory programs zero i register_value rl = some rl
access_from cache_memory programs (suc left) i register_value rl =
    get_elem? programs i >>= λ program. execute_superscalar rl program >>= λ ran.
    xor_line cache_memory (get_mix_block_offset register_value) 0 ran >>= λ mixed.
    get_elem? mixed program.address_register >>= λ next_value.
    access_from cache_memory programs left (suc i) next_value mixed

unfoldable pub init_dataset_item : Scratchpad → List SuperscalarProgram → ℕ → Option (List ℕ)
unfolding first_registers access_from
init_dataset_item cache_memory programs item_number =
    access_from cache_memory programs cache_accesses 0 item_number (first_registers item_number)

-- The items from `start_item` on, `size` of them: what a thread writes.
unfoldable pub fill_chunk : (ℕ → Option (List ℕ)) → ℕ → ℕ → Option (List (List ℕ))
fill_chunk item zero start_item = some []
fill_chunk item (suc size) start_item =
    item start_item >>= λ line. fill_chunk item size (suc start_item) >>= λ rest. some (line ∷ rest)

-- `chunks_mut` on `left` items that begin at `thread_idx * chunk_size`.
unfoldable pub fill_chunks : (ℕ → Option (List ℕ)) → ℕ → ℕ → ℕ → ℕ → Option (List (List ℕ))
fill_chunks item chunk_size zero left thread_idx = none
fill_chunks item chunk_size (suc fuel) left thread_idx =
    if left == 0
    then some []
    else (fill_chunk item (min chunk_size left) (thread_idx * chunk_size) >>= λ chunk.
        fill_chunks item chunk_size fuel (left - chunk_size) (suc thread_idx) >>= λ rest.
        some (chunk ++ rest))

-- `generate`, of a dataset of `count` items. An empty cache fails the assertion, and chunks of no items
-- that of `chunks_mut`.
unfoldable pub generate : ℕ → Scratchpad → List SuperscalarProgram → ℕ → Option (List (List ℕ))
unfolding fill_chunks
generate count cache_memory programs num_threads =
    let chunk_size = (count + (max num_threads 1 - 1)) / max num_threads 1 in
    if cache_memory.size == 0 || chunk_size == 0
    then none
    else fill_chunks (init_dataset_item cache_memory programs) chunk_size (suc count) count 0

-- `array::from_fn` of `new_versioned`.
unfoldable pub programs_from : Digest → ℕ → ℕ → Blake2Generator → Option (List SuperscalarProgram)
programs_from D draws zero g = some []
programs_from D draws (suc n) g = generate_superscalar D draws g >>= λ made.
    programs_from D draws n (made.1) >>= λ rest. some (made.0 ∷ rest)

unfoldable pub ss_programs : Digest → ℕ → Bytes → Option (List SuperscalarProgram)
unfolding programs_from
ss_programs D draws key = programs_from D draws 8 (new key 0)
