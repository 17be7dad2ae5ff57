-- ===== src/RandomX/Aes/Keys.antt =====
-- The keys of src/randomx/aes_hash.rs.
use miner_tim.Common.{ℕ, Bytes, to_le_bytes, ◌++◌}

abbrev pub key_from_u32s : ℕ → ℕ → ℕ → ℕ → Bytes
key_from_u32s a b c d = to_le_bytes 4 d ++ (to_le_bytes 4 c ++ (to_le_bytes 4 b ++ to_le_bytes 4 a))

-- The keys of the generator of one round, and of four.
abbrev pub gen_1r_key0 : Bytes
gen_1r_key0 = key_from_u32s 0xb4f44917 0xdbb5552b 0x62716609 0x6daca553

abbrev pub gen_1r_key1 : Bytes
gen_1r_key1 = key_from_u32s 0x0da1dc4e 0x1725d378 0x846a710d 0x6d7caf07

abbrev pub gen_1r_key2 : Bytes
gen_1r_key2 = key_from_u32s 0x3e20e345 0xf4c0794f 0x9f947ec6 0x3f1262f1

abbrev pub gen_1r_key3 : Bytes
gen_1r_key3 = key_from_u32s 0x49169154 0x16314c88 0xb1ba317c 0x6aef8135

abbrev pub gen_4r_key0 : Bytes
gen_4r_key0 = key_from_u32s 0x99e5d23f 0x2f546d2b 0xd1833ddb 0x6421aadd

abbrev pub gen_4r_key1 : Bytes
gen_4r_key1 = key_from_u32s 0xa5dfcde5 0x06f79d53 0xb6913f55 0xb20e3450

abbrev pub gen_4r_key2 : Bytes
gen_4r_key2 = key_from_u32s 0x171c02bf 0x0aa4679f 0x515e7baf 0x5c3ed904

abbrev pub gen_4r_key3 : Bytes
gen_4r_key3 = key_from_u32s 0xd8ded291 0xcd673785 0xe78f5d08 0x85623763

abbrev pub gen_4r_key4 : Bytes
gen_4r_key4 = key_from_u32s 0x229effb4 0x3d518b6d 0xe3d6a7a6 0xb5826f73

abbrev pub gen_4r_key5 : Bytes
gen_4r_key5 = key_from_u32s 0xb272b7d2 0xe9024d4e 0x9c10b3d9 0xc7566bf3

abbrev pub gen_4r_key6 : Bytes
gen_4r_key6 = key_from_u32s 0xf63befa7 0x2ba9660a 0xf765a38b 0xf273c9e7

abbrev pub gen_4r_key7 : Bytes
gen_4r_key7 = key_from_u32s 0xc0b0762d 0x0c06d1fd 0x915839de 0x7a7cd609

abbrev pub hash_1r_xkey0 : Bytes
hash_1r_xkey0 = key_from_u32s 0x06890201 0x90dc56bf 0x8b24949f 0xf6fa8389

abbrev pub hash_1r_xkey1 : Bytes
hash_1r_xkey1 = key_from_u32s 0xed18f99b 0xee1043c6 0x51f4e03c 0x61b263d1
