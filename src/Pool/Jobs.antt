-- ===== src/Pool/Jobs.antt =====
-- Jobs, targets, fingerprints and ports (src/pool_connection.rs).
pub mod Laws
use miner_tim.Common.{
  ℕ, zero, suc, ◌+◌, ◌-◌, ◌*◌, ◌/◌, ◌^◌, List, [], ◌∷◌, Option, none, some, Bool, true, false, ◌||◌,
  ◌&&◌, not, Bytes, codes, from_le_bytes, ltb, leb, ◌==◌, if◌then◌else◌, length, take, ◌>>=◌,
  is_empty,
}
use miner_tim.Hex.{hex_decode}
use miner_tim.Pool.State.{Job}
use miner_tim.Pool.Json.{Json}

module _ (json : Json) where
  open json use {Value, get, as_str}

  -- A member that is a text.
  unfoldable pub text_member : Value → Bytes → Option Bytes
  text_member v key = get v key >>= as_str

  unfoldable pub parse_job : Value → ℕ → Option Job
  unfolding text_member
  parse_job data_ generation = do
    blob_hex ← text_member data_ (codes "blob")
    target_hex ← text_member data_ (codes "target")
    job_id ← text_member data_ (codes "job_id")
    seed_hash_hex ← text_member data_ (codes "seed_hash")
    blob ← hex_decode blob_hex
    target ← hex_decode target_hex
    seed_hash ← hex_decode seed_hash_hex
    some (record {
      blob = blob;
      target = target;
      job_id = job_id;
      seed_hash = seed_hash;
      generation = generation;
    })

abbrev pub u64_max : ℕ
u64_max = 2 ^ 64 - 1

unfoldable pub target_to_difficulty : Bytes → ℕ
target_to_difficulty target =
    if leb 8 (length target)
    then (let t = from_le_bytes (take 8 target) in if t == 0 then 0 else u64_max / t)
    else if leb 4 (length target)
    then (let t = from_le_bytes (take 4 target) in if t == 0 then u64_max else 0xFFFFFFFF / t)
    else 0

-- `chars().filter(|c| *c != ':')`, over the bytes of the text.
unfoldable pub without_colons : Bytes → Bytes
without_colons [] = []
without_colons (c ∷ cs) = let rest = without_colons cs in if c == b':' then rest else c ∷ rest

-- The length test makes the conversion to 32 bytes succeed.
unfoldable pub parse_cert_fingerprint : Bytes → Option Bytes
unfolding without_colons
parse_cert_fingerprint text =
    let cleaned = without_colons text in
    if length cleaned == 64
    then (hex_decode cleaned >>= λ bytes. if length bytes == 32 then some bytes else none)
    else none

abbrev pub tls_ports : List ℕ
tls_ports = 443 ∷ 993 ∷ 995 ∷ 3333 ∷ 9999 ∷ 14433 ∷ []

unfoldable pub contains : List ℕ → ℕ → Bool
contains [] port = false
contains (p ∷ ps) port = p == port || contains ps port

-- `rsplit_once(':')`: what stands before and behind the last colon.
unfoldable pub rsplit_once : Bytes → Option (Bytes × Bytes)
rsplit_once [] = none
rsplit_once (c ∷ cs) = elim (rsplit_once cs) [
  | some (host, port) ↦ some (c ∷ host, port)
  | none ↦ if c == b':' then some ([], cs) else none
]

-- `parse::<u16>`: decimal digits, one at least, behind at most one `+`.
unfoldable pub parse_digits : ℕ → Bytes → Option ℕ
parse_digits n [] = some n
parse_digits n (c ∷ cs) =
    let next = parse_digits (n * 10 + (c - b'0')) cs in
    if leb b'0' c && leb c b'9' && ltb (n * 10 + (c - b'0')) (2 ^ 16) then next else none

unfoldable pub parse_u16 : Bytes → Option ℕ
unfolding parse_digits
parse_u16 [] = none
parse_u16 (c ∷ cs) =
    if c == b'+' && not (is_empty cs) then parse_digits 0 cs else parse_digits 0 (c ∷ cs)

unfoldable pub is_tls_port : Bytes → Bool
unfolding rsplit_once parse_u16 contains
is_tls_port address = elim (rsplit_once address >>= λ parts. parse_u16 parts.1) [
  | some port ↦ contains tls_ports port
  | none ↦ true
]
