-- ===== src/Pool/Jobs/Laws.antt =====
-- What is read from a job, a target, a fingerprint and an address.
use miner_tim.Common.{
  ℕ, ◌+◌, ◌-◌, ◌*◌, ◌/◌, ◌^◌, ◌≤◌, ◌<◌, ◌≡◌, ◌≢◌, inl, inr, ◌∙◌, refl, arith, [], ◌∷◌, ◌++◌, none,
  some, Bool, true, Bytes, codes, from_le_bytes, leb, if◌then◌else◌, length, take, ◌>>=◌, All,
  Bool-cases,
}
use miner_tim.Hex.{hex_decode}
use miner_tim.Pool.State.{Job}
use miner_tim.Pool.Json.{Json}
use miner_tim.Pool.Jobs.{
  text_member, parse_job, target_to_difficulty, without_colons, parse_cert_fingerprint, contains,
  tls_ports, is_tls_port, rsplit_once, parse_u16,
}

module _ (json : Json) where
  open json use {Value}

  -- A parsed job holds exactly what the pool sent: its id as it stands, its three fields as their texts decode, and
  -- the generation that was handed in.
  pub parse_job_fields :
      (v : Value) (generation : ℕ) (job : Job)
      → parse_job json v generation ≡ some job
      → (job.generation ≡ generation)
        × (text_member json v (codes "job_id") ≡ some job.job_id)
        × ((text_member json v (codes "blob") >>= hex_decode) ≡ some job.blob)
        × ((text_member json v (codes "target") >>= hex_decode) ≡ some job.target)
        × ((text_member json v (codes "seed_hash") >>= hex_decode) ≡ some job.seed_hash)
  unfolding parse_job
  parse_job_fields v generation job h = ground arith

rsplit_once-none : (port : Bytes) → All (λ c. c ≢ b':') port → rsplit_once port ≡ none
unfolding rsplit_once
rsplit_once-none [] h = refl
rsplit_once-none (c ∷ port) h = ground (arith, rsplit_once-none port h.1)

rsplit_once_last :
    (host port : Bytes)
    → All (λ c. c ≢ b':') port
    → rsplit_once (host ++ b':' ∷ port) ≡ some (host, port)
unfolding rsplit_once
rsplit_once_last [] port h = rw (rsplit_once-none port h) refl
rsplit_once_last (c ∷ host) port h = rw (rsplit_once_last host port h) refl

-- Of an address `host:port`, whatever the host holds, only the port counts: the connection is TLS exactly if the
-- port is in the table of TLS ports or is no 16-bit decimal number.
pub is_tls_port_lem :
    (host port : Bytes)
    → All (λ c. c ≢ b':') port
    → is_tls_port (host ++ b':' ∷ port)
      ≡ (elim (parse_u16 port) as (λ o. Bool) [ none ↦ true | some p ↦ contains tls_ports p ])
unfolding is_tls_port
is_tls_port_lem host port h = rw (rsplit_once_last host port h, is_tls_port) (ground arith)

-- The bytes of a target that count, and what they stand for.
abbrev pub target_width : Bytes → ℕ
target_width target = if leb 8 (length target) then 8 else 4

abbrev pub target_value : Bytes → ℕ
target_value target = from_le_bytes (take (target_width target) target)

quotient_bounds : (m t q : ℕ) → t ≢ 0 → q ≡ m / t → (q * t < m + 1) × (m < (q + 1) * t)
quotient_bounds m t q nz e = (grind arith, grind arith)

target_quotient :
    (target : Bytes)
    → 4 ≤ length target
    → target_value target ≢ 0
    → target_to_difficulty target ≡ (256 ^ target_width target - 1) / target_value target
unfolding target_to_difficulty
target_quotient target len nz = elim (Bool-cases (leb 8 (length target))) [
  | inl full ↦ rw (full, target_to_difficulty) (ground arith)
  | inr compact ↦ rw (compact, target_to_difficulty) (ground arith)
]

-- For a full and for a compact target alike, unless it is zero, the difficulty is the largest value of the target's
-- width divided by the target, rounded down.
pub target_to_difficulty_lem :
    (target : Bytes)
    → 4 ≤ length target
    → target_value target ≢ 0
    → (target_to_difficulty target * target_value target < 256 ^ target_width target)
      × (256 ^ target_width target - 1 < (target_to_difficulty target + 1) * target_value target)
target_to_difficulty_lem target len nz =
    let bounds =
      quotient_bounds (256 ^ target_width target - 1) (target_value target)
        (target_to_difficulty target) nz (target_quotient target len nz) in
    (rw (← largest) bounds.0, bounds.1)
  where
    largest : 256 ^ target_width target - 1 + 1 ≡ 256 ^ target_width target
    largest = elim (Bool-cases (leb 8 (length target))) [
      | inl full ↦ rw full
      | inr compact ↦ rw compact
    ]

without_colons_twice : (s : Bytes) → without_colons (without_colons s) ≡ without_colons s
unfolding without_colons
without_colons_twice [] = refl
without_colons_twice (c ∷ s) = ground (arith, without_colons_twice s)

fingerprint_cases :
    (text : Bytes) {bytes : Bytes}
    → parse_cert_fingerprint text ≡ some bytes
    → (length bytes ≡ 32) × (hex_decode (without_colons text) ≡ some bytes)
unfolding parse_cert_fingerprint
fingerprint_cases text h = ground arith

-- A fingerprint that is read is 32 bytes, the decoding of the text without its colons, and colons make no difference.
pub parse_cert_fingerprint_lem :
    (text : Bytes) {bytes : Bytes}
    → parse_cert_fingerprint text ≡ some bytes
    → (length bytes ≡ 32)
      × (hex_decode (without_colons text) ≡ some bytes)
      × (parse_cert_fingerprint (without_colons text) ≡ some bytes)
parse_cert_fingerprint_lem text {bytes} h =
    ((fingerprint_cases text h).0, (fingerprint_cases text h).1, same ∙ h)
  where
    same : parse_cert_fingerprint (without_colons text) ≡ parse_cert_fingerprint text
    same = unfold parse_cert_fingerprint in rw (without_colons_twice text)
