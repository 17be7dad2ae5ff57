-- ===== src/Pool/Tests/Wire.antt =====
-- Lines, messages, jobs, ports and targets, with a small stand-in for the JSON library.
use miner_tim.Common.{
  ◌⊎◌, ℕ, zero, suc, ◌+◌, ◌*◌, ◌^◌, ◌-◌, ◌<◌, ◌≡◌, refl, arith, [], ◌∷◌, ◌++◌, Option, none, some,
  Bool, true, false, Bytes, codes, eq_bytes, if◌then◌else◌, replicate, length-replicate, length,
  map,
}
use miner_tim.Hex.{hex_decode}
use miner_tim.Pool.State.{
  Job, PoolConnection, err, line_too_long, with_tls_fingerprint, max_line_bytes,
}
use miner_tim.Pool.Json.{Json}
use miner_tim.Pool.Framing.{newline, byte, read_line, take_complete_lines, lines}
use miner_tim.Pool.Framing.Lines.{
  IsPartial, IsBounded, take_complete_lines-IsBounded, take_complete_lines-append,
}
use miner_tim.Pool.Framing.Limit.{read_line_over}
use miner_tim.Pool.Jobs.{parse_job, target_to_difficulty}
use miner_tim.Pool.Jobs.Laws.{target_to_difficulty_lem}
use miner_tim.Pool.Messages.{count_answer, handle_pool_message, has_error, status_ok}
use miner_tim.Pool.Messages.Members.{Answers, Offers}
use miner_tim.Pool.Messages.Laws.{
  counters, CountedOnce, unmatched_uncounted, matched_counted, job_in_force,
}

-- A JSON value; an object is a chain of its members.
pub data Doc : Type 0 where
  null : Doc
  number : ℕ → Doc
  text : Bytes → Doc
  nothing : Doc
  member : Bytes → Doc → Doc → Doc

abbrev pub member_of : Doc → Bytes → Option Doc
member_of (member k v rest) key = if eq_bytes k key then some v else member_of rest key
member_of _ key = none

abbrev pub text_of : Doc → Option Bytes
text_of (text s) = some s
text_of _ = none

abbrev pub number_of : Doc → Option ℕ
number_of (number n) = some n
number_of _ = none

abbrev pub null_doc : Doc → Bool
null_doc null = true
null_doc _ = false

abbrev job_doc : Doc
job_doc = member (codes "blob") (text (codes "0a0b")) (
    member (codes "target") (text (codes "b88d0600")) (
      member (codes "job_id") (text (codes "7"))
        (member (codes "seed_hash") (text (codes "ff")) nothing)))

abbrev notice : Doc
notice = member (codes "method") (text (codes "job")) (member (codes "params") job_doc nothing)

abbrev accepted : Doc
accepted = member (codes "id") (number 5) (
    member (codes "error") null
      (member (codes "result") (member (codes "status") (text (codes "OK")) nothing) nothing))

-- Two lines are messages, all others do not parse.
abbrev pub read_doc : Bytes → Option Doc
read_doc line =
    if eq_bytes line (codes "a job")
    then some notice
    else if eq_bytes line (codes "an answer")
    then some accepted
    else none

pub null-text_of : (v : Doc) → null_doc v ≡ true → text_of v ≡ none
null-text_of null h = refl
null-text_of (number n) h = cc
null-text_of (text s) h = cc
null-text_of nothing h = cc
null-text_of (member k v rest) h = cc

pub null-member_of : (v : Doc) (key : Bytes) → null_doc v ≡ true → member_of v key ≡ none
null-member_of null key h = refl
null-member_of (number n) key h = cc
null-member_of (text s) key h = cc
null-member_of nothing key h = cc
null-member_of (member k v rest) key h = cc

abbrev pub documents : Json
documents = record {
  Value = Doc;
  from_str = read_doc;
  get = member_of;
  as_str = text_of;
  as_u64 = number_of;
  is_null = null_doc;
  null-as_str = null-text_of;
  null-get = null-member_of;
}

-- A connection with submission 5 outstanding.
abbrev waiting : PoolConnection
waiting = record (with_tls_fingerprint 5 none) {
  pending_shares = (5, record { job_id = codes "7"; nonce = codes "00000000"; sent_at = 0 }) ∷ [];
}

unmatched_uncounted_example :
    (counters documents (handle_pool_message documents (codes "a job") waiting)
      ≡ counters documents waiting)
    × ((handle_pool_message documents (codes "a job") waiting).pending_shares
        ≡ waiting.pending_shares)
unmatched_uncounted_example =
    unmatched_uncounted documents (codes "a job") notice waiting refl (λ id entry h. absurd (cc))

answer_five : Answers documents accepted 5
answer_five = (refl, (number 5, refl, refl))

matched_counted_example :
    ((handle_pool_message documents (codes "an answer") waiting).pending_shares ≡ [])
    × CountedOnce documents accepted waiting
        (handle_pool_message documents (codes "an answer") waiting)
unfolding with_tls_fingerprint
matched_counted_example =
    matched_counted documents (codes "an answer") accepted 5
      (record { job_id = codes "7"; nonce = codes "00000000"; sent_at = 0 }) waiting refl
      answer_five refl

job_in_force_example :
    ((job : Job) × Offers documents notice waiting.generation job
      × ((handle_pool_message documents (codes "a job") waiting).current_job ≡ some job))
    ⊎ (((job : Job) → Offers documents notice waiting.generation job → ⊥)
        × ((handle_pool_message documents (codes "a job") waiting).current_job
            ≡ waiting.current_job))
job_in_force_example = job_in_force documents (codes "a job") notice waiting refl

-- The job of the notice, and the count of the acceptance.
handled :
    ((handle_pool_message documents (codes "a job") waiting).current_job
      ≡ some (record {
        blob = 0x0a ∷ 0x0b ∷ [];
        target = 0xb8 ∷ 0x8d ∷ 0x06 ∷ 0x00 ∷ [];
        job_id = codes "7";
        seed_hash = 0xff ∷ [];
        generation = 0;
      }))
    × (counters documents (handle_pool_message documents (codes "an answer") waiting)
        ≡ (1, 0, 0, 0))
unfolding handle_pool_message with_tls_fingerprint parse_job hex_decode count_answer has_error
    status_ok
handled = (refl, refl)

take_complete_lines-IsBounded_example :
    IsPartial (take_complete_lines (λ s. s) (codes "ab" ++ newline ∷ codes "c")).1
    × IsBounded (take_complete_lines (λ s. s) (codes "ab" ++ newline ∷ codes "c"))
take_complete_lines-IsBounded_example =
    take_complete_lines-IsBounded (λ s. s) (codes "ab" ++ newline ∷ codes "c")

take_complete_lines-append_example :
    take_complete_lines (λ s. s) ((codes "ab" ++ newline ∷ codes "c") ++ codes "d" ++ newline ∷ [])
    ≡ (lines ((codes "ab" ++ newline ∷ []) ∷ (codes "cd" ++ newline ∷ []) ∷ []), [])
unfolding take_complete_lines
take_complete_lines-append_example =
    take_complete_lines-append (λ s. s) (codes "ab" ++ newline ∷ codes "c")
      (codes "d" ++ newline ∷ []) (codes "c") ((codes "ab" ++ newline ∷ []) ∷ []) refl

-- `n` bytes of the letter A; kept shut, since the one below is long.
letters : (n : ℕ) → (l : Bytes) × (length l ≡ n) × IsPartial l
letters n = (replicate n 65, length-replicate n 65, no_newline n)
  where
    no_newline : (k : ℕ) → IsPartial (replicate k 65)
    no_newline zero = tt
    no_newline (suc k) = (ground arith, no_newline k)

read_line_over_example :
    read_line (λ s. true) (map byte (letters max_line_bytes).0 ++ byte 66 ∷ [])
    ≡ (err line_too_long, [])
read_line_over_example =
    read_line_over (λ s. true) (letters max_line_bytes).0 66 [] (letters max_line_bytes).2
      (ground arith) (letters max_line_bytes).1

target_to_difficulty_lem_example :
    (target_to_difficulty (0xb8 ∷ 0x8d ∷ 0x06 ∷ 0x00 ∷ []) * 429496 < 256 ^ 4)
    × (256 ^ 4 - 1 < (target_to_difficulty (0xb8 ∷ 0x8d ∷ 0x06 ∷ 0x00 ∷ []) + 1) * 429496)
target_to_difficulty_lem_example =
    target_to_difficulty_lem (0xb8 ∷ 0x8d ∷ 0x06 ∷ 0x00 ∷ []) (ground arith) (ground arith)

abbrev fingerprint : Bytes
fingerprint = 0xab ∷ replicate 31 0

abbrev fingerprint_text : Bytes
fingerprint_text = codes "ab:" ++ replicate 62 48
