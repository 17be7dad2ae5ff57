-- ===== src/Pool/Ledger/Counts.antt =====
-- How often request ids and shares are counted in a system.
use miner_tim.Common.{
  ℕ, ◌+◌, ◌≤◌, ◌<◌, ◌≡◌, refl, arith, List, [], ◌∷◌, ◌++◌, some, u32, u64, ◌==◌, if◌then◌else◌,
  length,
}
use miner_tim.Pool.State.{PoolConnection, PendingShare, ok, err, lookup, remove, count_lost}
use miner_tim.Pool.System.{Submitter, entered, numbered, returned, System}

-- How often an id is a key of the outstanding submissions, and how often it is held by a call that
-- has not written yet.
abbrev pub key_count : ℕ → List (ℕ × PendingShare) → ℕ
key_count k [] = 0
key_count k ((j, v) ∷ m) = let rest = key_count k m in if j == k then rest + 1 else rest

abbrev pub held : ℕ → Submitter → ℕ
held k (entered share) = 0
held k (numbered share j) = if j == k then 1 else 0
held k (returned r) = 0

abbrev pub held_count : ℕ → List Submitter → ℕ
held_count k [] = 0
held_count k (p ∷ ps) = held k p + held_count k ps

-- Calls whose share is in no counter and not outstanding yet.
abbrev pub open_share : Submitter → ℕ
open_share (entered share) = 1
open_share (numbered share j) = 1
open_share (returned (ok u)) = 0
open_share (returned (err e)) = 1

abbrev pub open_shares : List Submitter → ℕ
open_shares [] = 0
open_shares (p ∷ ps) = open_share p + open_shares ps

pub held_count-append :
    (k : ℕ) (xs ys : List Submitter) → held_count k (xs ++ ys) ≡ held_count k xs + held_count k ys
held_count-append k [] ys = omega arith
held_count-append k (x ∷ xs) ys = omega (arith, held_count-append k xs ys)

pub open_shares-append :
    (xs ys : List Submitter) → open_shares (xs ++ ys) ≡ open_shares xs + open_shares ys
open_shares-append [] ys = omega arith
open_shares-append (x ∷ xs) ys = omega (arith, open_shares-append xs ys)

pub remove_absent : (k : ℕ) (m : List (ℕ × PendingShare)) → key_count k m ≡ 0 → remove k m ≡ m
remove_absent k [] h = refl
remove_absent k ((j, v) ∷ m) h = ground (arith, remove_absent k m)

pub length-remove_found :
    (k : ℕ) (m : List (ℕ × PendingShare)) {v : PendingShare}
    → lookup k m ≡ some v
    → length (remove k m) + 1 ≡ length m
length-remove_found k [] h = cc
length-remove_found k ((j, w) ∷ m) {v} h = ground (arith, length-remove_found k m {v = v})

pub key_count-remove_le :
    (k j : ℕ) (m : List (ℕ × PendingShare)) → key_count k (remove j m) ≤ key_count k m
key_count-remove_le k j [] = omega arith
key_count-remove_le k j ((i, w) ∷ m) = ground (arith, key_count-remove_le k j m)

pub count_lost-length :
    (lost : ℕ) (m : List (ℕ × PendingShare)) → u32 (count_lost lost m) ≡ u32 (lost + length m)
count_lost-length lost [] = ground arith
count_lost-length lost (e ∷ m) = ground (arith, count_lost-length (u32 (lost + 1)) m)

-- What the counters and the outstanding submissions of a connection account for.
abbrev pub accounted : PoolConnection → ℕ
accounted c =
    c.accepted_shares
    + c.rejected_shares
    + c.lost_shares
    + c.unsent_shares
    + length c.pending_shares

-- No id is given twice: neither to two outstanding submissions nor to one and a call under way.
pub record IsFresh (s : System) : Type 0 where
  pub counter : s.conn.request_id ≡ u64 (1 + s.issued)
  pub once : (k : ℕ) → key_count k s.conn.pending_shares + held_count k s.submitters ≤ 1
  pub issued_only :
      (k : ℕ) → s.issued < k → key_count k s.conn.pending_shares + held_count k s.submitters ≡ 0

pub record IsBalanced (s : System) : Type 0 where
  pub in_flight : s.conn.submits_in_flight ≡ u32 (length s.submitters)
  pub ledger : u32 s.calls ≡ u32 (accounted s.conn + open_shares s.submitters)
