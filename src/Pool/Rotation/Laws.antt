-- ===== src/Pool/Rotation/Laws.antt =====
-- When a donation rotation goes ahead.
use miner_tim.Common.{
  ℕ, ◌+◌, ◌≤◌, ◌<◌, ◌≡◌, ◌⊎◌, inl, inr, refl, ap, ◌∙◌, arith, List, [], ◌∷◌, ◌++◌, Option, none,
  some, Bool, true, false, ◌&&◌, ◌||◌, ◌==◌, length, Bool-cases,
}
use miner_tim.Donate.{Beneficiary, user, author, xmrig}
use miner_tim.Donate.Schedule.{same}
use miner_tim.Pool.State.{PoolConnection, PendingShare}
use miner_tim.Pool.Rotation.{wait_for, rotation_settled}

same_refl : (b : Beneficiary) → same b b ≡ true
same_refl user = refl
same_refl author = refl
same_refl xmrig = refl

same→eq : (a b : Beneficiary) → same a b ≡ true → a ≡ b
same→eq user user h = refl
same→eq author author h = refl
same→eq xmrig xmrig h = refl
same→eq user author h = cc
same→eq user xmrig h = cc
same→eq author user h = cc
same→eq author xmrig h = cc
same→eq xmrig user h = cc
same→eq xmrig author h = cc

-- What the other threads leave in a connection between two polls of the gate.
pub record Outstanding : Type 0 where
  pub at : ℕ
  pub in_flight : ℕ
  pub pending : List (ℕ × PendingShare)

abbrev pub with_outstanding : Outstanding → PoolConnection → PoolConnection
with_outstanding o c = record c { submits_in_flight = o.in_flight; pending_shares = o.pending }

-- Polls of the gate for one beneficiary: has one of them let the rotation through?
pub any_settled : Beneficiary → List Outstanding → PoolConnection → Bool
any_settled want [] c = false
any_settled want (o ∷ later) c =
    let (settled, c') = rotation_settled want o.at (with_outstanding o c) in
    let more = any_settled want later c' in settled || more

-- One poll during a wait: it lets the rotation through, or the wait goes on.
poll_waiting :
    (want : Beneficiary) (now since : ℕ) (c : PoolConnection)
    → c.rotation_wait_since ≡ some (want, since)
    → ((rotation_settled want now c).0 ≡ true)
      ⊎ (now < since + c.rotation_settle_ms)
        × ((rotation_settled want now c).1.rotation_wait_since ≡ some (want, since))
        × ((rotation_settled want now c).1.rotation_settle_ms ≡ c.rotation_settle_ms)
unfolding rotation_settled
poll_waiting want now since c h = ground (arith, same_refl want)

-- A first poll: it lets the rotation through, or a wait begins.
poll_first :
    (want : Beneficiary) (now : ℕ) (c : PoolConnection)
    → wait_for want c.rotation_wait_since ≡ none
    → ((rotation_settled want now c).0 ≡ true)
      ⊎ ((rotation_settled want now c).1.rotation_wait_since ≡ some (want, now))
        × ((rotation_settled want now c).1.rotation_settle_ms ≡ c.rotation_settle_ms)
unfolding rotation_settled
poll_first want now c h = ground arith

any_settled_now :
    (want : Beneficiary) (o : Outstanding) (later : List Outstanding) (c : PoolConnection)
    → (rotation_settled want o.at (with_outstanding o c)).0 ≡ true
    → any_settled want (o ∷ later) c ≡ true
unfolding any_settled
any_settled_now want o later c h = rw h

any_settled_later :
    (want : Beneficiary) (o : Outstanding) (later : List Outstanding) (c : PoolConnection)
    → any_settled want later (rotation_settled want o.at (with_outstanding o c)).1 ≡ true
    → any_settled want (o ∷ later) c ≡ true
unfolding any_settled
any_settled_later want o later c h = ground arith

waiting_ends :
    (want : Beneficiary) (between : List Outstanding) (last : Outstanding) (since : ℕ)
    (c : PoolConnection)
    → c.rotation_wait_since ≡ some (want, since)
    → since + c.rotation_settle_ms ≤ last.at
    → any_settled want (between ++ last ∷ []) c ≡ true
waiting_ends want [] last since c h late =
    elim (poll_waiting want last.at since (with_outstanding last c) h) [
      | inl done ↦ any_settled_now want last [] c done
      | inr (early, more, limit) ↦ absurd (omega arith)
    ]
waiting_ends want (o ∷ between) last since c h late =
    elim (poll_waiting want o.at since (with_outstanding o c) h) [
      | inl done ↦ any_settled_now want o (between ++ last ∷ []) c done
      | inr (early, goes_on, limit) ↦ any_settled_later want o (between ++ last ∷ []) c (
          waiting_ends want between last since (rotation_settled want o.at (with_outstanding o c)).1
            goes_on (rw limit late))
    ]

-- A rotation is put off for the settle limit at most: whatever calls and outstanding submissions each poll finds, if
-- the last poll comes that long after the first one, which found no wait for this beneficiary, one of the polls has
-- let the rotation through.
pub rotation_wait_bounded :
    (want : Beneficiary) (first last : Outstanding) (between : List Outstanding)
    (c : PoolConnection)
    → wait_for want c.rotation_wait_since ≡ none
    → first.at + c.rotation_settle_ms ≤ last.at
    → any_settled want (first ∷ (between ++ last ∷ [])) c ≡ true
rotation_wait_bounded want first last between c fresh late =
    elim (poll_first want first.at (with_outstanding first c) fresh) [
      | inl done ↦ any_settled_now want first (between ++ last ∷ []) c done
      | inr (begun, limit) ↦ any_settled_later want first (between ++ last ∷ []) c (
          waiting_ends want between last first.at
            (rotation_settled want first.at (with_outstanding first c)).1 begun (rw limit late))
    ]

-- Before the limit no outstanding share is given up: a poll that finds a call under way or a submission without an
-- answer lets the rotation through only after a wait for this same beneficiary of at least the limit.
pub rotation_settled_early :
    (want : Beneficiary) (now : ℕ) (c : PoolConnection)
    → 0 < c.rotation_settle_ms
    → (rotation_settled want now c).0 ≡ true
    → ((c.submits_in_flight ≡ 0) × (length c.pending_shares ≡ 0))
      ⊎ ((since : ℕ) × (c.rotation_wait_since ≡ some (want, since))
          × (since + c.rotation_settle_ms ≤ now))
unfolding rotation_settled
rotation_settled_early want now c pos h = early c.rotation_wait_since refl
  where
    early :
        (w : Option (Beneficiary × ℕ))
        → c.rotation_wait_since ≡ w
        → ((c.submits_in_flight ≡ 0) × (length c.pending_shares ≡ 0))
          ⊎ ((since : ℕ) × (c.rotation_wait_since ≡ some (want, since))
              × (since + c.rotation_settle_ms ≤ now))
    early none e = inl (ground arith, ground arith)
    early (some (b, since)) e = elim (Bool-cases (same b want)) [
      | inr other ↦ inl (ground arith, ground arith)
      | inl mine ↦ elim (Bool-cases (c.submits_in_flight == 0 && length c.pending_shares == 0)) [
        | inl quiet ↦ inl (ground arith, ground arith)
        | inr busy ↦ inr (since, e ∙ ap (λ x. some (x, since)) (same→eq b want mine), ground arith)
      ]
    ]
