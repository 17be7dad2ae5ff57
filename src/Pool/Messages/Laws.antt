-- ===== src/Pool/Messages/Laws.antt =====
-- Which message counts as the answer to a share, and what the job in force is afterwards.
use miner_tim.Common.{
  ℕ, ◌+◌, ◌≡◌, ◌≢◌, ◌⊎◌, inl, inr, refl, sym, ap, ◌∙◌, subst, arith, Bool-cases, Option, none, some,
  Bytes, u32, Option-cases, ◌>>=◌,
}
use miner_tim.Pool.State.{Job, PoolConnection, PendingShare, lookup, remove}
use miner_tim.Pool.Json.{Json}
use miner_tim.Pool.Jobs.{parse_job}
use miner_tim.Pool.Messages.{
  handle_pool_message, install_job, count_response, answer, count_answer, response_id, job_params,
  has_error, status_ok, accept, reject,
}
use miner_tim.Pool.Messages.Members.{
  Answers, Accepts, Offers, response_id-Answers, Answers-response_id, has_error-NoError,
  NoError-has_error, status_ok-StatusOk, StatusOk-status_ok, parsed-Offers, Offers-parsed,
}

module _ (json : Json) where
  open json use {Value, from_str}

  -- The counters of a connection.
  abbrev pub counters : PoolConnection → ℕ × ℕ × ℕ × ℕ
  counters c = (c.accepted_shares, c.rejected_shares, c.lost_shares, c.unsent_shares)

  install_job-counters :
      (msg : Value) (c : PoolConnection)
      → (counters (install_job json msg c) ≡ counters c)
        × ((install_job json msg c).pending_shares ≡ c.pending_shares)
        × ((install_job json msg c).generation ≡ c.generation)
  unfolding install_job
  install_job-counters msg c = (ground arith, ground arith, ground arith)

  count_response-unmatched :
      (msg : Value) (c : PoolConnection)
      → (response_id json msg >>= λ id. lookup id c.pending_shares) ≡ none
      → count_response json msg c ≡ c
  unfolding count_response answer
  count_response-unmatched msg c unmatched = ground arith

  count_response-matched :
      (msg : Value) (id : ℕ) (entry : PendingShare) (c : PoolConnection)
      → response_id json msg ≡ some id
      → lookup id c.pending_shares ≡ some entry
      → count_response json msg c
        ≡ count_answer json msg (record c { pending_shares = remove id c.pending_shares })
  unfolding count_response answer
  count_response-matched msg id entry c is_response found =
      rw (count_response, is_response, answer, found) refl

  count_response-current_job :
      (msg : Value) (c : PoolConnection) → (count_response json msg c).current_job ≡ c.current_job
  unfolding count_response answer count_answer
  count_response-current_job msg c = ground arith

  count_answer-pending :
      (msg : Value) (c : PoolConnection)
      → (count_answer json msg c).pending_shares ≡ c.pending_shares
  unfolding count_answer accept reject
  count_answer-pending msg c = ground arith

  no_entry :
      (msg : Value) (c : PoolConnection)
      → ((id : ℕ) (entry : PendingShare)
          → Answers json msg id
          → lookup id c.pending_shares ≢ some entry)
      → (response_id json msg >>= λ id. lookup id c.pending_shares) ≡ none
  no_entry msg c unmatched = elim (Option-cases (response_id json msg)) [
    | inl e ↦ rw e
    | inr (id, e) ↦ elim (Option-cases (lookup id c.pending_shares)) [
      | inl k ↦ rw (e) k
      | inr (entry, k) ↦ absurd (unmatched id entry (response_id-Answers json msg id e) k)
    ]
  ]

  -- A message that does not answer an outstanding submission, which takes a numeric id that is
  -- outstanding and no method, changes no counter and no outstanding submission: a notification, the
  -- reply to a keepalive or a late reply.
  pub unmatched_uncounted :
      (line : Bytes) (msg : Value) (c : PoolConnection)
      → from_str line ≡ some msg
      → ((id : ℕ) (entry : PendingShare)
          → Answers json msg id
          → lookup id c.pending_shares ≢ some entry)
      → (counters (handle_pool_message json line c) ≡ counters c)
        × ((handle_pool_message json line c).pending_shares ≡ c.pending_shares)
  unfolding handle_pool_message
  unmatched_uncounted line msg c parsed unmatched =
      let same = install_job-counters msg c in
      let nothing = no_entry msg c unmatched in
      let still = count_response-unmatched msg (install_job json msg c) (rw same.1 nothing) in
      rw (handle_pool_message, parsed)
        (ap counters still ∙ same.0, ap (λ x. x.pending_shares) still ∙ same.1)

  -- How an answer is counted: as accepted if it has no error but null and its status is OK, and as
  -- rejected if not.
  abbrev pub CountedOnce : Value → PoolConnection → PoolConnection → Type 0
  CountedOnce msg c after =
      (Accepts json msg
        × (counters after
            ≡ (u32 (c.accepted_shares + 1), c.rejected_shares, c.lost_shares, c.unsent_shares)))
      ⊎ ((Accepts json msg → ⊥)
          × (counters after
              ≡ (c.accepted_shares, u32 (c.rejected_shares + 1), c.lost_shares, c.unsent_shares)))

  counted_from :
      (msg : Value) (c c' after : PoolConnection)
      → counters c' ≡ counters c
      → CountedOnce msg c' after
      → CountedOnce msg c after
  counted_from msg c c' after same (inl (accepts, e)) =
      inl (accepts, e ∙ ap (λ (a, r, l, u). (u32 (a + 1), r, l, u)) same)
  counted_from msg c c' after same (inr (refused, e)) =
      inr (refused, e ∙ ap (λ (a, r, l, u). (a, u32 (r + 1), l, u)) same)

  count_answer-CountedOnce :
      (msg : Value) (c : PoolConnection) → CountedOnce msg c (count_answer json msg c)
  unfolding count_answer accept reject
  count_answer-CountedOnce msg c = elim (Bool-cases (has_error json msg)) [
    | inl e ↦ inr (λ h. absurd (ground (arith, NoError-has_error json msg h.0)), rw e)
    | inr e ↦ elim (Bool-cases (status_ok json msg)) [
      | inl k ↦ inl ((has_error-NoError json msg e, status_ok-StatusOk json msg k), rw (e, k))
      | inr k ↦ inr (λ h. absurd (ground (arith, StatusOk-status_ok json msg h.1)), rw (e, k))
    ]
  ]

  -- An answer to an outstanding submission, a message with its numeric id and no method, takes exactly
  -- that one out and is counted once: as accepted if it has no error or a null one and the status of
  -- its result is OK, and as rejected if not.
  pub matched_counted :
      (line : Bytes) (msg : Value) (id : ℕ) (entry : PendingShare) (c : PoolConnection)
      → from_str line ≡ some msg
      → Answers json msg id
      → lookup id c.pending_shares ≡ some entry
      → ((handle_pool_message json line c).pending_shares ≡ remove id c.pending_shares)
        × CountedOnce msg c (handle_pool_message json line c)
  unfolding handle_pool_message
  matched_counted line msg id entry c parsed answers found =
      let same = install_job-counters msg c in
      let installed = install_job json msg c in
      let removed : PoolConnection = record installed {
        pending_shares = remove id installed.pending_shares;
      } in
      let step =
        count_response-matched msg id entry (install_job json msg c)
          (Answers-response_id json msg id answers) (ap (lookup id) same.1 ∙ found) in
      rw (handle_pool_message, parsed)
        (
          ap (λ x. x.pending_shares) step
              ∙ count_answer-pending msg removed
              ∙ ap (remove id) same.1,
          subst (CountedOnce msg c) (sym step) (
              counted_from msg c removed (count_answer json msg removed) same.0
                (count_answer-CountedOnce msg removed)),
        )

  install_job-job :
      (msg : Value) (c : PoolConnection)
      → (install_job json msg c).current_job
        ≡ (elim (job_params json msg >>= λ d. parse_job json d c.generation) as (λ o. Option Job) [
          | none ↦ c.current_job
          | some job ↦ some job
        ])
  unfolding install_job
  install_job-job msg c =
      elim (Option-cases (job_params json msg >>= λ d. parse_job json d c.generation)) [
        | inl e ↦ rw (install_job, e) refl
        | inr (v, e) ↦ rw (install_job, e) refl
      ]

  -- After a message, the job in force is the one that the message carries, in the parameters of a job
  -- notification or in the result of another message, whose four members are read from their texts and
  -- which has the generation of the connection; if the message carries no such job, the one before
  -- stays in force.
  pub job_in_force :
      (line : Bytes) (msg : Value) (c : PoolConnection)
      → from_str line ≡ some msg
      → ((job : Job) × Offers json msg c.generation job
          × ((handle_pool_message json line c).current_job ≡ some job))
        ⊎ (((job : Job) → Offers json msg c.generation job → ⊥)
            × ((handle_pool_message json line c).current_job ≡ c.current_job))
  unfolding handle_pool_message
  job_in_force line msg c parsed =
      let offered = job_params json msg >>= λ d. parse_job json d c.generation in
      let now = count_response-current_job msg (install_job json msg c) ∙ install_job-job msg c in
      elim (Option-cases offered) [
        | inl e ↦ inr (
          λ job offers.
              absurd (ground (arith, sym e ∙ Offers-parsed json msg c.generation job offers)),
          rw (handle_pool_message, parsed) (now ∙ rw e),
        )
        | inr (job, e) ↦ inl (
          job,
          parsed-Offers json msg c.generation job e,
          rw (handle_pool_message, parsed) (now ∙ rw e),
        )
      ]
