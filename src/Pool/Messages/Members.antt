-- ===== src/Pool/Messages/Members.antt =====
-- What a message of the pool says, by its JSON members: whether it answers a submission, accepts it,
-- and which job it carries.
use miner_tim.Common.{
  ℕ, ◌≡◌, ◌⊎◌, inl, inr, refl, sym, ap, ◌∙◌, subst, arith, Option, none, some, true, false, Bytes,
  codes, eq_bytes→eq, eq_bytes_refl, Option-cases, Bool-cases, ◌>>=◌,
}
use miner_tim.Hex.{hex_decode}
use miner_tim.Pool.State.{Job}
use miner_tim.Pool.Json.{Json}
use miner_tim.Pool.Jobs.{parse_job, text_member}
use miner_tim.Pool.Messages.{is_text, job_params, has_error, status_ok, response_id}

-- A chain that succeeds, by its first step.
bind-some :
    {A B : Type 0} (o : Option A) (f : A → Option B) (b : B)
    → (o >>= f) ≡ some b
    → (a : A) × (o ≡ some a) × (f a ≡ some b)
bind-some none f b h = cc
bind-some (some a) f b h = (a, refl, h)

some-bind :
    {A B : Type 0} (o : Option A) (f : A → Option B) (a : A) (b : B)
    → o ≡ some a
    → f a ≡ some b
    → (o >>= f) ≡ some b
some-bind none f a b e h = cc
some-bind (some x) f a b e h = ap (λ (p : Option _). p >>= f) e ∙ h

is_text-eq : (o : Option Bytes) (t : Bytes) → is_text o t ≡ true → o ≡ some t
is_text-eq none t h = cc
is_text-eq (some s) t h = ap some (eq_bytes→eq s t h)

eq-is_text : (o : Option Bytes) (t : Bytes) → o ≡ some t → is_text o t ≡ true
eq-is_text o t h = ap (λ (p : Option Bytes). is_text p t) h ∙ eq_bytes_refl t

module _ (json : Json) where
  open json use {Value, get, as_str, as_u64, is_null}

  -- The member of `v` that is called `key` is read as `x`.
  abbrev pub Reads : {A : Type 0} → Value → Bytes → (Value → Option A) → A → Type 0
  Reads v key reading x = (m : Value) × (get v key ≡ some m) × (reading m ≡ some x)

  -- No error, or one that is null.
  abbrev pub NoError : Value → Type 0
  NoError msg =
      (get msg (codes "error") ≡ none)
      ⊎ ((e : Value) × (get msg (codes "error") ≡ some e) × (is_null e ≡ true))

  abbrev pub StatusOk : Value → Type 0
  StatusOk msg =
      (r : Value) × (get msg (codes "result") ≡ some r)
      × Reads r (codes "status") as_str (codes "OK")

  -- A numeric id, and no method, which a notification has.
  abbrev pub Answers : Value → ℕ → Type 0
  Answers msg id = (get msg (codes "method") ≡ none) × Reads msg (codes "id") as_u64 id

  abbrev pub Accepts : Value → Type 0
  Accepts msg = NoError msg × StatusOk msg

  pub response_id-Answers : (msg : Value) (id : ℕ) → response_id json msg ≡ some id → Answers msg id
  unfolding response_id
  response_id-Answers msg id h = elim (Option-cases (get msg (codes "method"))) [
    | inl e ↦ (e, bind-some (get msg (codes "id")) as_u64 id (rw e at h))
    | inr (m, e) ↦ absurd (ground arith)
  ]

  pub Answers-response_id : (msg : Value) (id : ℕ) → Answers msg id → response_id json msg ≡ some id
  unfolding response_id
  Answers-response_id msg id (e, (m, found, reads)) =
      rw (e) (some-bind (get msg (codes "id")) as_u64 m id found reads)

  pub has_error-NoError : (msg : Value) → has_error json msg ≡ false → NoError msg
  unfolding has_error
  has_error-NoError msg h = elim (Option-cases (get msg (codes "error"))) [
    | inl e ↦ inl e
    | inr (m, e) ↦ inr (m, e, ground arith)
  ]

  pub NoError-has_error : (msg : Value) → NoError msg → has_error json msg ≡ false
  unfolding has_error
  NoError-has_error msg (inl e) = ground arith
  NoError-has_error msg (inr (m, e, null)) = ground arith

  pub status_ok-StatusOk : (msg : Value) → status_ok json msg ≡ true → StatusOk msg
  unfolding status_ok
  status_ok-StatusOk msg h =
      let e = is_text-eq _ (codes "OK") h in
      let (r, found, inner) = bind-some (get msg (codes "result")) _ (codes "OK") e in
      (r, found, bind-some (get r (codes "status")) as_str (codes "OK") inner)

  pub StatusOk-status_ok : (msg : Value) → StatusOk msg → status_ok json msg ≡ true
  unfolding status_ok
  StatusOk-status_ok msg (r, found, (s, at, reads)) = eq-is_text _ (codes "OK") (
      some-bind (get msg (codes "result")) _ r (codes "OK") found
        (some-bind (get r (codes "status")) as_str s (codes "OK") at reads))

  -- A job notification carries its job in its parameters, any other message in its result.
  abbrev pub Carries : Value → Value → Type 0
  Carries msg d =
      (Reads msg (codes "method") as_str (codes "job") × (get msg (codes "params") ≡ some d))
      ⊎ ((Reads msg (codes "method") as_str (codes "job") → ⊥)
          × ((r : Value) × (get msg (codes "result") ≡ some r) × (get r (codes "job") ≡ some d)))

  pub job_params-Carries : (msg d : Value) → job_params json msg ≡ some d → Carries msg d
  unfolding job_params
  job_params-Carries msg d h =
      elim (Bool-cases (is_text (get msg (codes "method") >>= as_str) (codes "job"))) [
        | inl e ↦ inl (
          bind-some (get msg (codes "method")) as_str (codes "job") (is_text-eq _ _ e),
          rw (e) at h,
        )
        | inr e ↦ inr (
          λ (m, found, reads). absurd (
              ground (
                arith,
                eq-is_text _ (codes "job")
                    (some-bind (get msg (codes "method")) as_str m (codes "job") found reads),
              )),
          bind-some (get msg (codes "result")) _ d (rw (e) at h),
        )
      ]

  pub Carries-job_params : (msg d : Value) → Carries msg d → job_params json msg ≡ some d
  unfolding job_params
  Carries-job_params msg d (inl ((m, found, reads), params)) =
      rw
        (eq-is_text _ (codes "job")
          (some-bind (get msg (codes "method")) as_str m (codes "job") found reads))
        params
  Carries-job_params msg d (inr (other, (r, found, job))) =
      elim (Bool-cases (is_text (get msg (codes "method") >>= as_str) (codes "job"))) [
        | inl e ↦
            absurd
              (other (bind-some (get msg (codes "method")) as_str (codes "job") (is_text-eq _ _ e)))
        | inr e ↦ rw (e) (some-bind (get msg (codes "result")) _ r d found job)
      ]

  -- A member that is a text of hexadecimal digits for `bytes`.
  abbrev pub HexAt : Value → Bytes → Bytes → Type 0
  HexAt d key bytes = (text : Bytes) × Reads d key as_str text × (hex_decode text ≡ some bytes)

  -- The job that `d` describes on a connection of that generation.
  pub record Describes (d : Value) (generation : ℕ) (job : Job) : Type 0 where
    pub blob_is : HexAt d (codes "blob") job.blob
    pub target_is : HexAt d (codes "target") job.target
    pub id_is : Reads d (codes "job_id") as_str job.job_id
    pub seed_is : HexAt d (codes "seed_hash") job.seed_hash
    pub stamped : job.generation ≡ generation

  -- The job of a message.
  abbrev pub Offers : Value → ℕ → Job → Type 0
  Offers msg generation job = (d : Value) × Carries msg d × Describes d generation job

  job-injective : {x y : Job} → some x ≡ some y → x ≡ y
  job-injective e = cc

  pub parse_job-Describes :
      (d : Value) (generation : ℕ) (job : Job)
      → parse_job json d generation ≡ some job
      → Describes d generation job
  unfolding parse_job text_member
  parse_job-Describes d generation job h =
      let (blob_hex, blob_at, h1) = bind-some (text_member json d (codes "blob")) _ job h in
      let (target_hex, target_at, h2) = bind-some (text_member json d (codes "target")) _ job h1 in
      let (id, id_at, h3) = bind-some (text_member json d (codes "job_id")) _ job h2 in
      let (seed_hex, seed_at, h4) = bind-some (text_member json d (codes "seed_hash")) _ job h3 in
      let (blob, blob_is, h5) = bind-some (hex_decode blob_hex) _ job h4 in
      let (target, target_is, h6) = bind-some (hex_decode target_hex) _ job h5 in
      let (seed, seed_is, h7) = bind-some (hex_decode seed_hex) _ job h6 in
      subst (Describes d generation) (job-injective h7) (record {
        blob_is = (blob_hex, bind-some (get d (codes "blob")) as_str blob_hex blob_at, blob_is);
        target_is =
            (target_hex, bind-some (get d (codes "target")) as_str target_hex target_at, target_is);
        id_is = bind-some (get d (codes "job_id")) as_str id id_at;
        seed_is =
            (seed_hex, bind-some (get d (codes "seed_hash")) as_str seed_hex seed_at, seed_is);
        stamped = refl;
      })

  at-text_member :
      (d : Value) (key text : Bytes) → Reads d key as_str text → text_member json d key ≡ some text
  unfolding text_member
  at-text_member d key text (m, found, reads) = some-bind (get d key) as_str m text found reads

  pub Describes-parse_job :
      (d : Value) (generation : ℕ) (job : Job)
      → Describes d generation job
      → parse_job json d generation ≡ some job
  unfolding parse_job
  Describes-parse_job d generation job h =
      let (blob_hex, blob_at, blob) = h.blob_is in
      let (target_hex, target_at, target) = h.target_is in
      let (seed_hex, seed_at, seed) = h.seed_is in
      some-bind _ _ _ job (at-text_member d _ _ blob_at) (
        some-bind _ _ _ job (at-text_member d _ _ target_at) (
          some-bind _ _ _ job (at-text_member d _ _ h.id_is) (
            some-bind _ _ _ job (at-text_member d _ _ seed_at) (
              some-bind _ _ _ job blob (
                some-bind _ _ _ job target (
                  some-bind _ _ _ job seed (
                    ap
                      (λ g. some (record {
                        blob = job.blob;
                        target = job.target;
                        job_id = job.job_id;
                        seed_hash = job.seed_hash;
                        generation = g;
                      }))
                      (sym h.stamped))))))))

  pub parsed-Offers :
      (msg : Value) (generation : ℕ) (job : Job)
      → (job_params json msg >>= λ d. parse_job json d generation) ≡ some job
      → Offers msg generation job
  parsed-Offers msg generation job h =
      let (d, carried, parsed) = bind-some (job_params json msg) _ job h in
      (d, job_params-Carries msg d carried, parse_job-Describes d generation job parsed)

  pub Offers-parsed :
      (msg : Value) (generation : ℕ) (job : Job)
      → Offers msg generation job
      → (job_params json msg >>= λ d. parse_job json d generation) ≡ some job
  Offers-parsed msg generation job (d, carries, describes) =
      some-bind (job_params json msg) _ d job (Carries-job_params msg d carries)
        (Describes-parse_job d generation job describes)
