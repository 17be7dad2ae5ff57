-- ===== src/Pool/Framing/Lines.antt =====
-- `take_complete_lines` against a description of it by one pass over the bytes: where the reads
-- cut the stream makes no difference to the lines.
use miner_tim.Common.{
  ℕ, zero, suc, ◌≤◌, ◌<◌, ◌≡◌, ◌≢◌, subst, inl, inr, refl, sym, ap, ◌∙◌, arith, List, [], ◌∷◌, ◌++◌,
  Option, none, some, true, false, Bytes, ltb, ◌==◌, if◌then◌else◌, length, All, All-append,
  Bool-cases, Option-cases, ltb→lt, ltb→lt,
}
use mathlib.Core.List.{append-nil, append_assoc}
use miner_tim.Pool.State.{max_line_bytes}
use miner_tim.Pool.Framing.{
  newline, split_line, push_line, drain_lines, Taken, lines, overflow, take_complete_lines,
}

abbrev pub IsPartial : Bytes → Type 0
IsPartial = All (λ b. b ≢ newline)

abbrev pub IsBounded : Taken × Bytes → Type 0
IsBounded (lines found, left) = length left ≤ max_line_bytes
IsBounded (overflow n, left) = (n ≡ length left) × (max_line_bytes < n)

-- The lines found before, in front of an outcome.
abbrev pub behind : List Bytes → Taken × Bytes → Taken × Bytes
behind before (lines found, left) = (lines (before ++ found), left)
behind before (overflow n, left) = (overflow n, left)

module _ (clean : Bytes → Bytes) where
  -- One pass, with the bytes since the last newline.
  pub scan : Bytes → Bytes → List Bytes × Bytes
  scan partial [] = ([], partial)
  scan partial (b ∷ bs) = elim (b == newline) [
    | true ↦ let (found, left) = scan [] bs in (push_line (clean (partial ++ b ∷ [])) found, left)
    | false ↦ scan (partial ++ b ∷ []) bs
  ]

  scan-newline :
      (partial bs : Bytes) (b : ℕ)
      → (b == newline) ≡ true
      → scan partial (b ∷ bs)
        ≡ (push_line (clean (partial ++ b ∷ [])) (scan [] bs).0, (scan [] bs).1)
  unfolding scan
  scan-newline partial bs b e = rw (e, scan) refl

  scan_other :
      (partial bs : Bytes) (b : ℕ)
      → (b == newline) ≡ false
      → scan partial (b ∷ bs) ≡ scan (partial ++ b ∷ []) bs
  unfolding scan
  scan_other partial bs b e = rw (e, scan) refl

  pub scan_left : (partial bs : Bytes) → IsPartial partial → IsPartial (scan partial bs).1
  scan_left partial [] h = unfold scan in h
  scan_left partial (b ∷ bs) h = elim (Bool-cases (b == newline)) [
    | inl e ↦ rw (scan-newline partial bs b e) (scan_left [] bs tt)
    | inr e ↦ rw (scan_other partial bs b e) (
        scan_left (partial ++ b ∷ []) bs
          (All-append (λ c. c ≢ newline) partial (b ∷ []) h (λ same. ground arith, tt)))
  ]

  -- What is done with the first newline, if there is one.
  after_split : Bytes → Bytes → Option (Bytes × Bytes) → List Bytes × Bytes
  after_split partial bs none = ([], partial ++ bs)
  after_split partial bs (some (raw, rest)) =
      let (found, left) = scan [] rest in (push_line (clean (partial ++ raw)) found, left)

  after_split_cons :
      (partial bs : Bytes) (b : ℕ) (o : Option (Bytes × Bytes))
      → after_split (partial ++ b ∷ []) bs o
        ≡ after_split partial
            (b ∷ bs)
            (elim o [ none ↦ none | some (raw, rest) ↦ some (b ∷ raw, rest) ])
  unfolding after_split
  after_split_cons partial bs b none = rw append_assoc
  after_split_cons partial bs b (some (raw, rest)) = rw append_assoc

  scan_split : (partial bs : Bytes) → scan partial bs ≡ after_split partial bs (split_line bs)
  unfolding split_line after_split
  scan_split partial [] = unfold scan in rw append-nil
  scan_split partial (b ∷ bs) = elim (Bool-cases (b == newline)) [
    | inl e ↦ rw (e, split_line) (scan-newline partial bs b e)
    | inr e ↦
        rw (e, split_line)
          (scan_other partial bs b e
            ∙ scan_split (partial ++ b ∷ []) bs
            ∙ after_split_cons partial bs b (split_line bs))
  ]

  split_line_shorter :
      (bs : Bytes) {raw rest : Bytes} → split_line bs ≡ some (raw, rest) → length rest < length bs
  unfolding split_line
  split_line_shorter [] h = cc
  split_line_shorter (b ∷ bs) h = elim (Option-cases (split_line bs)) [
    | inl e ↦ ground arith
    | inr (p, e) ↦ ground (arith, split_line_shorter bs {raw = p.0} {rest = p.1} e)
  ]

  drain_lines-scan :
      (fuel : ℕ) (bs : Bytes) → length bs ≤ fuel → drain_lines clean fuel bs ≡ scan [] bs
  unfolding drain_lines
  drain_lines-scan zero [] h = unfold scan in refl
  drain_lines-scan zero (b ∷ bs) h = absurd (omega arith)
  drain_lines-scan (suc fuel) bs h = elim (Option-cases (split_line bs)) [
    | inl e ↦ rw (e, drain_lines) (sym (scan_split [] bs ∙ ap (after_split [] bs) e ∙ whole))
    | inr ((raw, rest), e) ↦
        rw (e, drain_lines)
          (rw (drain_lines-scan fuel rest (omega (arith, split_line_shorter bs e)))
            (sym (scan_split [] bs ∙ ap (after_split [] bs) e ∙ first raw rest)))
  ]
    where
      whole : after_split [] bs none ≡ ([], bs)
      whole = unfold after_split in refl

      first :
          (raw rest : Bytes)
          → after_split [] bs (some (raw, rest))
            ≡ (push_line (clean raw) (scan [] rest).0, (scan [] rest).1)
      first raw rest = unfold after_split in refl

  push_line-append :
      (line : Bytes) (xs ys : List Bytes) → push_line line (xs ++ ys) ≡ push_line line xs ++ ys
  unfolding push_line
  push_line-append [] xs ys = refl
  push_line-append (c ∷ line) xs ys = refl

  pub scan-append :
      (partial a b : Bytes)
      → scan partial (a ++ b)
        ≡ ((scan partial a).0 ++ (scan (scan partial a).1 b).0, (scan (scan partial a).1 b).1)
  scan-append partial [] b = unfold scan in refl
  scan-append partial (x ∷ a) b = elim (Bool-cases (x == newline)) [
    | inl e ↦ rw (scan-newline partial (a ++ b) x e) (
        rw (scan-newline partial a x e) (
          rw (scan-append [] a b) (
            ap (λ l. (l, (scan (scan [] a).1 b).1))
              (push_line-append (clean (partial ++ x ∷ [])) (scan [] a).0 _))))
    | inr e ↦
        rw (scan_other partial (a ++ b) x e)
          (rw (scan_other partial a x e) (scan-append (partial ++ x ∷ []) a b))
  ]

  -- Bytes with no newline only grow the partial line.
  scan_partial : (acc r b : Bytes) → IsPartial r → scan acc (r ++ b) ≡ scan (acc ++ r) b
  scan_partial acc [] b h = rw append-nil
  scan_partial acc (x ∷ r) b h =
      scan_other acc (r ++ b) x (ground arith)
      ∙ scan_partial (acc ++ x ∷ []) r b h.1
      ∙ ap (λ l. scan l b) (append_assoc acc (x ∷ []) r)

  -- The outcome for what the pass found.
  pub taken : List Bytes × Bytes → Taken × Bytes
  taken (found, left) =
      if ltb max_line_bytes (length left)
      then (overflow (length left), left)
      else (lines found, left)

  pub take_complete_lines-scan :
      (pending : Bytes) → take_complete_lines clean pending ≡ taken (scan [] pending)
  unfolding take_complete_lines taken
  take_complete_lines-scan pending =
      ap taken (drain_lines-scan (length pending) pending (omega arith))

  -- What stays in the buffer is a partial line: it holds no newline. If lines are returned, it is at most 2 ^ 20
  -- bytes long, and if an overflow is returned, the overflow is its length, which is more.
  pub take_complete_lines-IsBounded :
      (pending : Bytes)
      → IsPartial (take_complete_lines clean pending).1
        × IsBounded (take_complete_lines clean pending)
  unfolding taken
  take_complete_lines-IsBounded pending =
      rw (take_complete_lines-scan pending) (left_over (scan [] pending) (scan_left [] pending tt))
    where
      left_over :
          (p : List Bytes × Bytes) → IsPartial p.1 → IsPartial (taken p).1 × IsBounded (taken p)
      left_over p h = elim (Bool-cases (ltb max_line_bytes (length p.1))) [
        | inl e ↦ rw (e, taken) (h, (refl, ltb→lt max_line_bytes (length p.1) e))
        | inr e ↦ rw (e, taken) (h, ground arith)
      ]

  taken_lines :
      (p : List Bytes × Bytes) (before : List Bytes) (left : Bytes)
      → taken p ≡ (lines before, left)
      → p ≡ (before, left)
  unfolding taken
  taken_lines p before left h = ground arith

  taken-behind :
      (before found : List Bytes) (left : Bytes)
      → taken (before ++ found, left) ≡ behind before (taken (found, left))
  unfolding taken
  taken-behind before found left = elim (Bool-cases (ltb max_line_bytes (length left))) [
    | inl e ↦ rw (e, taken) refl
    | inr e ↦ rw (e, taken) refl
  ]

  -- Where the reads cut the stream makes no difference: if one buffer gave its lines, what comes next gives behind
  -- those lines exactly what both together would have given, the left-over buffer and an overflow included.
  pub take_complete_lines-append :
      (pending more left : Bytes) (before : List Bytes)
      → take_complete_lines clean pending ≡ (lines before, left)
      → take_complete_lines clean (pending ++ more)
        ≡ behind before (take_complete_lines clean (left ++ more))
  take_complete_lines-append pending more left before h =
      rw (take_complete_lines-scan (pending ++ more)) (
        rw (take_complete_lines-scan (left ++ more)) (
          rw (scan-append [] pending more) (
            rw found (
              rw (scan_partial [] left more is_partial)
                (taken-behind before (scan left more).0 (scan left more).1)))))
    where
      found : scan [] pending ≡ (before, left)
      found = taken_lines (scan [] pending) before left (sym (take_complete_lines-scan pending) ∙ h)

      is_partial : IsPartial left
      is_partial = subst (λ p. IsPartial p.1) found (scan_left [] pending tt)
