-- ===== src/RandomX/Superscalar/Formed.antt =====
-- What a turn of the inner loop of `generate_superscalar` (src/randomx/superscalar.rs) keeps, and
-- how far it comes.
use miner_tim.Common.{
  ℕ, ◌+◌, ◌-◌, ◌*◌, ◌≤◌, ◌<◌, ◌≡◌, refl, ap, ◌∙◌, arith, true, false, some, length, set, length-set,
  ltb, ltb→lt, ==_iff, ◌==◌,
}
use miner_tim.RandomX.Safety.{Post, bind-Post, Post-map, write-Post, get-then}
use miner_tim.RandomX.Generator.{Digest, Blake2Generator}
use miner_tim.RandomX.Superscalar.{MacroOp, max_throwaway_count, look_forward_cycles}
use miner_tim.RandomX.Superscalar.Safety.{if-either, option-either}
use miner_tim.RandomX.Superscalar.Registers.{
  found-either, look_forward-Found, IsSearch, IsAimed, select_source-Found,
  select_destination-Found,
}
use miner_tim.RandomX.Superscalar.Select.{
  WorkingInstruction, RegisterInfo, select_source, select_destination,
}
use miner_tim.RandomX.Superscalar.Schedule.{schedule_mop}
use miner_tim.RandomX.Superscalar.Generate.{
  State, give_up, settle, retire, commit, with_choice, pick_destination, pick_source, issue,
}
use miner_tim.RandomX.Superscalar.Sound.{IsBusy, emit-IsSound, turns_left, Good, busy-IsSound}

module _ (D : Digest) where
  module _ (n m i : ℕ) (lt : i < n) where
    give_up-Good : (s : State) → IsBusy D s → turns_left D n i s ≤ m → Good D n m (give_up i s)
    unfolding give_up
    give_up-Good s b le =
        if-either (Good D n m) (ltb s.throw_away_count max_throwaway_count) _ _
          (λ e.
            let few : s.throw_away_count < 256 = ltb→lt s.throw_away_count max_throwaway_count e in
            (
              record {
                registers_length = b.registers_length;
                size = b.size;
                size_bound = omega (arith, b.room);
                outputs = b.outputs;
                valid = b.valid;
                thrown = omega arith;
                pending = λ k. absurd (omega arith);
              },
              omega arith,
            ))
          (λ e. record {
            registers_length = b.registers_length;
            size = b.size;
            size_bound = omega (arith, b.room);
            outputs = b.outputs;
            valid = b.valid;
            thrown = b.thrown;
            pending = λ k. absurd (omega arith);
          })

    -- The destination is there once its macro-op is issued.
    settle-Post :
        (dep_cycle : ℕ) (s : State)
        → IsBusy D s
        → (s.current.info.dst_op ≤ s.macro_op_index → s.current.dst < 8)
        → Post (λ rs. length rs ≡ 8) (settle dep_cycle s)
    unfolding settle
    settle-Post dep_cycle s b aimed =
        let f = b.pending.fit in
        if-either (Post (λ rs. length rs ≡ 8)) (s.macro_op_index == s.current.info.result_op) _ _
          (λ e.
            let k : s.macro_op_index ≡ s.current.info.result_op = (==_iff _ _).0 e in
            let v : RegisterInfo = record {
              latency = dep_cycle;
              last_op_group = s.current.op_group;
              last_op_par = s.current.op_group_par;
            } in
            Post-map (λ rs. rs ≡ set s.registers s.current.dst v) _ _
              (write-Post s.registers s.current.dst v
                (omega (arith, b.registers_length, aimed (omega (arith, f.order)))))
              (λ rs w. ap length w ∙ length-set s.registers s.current.dst v ∙ b.registers_length))
          (λ e. b.registers_length)

    -- The macro-op that chooses the destination is not passed without one.
    abbrev Aimed : State → Type 0
    Aimed s = s.current.info.dst_op ≤ s.macro_op_index → s.current.dst < 8

    retire-Good :
        (top : ℕ) (mop : MacroOp) (c : ℕ) (s : State)
        → IsBusy D s
        → Aimed s
        → s.throw_away_count ≡ 0
        → (n - i) * 257 ≤ m
        → Post (Good D n m) (retire top mop i c s)
    unfolding retire
    retire-Good top mop c s b aimed fresh le =
        bind-Post (λ rs. length rs ≡ 8) (Good D n m) (settle (c + mop.latency) s) _
          (settle-Post (c + mop.latency) s b aimed)
          (λ rs w.
            let (sound, same) = emit-IsSound D _ (record {
              registers_length = w;
              size = b.size;
              room = b.room;
              outputs = b.outputs;
              valid = b.valid;
              thrown = b.thrown;
              pending = record { fit = b.pending.fit; chosen = λ k. aimed (omega arith) };
            }) in
            (sound, omega arith))

    commit-Good :
        (top : ℕ) (mop : MacroOp) (c : ℕ) (s : State)
        → IsBusy D s
        → Aimed s
        → turns_left D n i s ≤ m
        → Post (Good D n m) (commit top mop i c s)
    unfolding commit
    commit-Good top mop c s b aimed le =
        let scheduled = schedule_mop mop s.port_busy c c true in
        let kept : State = record s { throw_away_count = 0; port_busy = scheduled.1 } in
        let busy : IsBusy D kept = record {
          registers_length = b.registers_length;
          size = b.size;
          room = b.room;
          outputs = b.outputs;
          valid = b.valid;
          thrown = omega arith;
          left = b.left;
          pending = b.pending;
        } in
        option-either (Post (Good D n m)) (scheduled.0) _ _
          (busy-IsSound D (record kept { ports_saturated = true })
            (record {
              registers_length = b.registers_length;
              size = b.size;
              room = b.room;
              outputs = b.outputs;
              valid = b.valid;
              thrown = omega arith;
              left = b.left;
              pending = b.pending;
            }))
          (λ x. retire-Good top mop x kept busy aimed refl (omega arith))

    -- The state that a search leaves behind.
    search-IsBusy :
        (s : State) (used : ℕ) (p : WorkingInstruction × Blake2Generator)
        → IsBusy D s
        → IsSearch D s.current.info s.macro_op_index p
        → IsBusy D (with_choice p used s)
    search-IsBusy s used p b h = record {
      registers_length = b.registers_length;
      size = b.size;
      room = b.room;
      outputs = b.outputs;
      valid = h.valid;
      thrown = b.thrown;
      left = omega (arith, ap (λ x. length x.ops) h.same, b.left);
      pending = h.pending;
    }

    pick_destination-Good :
        (draws top : ℕ) (mop : MacroOp) (c : ℕ) (s : State)
        → IsBusy D s
        → turns_left D n i s ≤ m
        → Post (Good D n m) (pick_destination D draws top mop i c s)
    unfolding pick_destination
    pick_destination-Good draws top mop c s b le =
        let start : IsSearch D s.current.info s.macro_op_index (s.current, s.generator) = record {
          same = refl;
          pending = b.pending;
          valid = b.valid;
        } in
        if-either (Post (Good D n m)) (s.macro_op_index == s.current.info.dst_op) _ _
          (λ e.
            found-either (IsSearch D s.current.info s.macro_op_index)
              (IsAimed D s.current.info s.macro_op_index) (Post (Good D n m)) _
              (λ p. some (give_up i (with_choice p look_forward_cycles s)))
              (λ x p. commit top mop i x (with_choice p (x - c) s))
              (look_forward-Found (IsSearch D s.current.info s.macro_op_index)
                (IsAimed D s.current.info s.macro_op_index)
                (select_destination D (ltb 0 s.throw_away_count) s.registers) look_forward_cycles c
                (s.current, s.generator) start
                (λ x p h.
                  select_destination-Found D s.current.info s.macro_op_index
                    (ltb 0 s.throw_away_count) s.registers x p b.registers_length h))
              (λ p h. give_up-Good _ (search-IsBusy s look_forward_cycles p b h) le)
              (λ x p h.
                commit-Good top mop x _ (search-IsBusy s (x - c) p b h.search) (λ k. h.aimed) le))
          (λ e. commit-Good top mop c s b (λ k. b.pending.chosen (ground arith)) le)

    pick_source-Good :
        (draws top : ℕ) (mop : MacroOp) (c : ℕ) (s : State)
        → IsBusy D s
        → turns_left D n i s ≤ m
        → Post (Good D n m) (pick_source D draws top mop i c s)
    unfolding pick_source
    pick_source-Good draws top mop c s b le =
        let Search = IsSearch D s.current.info s.macro_op_index in
        let start : Search (s.current, s.generator) = record {
          same = refl;
          pending = b.pending;
          valid = b.valid;
        } in
        if-either (Post (Good D n m)) (s.macro_op_index == s.current.info.src_op) _ _
          (λ e.
            found-either Search Search (Post (Good D n m)) _
              (λ p. some (give_up i (with_choice p look_forward_cycles s)))
              (λ x p. pick_destination D draws top mop i x (with_choice p (x - c) s))
              (look_forward-Found Search Search (select_source D s.registers) look_forward_cycles c
                (s.current, s.generator) start
                (λ x p h.
                  select_source-Found D s.current.info s.macro_op_index s.registers x p
                    b.registers_length h))
              (λ p h. give_up-Good _ (search-IsBusy s look_forward_cycles p b h) le)
              (λ x p h. pick_destination-Good draws top mop x _ (search-IsBusy s (x - c) p b h) le))
          (λ e. pick_destination-Good draws top mop c s b le)

    pub issue-Good :
        (draws : ℕ) (s : State)
        → IsBusy D s
        → turns_left D n i s ≤ m
        → Post (Good D n m) (issue D draws i s)
    unfolding issue
    issue-Good draws s b le = get-then s.current.info.ops s.macro_op_index _ _ b.left (λ mop.
        option-either (Post (Good D n m)) (schedule_mop mop s.port_busy s.cycle s.dep_cycle false).0
          _ _
          (busy-IsSound D (record s { ports_saturated = true })
            (record {
              registers_length = b.registers_length;
              size = b.size;
              room = b.room;
              outputs = b.outputs;
              valid = b.valid;
              thrown = b.thrown;
              left = b.left;
              pending = b.pending;
            }))
          (λ c. pick_source-Good draws s.cycle mop c s b le))
