-- ===== src/Miner/Tests/Verifying.antt =====
-- The share verifier with a machine whose reference hash is its dataset's number and the blob, and
-- whose native loop forgets the dataset.
use miner_tim.Common.{ℕ, ◌≡◌, refl, List, [], ◌∷◌, some, Bool, true, false, if◌then◌else◌}
use miner_tim.Miner.Verifier.{
  FullVm, new, reference, Call, rekeyed, armed, checked, calls, call, set_enabled, reference_on,
  rekey, vm_for, expected, last_switch, last_dataset,
}
use miner_tim.Miner.Verifier.History.{reference-calls}

abbrev tagged : FullVm
tagged = record {
  Vm = ℕ × Bool;
  Dataset = ℕ;
  hash = λ d blob. d ∷ blob;
  new_full = λ key d. (d, true);
  set_native_loop = λ on vm. (vm.0, on);
  calculate_hash = λ blob vm. (if vm.1 then blob else vm.0 ∷ blob, vm);
  dataset_of = λ vm. vm.0;
  uses_native_loop = λ vm. vm.1;
  new_full-dataset = λ key d. refl;
  set-dataset = λ b vm. refl;
  calculate-dataset = λ blob vm off. refl;
  calculate-hash = λ blob vm off. rw (off) refl;
  set-off = λ vm. refl;
  calculate-native = λ blob vm off. off;
}

-- A check between two seeds, and switched off and on again.
abbrev rotation : List (Call tagged)
rotation =
    rekeyed (1 ∷ []) 7 ∷ checked (5 ∷ []) ∷ armed false ∷ rekeyed (2 ∷ []) 8 ∷ armed true ∷ []

-- The machine that the check cached is on the reference path.
cached_machine :
    (reference tagged (5 ∷ []) (calls tagged rotation (new tagged true))).1.vm ≡ some (8, false)
unfolding reference calls new call set_enabled reference_on rekey vm_for
cached_machine = refl

reference-calls_example :
    (reference tagged (9 ∷ []) (calls tagged rotation (new tagged true))).0 ≡ some (8 ∷ 9 ∷ [])
unfolding expected last_switch last_dataset
reference-calls_example = reference-calls tagged rotation true (9 ∷ [])
