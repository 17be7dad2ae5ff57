-- ===== src/Miner/Verifier.antt =====
-- The share verifier of a worker, `ShareVerifier` (src/miner.rs): a virtual machine built on the first
-- share, dropped when the seed changes.
pub mod History
use miner_tim.Common.{
  ◌≡◌, List, [], ◌∷◌, Option, none, some, Bool, true, false, Bytes, if◌then◌else◌,
}

-- What the verifier uses of `RandomXVm` (src/randomx/vm.rs) in full mode, where the dataset alone
-- determines a hash of the reference path. Of the native loop nothing is known. Miner/Reference gives
-- the machine of RandomX/Hasher.
pub record FullVm : Type 1 where
  pub Vm : Type 0
  pub Dataset : Type 0
  pub hash : Dataset → Bytes → Bytes
  pub new_full : Bytes → Dataset → Vm
  pub set_native_loop : Bool → Vm → Vm
  pub calculate_hash : Bytes → Vm → Bytes × Vm
  pub dataset_of : Vm → Dataset
  pub uses_native_loop : Vm → Bool
  pub new_full-dataset : (key : Bytes) (d : Dataset) → dataset_of (new_full key d) ≡ d
  pub set-dataset : (b : Bool) (vm : Vm) → dataset_of (set_native_loop b vm) ≡ dataset_of vm
  pub set-off : (vm : Vm) → uses_native_loop (set_native_loop false vm) ≡ false
  pub calculate-dataset :
      (blob : Bytes) (vm : Vm)
      → uses_native_loop vm ≡ false
      → dataset_of (calculate_hash blob vm).1 ≡ dataset_of vm
  pub calculate-hash :
      (blob : Bytes) (vm : Vm)
      → uses_native_loop vm ≡ false
      → (calculate_hash blob vm).0 ≡ hash (dataset_of vm) blob
  pub calculate-native :
      (blob : Bytes) (vm : Vm)
      → uses_native_loop vm ≡ false
      → uses_native_loop (calculate_hash blob vm).1 ≡ false

module _ (m : FullVm) where
  pub record ShareVerifier : Type 0 where
    pub vm : Option m.Vm
    pub dataset : Option m.Dataset
    pub key : Bytes
    pub enabled : Bool

  unfoldable pub new : Bool → ShareVerifier
  new on = record { vm = none; dataset = none; key = []; enabled = on }

  unfoldable pub rekey : Bytes → m.Dataset → ShareVerifier → ShareVerifier
  rekey key d v = record v { vm = none; dataset = some d; key = key }

  unfoldable pub set_enabled : Bool → ShareVerifier → ShareVerifier
  set_enabled on v = record v { enabled = on }

  -- The cached machine, or a new one on the reference path.
  unfoldable pub vm_for : Bytes → m.Dataset → Option m.Vm → m.Vm
  vm_for key d (some vm) = vm
  vm_for key d none = m.set_native_loop false (m.new_full key d)

  unfoldable pub reference_on :
      Bytes → Option m.Dataset → ShareVerifier → Option Bytes × ShareVerifier
  reference_on blob none v = (none, v)
  reference_on blob (some d) v =
      let (hash, vm) = m.calculate_hash blob (vm_for v.key d v.vm) in
      (some hash, record v { vm = some vm })

  unfoldable pub reference : Bytes → ShareVerifier → Option Bytes × ShareVerifier
  reference blob v = if v.enabled then reference_on blob v.dataset v else (none, v)

  -- What a worker does with its verifier.
  pub data Call : Type 0 where
    rekeyed : Bytes → m.Dataset → Call
    armed : Bool → Call
    checked : Bytes → Call

  unfoldable pub call : Call → ShareVerifier → ShareVerifier
  call (rekeyed key d) v = rekey key d v
  call (armed on) v = set_enabled on v
  call (checked blob) v = (reference blob v).1

  -- The state after the calls, the first of them first.
  unfoldable pub calls : List Call → ShareVerifier → ShareVerifier
  calls [] v = v
  calls (c ∷ later) v = calls later (call c v)

  -- What the calls leave in force, with no machine and no cache: the last dataset and the last switch.
  unfoldable pub last_dataset : List Call → Option m.Dataset → Option m.Dataset
  last_dataset [] d = d
  last_dataset (rekeyed key d ∷ later) before = last_dataset later (some d)
  last_dataset (armed on ∷ later) before = last_dataset later before
  last_dataset (checked blob ∷ later) before = last_dataset later before

  unfoldable pub last_switch : List Call → Bool → Bool
  last_switch [] on = on
  last_switch (rekeyed key d ∷ later) before = last_switch later before
  last_switch (armed on ∷ later) before = last_switch later on
  last_switch (checked blob ∷ later) before = last_switch later before

  unfoldable pub expected : Bytes → Bool → Option m.Dataset → Option Bytes
  expected blob true (some d) = some (m.hash d blob)
  expected blob true none = none
  expected blob false d = none
