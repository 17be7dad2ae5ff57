-- ===== src/Miner/Verifier/History.antt =====
-- The verifier's answer by the history of its calls: the cache of its virtual machine does not show.
use miner_tim.Common.{
  ◌≡◌, refl, ◌∙◌, ap, List, [], ◌∷◌, Option, none, some, Bool, true, false, Bytes,
}
use miner_tim.Miner.Verifier.{
  FullVm, ShareVerifier, new, rekey, set_enabled, vm_for, reference_on, reference, Call, rekeyed,
  armed, checked, call, calls, last_dataset, last_switch, expected,
}

module _ (m : FullVm) where
  -- A cached machine has the dataset in force, and does not use the native loop.
  unfoldable pub IsCurrent : Option m.Vm → Option m.Dataset → Type 0
  IsCurrent none d = Unit
  IsCurrent (some vm) none = ⊥
  IsCurrent (some vm) (some d) = (m.dataset_of vm ≡ d) × (m.uses_native_loop vm ≡ false)

  vm_for-IsCurrent :
      (key : Bytes) (d : m.Dataset) (cached : Option m.Vm)
      → IsCurrent cached (some d)
      → IsCurrent (some (vm_for m key d cached)) (some d)
  unfolding IsCurrent vm_for
  vm_for-IsCurrent key d (some vm) h = h
  vm_for-IsCurrent key d none h = (
    m.set-dataset false (m.new_full key d) ∙ m.new_full-dataset key d,
    m.set-off (m.new_full key d),
  )

  calculate-IsCurrent :
      (blob : Bytes) (d : m.Dataset) (vm : m.Vm)
      → IsCurrent (some vm) (some d)
      → IsCurrent (some (m.calculate_hash blob vm).1) (some d)
  unfolding IsCurrent
  calculate-IsCurrent blob d vm h =
      (m.calculate-dataset blob vm h.1 ∙ h.0, m.calculate-native blob vm h.1)

  -- What a verifier is after a history: the dataset and the switch in force, and a current cache.
  pub record Follows (v : ShareVerifier m) (on : Bool) (d : Option m.Dataset) : Type 0 where
    pub switch_is : v.enabled ≡ on
    pub dataset_is : v.dataset ≡ d
    pub cache : IsCurrent v.vm d

  reference_on-Follows :
      (blob : Bytes) (v : ShareVerifier m) (on : Bool) (d : Option m.Dataset)
      → Follows v on d
      → Follows (reference_on m blob d v).1 on d
  unfolding reference_on
  reference_on-Follows blob v on none h = h
  reference_on-Follows blob v on (some d) h = record {
    switch_is = h.switch_is;
    dataset_is = h.dataset_is;
    cache = calculate-IsCurrent blob d _ (vm_for-IsCurrent v.key d v.vm h.cache);
  }

  reference_on-answer :
      (blob : Bytes) (v : ShareVerifier m) (d : Option m.Dataset)
      → IsCurrent v.vm d
      → (reference_on m blob d v).0 ≡ expected m blob true d
  unfolding reference_on expected IsCurrent
  reference_on-answer blob v none h = refl
  reference_on-answer blob v (some d) h =
      let current = vm_for-IsCurrent v.key d v.vm h in
      ap some (
        m.calculate-hash blob (vm_for m v.key d v.vm) (current.1)
        ∙ ap (λ d'. m.hash d' blob) (current.0))

  reference-Follows :
      (blob : Bytes) (v : ShareVerifier m) (on : Bool) (d : Option m.Dataset)
      → Follows v on d
      → Follows (reference m blob v).1 on d
  unfolding reference
  reference-Follows blob v true d h =
      simp (h.switch_is, h.dataset_is) (reference_on-Follows blob v true d h)
  reference-Follows blob v false d h = simp (h.switch_is) h

  reference-answer :
      (blob : Bytes) (v : ShareVerifier m) (on : Bool) (d : Option m.Dataset)
      → Follows v on d
      → (reference m blob v).0 ≡ expected m blob on d
  unfolding reference expected
  reference-answer blob v true d h =
      simp (h.switch_is, h.dataset_is) (reference_on-answer blob v d h.cache)
  reference-answer blob v false d h = simp (h.switch_is) refl

  calls-Follows :
      (done : List (Call m)) (v : ShareVerifier m) (on : Bool) (d : Option m.Dataset)
      → Follows v on d
      → Follows (calls m done v) (last_switch m done on) (last_dataset m done d)
  unfolding calls call last_switch last_dataset rekey set_enabled IsCurrent
  calls-Follows [] v on d h = h
  calls-Follows (rekeyed key new_d ∷ later) v on d h =
      calls-Follows later (rekey m key new_d v) on (some new_d)
        (record { switch_is = h.switch_is; dataset_is = refl; cache = tt })
  calls-Follows (armed to ∷ later) v on d h =
      calls-Follows later (set_enabled m to v) to d
        (record { switch_is = refl; dataset_is = h.dataset_is; cache = h.cache })
  calls-Follows (checked blob ∷ later) v on d h =
      calls-Follows later (reference m blob v).1 on d (reference-Follows blob v on d h)

  -- After any sequence of rekeyings, switches and checks, the verifier's answer for a blob is the hash
  -- of the blob that the reference path, not the native loop, gives for the dataset of the last
  -- rekeying, and none when it is switched off last or was never rekeyed; earlier checks and the
  -- machine they cached do not change it. It holds whatever the native loop computes.
  pub reference-calls :
      (done : List (Call m)) (on : Bool) (blob : Bytes)
      → (reference m blob (calls m done (new m on))).0
        ≡ expected m blob (last_switch m done on) (last_dataset m done none)
  unfolding new IsCurrent
  reference-calls done on blob = reference-answer blob _ _ _ (
      calls-Follows done (new m on) on none
        (record { switch_is = refl; dataset_is = refl; cache = tt }))
