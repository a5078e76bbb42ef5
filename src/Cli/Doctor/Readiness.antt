-- ===== src/Cli/Doctor/Readiness.antt =====
-- What a readiness report says.
use storageops.Base.{◌≡◌, refl, ◌∙◌, sym, true, not, ◌||◌, arith, Bool-cases, inl, inr}
use storageops.Cli.World.{Home, Env}
use storageops.Cli.Versions.{node_ok}
use storageops.Cli.Doctor.{
  Machine, Status, runtime_status, found, doctor_readiness, live_diagnosis_available, cmd_doctor,
}

-- `Ready:` is printed where a live diagnosis is reported as available, and only there.
readiness-live :
    (machine : Machine) (s : Status)
    → (doctor_readiness machine s).0 ≡ live_diagnosis_available machine s
unfolding doctor_readiness live_diagnosis_available
readiness-live machine s = elim (Bool-cases (s.independent || s.merged)) [
  | inr n ↦ rw n refl
  | inl y ↦ elim (Bool-cases (found s.key_source)) [
    | inr n ↦ rw (y, n) (ground arith)
    | inl k ↦ elim (Bool-cases (not machine.pi_ok || not (node_ok machine.node_triple))) [
      | inl m ↦ rw (y, k, m) (ground arith)
      | inr n ↦ rw (y, k, n) (ground arith)
    ]
  ]
]

-- Where the doctor command ends with 0, a live diagnosis is available.
pub doctor_zero :
    (machine : Machine) (env : Env) (home : Home)
    → cmd_doctor machine env home ≡ 0
    → live_diagnosis_available machine (runtime_status machine env home) ≡ true
unfolding cmd_doctor
doctor_zero machine env home h =
    elim (Bool-cases (doctor_readiness machine (runtime_status machine env home)).0) [
      | inl y ↦ sym (readiness-live machine (runtime_status machine env home)) ∙ y
      | inr n ↦ absurd (ground (arith, n))
    ]
