-- ===== src/Syscall/Stubs.antt =====
-- syscall_init and syscall_stub_get (syscall.c): each call has its stub under its name.
use raw_os.Common.{
  ℕ, ◌+◌, ◌*◌, ◌^◌, ◌≤◌, ◌<◌, ◌≡◌, refl, ap, ◌∙◌, inl, inr, false, Bool-cases, List, [], ◌∷◌,
  Option, none, some, if◌then◌else◌, length, arith,
}
use raw_os.CString.Laws.{same_text, same_text-eq}
use raw_os.HashMap.{HashMap, hash_map_create, hash_map_get}
use raw_os.HashMap.Grow.{IsValid}
use raw_os.HashMap.Laws.{hash_map_put-roomy, hash_map_create-get}
use raw_os.Syscall.{
  Text, SyscallStubInformation, syscall_stub_name, Call, syscall_name, calls, syscall_stub_get,
  put_stubs, syscall_init,
}
use raw_os.Syscall.Names.{compare-same_text, syscall_stub_name-IsLawful, named, stub_table}

abbrev Differs : List ℕ → List Call → Type 0
Differs name [] = Unit
Differs name (c ∷ cs) = (same_text name (syscall_name c).bytes ≡ false) × Differs name cs

abbrev Distinct : List Call → Type 0
Distinct [] = Unit
Distinct (c ∷ cs) = Differs (syscall_name c).bytes cs × Distinct cs

calls-Distinct : Distinct calls
unfolding syscall_name
calls-Distinct = ground arith

-- The calls with the names that the code gives them.
abbrev entries : List Call → List (List ℕ × Call)
entries [] = []
entries (c ∷ cs) = ((syscall_name c).bytes, c) ∷ entries cs

entries-calls : entries calls ≡ stub_table
unfolding syscall_name
entries-calls = refl

module _ (stub : Call → SyscallStubInformation) (q : Text) where
  -- What getting `q` gives after the puts, where it gave `r` before: the last put counts.
  abbrev after_puts :
      List Call → Option (Option SyscallStubInformation) → Option (Option SyscallStubInformation)
  after_puts [] r = r
  after_puts (c ∷ cs) r =
      after_puts cs (if same_text q.bytes (syscall_name c).bytes then some (some (stub c)) else r)

  after_puts-Differs :
      (cs : List Call) (r : Option (Option SyscallStubInformation))
      → Differs q.bytes cs
      → after_puts cs r ≡ r
  after_puts-Differs [] r d = refl
  after_puts-Differs (c ∷ cs) r d = rw (d.0) (after_puts-Differs cs r d.1)

  -- The stub of the call with that name.
  abbrev pub stub_named : Option Call → Option SyscallStubInformation
  stub_named none = none
  stub_named (some c) = some (stub c)

  after_puts-named :
      (cs : List Call)
      → Distinct cs
      → after_puts cs (some none) ≡ some (stub_named (named q (entries cs)))
  after_puts-named [] d = refl
  after_puts-named (c ∷ cs) d = elim (Bool-cases (same_text q.bytes (syscall_name c).bytes)) [
    | inl same ↦ rw same (
        after_puts-Differs cs (some (some (stub c)))
          (rw (same_text-eq q.bytes (syscall_name c).bytes same) d.0))
    | inr other ↦ rw other (after_puts-named cs d.1)
  ]

  put_stubs-after_puts :
      (cs : List Call) (hm : HashMap Text SyscallStubInformation)
      → IsValid syscall_stub_name hm
      → hm.capacity * 2 < 2 ^ 32
      → (hm.num_elements + length cs) * 2 ≤ hm.capacity
      → (hm' : HashMap Text SyscallStubInformation) × (put_stubs stub cs hm ≡ some hm')
        × (syscall_stub_get hm' q ≡ after_puts cs (syscall_stub_get hm q))
  unfolding put_stubs syscall_stub_get syscall_stub_name
  put_stubs-after_puts [] hm valid small room = (hm, refl, refl)
  put_stubs-after_puts (c ∷ cs) hm valid small room =
      let (hm1, e, valid1, same, num, get) =
        hash_map_put-roomy syscall_stub_name syscall_stub_name-IsLawful 1 hm (syscall_name c) q
          (stub c) valid small (omega (arith, room)) in
      let (hm2, e2, get2) =
        put_stubs-after_puts cs hm1 valid1 (omega (arith, same, small))
          (omega (arith, same, num, room)) in
      (
        hm2,
        rw (e, put_stubs) e2,
        get2
            ∙ ap (after_puts cs) (
                get
                ∙ ap (λ b. if b then some (some (stub c)) else hash_map_get syscall_stub_name hm q)
                    (compare-same_text q (syscall_name c))),
      )

  -- After `syscall_init`, whose loops end, getting one of the ten names of `stub_table` gives the
  -- address and the size of the stub of the call that stands beside it there, and getting any other
  -- name gives nothing.
  pub syscall_init-stub_named :
      (hm : HashMap Text SyscallStubInformation) × (syscall_init stub ≡ some hm)
      × (syscall_stub_get hm q ≡ some (stub_named (named q stub_table)))
  unfolding syscall_init hash_map_create syscall_stub_get
  syscall_init-stub_named =
      let (valid, nothing) =
        hash_map_create-get {V = SyscallStubInformation} syscall_stub_name
          syscall_stub_name-IsLawful 1024 q in
      let (hm, e, get) =
        put_stubs-after_puts calls (hash_map_create 1024) valid (omega arith) (omega arith) in
      (
        hm,
        e,
        get
            ∙ (ap (after_puts calls) nothing
                ∙ (after_puts-named calls calls-Distinct
                    ∙ ap (λ t. some (stub_named (named q t))) entries-calls)),
      )
