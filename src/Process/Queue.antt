-- ===== src/Process/Queue.antt =====
-- fork, switch and exit as operations on a queue: the processes in the order in which they run.
use mathlib.Core.Path.{subst}
use raw_os.Common.{
  zero, suc, ◌-◌, ℕ, ◌+◌, ◌%◌, ◌^◌, ◌≡◌, ◌≢◌, refl, sym, ap, ◌∙◌, List, [], ◌∷◌, ◌++◌, ◌==◌, arith,
  true, false, Outcome, ok,
}
use raw_os.Process.{
  Machine, Process, State, Registers, store, set_next, set_previous, link_before, copy_kernel_stack,
  fork_resume, process_fork,
}
use raw_os.Process.Ring.{Fresh, Ring, SameLinks, Ring-SameLinks}
use raw_os.Process.Moves.{store-same, link_before-Ring}

module _ {M : Type 0} where
  -- The processes are `ps`, the active one first, linked into a ring in this order.
  abbrev pub IsQueue : State M → List ℕ → Type 0
  IsQueue s [] = ⊥
  IsQueue s (a ∷ ps) = (s.active_process ≡ a) × Ring s.heap (a ∷ ps)

pub eqb_refl : (a : ℕ) → (a == a) ≡ true
eqb_refl a = ground arith

pub neb : (a b : ℕ) → a ≢ b → (a == b) ≡ false
neb a b e = ground arith

pub store-SameLinks :
    (heap : ℕ → Process) (i : ℕ) (p : Process)
    → p.next ≡ (heap i).next
    → p.previous ≡ (heap i).previous
    → SameLinks heap (store heap i p)
store-SameLinks heap i p n e x =
    (store-same (λ q. q.next) heap i p x n, store-same (λ q. q.previous) heap i p x e)

pub store-at : (heap : ℕ → Process) (i : ℕ) (p : Process) → store heap i p i ≡ p
store-at heap i p = rw (eqb_refl i)

-- What a process starts or goes on with.
pub record Holds (p : Process) (pid : ℕ) (registers : Registers) : Type 0 where
  pub pid_eq : p.pid ≡ pid
  pub eip_eq : p.eip ≡ registers.eip
  pub esp_eq : p.esp ≡ registers.esp
  pub ebp_eq : p.ebp ≡ registers.ebp

-- The links of a fork keep the page directories.
link_before-page_directory :
    (heap : ℕ → Process) (active n x : ℕ)
    → (link_before heap active n x).page_directory ≡ (heap x).page_directory
unfolding link_before
link_before-page_directory heap active n x =
    let l = (heap active).previous in
    let h1 = set_next heap l n in
    let h2 = set_previous h1 n l in
    let h3 = set_previous h2 active n in
    store-same (λ p. p.page_directory) h3 n (record (h3 n) { next = active }) x refl
    ∙ (store-same (λ p. p.page_directory) h2 active (record (h2 active) { previous = n }) x refl
        ∙ (store-same (λ p. p.page_directory) h1 n (record (h1 n) { previous = l }) x refl
            ∙ store-same (λ p. p.page_directory) heap l (record (heap l) { next = n }) x refl))

module _ {M : Type 0} (os : Machine M) (directory own : ℕ) where
  -- `n` pages of the kernel's stack, from the `i`th below page 0xF0000 on, are copied one after the
  -- other from their frames under the directory `own` to those under `directory`.
  abbrev pub IsCopied : ℕ → ℕ → M → M → Type 0
  IsCopied zero i machine copied = machine ≡ copied
  IsCopied (suc n) i machine copied =
      (target source : ℕ) × (os.paging_get_page_frame_address machine directory (0xF0000 - i)
        ≡ ok target)
      × (os.paging_get_page_frame_address machine own (0xF0000 - i) ≡ ok source)
      × IsCopied n (i + 1) (os.paging_copy_frame machine target source) copied

  copy_kernel_stack-IsCopied :
      (n i : ℕ) (machine copied : M)
      → IsCopied n i machine copied
      → copy_kernel_stack os machine directory own i n ≡ ok copied
  unfolding copy_kernel_stack
  copy_kernel_stack-IsCopied zero i machine copied e = ap ok e
  copy_kernel_stack-IsCopied (suc n) i machine copied (target, source, to, from, rest) =
      rw (copy_kernel_stack, to, from)
        (copy_kernel_stack-IsCopied n (i + 1) (os.paging_copy_frame machine target source) copied
          rest)

module _ {M : Type 0} (os : Machine M) (n directory : ℕ) (registers : Registers)
    (allocated cloned copied : M) where
  abbrev child : State M → Process
  child s = record (s.heap n) {
    page_directory = directory;
    file_descriptors = (s.heap s.active_process).file_descriptors;
    pid = s.current_pid;
    eip = registers.eip;
    esp = registers.esp;
    ebp = registers.ebp;
  }

  -- A fork by `a` returns to it, with the queue after it and the child at `n`.
  abbrev Forked : State M → ℕ → List ℕ → Outcome (State M × ℕ) → Type 0
  Forked s a ps r =
      (after : State M) × (r ≡ ok (after, s.current_pid))
      × IsQueue after (a ∷ (ps ++ (n ∷ [])))
      × Holds (after.heap n) s.current_pid registers
      × ((after.heap n).page_directory ≡ directory)
      × (after.machine ≡ copied)

  resume-Forked :
      (s : State M) (ps : List ℕ)
      → Ring s.heap (s.active_process ∷ (ps ++ (n ∷ [])))
      → s.active_process ≢ n
      → os.paging_clone_page_directory_for_new_process s.machine
          (s.heap s.active_process).page_directory
        ≡ ok (directory, cloned)
      → copy_kernel_stack os cloned directory (s.heap s.active_process).page_directory 0 2048
        ≡ ok copied
      → Forked s s.active_process ps (fork_resume os s n registers)
  unfolding fork_resume
  resume-Forked s ps linked ne clone copy =
      let c = child s in
      let at : store s.heap n c n ≡ c = store-at s.heap n c in
      (
        record {
          machine = copied;
          arrays = s.arrays;
          heap = store s.heap n c;
          current_pid = (s.current_pid + 1) % 2 ^ 32;
          active_process = s.active_process;
        },
        rw (fork_resume, neb s.active_process n ne, clone, copy) refl,
        (
          refl,
          Ring-SameLinks s.heap (store s.heap n c) (s.active_process ∷ (ps ++ (n ∷ [])))
              (store-SameLinks s.heap n c refl refl) linked,
        ),
        record {
          pid_eq = ap (λ p. p.pid) at;
          eip_eq = ap (λ p. p.eip) at;
          esp_eq = ap (λ p. p.esp) at;
          ebp_eq = ap (λ p. p.ebp) at;
        },
        ap (λ p. p.page_directory) at,
        refl,
      )

  fork-Forked :
      (s : State M) (ps : List ℕ)
      → Ring s.heap (s.active_process ∷ ps)
      → os.kalloc_alloc (os.interrupt_disable s.machine) 60 ≡ (n, allocated)
      → Fresh n (s.active_process ∷ ps)
      → n ≢ 0
      → os.paging_clone_page_directory_for_new_process allocated
          (s.heap s.active_process).page_directory
        ≡ ok (directory, cloned)
      → copy_kernel_stack os cloned directory (s.heap s.active_process).page_directory 0 2048
        ≡ ok copied
      → Forked s s.active_process ps (process_fork os s registers)
  unfolding process_fork
  fork-Forked s ps r alloc (na, fresh) nz clone copy =
      let heap = link_before s.heap s.active_process n in
      let d = link_before-page_directory s.heap s.active_process n s.active_process in
      let s' : State M = record s { machine = allocated; heap = heap } in
      let (after, e, q, holds, of_child, made) =
        resume-Forked s' ps (link_before-Ring s.heap s.active_process n ps r (na, fresh) nz)
          (λ q. na (sym q))
          (ap (os.paging_clone_page_directory_for_new_process allocated) d ∙ clone)
          (ap (λ k. copy_kernel_stack os cloned directory k 0 2048) d ∙ copy) in
      (after, rw (process_fork, alloc) e, q, holds, of_child, made)

  -- If the new struct is not at 0 and not at one of the processes, and the clone of the active
  -- process's page directory and the copies of the 2048 pages of its kernel stack return, forking returns the next pid
  -- to the parent and puts the child at the end of the queue, with that pid, the cloned directory
  -- and the registers of the call; and where the child goes on from, it returns 0 and changes
  -- nothing.
  pub process_fork-IsQueue :
      (s : State M) (a : ℕ) (ps : List ℕ) (registers' : Registers) (s' : State M)
      → IsQueue s (a ∷ ps)
      → os.kalloc_alloc (os.interrupt_disable s.machine) 60 ≡ (n, allocated)
      → Fresh n (a ∷ ps)
      → n ≢ 0
      → os.paging_clone_page_directory_for_new_process allocated (s.heap a).page_directory
        ≡ ok (directory, cloned)
      → IsCopied os directory (s.heap a).page_directory 2048 0 cloned copied
      → s'.active_process ≡ n
      → (after : State M) × (process_fork os s registers ≡ ok (after, s.current_pid))
        × IsQueue after (a ∷ (ps ++ (n ∷ [])))
        × Holds (after.heap n) s.current_pid registers
        × ((after.heap n).page_directory ≡ directory)
        × (after.machine ≡ copied)
        × (fork_resume os s' n registers' ≡ ok (s', 0))
  unfolding fork_resume
  process_fork-IsQueue s a ps registers' s' (ea, r) alloc fresh nz clone copy e =
      let (after, forked, q, holds, d, m) =
        subst
          (λ a.
            Ring s.heap (a ∷ ps)
            → Fresh n (a ∷ ps)
            → os.paging_clone_page_directory_for_new_process allocated (s.heap a).page_directory
              ≡ ok (directory, cloned)
            → copy_kernel_stack os cloned directory (s.heap a).page_directory 0 2048 ≡ ok copied
            → Forked s a ps (process_fork os s registers))
          ea (λ r fresh clone copy. fork-Forked s ps r alloc fresh nz clone copy) r fresh clone
          (copy_kernel_stack-IsCopied os directory (s.heap a).page_directory 2048 0 cloned copied
            copy) in
      (after, forked, q, holds, d, m, rw (fork_resume, e, eqb_refl n))
