-- ===== src/Process/Descriptors/Laws.antt =====
-- The file descriptors of the active process: what adding one promises.
use mathlib.Core.Path.{subst}
use raw_os.Common.{
  ℕ, ◌+◌, ◌*◌, ◌%◌, ◌^◌, ◌<◌, ◌≡◌, refl, sym, ap, ◌∙◌, Option, none, some, ◌==◌, if◌then◌else◌,
  arith, Bool, true, false, Bool-cases, inl, inr,
}
use raw_os.HashMap.{Slots, HashMap, write, hash_map_get}
use raw_os.HashMap.Probe.{IsLawful}
use raw_os.HashMap.Grow.{IsValid}
use raw_os.HashMap.Laws.{hash_map_put-get}
use raw_os.Process.{Machine, FdMap, State, store}
use raw_os.Process.Queue.{eqb_refl, store-at}
use raw_os.Process.Descriptors.{
  file_descriptor_key, load, store_map, process_add_fd_to_active_process,
  process_get_node_of_fd_of_active_process,
}

pub file_descriptor_key-IsLawful : IsLawful file_descriptor_key
unfolding file_descriptor_key
file_descriptor_key-IsLawful = record {
  compare_eq = λ a b e. ground (arith, e);
  compare_refl = λ a. ground arith;
}

module _ {M : Type 0} where
  -- The hash map of the active process.
  abbrev pub descriptors : State M → HashMap ℕ ℕ
  descriptors s = load s.arrays (s.heap s.active_process).file_descriptors

map_eq :
    (hm : HashMap ℕ ℕ) (c : ℕ) (sl : Slots ℕ ℕ)
    → c ≡ hm.capacity
    → sl ≡ hm.slots
    → record { capacity = c; num_elements = hm.num_elements; slots = sl } ≡ hm
map_eq hm c sl p q =
    ap (λ x. record { capacity = x; num_elements = hm.num_elements; slots = sl }) p
    ∙ ap (λ x. record { capacity = hm.capacity; num_elements = hm.num_elements; slots = x }) q

array_at : (arrays : ℕ → Slots ℕ ℕ) (i : ℕ) (slots : Slots ℕ ℕ) → write arrays i slots i ≡ slots
array_at arrays i slots = rw (eqb_refl i)

-- What the lookup makes of the result of `hash_map_get`.
abbrev node_of : Option (Option ℕ) → Option ℕ
node_of none = none
node_of (some none) = some 0
node_of (some (some node)) = some node

get_node-node_of :
    {M : Type 0} (s : State M) (q : ℕ)
    → process_get_node_of_fd_of_active_process s q
      ≡ node_of (hash_map_get file_descriptor_key (descriptors s) q)
unfolding process_get_node_of_fd_of_active_process
get_node-node_of s q =
    elim (hash_map_get file_descriptor_key (descriptors s) q)
      as (λ r.
        (elim r [ none ↦ none | some none ↦ some 0 | some (some node) ↦ some node ]) ≡ node_of r) [
          | none ↦ refl
          | some none ↦ refl
          | some (some node) ↦ refl
        ]

compare_fd : (q fd : ℕ) → file_descriptor_key.key_compare q fd ≡ (q == fd)
unfolding file_descriptor_key
compare_fd q fd = refl

node_of-if :
    (b : Bool) (node : ℕ) (r : Option (Option ℕ))
    → node_of (if b then some (some node) else r) ≡ (if b then some node else node_of r)
node_of-if true node r = refl
node_of-if false node r = refl

small_mod : (n : ℕ) → n < 2 ^ 31 → n % 2 ^ 32 ≡ n
small_mod n lt = omega (arith, lt)

module _ {M : Type 0} (os : Machine M) where
  store_map-load :
      (s : State M) (d : FdMap) (hm : HashMap ℕ ℕ)
      → load ((store_map os s d hm).1.arrays) ((store_map os s d hm).0) ≡ hm
  unfolding store_map
  store_map-load s d hm = elim (Bool-cases (hm.capacity == d.capacity)) [
    | inl same ↦
        rw (store_map, same)
          (map_eq hm d.capacity _ (ground (arith, same))
            (array_at s.arrays d.data_address hm.slots))
    | inr grown ↦
        rw (store_map, grown)
          (map_eq hm hm.capacity _ refl (
            array_at s.arrays ((os.kalloc_alloc s.machine (hm.capacity * 12 % 2 ^ 32)).0) hm.slots))
  ]

  store_map-active :
      (s : State M) (d : FdMap) (hm : HashMap ℕ ℕ)
      → (store_map os s d hm).1.active_process ≡ s.active_process
  unfolding store_map
  store_map-active s d hm = elim (Bool-cases (hm.capacity == d.capacity)) [
    | inl same ↦ rw (store_map, same)
    | inr grown ↦ rw (store_map, grown)
  ]

  abbrev stored : State M → HashMap ℕ ℕ → FdMap × State M
  stored s hm = store_map os s (s.heap s.active_process).file_descriptors hm

  abbrev added : State M → HashMap ℕ ℕ → State M
  added s hm = record ((stored s hm).1) {
    heap = store s.heap s.active_process (record (s.heap s.active_process) {
      file_descriptors = (stored s hm).0;
      fd_next = ((s.heap s.active_process).fd_next + 1) % 2 ^ 32;
    });
  }

  added-process :
      (s : State M) (hm : HashMap ℕ ℕ)
      → (added s hm).heap (added s hm).active_process ≡ record (s.heap s.active_process) {
        file_descriptors = (stored s hm).0;
        fd_next = ((s.heap s.active_process).fd_next + 1) % 2 ^ 32;
      }
  added-process s hm =
      ap (added s hm).heap (store_map-active s (s.heap s.active_process).file_descriptors hm)
      ∙ store-at s.heap s.active_process (record (s.heap s.active_process) {
        file_descriptors = (stored s hm).0;
        fd_next = ((s.heap s.active_process).fd_next + 1) % 2 ^ 32;
      })

  added-descriptors : (s : State M) (hm : HashMap ℕ ℕ) → descriptors (added s hm) ≡ hm
  added-descriptors s hm =
      ap (λ p. load ((stored s hm).1.arrays) p.file_descriptors) (added-process s hm)
      ∙ store_map-load s (s.heap s.active_process).file_descriptors hm

  -- If the file descriptors of the active process are a valid map of less than 2 ^ 31 slots, and
  -- the next descriptor and the one after it are not negative as 32-bit numbers, adding a node ends and returns the next descriptor; getting the node of this descriptor
  -- then gives the node, getting that of another gives what it gave before, the map is valid
  -- again and the next descriptor is larger by one.
  pub process_add_fd-get :
      (s : State M) (node q : ℕ)
      → IsValid file_descriptor_key (descriptors s)
      → (descriptors s).capacity * 2 < 2 ^ 32
      → (s.heap s.active_process).fd_next + 1 < 2 ^ 31
      → (s' : State M) × (process_add_fd_to_active_process os s node
          ≡ some (s', (s.heap s.active_process).fd_next))
        × IsValid file_descriptor_key (descriptors s')
        × ((s'.heap s'.active_process).fd_next ≡ (s.heap s.active_process).fd_next + 1)
        × (process_get_node_of_fd_of_active_process s' q ≡ (
            if q == (s.heap s.active_process).fd_next
            then some node
            else process_get_node_of_fd_of_active_process s q))
  unfolding process_add_fd_to_active_process
  process_add_fd-get s node q valid small few =
      let fd = (s.heap s.active_process).fd_next in
      let (hm, e, valid', got) =
        hash_map_put-get file_descriptor_key file_descriptor_key-IsLawful 0 (descriptors s) fd q
          node valid small in
      let same = added-descriptors s hm in
      (
        added s hm,
        rw (process_add_fd_to_active_process, e),
        subst (IsValid file_descriptor_key) (sym same) valid',
        ap (λ p. p.fd_next) (added-process s hm)
            ∙ small_mod ((s.heap s.active_process).fd_next + 1) few,
        get_node-node_of (added s hm) q
            ∙ (ap (λ m. node_of (hash_map_get file_descriptor_key m q)) same
                ∙ (ap node_of got
                    ∙ (node_of-if (file_descriptor_key.key_compare q fd) node _
                        ∙ (ap
                              (λ b.
                                if b
                                then some node
                                else node_of (hash_map_get file_descriptor_key (descriptors s) q))
                              (compare_fd q fd)
                            ∙ ap (λ r. if q == fd then some node else r)
                                (sym (get_node-node_of s q)))))),
      )
