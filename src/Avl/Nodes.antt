-- ===== src/Avl/Nodes.antt =====
-- The nodes that `kalloc_avl_init` lays into its memory.
use raw_os.Common.{
  ℕ, zero, suc, ◌+◌, ◌*◌, ◌/◌, ◌≤◌, ◌≡◌, refl, true, some, none, get_elem?, Returns, arith, ltb,
  leb, if◌then◌else◌,
}
use raw_os.Avl.{leaf, node_size, nodes_from, kalloc_avl_init}
use raw_os.Avl.Valid.{IsHoles}

nodes_from-get :
    (n addr i : ℕ)
    → get_elem? (nodes_from n addr) i ≡ (if ltb i n then some (addr + i * node_size) else none)
unfolding nodes_from
nodes_from-get zero addr i = ground arith
nodes_from-get (suc n) addr zero = ground arith
nodes_from-get (suc n) addr (suc i) = ground (arith, nodes_from-get n (addr + node_size) i)

-- With memory for a node, the tree starts valid and empty, and the free nodes lie one behind the
-- other: the node `i` at `i` node sizes from the start, as many as fit into the memory.
pub kalloc_avl_init_lem :
    (addr data_size : ℕ)
    → node_size ≤ data_size
    → Returns (kalloc_avl_init addr data_size) (λ avl.
      IsHoles avl
      × (avl.root ≡ leaf)
      × ((i : ℕ)
          → get_elem? avl.free i
            ≡ (if ltb i (data_size / node_size) then some (addr + i * node_size) else none)))
unfolding kalloc_avl_init
kalloc_avl_init_lem addr data_size h =
    rw (enough data_size h)
      (record { balanced = tt; sorted = tt }, refl, nodes_from-get (data_size / node_size) addr)
  where
    enough : (m : ℕ) → node_size ≤ m → leb node_size m ≡ true
    enough m h = ground arith
