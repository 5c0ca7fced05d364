-- ===== src/Rawx/Sections.antt =====
-- What loading a section writes.
use native.Mathlib.Nat.{mod-eq_of_lt}
use raw_os.Common.{
  lt_or_le, inl, inr, ℕ, zero, suc, ◌+◌, ◌-◌, ◌*◌, ◌/◌, ◌%◌, ◌^◌, ◌≤◌, ◌<◌, ◌≡◌, refl, ap, ◌∙◌, min,
  true, ◌&&◌, Outcome, ok, panicked, fault, ◌>>=◌, ltb, leb, if◌then◌else◌, arith,
}
use raw_os.Rawx.{
  RawxSection, Space, copy_bytes, copy_section, load_section, section_address_maximum,
}

-- Each page that is written begins with the first byte of the section's data.
abbrev loaded : (ℕ → ℕ) → ℕ → (ℕ → ℕ) → ℕ → ℕ → ℕ → ℕ
loaded memory start source size i address =
    if leb (start + i) address && ltb address (start + size)
    then source ((address - start) % 4096)
    else memory address

add_zero : (n : ℕ) → n + 0 ≡ n
add_zero n = omega arith

page_offset :
    (start i address k : ℕ)
    → i ≡ k * 4096
    → start + i ≤ address
    → address < start + i + 4096
    → (address - start) % 4096 ≡ address - (start + i)
page_offset start i address k e le lt = omega (arith, e, le, lt)

page_loaded :
    (memory : ℕ → ℕ) (start : ℕ) (source : ℕ → ℕ) (size i address k : ℕ)
    → i ≡ k * 4096
    → loaded
        (copy_bytes memory (start + i) source (min 4096 (size - i)))
        start
        source
        size
        (i + 4096)
        address
      ≡ loaded memory start source size i address
unfolding copy_bytes
page_loaded memory start source size i address k e = elim (lt_or_le address (start + i)) [
  | inl before ↦ ground (arith, before)
  | inr le ↦ elim (lt_or_le address (start + i + 4096)) [
    | inl lt ↦ rw (page_offset start i address k e le lt) (ground (arith, le, lt))
    | inr behind ↦ ground (arith, behind)
  ]
]

loaded-start :
    (memory : ℕ → ℕ) (start : ℕ) (source : ℕ → ℕ) (size address : ℕ)
    → loaded memory start source size 0 address ≡ (
        if leb start address && ltb address (start + size)
        then source ((address - start) % 4096)
        else memory address)
loaded-start memory start source size address =
    ap
      (λ n.
        if leb n address && ltb address (start + size)
        then source ((address - start) % 4096)
        else memory address)
      (add_zero start)

below : (start size : ℕ) → start + size < section_address_maximum → start < 2 ^ 32
below start size lt = omega (arith, lt)

next_page : (start i : ℕ) → (start + i) / 4096 + 1 ≡ (start + (i + 4096)) / 4096
next_page start i = omega arith

in_bounds :
    (start size : ℕ)
    → start + size < section_address_maximum
    → ltb ((start + size) % 2 ^ 32) section_address_maximum ≡ true
in_bounds start size lt = ground (arith, lt)

-- Two calls that return, one after the other.
split :
    {A B : Type 0} (m : Outcome A) (f : A → Outcome B) (b : B)
    → (m >>= f) ≡ ok b
    → (a : A) × (m ≡ ok a) × (f a ≡ ok b)
split (ok a) f b e = (a, refl, e)
split panicked f b e = ground (arith, e)
split fault f b e = ground (arith, e)

module _ {S : Type 0} (create_page : S → ℕ → Outcome S) where
  -- The creation of `n` pages from `page_num` on, one after the other.
  abbrev pub create_all : ℕ → ℕ → S → Outcome S
  create_all zero page_num pages = ok pages
  create_all (suc n) page_num pages =
      create_page pages page_num >>= λ pages. create_all n (page_num + 1) pages

  copy_section-loaded :
      (start : ℕ) (source : ℕ → ℕ) (size left i k : ℕ) (s : Space S) (created : S)
      → i ≡ k * 4096
      → size ≤ i + left * 4096
      → create_all left ((start + i) / 4096) s.pages ≡ ok created
      → (s' : Space S) × (copy_section create_page start source size left i s ≡ ok s')
        × (s'.pages ≡ created)
        × ((address : ℕ) → s'.memory address ≡ loaded s.memory start source size i address)
  unfolding copy_section
  copy_section-loaded start source size zero i k s created e le all =
      (s, refl, ground (arith, all), λ address. ground (arith, le))
  copy_section-loaded start source size (suc left) i k s created e le all =
      let (pages, ep, rest) =
        split (create_page s.pages ((start + i) / 4096))
          (λ pages. create_all left ((start + i) / 4096 + 1) pages) created all in
      let next : Space S = record {
        pages = pages;
        memory = copy_bytes s.memory (start + i) source (min 4096 (size - i));
      } in
      let (s', es, made, holds) =
        copy_section-loaded start source size left (i + 4096) (k + 1) next created
          (omega (arith, e)) (omega (arith, le)) (rw (next_page start i) at rest) in
      (
        s',
        rw (copy_section, ep) es,
        made,
        λ address. holds address ∙ page_loaded s.memory start source size i address k e,
      )

  load_section-eq-copy_section :
      (file : ℕ → ℕ) (load_address : ℕ) (sec : RawxSection) (s : Space S)
      → (load_address + sec.virtual_address) % 4096 ≡ 0
      → load_address + sec.virtual_address + sec.size_bytes < section_address_maximum
      → load_section create_page file load_address sec s
        ≡ copy_section create_page
            (load_address + sec.virtual_address)
            (λ k. file (sec.file_ptr_to_data + k))
            sec.size_bytes
            ((sec.size_bytes + 0xFFF) / 0x1000)
            0
            s
  unfolding load_section
  load_section-eq-copy_section file load_address sec s aligned lt = rw (
    load_section,
    mod-eq_of_lt (below (load_address + sec.virtual_address) sec.size_bytes lt),
    aligned,
    in_bounds (load_address + sec.virtual_address) sec.size_bytes lt,
  )

  -- If the pages of a section can be created one after the other, and its address is a multiple of
  -- 4096 and its end below the maximum, then the section is loaded, with these pages created and no
  -- other, and no byte outside of it changes; but the byte at an offset in it is the one at the
  -- offset's remainder by 4096 in the section's data, so that only the first page gets its own
  -- bytes.
  pub load_section-first_page :
      (file : ℕ → ℕ) (load_address address : ℕ) (sec : RawxSection) (s : Space S) (created : S)
      → (load_address + sec.virtual_address) % 4096 ≡ 0
      → load_address + sec.virtual_address + sec.size_bytes < section_address_maximum
      → create_all
          ((sec.size_bytes + 0xFFF) / 0x1000)
          ((load_address + sec.virtual_address) / 4096)
          s.pages
        ≡ ok created
      → (s' : Space S) × (load_section create_page file load_address sec s ≡ ok s')
        × (s'.pages ≡ created)
        × (s'.memory address ≡ (
            if leb (load_address + sec.virtual_address) address
              && ltb address (load_address + sec.virtual_address + sec.size_bytes)
            then file
                (sec.file_ptr_to_data + (address - (load_address + sec.virtual_address)) % 4096)
            else s.memory address))
  load_section-first_page file load_address address sec s created aligned lt all =
      let start = load_address + sec.virtual_address in
      let (s', e, made, holds) =
        copy_section-loaded start (λ k. file (sec.file_ptr_to_data + k)) sec.size_bytes
          ((sec.size_bytes + 0xFFF) / 0x1000) 0 0 s created refl (omega arith)
          (rw (← add_zero start) at all) in
      (
        s',
        load_section-eq-copy_section file load_address sec s aligned lt ∙ e,
        made,
        holds address
            ∙ loaded-start s.memory start (λ k. file (sec.file_ptr_to_data + k)) sec.size_bytes
                address,
      )
