-- ===== src/Paging/Entries.antt =====
-- What the sweep of a page table does to its entries and to the frames.
use mathlib.Core.Path.{subst}
use raw_os.Common.{
  ℕ, zero, suc, ◌+◌, ◌*◌, ◌≤◌, ◌<◌, ◌≡◌, ◌≢◌, refl, ◌∙◌, Bool, true, false, not, ◌&&◌, ◌||◌,
  Bool-cases, inl, inr, ltb, leb, ◌==◌, if◌then◌else◌, arith,
}
use raw_os.Bitmap.Laws.{IsValid, bit_of}
use raw_os.Paging.{PageEntry, zero_entry, is_page_part_of_kernel_stack_in_process_address_space}
use raw_os.Paging.Clean.{Sweep}

-- The entry of a page that is removed: it is present, and not of the kernel's stack.
abbrev pub removed : ℕ → (ℕ → PageEntry) → ℕ → Bool
removed first pages k =
    (pages k).present && not (is_page_part_of_kernel_stack_in_process_address_space (first + k))

-- The entry of a page that stays.
abbrev pub stays : ℕ → (ℕ → PageEntry) → ℕ → Bool
stays first pages k =
    (pages k).present && is_page_part_of_kernel_stack_in_process_address_space (first + k)

-- Some of the `n` entries from `j` on is that of a removed page with the frame.
abbrev pub frees : ℕ → (ℕ → PageEntry) → ℕ → ℕ → ℕ → Bool
frees first pages zero j frame = false
frees first pages (suc n) j frame =
    (removed first pages j && ((pages j).frame_address_20_bits == frame))
    || frees first pages n (j + 1) frame

abbrev pub any_stays : ℕ → (ℕ → PageEntry) → ℕ → ℕ → Bool
any_stays first pages zero j = false
any_stays first pages (suc n) j = stays first pages j || any_stays first pages n (j + 1)

-- The present pages among the `n` entries from `j` on have frames of their own, all in use.
pub record Owns (s : Sweep) (n j : ℕ) : Type 0 where
  pub valid : IsValid s.frames
  pub inside :
      (k : ℕ)
      → j ≤ k
      → k < j + n
      → (s.pages k).present ≡ true
      → (s.pages k).frame_address_20_bits < s.frames.size * 8
  pub in_use :
      (k : ℕ)
      → j ≤ k
      → k < j + n
      → (s.pages k).present ≡ true
      → bit_of s.frames (s.pages k).frame_address_20_bits ≡ true
  pub distinct :
      (k l : ℕ)
      → j ≤ k
      → k < l
      → l < j + n
      → (s.pages k).present ≡ true
      → (s.pages l).present ≡ true
      → (s.pages k).frame_address_20_bits ≢ (s.pages l).frame_address_20_bits

-- The removed pages' entries are zero and their frames free; nothing else has changed; and the
-- table is to be destroyed if no page stays.
pub record IsSwept (first : ℕ) (s : Sweep) (n j : ℕ) (s' : Sweep) : Type 0 where
  pub valid : IsValid s'.frames
  pub frames_size : s'.frames.size ≡ s.frames.size
  pub bits :
      (f : ℕ)
      → bit_of s'.frames f ≡ (if frees first s.pages n j f then false else bit_of s.frames f)
  pub pages_eq :
      (k : ℕ)
      → s'.pages k
        ≡ (if leb j k && (ltb k (j + n) && removed first s.pages k) then zero_entry else s.pages k)
  pub destroyed :
      s'.should_table_be_destroyed
      ≡ (s.should_table_be_destroyed && not (any_stays first s.pages n j))

pub freed_one :
    (first : ℕ) (pages : ℕ → PageEntry) (j f : ℕ)
    → frees first pages 1 j f ≡ true
    → ((pages j).present ≡ true) × ((pages j).frame_address_20_bits ≡ f)
freed_one first pages j f e = (ground (arith, e), ground (arith, e))

pub merge_bits :
    (r f b : Bool)
    → (if f then false else (if r || false then false else b)) ≡ (if r || f then false else b)
merge_bits true true b = refl
merge_bits true false b = refl
merge_bits false true b = refl
merge_bits false false b = refl

pub merge_tests : (d st more : Bool) → (d && not (st || false)) && not more ≡ d && not (st || more)
merge_tests d st more = ground arith

-- A table in which only the entry `j` may differ.
pub one_entry :
    (pages pages' : ℕ → PageEntry) (c : ℕ → Bool) (j : ℕ)
    → ((k : ℕ) → k ≢ j → pages' k ≡ pages k)
    → pages' j ≡ (if c j then zero_entry else pages j)
    → (k : ℕ) → pages' k ≡ (if leb j k && (ltb k (j + 1) && c k) then zero_entry else pages k)
one_entry pages pages' c j other at k = elim (Bool-cases (k == j)) [
  | inl same ↦
      subst (λ x. pages' x ≡ (if leb j x && (ltb x (j + 1) && c x) then zero_entry else pages x))
        (j_eq k j same) (at ∙ ground arith)
  | inr differ ↦ other k (ne k j differ) ∙ ground arith
]
  where
    j_eq : (k j : ℕ) → (k == j) ≡ true → j ≡ k
    j_eq k j e = ground arith

    ne : (k j : ℕ) → (k == j) ≡ false → k ≢ j
    ne k j e = ground arith

pub frees-cong :
    (first : ℕ) (pages pages' : ℕ → PageEntry) (n j f : ℕ)
    → ((k : ℕ) → j ≤ k → pages' k ≡ pages k)
    → frees first pages' n j f ≡ frees first pages n j f
frees-cong first pages pages' zero j f same = refl
frees-cong first pages pages' (suc n) j f same =
    rw
      (same j (omega arith), frees-cong first pages pages' n (j + 1) f λ k le. same k (omega arith))

pub any_stays-cong :
    (first : ℕ) (pages pages' : ℕ → PageEntry) (n j : ℕ)
    → ((k : ℕ) → j ≤ k → pages' k ≡ pages k)
    → any_stays first pages' n j ≡ any_stays first pages n j
any_stays-cong first pages pages' zero j same = refl
any_stays-cong first pages pages' (suc n) j same =
    rw (
      same j (omega arith),
      any_stays-cong first pages pages' n (j + 1) λ k le. same k (omega arith),
    )
