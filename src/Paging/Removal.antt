-- ===== src/Paging/Removal.antt =====
-- What the removal of a process's pages does to its tables and to the frames.
use raw_os.Common.{
  ℕ, suc, ◌+◌, ◌*◌, ◌≤◌, ◌<◌, ◌≡◌, ◌≢◌, ap, ◌∙◌, ◌⊎◌, Bool, true, false, not, ◌&&◌, ◌==◌, leb,
  arith,
}
use raw_os.Bitmap.Laws.{IsValid, bit_of}
use raw_os.Paging.{Paging, table_of}

-- The page `x` of the table `k` is one of the 2049 pages up to 0xF0000, the one at the address
-- 0xF0000000 included.
abbrev pub on_stack : ℕ → ℕ → Bool
on_stack k x = leb 0xEF800 (k * 1024 + x) && leb (k * 1024 + x) 0xF0000

module _ {M : Type 0} where
  -- The page `x` of the table `k` is present.
  abbrev pub shows : Paging M → ℕ → ℕ → ℕ → Bool
  shows s d k x = not (table_of s d k == 0) && (s.page_tables (table_of s d k) x).present

  abbrev pub frame_of : Paging M → ℕ → ℕ → ℕ → ℕ
  frame_of s d k x = (s.page_tables (table_of s d k) x).frame_address_20_bits

  abbrev pub goes : Paging M → ℕ → ℕ → ℕ → Bool
  goes s d k x = shows s d k x && not (on_stack k x)

  -- The `n` tables from `i` on are separate, and their pages have frames of their own, in use.
  pub record OwnsPages (s : Paging M) (d n i : ℕ) : Type 0 where
    pub valid : IsValid s.available_frames
    pub separate :
        (k l : ℕ) → i ≤ k → k < l → l < i + n → table_of s d k ≢ 0 → table_of s d k ≢ table_of s d l
    pub inside :
        (k x : ℕ)
        → i ≤ k
        → k < i + n
        → x < 1024
        → shows s d k x ≡ true
        → frame_of s d k x < s.available_frames.size * 8
    pub in_use :
        (k x : ℕ)
        → i ≤ k
        → k < i + n
        → x < 1024
        → shows s d k x ≡ true
        → bit_of s.available_frames (frame_of s d k x) ≡ true
    pub distinct :
        (k x l y : ℕ)
        → i ≤ k
        → k < i + n
        → x < 1024
        → i ≤ l
        → l < i + n
        → y < 1024
        → shows s d k x ≡ true
        → shows s d l y ≡ true
        → frame_of s d k x ≡ frame_of s d l y
        → (k ≡ l) × (x ≡ y)

  -- One table has been swept.
  pub record TableCleaned (s : Paging M) (d i : ℕ) (s' : Paging M) : Type 0 where
    pub valid : IsValid s'.available_frames
    pub frames_size : s'.available_frames.size ≡ s.available_frames.size
    pub gone : (x : ℕ) → x < 1024 → shows s' d i x ≡ (shows s d i x && on_stack i x)
    pub freed :
        (x : ℕ)
        → x < 1024
        → goes s d i x ≡ true
        → bit_of s'.available_frames (frame_of s d i x) ≡ false
    pub kept :
        (f : ℕ)
        → ((x : ℕ) → x < 1024 → goes s d i x ≡ true → frame_of s d i x ≢ f)
        → bit_of s'.available_frames f ≡ bit_of s.available_frames f
    pub tables : (k : ℕ) → k ≢ i → table_of s' d k ≡ table_of s d k
    pub here : (table_of s' d i ≡ 0) ⊎ (table_of s' d i ≡ table_of s d i)
    pub pages :
        (t x : ℕ)
        → (table_of s d i ≢ 0 → table_of s d i ≢ t)
        → s'.page_tables t x ≡ s.page_tables t x

  -- Of the `n` tables from `i` on, only the pages of the kernel's stack are left; the frames of
  -- the other pages are free, and no other frame, table or page has changed.
  pub record IsCleaned (s : Paging M) (d n i : ℕ) (s' : Paging M) : Type 0 where
    pub valid : IsValid s'.available_frames
    pub frames_size : s'.available_frames.size ≡ s.available_frames.size
    pub gone :
        (k x : ℕ) → i ≤ k → k < i + n → x < 1024 → shows s' d k x ≡ (shows s d k x && on_stack k x)
    pub freed :
        (k x : ℕ)
        → i ≤ k
        → k < i + n
        → x < 1024
        → goes s d k x ≡ true
        → bit_of s'.available_frames (frame_of s d k x) ≡ false
    pub kept :
        (f : ℕ)
        → ((k x : ℕ) → i ≤ k → k < i + n → x < 1024 → goes s d k x ≡ true → frame_of s d k x ≢ f)
        → bit_of s'.available_frames f ≡ bit_of s.available_frames f
    pub tables : (k : ℕ) → k < i → table_of s' d k ≡ table_of s d k
    pub pages :
        (t x : ℕ)
        → ((k : ℕ) → i ≤ k → k < i + n → table_of s d k ≢ 0 → table_of s d k ≢ t)
        → s'.page_tables t x ≡ s.page_tables t x

  -- A table behind the swept one.
  pub keeps :
      (s s1 : Paging M) (d i n k x : ℕ)
      → OwnsPages s d (suc n) i
      → TableCleaned s d i s1
      → i + 1 ≤ k
      → k < i + suc n
      → (table_of s1 d k ≡ table_of s d k)
        × (s1.page_tables (table_of s1 d k) x ≡ s.page_tables (table_of s d k) x)
  keeps s s1 d i n k x owns a le lt =
      let e = a.tables k (omega arith) in
      (
        e,
        ap (λ t. s1.page_tables t x) e
            ∙ a.pages (table_of s d k) x
                λ some_table. owns.separate i k (omega arith) (omega arith) lt some_table,
      )

  pub keeps-shows :
      (s s1 : Paging M) (d k x : ℕ)
      → (table_of s1 d k ≡ table_of s d k)
        × (s1.page_tables (table_of s1 d k) x ≡ s.page_tables (table_of s d k) x)
      → shows s1 d k x ≡ shows s d k x
  keeps-shows s s1 d k x (e, f) =
      ap (λ t. not (t == 0) && (s1.page_tables (table_of s1 d k) x).present) e
      ∙ ap (λ p. not (table_of s d k == 0) && p.present) f

  pub shows_if_it_goes : (s : Paging M) (d k x : ℕ) → goes s d k x ≡ true → shows s d k x ≡ true
  shows_if_it_goes s d k x e = ground (arith, e)

  pub keeps-goes :
      (s s1 : Paging M) (d k x : ℕ)
      → (table_of s1 d k ≡ table_of s d k)
        × (s1.page_tables (table_of s1 d k) x ≡ s.page_tables (table_of s d k) x)
      → goes s1 d k x ≡ goes s d k x
  keeps-goes s s1 d k x same = ap (λ b. b && not (on_stack k x)) (keeps-shows s s1 d k x same)
