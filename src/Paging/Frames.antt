-- ===== src/Paging/Frames.antt =====
-- The bitset of frames of BIOS/kernel/paging/paging.c, and the allocation of a frame for a page.
-- `frames` is an array of 32-bit words. Offsets in a word are below 32, so `0x1 << off` fits it.
pub mod Used
pub mod First
pub mod Pages
pub mod Owners
pub mod Sets
mod Tests
use mal_os.Prelude.{
  ℕ, zero, suc, ◌+◌, ◌*◌, ◌/◌, ◌%◌, ◌^◌, bit_and, bit_or, Option, none, some, ◌==◌, if◌then◌else◌,
  u32, not32, truth, ◌<<◌,
}

abbrev pub FrameWords : Type 0
FrameWords = ℕ → ℕ

abbrev pub index_from_bit : ℕ → ℕ
index_from_bit a = a / (8 * 4)

abbrev pub offset_from_bit : ℕ → ℕ
offset_from_bit a = a % (8 * 4)

abbrev pub put_word : FrameWords → ℕ → ℕ → FrameWords
put_word frames i w n = if n == i then w else frames n

unfoldable pub set_frame : ℕ → FrameWords → FrameWords
set_frame frame_addr frames =
    let frame = frame_addr / 0x1000 in
    let idx = index_from_bit frame in
    let off = offset_from_bit frame in put_word frames idx (bit_or (frames idx) (1 << off))

unfoldable pub clear_frame : ℕ → FrameWords → FrameWords
clear_frame frame_addr frames =
    let frame = frame_addr / 0x1000 in
    let idx = index_from_bit frame in
    let off = offset_from_bit frame in put_word frames idx (bit_and (frames idx) (not32 (1 << off)))

unfoldable pub test_frame : ℕ → FrameWords → ℕ
test_frame frame_addr frames =
    let frame = frame_addr / 0x1000 in
    let idx = index_from_bit frame in
    let off = offset_from_bit frame in bit_and (frames idx) (1 << off)

-- The inner loop of `first_frame`, with the rounds that are left.
pub scan_word : ℕ → ℕ → ℕ → Option ℕ
scan_word zero j word = none
scan_word (suc left) j word =
    let rest = scan_word left (j + 1) word in if truth (bit_and word (1 << j)) then rest else some j

-- The outer loop.
pub scan_frames : ℕ → ℕ → FrameWords → Option ℕ
scan_frames zero i frames = none
scan_frames (suc left) i frames =
    let rest = scan_frames left (i + 1) frames in
    if frames i == 0xFFFFFFFF
    then rest
    else elim (scan_word 32 0 (frames i)) [ none ↦ rest | some j ↦ some (u32 (i * 4 * 8 + j)) ]

-- `(uint32_t) NULL` where no frame is free.
unfoldable pub first_frame : ℕ → FrameWords → ℕ
first_frame nframes frames = elim (scan_frames (index_from_bit nframes) 0 frames) [
  | none ↦ 0
  | some n ↦ n
]

-- `page_t`, a word of bit fields.
pub record Page : Type 0 where
  pub present : ℕ
  pub rw_bit : ℕ
  pub user : ℕ
  pub accessed : ℕ
  pub dirty : ℕ
  pub unused : ℕ
  pub frame : ℕ

-- The test for `(uint32_t) -1` has an empty body.
unfoldable pub alloc_frame : ℕ → Page → ℕ → ℕ → FrameWords → Page × FrameWords
alloc_frame nframes page is_kernel is_writeable frames =
    if truth page.frame
    then (page, frames)
    else let idx = first_frame nframes frames in
      (
        record page {
          present = 1;
          rw_bit = if truth is_writeable then 1 else 0;
          user = if truth is_kernel then 0 else 1;
          frame = idx % 2 ^ 20;
        },
        set_frame (u32 (idx * 0x1000)) frames,
      )

unfoldable pub free_frame : Page → FrameWords → Page × FrameWords
free_frame page frames =
    if truth page.frame
    then (record page { frame = 0 }, clear_frame page.frame frames)
    else (page, frames)
