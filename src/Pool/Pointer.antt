-- ===== src/Pool/Pointer.antt =====
-- src/lib.rs and src/wait_queue.rs: the values of a `WaitQueue`'s pointer, as addresses.
use xutex.Prelude.{
  ℕ, ◌+◌, ◌-◌, ◌%◌, ◌^◌, ◌<◌, ◌≡◌, Bool, true, false, ◌==◌, ◌||◌, if◌then◌else◌, arith,
}
use xutex.WaitQueue.Lock.{Tag, null, published, held}

-- `LOCKED.wrapping_sub(1)`, on 64 bits.
abbrev pub updating_ptr : ℕ
updating_ptr = 2 ^ 64 - 2

abbrev pub is_tagged : ℕ → Bool
is_tagged p = p % 2 == 1

-- `addr | 1`
abbrev pub tag_pointer : ℕ → ℕ
tag_pointer p = if is_tagged p then p else p + 1

-- `addr & !1`, and whether the bit was set.
abbrev pub untag_pointer : ℕ → ℕ × Bool
untag_pointer p = (p - p % 2, is_tagged p)

-- What a pointer says of its lock.
abbrev pub pointer_tag : ℕ → Tag
pointer_tag p =
    if p == 0 then null else if p == updating_ptr || is_tagged p then held else published

-- The addresses that the allocator can return for a queue: aligned, not null, and not at the end of
-- memory.
abbrev pub IsAddress : ℕ → Type 0
IsAddress p = (p % 2 ≡ 0) × (0 < p) × (p < updating_ptr)

-- Tagging an address hides it, and untagging finds it again.
pub untag_pointer-tag_pointer :
    (p : ℕ)
    → IsAddress p
    → (untag_pointer (tag_pointer p) ≡ (p, true))
      × (untag_pointer p ≡ (p, false))
      × (pointer_tag (tag_pointer p) ≡ held)
      × (pointer_tag p ≡ published)
untag_pointer-tag_pointer p h = ground arith
