-- ===== src/Ebpf/Generators/Offsets.antt =====
-- RandomOffset: offsets into the stack frame, aligned for the access.
use buzzer.Common.{
  ℕ, zero, suc, ◌+◌, ◌-◌, ◌*◌, ◌/◌, ◌%◌, ◌^◌, ◌≤◌, ◌<◌, ◌≡◌, ◌⊎◌, inl, inr, arith, List, ◌==◌,
  if◌then◌else◌, length, false,
}
use buzzer.Common.Words.{to_u16}
use buzzer.Ebpf.Generators.{
  rem_16, alignment_for_size, nonzero_offset, align, random_offset, random_size,
}
use buzzer.Rand.Bounds.{rand_int-IsU64}
use buzzer.Rand.Draws.{drew, Yields, sound, unfinished, Yields-give, Yields-bind, Yields-if}

-- One of the sizes of a load or a store.
abbrev pub IsSize : ℕ → Type 0
IsSize s = (s ≡ 0x00) ⊎ (s ≡ 0x08) ⊎ (s ≡ 0x10) ⊎ (s ≡ 0x18)

-- The bytes that an access of a size reads or writes, by the instruction set.
abbrev pub access_bytes : ℕ → ℕ
access_bytes s = if s == 0x00 then 4 else if s == 0x08 then 2 else if s == 0x10 then 1 else 8

-- The bytes below the frame pointer that a negative int16 stands for.
abbrev pub depth : ℕ → ℕ
depth offset = 2 ^ 16 - offset

pub record IsStackOffset (s offset : ℕ) : Type 0 where
  pub size : IsSize s
  pub int16 : offset < 2 ^ 16
  pub below : 1 ≤ depth offset
  pub inside : depth offset ≤ 512
  pub aligned : depth offset % access_bytes s ≡ 0

abbrev IsAlignment : ℕ → Type 0
IsAlignment a = (a ≡ 1) ⊎ (a ≡ 2) ⊎ (a ≡ 4) ⊎ (a ≡ 8)

-- AlignmentForSize is the number of the bytes.
alignment-bytes : (s : ℕ) → IsSize s → alignment_for_size s ≡ access_bytes s
unfolding alignment_for_size
alignment-bytes s h = ground arith

IsAlignment-access_bytes : (s : ℕ) → IsSize s → IsAlignment (access_bytes s)
IsAlignment-access_bytes s h = ground arith

-- The multiple of the alignment that is next above a depth.
abbrev pub rounded : ℕ → ℕ → ℕ
rounded a k = (k + a - 1) / a * a

-- The loop that aligns ends within as many rounds as the alignment has bytes.
align-rounds :
    (fuel s offset a : ℕ) (ds : List ℕ)
    → alignment_for_size s ≡ a
    → (a ≡ 1) ⊎ (a ≡ 2) ⊎ (a ≡ 4) ⊎ (a ≡ 8)
    → offset < 2 ^ 16
    → 1 ≤ depth offset
    → depth offset ≤ 512
    → rounded a (depth offset) < depth offset + fuel
    → align fuel s offset ds ≡ drew (2 ^ 16 - rounded a (depth offset)) ds
unfolding align
align-rounds zero s offset a ds e c p q r f = absurd (omega arith)
align-rounds (suc fuel) s offset a ds e c p q r f =
    ground (arith, align-rounds fuel s (to_u16 (offset + 2 ^ 16 - 1)) a ds)

-- A random int16 reduced modulo 512, and not zero.
record IsReduced (offset : ℕ) : Type 0 where
  int16 : offset < 2 ^ 16
  nonzero : 1 ≤ offset
  small : (offset < 512) ⊎ (2 ^ 16 - 512 < offset)

reduce : (v : ℕ) → (rem_16 (to_u16 v) 512 == 0) ≡ false → IsReduced (rem_16 (to_u16 v) 512)
reduce v e = ground arith

nonzero_offset-IsReduced : (fuel : ℕ) → Yields IsReduced (nonzero_offset fuel)
unfolding nonzero_offset
nonzero_offset-IsReduced zero = λ ds. unfinished
nonzero_offset-IsReduced (suc fuel) = Yields-bind rand_int-IsU64 λ v h.
    Yields-if (rem_16 (to_u16 v) 512 == 0) (λ e. nonzero_offset-IsReduced fuel)
      λ e. Yields-give (reduce v e)

record IsMultipleAbove (a k : ℕ) : Type 0 where
  up : k ≤ rounded a k
  near : rounded a k < k + 8
  inside : rounded a k ≤ 512
  aligned : rounded a k % a ≡ 0

rounded-IsMultipleAbove : (a k : ℕ) → IsAlignment a → k ≤ 512 → IsMultipleAbove a k
rounded-IsMultipleAbove a k (inl e) h = rw e (omega arith)
rounded-IsMultipleAbove a k (inr (inl e)) h = rw e (omega arith)
rounded-IsMultipleAbove a k (inr (inr (inl e))) h = rw e (omega arith)
rounded-IsMultipleAbove a k (inr (inr (inr e))) h = rw e (omega arith)

-- Where the offset is 1 to 512 bytes below the frame pointer, the loop of RandomOffset that aligns it ends
-- within 8 rounds, and goes down to the next offset whose distance from the frame pointer is a multiple
-- of the access's bytes: 4 for a word, 2 for a halfword, 1 for a byte and 8 for a double word.
pub align-rounded :
    (s offset : ℕ) (ds : List ℕ)
    → IsSize s
    → offset < 2 ^ 16
    → 1 ≤ depth offset
    → depth offset ≤ 512
    → align 8 s offset ds ≡ drew (2 ^ 16 - rounded (access_bytes s) (depth offset)) ds
align-rounded s offset ds h p q r =
    let c = IsAlignment-access_bytes s h in
    let near = rounded-IsMultipleAbove (access_bytes s) (depth offset) c r in
    align-rounds 8 s offset (access_bytes s) ds (alignment-bytes s h) c p q r near.near

align-IsStackOffset :
    (s offset : ℕ)
    → IsSize s
    → offset < 2 ^ 16
    → 1 ≤ depth offset
    → depth offset ≤ 512
    → Yields (IsStackOffset s) (align 8 s offset)
align-IsStackOffset s offset h p q r ds =
    let c = IsAlignment-access_bytes s h in
    let near = rounded-IsMultipleAbove (access_bytes s) (depth offset) c r in
    let back : depth (2 ^ 16 - rounded (access_bytes s) (depth offset))
        ≡ rounded (access_bytes s) (depth offset) =
      omega arith in
    rw (align-rounded s offset ds h p q r) (
      sound (record {
        size = h;
        int16 = omega arith;
        below = omega arith;
        inside = omega arith;
        aligned = rw back near.aligned;
      }))

-- On a size of the instruction set, every offset that RandomOffset returns is 1 to 512 bytes below the
-- frame pointer and a multiple of the access's bytes; it never panics.
pub random_offset-IsStackOffset : (s : ℕ) → IsSize s → Yields (IsStackOffset s) (random_offset s)
unfolding random_offset
random_offset-IsStackOffset s h =
    Yields-bind (λ ds. nonzero_offset-IsReduced (suc (length ds)) ds)
      λ offset r. align-IsStackOffset s _ h (ground arith) (ground arith) (ground arith)

pub random_size-IsSize : Yields IsSize random_size
unfolding random_size
random_size-IsSize = Yields-bind rand_int-IsU64 λ v h. Yields-give (omega arith)
