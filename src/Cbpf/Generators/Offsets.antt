-- ===== src/Cbpf/Generators/Offsets.antt =====
-- RandomOffset and AlignmentForSize of pkg/cbpf/instruction_generators.go, which no generator calls yet, and the
-- offsets that they yield.
use mathlib.Core.Path.{fun_ext}
use buzzer.Common.{
  ℕ, zero, suc, ◌+◌, ◌-◌, ◌^◌, ◌≡◌, ◌⊎◌, refl, ap, ◌∙◌, arith, List, ltb, ◌==◌, if◌then◌else◌,
  length,
}
use buzzer.Common.Words.{to_u16}
use buzzer.Cbpf.StLdSize
use buzzer.Ebpf.Generators.{
  rem_16, alignment_for_size as ebpf_alignment_for_size, nonzero_offset as ebpf_nonzero_offset,
  align as ebpf_align, random_offset as ebpf_random_offset,
}
use buzzer.Ebpf.Generators.Offsets.{IsStackOffset, random_offset-IsStackOffset}
use buzzer.Rand.{rand_int}
use buzzer.Rand.Draws.{Gen, starved, fail, give, ◌>>=◌, Yields}

unfoldable pub alignment_for_size : ℕ → ℕ
alignment_for_size s =
    if s == StLdSize.b then 1 else if s == StLdSize.h then 2 else if s == StLdSize.w then 4 else 0

-- The loop that draws again for 0; each round takes a raw number.
unfoldable pub nonzero_offset : ℕ → Gen ℕ
nonzero_offset zero ds = starved
nonzero_offset (suc fuel) ds =
    (rand_int >>= λ v.
    let offset = rem_16 (to_u16 v) 512 in
    let again = nonzero_offset fuel in if offset == 0 then again else give offset)
      ds

-- The loop that goes down to a multiple of the alignment.
unfoldable pub align : ℕ → ℕ → ℕ → Gen ℕ
align zero s offset = λ ds. starved
align (suc fuel) s offset =
    let lower = align fuel s (to_u16 (offset + 2 ^ 16 - 1)) in
    if alignment_for_size s == 0
    then fail
    else if rem_16 offset (alignment_for_size s) == 0
    then give offset
    else lower

unfoldable pub random_offset : ℕ → Gen ℕ
random_offset s = do
  offset ← (λ ds. nonzero_offset (suc (length ds)) ds)
  let negative = if ltb offset (2 ^ 15) then to_u16 (2 ^ 16 - offset) else offset
  align 8 s negative

-- One of the three sizes of classic BPF.
abbrev pub IsSize : ℕ → Type 0
IsSize s = (s ≡ StLdSize.w) ⊎ (s ≡ StLdSize.h) ⊎ (s ≡ StLdSize.b)

alignment-same : (s : ℕ) → IsSize s → alignment_for_size s ≡ ebpf_alignment_for_size s
unfolding alignment_for_size ebpf_alignment_for_size
alignment-same s h = ground arith

nonzero_offset-same :
    (fuel : ℕ) (ds : List ℕ) → nonzero_offset fuel ds ≡ ebpf_nonzero_offset fuel ds
unfolding nonzero_offset ebpf_nonzero_offset
nonzero_offset-same zero ds = refl
nonzero_offset-same (suc fuel) ds =
    ap
      (λ again.
        (rand_int >>= λ v.
        let offset = rem_16 (to_u16 v) 512 in if offset == 0 then again else give offset)
          ds)
      (fun_ext (nonzero_offset-same fuel))

align-same : (fuel s offset : ℕ) → IsSize s → align fuel s offset ≡ ebpf_align fuel s offset
unfolding align ebpf_align
align-same zero s offset h = refl
align-same (suc fuel) s offset h =
    rw (alignment-same s h, align-same fuel s (to_u16 (offset + 2 ^ 16 - 1)) h) refl

random_offset-same : (s : ℕ) → IsSize s → random_offset s ≡ ebpf_random_offset s
unfolding random_offset ebpf_random_offset
random_offset-same s h =
    ap
      (λ draw. draw >>= λ offset.
        align 8 s (if ltb offset (2 ^ 15) then to_u16 (2 ^ 16 - offset) else offset))
      (fun_ext (λ ds. nonzero_offset-same (suc (length ds)) ds))
    ∙ ap (λ next. (λ ds. ebpf_nonzero_offset (suc (length ds)) ds) >>= next)
        (fun_ext (λ offset.
          align-same 8 s (if ltb offset (2 ^ 15) then to_u16 (2 ^ 16 - offset) else offset) h))

-- On a size of classic BPF, every offset that its RandomOffset returns is 1 to 512 bytes below the frame pointer and a
-- multiple of the access's size; it never panics.
pub random_offset-IsBelow : (s : ℕ) → IsSize s → Yields (IsStackOffset s) (random_offset s)
random_offset-IsBelow s h =
    rw (random_offset-same s h) (random_offset-IsStackOffset s (ground arith))
