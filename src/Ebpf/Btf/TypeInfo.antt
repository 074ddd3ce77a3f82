-- ===== src/Ebpf/Btf/TypeInfo.antt =====
-- The info word of a type, as the kernel reads it.
use buzzer.Common.{
  ℕ, ◌+◌, ◌*◌, ◌/◌, ◌%◌, ◌^◌, ◌<◌, ◌≡◌, arith, false, if◌then◌else◌, ◌==◌, Bool-cases, inl, inr,
}
use buzzer.Common.Bits.{zero-bit_or, bit_or_above}
use buzzer.Common.Words.{to_u32}
use buzzer.Ebpf.Btf.{Info, encode_type_info}

-- Bits 0 to 15 are vlen, bits 24 to 28 the kind, and bit 31 is the kind flag.
unfoldable pub read_info : ℕ → Info
read_info w = record { vlen = w % 2 ^ 16; kind = w / 2 ^ 24 % 32; kind_flag = w / 2 ^ 31 % 2 == 1 }

pub record IsInfo (i : Info) : Type 0 where
  pub vlen : i.vlen < 2 ^ 16
  pub kind : i.kind < 16

pub encode_type_info-sum :
    (i : Info)
    → IsInfo i
    → encode_type_info i ≡ i.vlen + i.kind * 2 ^ 24 + (if i.kind_flag then 2 ^ 28 else 0)
unfolding encode_type_info
encode_type_info-sum i h =
    let low = h.vlen in
    let small = h.kind in
    let fits : to_u32 (i.kind * 2 ^ 24) ≡ i.kind * 2 ^ 24 = omega arith in
    let below : i.vlen + i.kind * 2 ^ 24 < 2 ^ 28 = omega arith in
    rw (zero-bit_or i.vlen, fits, bit_or_above 24 i.vlen i.kind (omega arith))
      (elim (Bool-cases i.kind_flag) [
        | inl e ↦ rw e (bit_or_above 28 (i.vlen + i.kind * 2 ^ 24) 1 below)
        | inr e ↦ rw e (bit_or_above 28 (i.vlen + i.kind * 2 ^ 24) 0 below)
      ])

-- What the kernel reads of an info word with a kind below 16: without the kind flag it is the type info that
-- was encoded. The kind flag goes into the fifth bit of the kind: it is lost, and the kind is 16 more.
pub read_info-encode_type_info :
    (i : Info)
    → IsInfo i
    → read_info (encode_type_info i)
      ≡ (if i.kind_flag then record i { kind = i.kind + 16; kind_flag = false } else i)
unfolding read_info
read_info-encode_type_info i h =
    let low = h.vlen in
    let small = h.kind in
    let sum = encode_type_info-sum i h in
    elim (Bool-cases i.kind_flag) [
      | inl e ↦ ground (arith, sum, e)
      | inr e ↦ ground (arith, sum, e)
    ]
