-- ===== src/Units/Ffi/Struct.antt =====
-- pkg/units/ffi.go: the struct that a call of C answers with, and the messages read from it. Its text is in memory of
-- C, which is freed when it has been read. What reads that memory, base64 and the parsers of protobuf are parameters,
-- and so are the calls of C.
use buzzer.Common.{
  ℕ, List, [], ◌∷◌, ◌++◌, append-nil, Option, none, some, Option-cases, ◌≡◌, refl, sym, inl, inr,
}
use buzzer.Common.Run.{Run, ok, panic, other}
use buzzer.Units.Control.{Result, answered, failed}

-- struct bpf_result, with the address of its text.
pub record BpfResult : Type 0 where
  pub serialized_proto : Option ℕ
  pub size : ℕ

-- The struct after the call, the addresses that were freed, and what the call returns.
abbrev pub Read : Type 0 → Type 0
Read A = BpfResult × List ℕ × Result A

abbrev pub or_failed : {A : Type 0} → Option A → Result A
or_failed none = failed other
or_failed (some a) = answered a

abbrev pub addresses : Option ℕ → List ℕ
addresses none = []
addresses (some address) = address ∷ []

module _ (go_string_n : ℕ → ℕ → List ℕ) (decode_string : List ℕ → Option (List ℕ)) where
  abbrev data_at : BpfResult → Option ℕ → List ℕ → Read (List ℕ)
  data_at s none freed = (s, freed, failed other)
  data_at s (some address) freed = (
    record s { serialized_proto = none },
    freed ++ address ∷ [],
    or_failed (decode_string (go_string_n address s.size)),
  )

  unfoldable pub proto_data_from_struct : BpfResult → List ℕ → Read (List ℕ)
  proto_data_from_struct s freed = data_at s s.serialized_proto freed

  -- The body that the three functions below share.
  abbrev parsed : {M : Type 0} → (List ℕ → Option M) → Read (List ℕ) → Read M
  parsed unmarshal (s, freed, failed e) = (s, freed, failed e)
  parsed unmarshal (s, freed, answered bytes) = (s, freed, or_failed (unmarshal bytes))

  unfoldable pub proto_from_struct :
      {M : Type 0} → (List ℕ → Option M) → BpfResult → List ℕ → Read M
  unfolding proto_data_from_struct
  proto_from_struct unmarshal s freed = parsed unmarshal (proto_data_from_struct s freed)

  module _ {M : Type 0} (unmarshal : List ℕ → Option M) where
    unfoldable pub validation_proto_from_struct : BpfResult → List ℕ → Read M
    unfolding proto_from_struct
    validation_proto_from_struct = proto_from_struct unmarshal

    unfoldable pub execution_proto_from_struct : BpfResult → List ℕ → Read M
    unfolding proto_from_struct
    execution_proto_from_struct = proto_from_struct unmarshal

    unfoldable pub map_elements_proto_from_struct : BpfResult → List ℕ → Read M
    unfolding proto_from_struct
    map_elements_proto_from_struct = proto_from_struct unmarshal

    -- GetMapElements, for the call of C with the descriptor and the size.
    unfoldable pub get_map_elements :
        {K : Type 0} → (ℕ → ℕ → K → K × BpfResult) → ℕ → ℕ → K → List ℕ → K × List ℕ × Result M
    unfolding map_elements_proto_from_struct
    get_map_elements ffi_get_map_elements fd map_size k freed =
        let (k, res) = ffi_get_map_elements fd map_size k in
        let (res, freed, r) = map_elements_proto_from_struct res freed in (k, freed, r)

    -- RunEbpfProgram and RunCbpfProgram are the same but for the request and the call of C. The first byte of the
    -- request is read without a check.
    module _ {K Request : Type 0} (marshal : Request → Option (List ℕ))
        (ffi_execute : List ℕ → K → K × BpfResult) where
      abbrev pub execute_bytes : Option (List ℕ) → K → List ℕ → Run (K × List ℕ × Result M)
      unfolding execution_proto_from_struct
      execute_bytes none k freed = ok (k, freed, failed other)
      execute_bytes (some []) k freed = panic
      execute_bytes (some (byte ∷ bytes)) k freed =
          let (k, res) = ffi_execute (byte ∷ bytes) k in
          let (res, freed, r) = execution_proto_from_struct res freed in ok (k, freed, r)

      unfoldable pub execute_program : Request → K → List ℕ → Run (K × List ℕ × Result M)
      execute_program execution_request = execute_bytes (marshal execution_request)

      unfoldable pub run_ebpf_program : Request → K → List ℕ → Run (K × List ℕ × Result M)
      unfolding execute_program
      run_ebpf_program = execute_program

      unfoldable pub run_cbpf_program : Request → K → List ℕ → Run (K × List ℕ × Result M)
      unfolding execute_program
      run_cbpf_program = execute_program

    -- Whatever the call of C answered, its text is freed once and can be reached no more: reading the struct again is
    -- an error that frees nothing.
    pub proto_from_struct-twice :
        (s : BpfResult) (freed : List ℕ)
        → let (after, freed', r) = proto_from_struct unmarshal s freed in
          (freed' ≡ freed ++ addresses s.serialized_proto)
          × (proto_from_struct unmarshal after freed' ≡ (after, freed', failed other))
    unfolding proto_from_struct proto_data_from_struct
    proto_from_struct-twice s freed = elim (Option-cases s.serialized_proto) [
      | inl e ↦ rw e (sym (append-nil freed), refl)
      | inr (address, e) ↦ rw e (elim (Option-cases (decode_string (go_string_n address s.size))) [
        | inl d ↦ rw d (refl, refl)
        | inr (bytes, d) ↦ rw d (refl, refl)
      ])
    ]
