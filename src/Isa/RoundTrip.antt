-- ===== src/Isa/RoundTrip.antt =====
-- Every instruction that the decoder of `SIM::ID` (simulation.cpp) finds, encoded and decoded back.
use riscv_64i_simulator.Common.{
  ℕ, ◌≤◌, ◌+◌, ◌*◌, ◌/◌, ◌%◌, ◌^◌, ◌<◌, ◌≡◌, refl, arith, ok, bit_and, ap, ◌∙◌,
}
use riscv_64i_simulator.Common.Bits.{bit_and-mask}
use riscv_64i_simulator.Isa.Fields.{opcode, funct3, funct7, rd, imm_u, imm_uj}
use riscv_64i_simulator.Isa.Immediates.{sign_extended, fields_uj, imm_uj_lem}
use riscv_64i_simulator.Isa.Decode.{
  decode_imm, decode_load, decode_jal, decode_jalr, decode_upper, decode_system, type_imm32,
  decode_imm32, decode_32, decode,
}
use riscv_64i_simulator.Isa.Encode.{decode-r_word, field_lems}
use riscv_64i_simulator.Isa.Encode.Branch.{decode-b_word}
use riscv_64i_simulator.Isa.Encode.Store.{decode-store_word}
use riscv_64i_simulator.Isa.Formats.{
  i_fields, imm_u_lem, IOp, i_funct3, i_codes, ShiftOp, shift_word_inst, shift_funct3, shift_top,
  shift_codes, left, right, right_signed, LOp, l_funct3, l_codes, WOp, w_funct3, w_funct7, w_codes,
}
use riscv_64i_simulator.Isa.Instr.{
  Instr, register, register_word, number, number_word, shift, shift_word, load, store, branch, jump,
  jump_to, upper, upper_pc, call, IsEncodable, j_word, encode, extended, with_number, decoded, seen,
}

-- The words of the formats U and J.
j_fields :
    (d imm : ℕ)
    → d < 32
    → imm < 2 ^ 21
    → imm % 2 ≡ 0
    → (opcode (j_word d imm) ≡ 0x6F)
      × (rd (j_word d imm) ≡ d)
      × (imm_uj (j_word d imm) ≡ sign_extended 21 imm)
j_fields d imm p q r =
    let w = j_word d imm in
    let l = field_lems w in
    let small : w < 2 ^ 32 = omega arith in
    let whole : fields_uj w ≡ imm = omega arith in
    (omega (arith, l), omega (arith, l), rw (imm_uj_lem w small, whole) refl)

u_fields :
    (op d imm : ℕ)
    → op < 128
    → d < 32
    → imm < 2 ^ 20
    → (opcode (op + d * 2 ^ 7 + imm * 2 ^ 12) ≡ op)
      × (rd (op + d * 2 ^ 7 + imm * 2 ^ 12) ≡ d)
      × (imm_u (op + d * 2 ^ 7 + imm * 2 ^ 12) ≡ sign_extended 20 imm)
u_fields op d imm o p q =
    let w = op + d * 2 ^ 7 + imm * 2 ^ 12 in
    let l = field_lems w in
    let small : w < 2 ^ 32 = omega arith in
    let whole : w / 2 ^ 12 ≡ imm = omega arith in
    (omega (arith, l), omega (arith, l), rw (imm_u_lem w small, whole) refl)

-- What a shift count is after its masking.
count_lem :
    (top count : ℕ)
    → top ≤ 0x400
    → top % 64 ≡ 0
    → count < 64
    → bit_and (extended 12 (top + count)) 0x3F ≡ count
count_lem top count h e q = ground (arith, bit_and-mask 6 (extended 12 (top + count)))

extended-word : (top count : ℕ) → top ≤ 0x400 → count < 32 → extended 12 (top + count) ≡ top + count
extended-word top count h q = ground arith

module _ (reg : ℕ → ℕ) where
  decode-register_word :
      (o : WOp) (d a b : ℕ)
      → IsEncodable (register_word o d a b)
      → decode reg (encode (register_word o d a b)) ≡ ok (decoded reg (register_word o d a b))
  unfolding IsEncodable encode decoded decode decode_32
  decode-register_word o d a b (p, q, r) =
      let (x, y, z) = w_codes o in
      let f =
        i_fields 0x3B (w_funct3 o) d a (w_funct7 o * 32 + b) (omega arith) x p q (omega arith) in
      let top : (w_funct7 o * 32 + b) / 32 ≡ w_funct7 o = omega arith in
      let low : (w_funct7 o * 32 + b) % 32 ≡ b = omega arith in
      rw (f.code, f.kind, f.high_seven, top, z, f.dest, f.base, f.second, low) refl

  decode-number :
      (o : IOp) (d a imm : ℕ)
      → IsEncodable (number o d a imm)
      → decode reg (encode (number o d a imm)) ≡ ok (decoded reg (number o d a imm))
  unfolding IsEncodable encode decoded decode decode_imm
  decode-number o d a imm (p, q, r) =
      let (x, y) = i_codes o (imm / 64) in
      let f = i_fields 0x13 (i_funct3 o) d a imm (omega arith) x p q r in
      rw (f.code, f.kind, f.high_six, y, f.dest, f.base, f.number) refl

  decode-number_word :
      (d a imm : ℕ)
      → IsEncodable (number_word d a imm)
      → decode reg (encode (number_word d a imm)) ≡ ok (decoded reg (number_word d a imm))
  unfolding IsEncodable encode decoded decode decode_imm32 type_imm32
  decode-number_word d a imm (p, q, r) =
      let f = i_fields 0x1B 0 d a imm (omega arith) (omega arith) p q r in
      rw (f.code, f.kind, f.dest, f.base, f.number) refl

  decode-shift :
      (o : ShiftOp) (d a count : ℕ)
      → IsEncodable (shift o d a count)
      → decode reg (encode (shift o d a count)) ≡ ok (decoded reg (shift o d a count))
  unfolding IsEncodable encode decoded decode decode_imm
  decode-shift o d a count (p, q, r) =
      let (x, t, e, y, z) = shift_codes o in
      let f =
        i_fields 0x13 (shift_funct3 o) d a (shift_top o + count) (omega arith) x p q
          (omega arith) in
      let top : (shift_top o + count) / 64 ≡ shift_top o / 64 = omega arith in
      rw
        (
          f.code,
          f.kind,
          f.high_six,
          top,
          y,
          f.dest,
          f.base,
          f.number,
          count_lem (shift_top o) count t e r,
        )
        refl

  decode-shift_word :
      (o : ShiftOp) (d a count : ℕ)
      → IsEncodable (shift_word o d a count)
      → decode reg (encode (shift_word o d a count))
        ≡ ok (record (decoded reg (shift_word o d a count)) { val_b = shift_top o + count })
  unfolding IsEncodable encode decoded decode decode_imm32
  decode-shift_word o d a count (p, q, r) =
      let (x, t, e, y, z) = shift_codes o in
      let f =
        i_fields 0x1B (shift_funct3 o) d a (shift_top o + count) (omega arith) x p q
          (omega arith) in
      let top : (shift_top o + count) / 32 ≡ shift_top o / 32 = omega arith in
      rw
        (
          f.code,
          f.kind,
          f.high_seven,
          top,
          z,
          f.dest,
          f.base,
          f.number,
          extended-word (shift_top o) count t r,
        )
        refl

  seen-shift_word :
      (o : ShiftOp) (d a count : ℕ)
      → ok (record (decoded reg (shift_word o d a count)) { val_b = shift_top o + count })
        ≡ ok (seen reg (shift_word o d a count))
  unfolding seen decoded shift_top
  seen-shift_word left d a count =
      ap (λ v. ok (with_number (shift_word_inst left) d a (reg a) v 0)) (omega arith)
  seen-shift_word right d a count =
      ap (λ v. ok (with_number (shift_word_inst right) d a (reg a) v 0)) (omega arith)
  seen-shift_word right_signed d a count = refl

  decode-load :
      (o : LOp) (d a imm : ℕ)
      → IsEncodable (load o d a imm)
      → decode reg (encode (load o d a imm)) ≡ ok (decoded reg (load o d a imm))
  unfolding IsEncodable encode decoded decode decode_load
  decode-load o d a imm (p, q, r) =
      let (x, y) = l_codes o in
      let f = i_fields 0x03 (l_funct3 o) d a imm (omega arith) x p q r in
      rw (f.code, f.kind, y, f.dest, f.base, f.number) refl

  decode-call : decode reg (encode call) ≡ ok (decoded reg call)
  unfolding encode decoded decode decode_system opcode funct3 funct7
  decode-call = refl

  -- For every instruction that the decoder finds, with any registers and any number that its format
  -- has room for: decoding its word gives back the instruction, its registers, the values that they
  -- hold, and its shift count or its number extended with its sign; except for SRAIW, whose count
  -- comes back with 1024 added.
  pub decode-encode : (i : Instr) → IsEncodable i → decode reg (encode i) ≡ ok (seen reg i)
  unfolding IsEncodable encode decoded seen decode decode_jal decode_jalr decode_upper
  decode-encode (register o d a b) (p, q, r) = decode-r_word reg o d a b p q r
  decode-encode (register_word o d a b) h = decode-register_word o d a b h
  decode-encode (number o d a imm) h = decode-number o d a imm h
  decode-encode (number_word d a imm) h = decode-number_word d a imm h
  decode-encode (shift o d a count) h = decode-shift o d a count h
  decode-encode (shift_word o d a count) h =
      decode-shift_word o d a count h ∙ seen-shift_word o d a count
  decode-encode (load o d a imm) h = decode-load o d a imm h
  decode-encode (store o a b imm) (p, q, r) = decode-store_word reg o a b imm p q r
  decode-encode (branch o a b imm) (p, q, r, e) = decode-b_word reg o a b imm p q r e
  decode-encode (jump d imm) (p, q, r) = let (x, y, z) = j_fields d imm p q r in rw (x, y, z) refl
  decode-encode (jump_to d a imm) (p, q, r) =
      let f = i_fields 0x67 0 d a imm (omega arith) (omega arith) p q r in
      rw (f.code, f.dest, f.base, f.number) refl
  decode-encode (upper d imm) (p, q) =
      let (x, y, z) = u_fields 0x37 d imm (omega arith) p q in rw (x, y, z) refl
  decode-encode (upper_pc d imm) (p, q) =
      let (x, y, z) = u_fields 0x17 d imm (omega arith) p q in rw (x, y, z) refl
  decode-encode call h = decode-call
