-- ===== src/Tests/Isa.antt =====
-- Examples for the instruction fields and the prediction.
use riscv_64i_simulator.Common.{
  ◌≡◌, refl, arith, true, if◌then◌else◌, ok, ◌+◌, ◌-◌, ◌/◌, ◌^◌, ltb, wrap64, signed64,
}
use riscv_64i_simulator.Isa.Inst.{always_taken}
use riscv_64i_simulator.Isa.Fields.{opcode, imm_i, imm_s, imm_sb, imm_u, imm_uj}
use riscv_64i_simulator.Isa.Immediates.{sign_extended, fields_s, fields_sb, fields_uj}
use riscv_64i_simulator.Isa.Execute.{execute, to_reg}
use riscv_64i_simulator.Isa.Arithmetic.{shift, inst_of, meaning, execute-meaning}
use riscv_64i_simulator.Isa.Decode.{Decoded, decode}
use riscv_64i_simulator.Isa.Operands.{decode-same}
use riscv_64i_simulator.Isa.Kinds.{KindOf, decode-KindOf}
use riscv_64i_simulator.Isa.Encode.{r_sub, r_inst, r_word, decode-r_word}
use riscv_64i_simulator.Isa.Formats.{immediates_lem, right_signed}
use riscv_64i_simulator.Isa.Instr.{shift_word, IsEncodable, encode, seen}
use riscv_64i_simulator.Isa.RoundTrip.{decode-encode}
use riscv_64i_simulator.Pipeline.Execute.{same}
use riscv_64i_simulator.Pipeline.Fetch.{predict}
use riscv_64i_simulator.Pipeline.Branches.{branch_target, predict_lem}

-- jal ra, -36
immediates_lem_example :
    (imm_i 0xfddff0ef ≡ sign_extended 12 (0xfddff0ef / 2 ^ 20))
    × (imm_s 0xfddff0ef ≡ sign_extended 12 (fields_s 0xfddff0ef))
    × (imm_sb 0xfddff0ef ≡ sign_extended 13 (fields_sb 0xfddff0ef))
    × (imm_u 0xfddff0ef ≡ sign_extended 20 (0xfddff0ef / 2 ^ 12))
    × (imm_uj 0xfddff0ef ≡ sign_extended 21 (fields_uj 0xfddff0ef))
immediates_lem_example = immediates_lem 0xfddff0ef (omega arith)

-- sraiw a0, a1, 5
decode-encode_example :
    decode (λ i. i + 100) (encode (shift_word right_signed 10 11 5))
    ≡ ok (seen (λ i. i + 100) (shift_word right_signed 10 11 5))
unfolding IsEncodable
decode-encode_example =
    decode-encode (λ i. i + 100) (shift_word right_signed 10 11 5)
      (omega arith, omega arith, omega arith)

predict_lem_example :
    let p = predict always_taken 64 0xfee792e3 in
    (if same p.take_branch true then p.predicted_pc else p.pc_not_taken)
    ≡ branch_target 64 0xfee792e3 true
unfolding opcode
predict_lem_example = predict_lem always_taken 64 0xfee792e3 true refl

-- sub a0, a1, a2 over registers that hold their numbers and 100
subtraction_decodes :
    decode (λ i. i + 100) (r_word r_sub 10 11 12)
    ≡ ok (record {
      insttype = r_inst r_sub;
      val_a = 111;
      val_b = 112;
      offset = 0;
      dest = 10;
      reg1 = 11;
      reg2 = 12;
    })
subtraction_decodes =
    decode-r_word (λ i. i + 100) r_sub 10 11 12 (omega arith) (omega arith) (omega arith)

-- sub a0, a1, a2 over two register files that differ from register 20 on
abbrev subtraction : Decoded
subtraction = record {
  insttype = r_inst r_sub;
  val_a = 111;
  val_b = 112;
  offset = 0;
  dest = 10;
  reg1 = 11;
  reg2 = 12;
}

decode-same_example :
    decode (λ i. if ltb i 20 then i + 100 else 0) (r_word r_sub 10 11 12) ≡ ok subtraction
decode-same_example =
    decode-same (λ i. i + 100) (λ i. if ltb i 20 then i + 100 else 0) (r_word r_sub 10 11 12)
      subtraction (refl, refl) subtraction_decodes

decode-KindOf_example : KindOf (r_word r_sub 10 11 12) subtraction
decode-KindOf_example =
    decode-KindOf (λ i. i + 100) (r_word r_sub 10 11 12) subtraction subtraction_decodes

-- sra of -3 by 1 is -2
execute_sra : execute (inst_of shift) 0 (2 ^ 64 - 3) 1 0 ≡ to_reg 1 (2 ^ 64 - 2)
unfolding execute inst_of
execute_sra = refl

execute-meaning_example :
    execute (inst_of shift) 0 (2 ^ 64 - 3) 1 0
    ≡ to_reg 1 (wrap64 (meaning shift (signed64 (2 ^ 64 - 3)) (signed64 1) 1))
execute-meaning_example =
    execute-meaning shift 0 (2 ^ 64 - 3) 1 0 (omega arith) (omega arith) (λ h. omega arith)
