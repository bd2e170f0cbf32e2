-- ===== src/Pipeline/State.antt =====
-- The class `SIM` and the globals of simulation.cpp as one state, over the storage below the
-- pipeline: what `l1.HandleRequest` and `memory.isValidAddr` are.
use riscv_64i_simulator.Common.{
  ℕ, ◌+◌, ◌*◌, ◌/◌, ◌%◌, Bool, List, [], ◌∷◌, Result, ok, ◌>>=◌, Event, u32, if◌then◌else◌, zero,
  suc,
}
use riscv_64i_simulator.Storage.{Handler, Request}
use riscv_64i_simulator.Isa.Inst.{InstType, Strategy}
use riscv_64i_simulator.Pipeline.Regs.{PipeReg, FRegion, DRegion, ERegion, MRegion, WRegion}

-- The performance counters.
pub record Counters : Type 0 where
  pub inst_cnt : ℕ
  pub pipeline_cycle_cnt : ℕ
  pub cache_cycle_cnt : ℕ
  pub correct_predict : ℕ
  pub mispredict : ℕ
  pub cnt_j : ℕ
  pub control_cnt : ℕ
  pub loaduse_cnt : ℕ
  pub cache_cnt : ℕ
  pub cachehit_cnt : ℕ

pub record Sim (S : Type 0) : Type 0 where
  pub reg : ℕ → ℕ
  pub freg : PipeReg FRegion
  pub dreg : PipeReg DRegion
  pub ereg : PipeReg ERegion
  pub mreg : PipeReg MRegion
  pub wreg : PipeReg WRegion
  pub e_is_j : Bool
  pub e_b_wrong : Bool
  pub e_reg_write : Bool
  pub m_reg_write : Bool
  pub e_val_e : ℕ
  pub m_val_m : ℕ
  pub e_calc_pc : ℕ
  pub d_reg1 : ℕ
  pub d_reg2 : ℕ
  pub e_jname : InstType
  pub jalr_pc : ℕ
  pub branch_strat : Strategy
  pub counters : Counters
  pub storage : S
  pub printed : List Event

-- The storage that the pipeline stands on: `l1.HandleRequest` and `memory.isValidAddr`.
pub record Ops (S : Type 0) : Type 0 where
  pub handle : Handler S
  pub is_valid : S → ℕ → Bool

-- The bytes of a little-endian number, and the number that bytes are.
unfoldable pub le_bytes : ℕ → ℕ → List ℕ
le_bytes zero v = []
le_bytes (suc n) v = (v % 256) ∷ le_bytes n (v / 256)

unfoldable pub le_word : List ℕ → ℕ
le_word [] = 0
le_word (b ∷ bs) = b + 256 * le_word bs

module _ {S : Type 0} (l1 : Ops S) where
  -- A call of `l1.HandleRequest` with the counting that follows each. The 64-bit address becomes
  -- the `uint32_t` argument.
  unfoldable pub access : Sim S → ℕ → Request → Result (Sim S × List ℕ)
  access s addr req = do
    done ← l1.handle s.storage (u32 addr) req
    let c = s.counters
    let c' = record c {
      cachehit_cnt = c.cachehit_cnt + (if done.1.hit then 1 else 0);
      cache_cnt = c.cache_cnt + 1;
      cache_cycle_cnt = c.cache_cycle_cnt + done.1.time;
    }
    ok (record s { storage = done.0; counters = c' }, done.1.content)
