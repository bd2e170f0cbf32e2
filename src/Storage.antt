-- ===== src/Storage.antt =====
-- The interface of storage.h: what a level of the memory hierarchy is asked for, what it answers,
-- and the figures and latencies that every level carries.
pub mod Laws
pub mod Guards
pub mod Trace
pub mod Time
use riscv_64i_simulator.Common.{ℕ, Bool, List, Result, length}

-- `StorageStats`
pub record StorageStats : Type 0 where
  pub access_counter : ℕ
  pub miss_num : ℕ
  pub access_time : ℕ
  pub replace_num : ℕ
  pub fetch_num : ℕ
  pub prefetch_num : ℕ

-- `StorageLatency`
pub record StorageLatency : Type 0 where
  pub hit_latency : ℕ
  pub bus_latency : ℕ

-- The arguments `bytes`, `read` and `content` of `HandleRequest`: a read of so many bytes, or a
-- write of the bytes of `content`.
pub data Request : Type 0 where
  read : ℕ → Request
  write : List ℕ → Request

-- The argument `bytes`.
abbrev pub bytes_of : Request → ℕ
bytes_of (read n) = n
bytes_of (write content) = length content

-- The arguments that `HandleRequest` sets: `content` (for a read), `hit` and `time`.
pub record Reply : Type 0 where
  pub content : List ℕ
  pub hit : Bool
  pub time : ℕ

-- `HandleRequest` of a level with the state `S`, at an address.
abbrev pub Handler : Type 0 → Type 0
Handler S = S → ℕ → Request → Result (S × Reply)
