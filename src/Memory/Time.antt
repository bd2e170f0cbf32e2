-- ===== src/Memory/Time.antt =====
-- How long the memory takes (`Memory::HandleRequest` in Simulation.h).
use riscv_64i_simulator.Common.{ℕ, ◌+◌, ◌≡◌, refl, ◌∙◌, List, [], ◌∷◌, ok, >>=-eq-ok, arith}
use riscv_64i_simulator.Storage.{read, write, Request, Reply}
use riscv_64i_simulator.Storage.Time.{IsTimely}
use riscv_64i_simulator.Memory.{Memory, store_byte, write_bytes, read_bytes, handle_request}

abbrev pub memory_time : Memory → ℕ
memory_time m = m.latency.hit_latency + m.latency.bus_latency

store_byte-latency : (m m' : Memory) (a v : ℕ) → store_byte m a v ≡ ok m' → m'.latency ≡ m.latency
unfolding store_byte
store_byte-latency m m' a v h = ground arith

write_bytes-latency :
    (m m' : Memory) (a i : ℕ) (vs : List ℕ) → write_bytes m a i vs ≡ ok m' → m'.latency ≡ m.latency
unfolding write_bytes
write_bytes-latency m m' a i [] h = ground arith
write_bytes-latency m m' a i (v ∷ vs) h =
    let (u, x, y) = >>=-eq-ok (store_byte m _ v) _ h in
    write_bytes-latency u m' a (i + 1) vs y ∙ store_byte-latency m u _ v x

-- The memory always takes its latency.
timely :
    (m : Memory) (a : ℕ) (req : Request) (p : Memory × Reply)
    → handle_request m a req ≡ ok p
    → (p.1.time ≡ memory_time m) × (p.0.latency ≡ m.latency)
unfolding handle_request
timely m a (read n) p h =
    let (content, x, y) = >>=-eq-ok (read_bytes _ a 0 n) _ h in ground (arith, y)
timely m a (write vs) p h =
    let (u, x, y) = >>=-eq-ok (write_bytes _ a 0 vs) _ h in
    ground (arith, y, write_bytes-latency _ u a 0 vs x)

pub memory-IsTimely : IsTimely handle_request memory_time
memory-IsTimely = record {
  within = λ m a req p h. omega (arith, timely m a req p h);
  kept = λ m a req p h. rw ((timely m a req p h).1) refl;
}
