-- ===== src/Lib.antt =====
-- The RISC-V simulator: a five-stage pipeline over three levels of cache and a paged memory.
--
-- The parts and their files (paths from the repository's root):
--   Storage    the interface of storage.h, and what a level promises (Storage/Laws): it is an array
--              of bytes. Storage/Trace is about sequences of requests, and Storage/Guards about
--              the requests that are not answered; Storage/Time says what it is for a level to
--              answer within a bound.
--   Memory     the class Memory of Simulation.h, with its two levels of tables.
--   Cache      cache.h and cache.cpp: HandleRequest, ReplaceDecision, ReplaceAlgorithm, SetConfig.
--              Its proofs take addresses apart (Geometry), say what a cache shows and when it is
--              coherent (View), and follow a block through a fill (Fill), an access that only counts
--              (Contents), a hit (Touch, Hit) and a miss (WriteBack, Fetch, Miss).
--              Counts is about the figures of a cache, Time about how long an answer may
--              take, and Revisit about two requests for one block.
--   Isa        the instruction numbers of Simulation.h, the fields, the decoder of SIM::ID and the
--              switch of SIM::EX of simulation.cpp. Immediates, Encode, Formats, Instr and RoundTrip
--              state the formats; Kinds, Loads and Operands are about what the decoder reads off a
--              word, Accesses and Arithmetic about what the switch computes.
--   Pipeline   the pipeline registers of Simulation.h, and of simulation.cpp the stages IF, ID, EX,
--              MEM, WB, the system calls and SIM::simulate. The state Sim is the class SIM with the
--              globals of the file; the storage below it is any type with the operations Ops.
--              Tally, CacheCounts and Agreement are about the performance counters.
--   Machine    what the pipeline stands for: a machine that executes one instruction after another
--              on a flat memory, with the decoder and the switch of Isa, and Machine/Abs with the
--              state of it that a state of the pipeline stands for, once the instructions in WB, MEM
--              and EX have run to their end. The proofs go through the accesses (Accesses), the
--              stages (Stages, Calls), the forwarding (Signals), the addresses (Prepared, Flow) and
--              whole cycles (Cycle, Refines, Run, Exit, Start); Progress is about their number,
--              Figures and Printed about the counters and what the exit prints of them,
--              JumpSafe about programs of which no jump is thrown away, LostJump about one that is,
--              Program about main from its arguments on, and Drive runs the pipeline and checks on
--              the way what Run asks of it.
--   Loader     loader of Read_Elf.cpp and the loop of main that maps the stack; Image says what the
--              memory holds after both, read off the program alone.
--   Main       main of simulation.cpp: options, the hierarchy L1, L2, LLC, memory, the first state,
--              and main itself over what the ELF reader gives (a parameter).
--   Tests      concrete states, and an example of each theorem.
--
-- How the code is translated: a function that can end the process gives a Result, whose Halt says
-- why; what C++ leaves undefined halts too. Words are numbers with their wrap-around written out,
-- counters of type int are natural numbers, and a signed overflow wraps. A char is a number below
-- 256. Register file, tables, sets and blocks are functions on indices; a block carries its length
-- in the configuration. The bytes of a new block are an argument, since new leaves them open.
--
-- Fuel: the endless loop of SIM::simulate is a number of rounds. The string-printing system call
-- takes fuel, enough if it is more than the text is long, and so does the loader, where two more
-- than a segment's memory size is enough. The widths of SetConfig are searched for with the number n
-- itself as fuel, since n is below 2 ^ n; they are exact, where the source takes the logarithm of a
-- float, which is the same for the powers of two that main asks for. The stack loop has 1025 rounds
-- for its 1024 pages.
--
-- Not modelled: the ELF reader elfio, which is third-party code (its segments are a parameter), and
-- what only prints or reads the keyboard: printElfInfo, print_regs_info, dump_memory, the verbose
-- messages, the stack overflow message and single stepping. Of the figures that the exit prints, the
-- ratios and those of the L2 cache and the LLC are left out.
pub mod Common
pub mod Storage
pub mod Memory
pub mod Cache
pub mod Isa
pub mod Pipeline
pub mod Machine
pub mod Loader
pub mod Main
pub mod Tests
