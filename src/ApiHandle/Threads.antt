-- ===== src/ApiHandle/Threads.antt =====
-- src/SdkBridge.cpp: the functions of `ApiHandle` that lock `g_api_mutex`, run by any number of threads
-- at once. A step is one access to the mutex or to a global; a schedule says which thread makes the
-- next one. `initialize` and `shut_down` are one step each, since what they read and write besides the
-- SDK's state is `g_api_manager` alone, once.
pub mod Atomic
pub mod Calm
pub mod Exclusion
pub mod Viewed
pub mod Refines
pub mod Counted
pub mod Safety
pub mod Holder
pub mod Nearer
pub mod Progress
pub mod Tests
use plcsim_connector.Common.{
  ℕ, zero, suc, Bool, true, false, Option, none, some, List, [], ◌∷◌, Bytes, get_elem?, set,
  if◌then◌else◌,
}
use plcsim_connector.Common.Int.{ℤ, pos, increment, decrement, ◌==ℤ◌}
use plcsim_connector.ApiHandle.{World, initialize, shut_down}
use plcsim_connector.Error.{Outcome, returned, thrown, undefined}
use plcsim_connector.Sdk.{Sdk}

-- Where a thread stands: outside of the three functions, at the mutex, or between lock and unlock. The
-- number is the value of `g_api_refcount` that it has read and is about to change.
pub data Pc : Type 0 where
  idle : Pc
  acquire_waits : Option Bytes → Pc
  acquire_tests : Option Bytes → Pc
  acquire_initializes : Option Bytes → Pc
  acquire_reads : Pc
  acquire_writes : ℤ → Pc
  acquire_returns : Pc
  acquire_throws : Pc
  copy_waits : Pc
  copy_reads : Pc
  copy_writes : ℤ → Pc
  copy_returns : Pc
  release_waits : Pc
  release_reads : Pc
  release_writes : ℤ → Pc
  release_tests : Pc
  release_returns : Pc

-- A thread, with the number of handles it holds that own the API.
pub record Thread : Type 0 where
  pub owned : ℕ
  pub pc : Pc

-- The mutex holds the number of the thread that has locked it.
pub record State (S : Type 0) : Type 0 where
  pub threads : List Thread
  pub mutex : Option ℕ
  pub world : World S

abbrev pub spawned : ℕ → List Thread
spawned zero = []
spawned (suc n) = record { owned = 0; pc = idle } ∷ spawned n

-- A process at its start, with `n` threads and no handles.
abbrev pub start : {S : Type 0} → ℕ → S → State S
start n s = record {
  threads = spawned n;
  mutex = none;
  world = record { refcount = pos 0; manager = none; external = s };
}

-- What a thread does next if it is idle: nothing, a call of one of the three functions, a call that
-- reaches the SDK and no global, or passing on one of its handles by a move, which locks nothing.
pub data Choice (S : Type 0) : Type 0 where
  rests : Choice S
  acquires : Option Bytes → Choice S
  copies : Choice S
  releases : Choice S
  calls : (S → S) → Choice S
  hands : ℕ → Choice S

module _ {S : Type 0} (sdk : Sdk S) where
  pub put : State S → ℕ → ℕ → Pc → State S
  put s i owned pc = record s { threads = set s.threads i (record { owned = owned; pc = pc }) }

  -- The constructor of the `lock_guard`; a thread that finds the mutex locked stays where it is.
  pub locks : State S → ℕ → ℕ → Pc → Option ℕ → State S
  locks s i n inside (some holder) = s
  locks s i n inside none = record (put s i n inside) { mutex = some i }

  -- Its destructor, as the function returns or throws.
  pub unlocks : State S → ℕ → ℕ → State S
  unlocks s i n = record (put s i n idle) { mutex = none }

  -- `acquire` goes on to count, or an exception leaves it.
  pub initialized : Outcome (Unit {0}) × World S → Pc × World S
  initialized (returned _, w) = (acquire_reads, w)
  initialized (thrown e, w) = (acquire_throws, w)
  initialized (undefined, w) = (acquire_throws, w)

  -- One step between lock and unlock.
  pub inside : Pc → World S → Pc × World S
  inside (acquire_tests dll_dir) w =
      (if w.refcount ==ℤ pos 0 then acquire_initializes dll_dir else acquire_reads, w)
  inside (acquire_initializes dll_dir) w = initialized (initialize sdk dll_dir w)
  inside acquire_reads w = (acquire_writes w.refcount, w)
  inside (acquire_writes count) w = (acquire_returns, record w { refcount = increment count })
  inside copy_reads w = (copy_writes w.refcount, w)
  inside (copy_writes count) w = (copy_returns, record w { refcount = increment count })
  inside release_reads w = (release_writes w.refcount, w)
  inside (release_writes count) w = (release_tests, record w { refcount = decrement count })
  inside release_tests w =
      (release_returns, if w.refcount ==ℤ pos 0 then shut_down sdk w.manager w else w)
  inside pc w = (pc, w)

  pub goes_on : State S → ℕ → ℕ → Pc × World S → State S
  goes_on s i n (pc, w) = record (put s i n pc) { world = w }

  -- There must be a thread to give the handle to; `s'` is the state without it.
  pub given : State S → State S → ℕ → Option Thread → State S
  given s s' j none = s
  given s s' j (some t) = put s' j (suc t.owned) t.pc

  -- `release` sets `owns_` before it locks. Only a handle that owns the API locks, or can be passed on.
  pub begins : State S → ℕ → ℕ → Choice S → State S
  begins s i n rests = s
  begins s i n (acquires dll_dir) = put s i n (acquire_waits dll_dir)
  begins s i zero copies = s
  begins s i (suc n) copies = put s i (suc n) copy_waits
  begins s i zero releases = s
  begins s i (suc n) releases = put s i n release_waits
  begins s i n (calls f) = record s { world = record s.world { external = f s.world.external } }
  begins s i zero (hands j) = s
  begins s i (suc n) (hands j) = let s' = put s i n idle in given s s' j (get_elem? s'.threads j)

  -- The handle that `acquire` and the copy constructor make is the thread's when they return.
  pub moves : State S → ℕ → ℕ → Pc → Choice S → State S
  moves s i n idle c = begins s i n c
  moves s i n (acquire_waits dll_dir) c = locks s i n (acquire_tests dll_dir) s.mutex
  moves s i n copy_waits c = locks s i n copy_reads s.mutex
  moves s i n release_waits c = locks s i n release_reads s.mutex
  moves s i n acquire_returns c = unlocks s i (suc n)
  moves s i n acquire_throws c = unlocks s i n
  moves s i n copy_returns c = unlocks s i (suc n)
  moves s i n release_returns c = unlocks s i n
  moves s i n pc c = goes_on s i n (inside pc s.world)

  pub thread_moves : State S → ℕ → Option Thread → Choice S → State S
  thread_moves s i none c = s
  thread_moves s i (some t) c = moves s i t.owned t.pc c

  pub step : State S → ℕ × Choice S → State S
  step s (i, c) = thread_moves s i (get_elem? s.threads i) c

  pub run : State S → List (ℕ × Choice S) → State S
  run s [] = s
  run s (turn ∷ rest) = run (step s turn) rest
