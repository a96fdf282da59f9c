-- ===== src/ApiHandle/Threads/Atomic.antt =====
-- src/SdkBridge.cpp: what the threads do to the globals, with each function of `ApiHandle` as one step.
use plcsim_connector.Common.{
  ℕ, suc, ◌+◌, ◌-◌, Bool, true, false, Option, none, some, List, [], ◌∷◌, get_elem?, if◌then◌else◌,
}
use plcsim_connector.Common.Int.{pos, increment, ◌==ℤ◌}
use plcsim_connector.Common.Totals.{total}
use plcsim_connector.ApiHandle.{World, ApiHandle, acquire, copy, release}
use plcsim_connector.ApiHandle.Threads.{
  Pc, idle, acquire_waits, acquire_tests, acquire_initializes, acquire_reads, acquire_writes,
  acquire_returns, copy_waits, copy_writes, copy_returns, release_waits, release_reads,
  release_writes, release_tests, Thread, State, Choice, rests, acquires, copies, releases, calls,
  hands, step,
}
use plcsim_connector.Error.{Outcome, returned, thrown, undefined}
use plcsim_connector.Sdk.{Sdk}

-- How many handles own the API, and the globals.
pub record View (S : Type 0) : Type 0 where
  pub owners : ℕ
  pub world : World S

abbrev pub owning : ApiHandle
owning = record { owns = true }

-- A thread between its lock and its unlock.
abbrev pub is_critical : Pc → Bool
is_critical idle = false
is_critical (acquire_waits dll_dir) = false
is_critical copy_waits = false
is_critical release_waits = false
is_critical pc = true

-- A handle that a thread is about to have, or has not given back yet.
abbrev pub pending : Pc → ℕ
pending acquire_reads = 1
pending (acquire_writes count) = 1
pending acquire_returns = 1
pending copy_returns = 1
pending release_waits = 1
pending release_reads = 1
pending (release_writes count) = 1
pending release_tests = 1
pending pc = 0

abbrev pub share : Thread → ℕ
share t = t.owned + pending t.pc

-- The globals as they are before a call has taken its effect, or after it.
abbrev pub settled : {S : Type 0} → Pc → World S → World S
settled acquire_reads w = record w { refcount = increment w.refcount }
settled (acquire_writes count) w = record w { refcount = increment w.refcount }
settled release_tests w = record w { refcount = increment w.refcount }
settled pc w = w

abbrev pub pc_of : Option Thread → Pc
pc_of none = idle
pc_of (some t) = t.pc

-- Where the thread that holds the mutex stands.
abbrev pub holder_pc : List Thread → Option ℕ → Pc
holder_pc threads none = idle
holder_pc threads (some k) = pc_of (get_elem? threads k)

abbrev pub view : {S : Type 0} → State S → View S
view s = record {
  owners = total share s.threads;
  world = settled (holder_pc s.threads s.mutex) s.world;
}

-- The call that takes its effect as a thread goes on from `pc`.
abbrev pub effect : {S : Type 0} → Pc → World S → Choice S → Choice S
effect idle w (calls f) = calls f
effect (acquire_tests dll_dir) w c = if w.refcount ==ℤ pos 0 then rests else acquires dll_dir
effect (acquire_initializes dll_dir) w c = acquires dll_dir
effect (copy_writes count) w c = copies
effect release_tests w c = releases
effect pc w c = rests

abbrev pub effect_at : {S : Type 0} → Option Thread → World S → Choice S → Choice S
effect_at none w c = rests
effect_at (some t) w c = effect t.pc w c

abbrev pub effect_of : {S : Type 0} → State S → ℕ × Choice S → Choice S
effect_of s (i, c) = effect_at (get_elem? s.threads i) s.world c

module _ {S : Type 0} (sdk : Sdk S) where
  abbrev pub acquired : ℕ → Outcome ApiHandle × World S → View S
  acquired n (returned h, w) = record { owners = suc n; world = w }
  acquired n (thrown e, w) = record { owners = n; world = w }
  acquired n (undefined, w) = record { owners = n; world = w }

  -- A call as one step; what the others do leaves the globals and the number of owners alone.
  abbrev pub perform : Choice S → View S → View S
  perform rests a = a
  perform (acquires dll_dir) a = acquired a.owners (acquire sdk dll_dir a.world)
  perform copies a = record { owners = suc a.owners; world = (copy owning a.world).1 }
  perform releases a = record { owners = a.owners - 1; world = (release sdk owning a.world).1 }
  perform (calls f) a = record a { world = record a.world { external = f a.world.external } }
  perform (hands j) a = a

  abbrev pub perform_all : List (Choice S) → View S → View S
  perform_all [] a = a
  perform_all (c ∷ rest) a = perform_all rest (perform c a)

  -- The calls that take their effect in the course of a schedule, in this order.
  abbrev pub effects : State S → List (ℕ × Choice S) → List (Choice S)
  effects s [] = []
  effects s (turn ∷ rest) = effect_of s turn ∷ effects (step sdk s turn) rest
