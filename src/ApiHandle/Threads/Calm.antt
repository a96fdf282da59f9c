-- ===== src/ApiHandle/Threads/Calm.antt =====
-- src/SdkBridge.cpp: what a thread relies on while it holds `g_api_mutex`, and that the others leave it be.
use plcsim_connector.Common.{
  ℕ, zero, suc, ◌≤◌, ◌≡◌, ◌≢◌, true, false, Option, none, some, List, get_elem?, set, sym, ◌∙◌,
  arith, inl, inr, Bool-cases, ◌==◌,
}
use mathlib.Core.Path.{subst}
use plcsim_connector.Common.Int.{pos}
use plcsim_connector.Common.Totals.{get_elem?-set_self, get_elem?-set_ne}
use plcsim_connector.ApiHandle.{World}
use plcsim_connector.ApiHandle.Threads.Atomic.{is_critical}
use plcsim_connector.ApiHandle.Threads.{
  Pc, idle, acquire_initializes, acquire_writes, copy_waits, copy_reads, copy_writes,
  release_writes, Thread, State, spawned,
}

-- What a thread relies on until it writes.
abbrev pub Relies : {S : Type 0} → Pc → World S → Type 0
Relies (acquire_initializes dll_dir) w = w.refcount ≡ pos 0
Relies (acquire_writes count) w = count ≡ w.refcount
Relies (copy_writes count) w = count ≡ w.refcount
Relies (release_writes count) w = count ≡ w.refcount
Relies pc w = Unit {0}

-- The handle that a thread copies is there until the copy is made.
abbrev pub source : Pc → ℕ
source copy_waits = 1
source copy_reads = 1
source (copy_writes count) = 1
source pc = 0

-- What holds of the thread at `i` as long as the mutex does its work.
pub record Fits {S : Type 0} (mutex : Option ℕ) (w : World S) (i : ℕ) (t : Thread) : Type 0 where
  pub alone : is_critical t.pc ≡ true → mutex ≡ some i
  pub relies : Relies t.pc w
  pub sourced : source t.pc ≤ t.owned

abbrev pub IsExclusive : {S : Type 0} → State S → Type 0
IsExclusive s = (i : ℕ) (t : Thread) → get_elem? s.threads i ≡ some t → Fits s.mutex s.world i t

-- All threads but the one at `i`.
abbrev pub Others : List Thread → ℕ → (ℕ → Thread → Type 0) → Type 0
Others threads i P = (j : ℕ) (u : Thread) → get_elem? threads j ≡ some u → j ≢ i → P j u

pub spawned-idle : (n i : ℕ) (t : Thread) → get_elem? (spawned n) i ≡ some t → t.pc ≡ idle
spawned-idle zero i t here = absurd (ground arith)
spawned-idle (suc n) zero t here = ground arith
spawned-idle (suc n) (suc i) t here = spawned-idle n i t here

module _ {S : Type 0} where
  pub Relies-outside : (pc : Pc) (w : World S) → is_critical pc ≡ false → Relies pc w
  Relies-outside idle w out = tt
  Relies-outside (acquire_initializes dll_dir) w out = absurd (ground arith)
  Relies-outside (acquire_writes count) w out = absurd (ground arith)
  Relies-outside (copy_writes count) w out = absurd (ground arith)
  Relies-outside (release_writes count) w out = absurd (ground arith)
  Relies-outside pc w out = tt

  pub set-IsExclusive :
      (threads : List Thread) (i : ℕ) (t t' : Thread) (mutex : Option ℕ) (w : World S)
      → get_elem? threads i ≡ some t
      → Others threads i (Fits mutex w)
      → Fits mutex w i t'
      → IsExclusive (record { threads = set threads i t'; mutex = mutex; world = w })
  set-IsExclusive threads i t t' mutex w here others fits j u e = elim (Bool-cases (j == i)) [
    | inl same ↦
        let j-eq : j ≡ i = ground arith in
        let u-eq : t' ≡ u = ground (arith, get_elem?-set_self threads i t t' here, e, j-eq) in
        subst (λ v. Fits mutex w j v) u-eq (subst (λ k. Fits mutex w k t') (sym j-eq) fits)
    | inr differs ↦
        let ne : j ≢ i = ground arith in
        others j u (sym (get_elem?-set_ne threads i j t' ne) ∙ e) ne
  ]

  -- Only the thread at `i` may hold the mutex.
  abbrev pub Calm : State S → ℕ → Type 0
  Calm s i = Others s.threads i (λ j u. is_critical u.pc ≡ false)

  pub critical-Calm :
      (s : State S) (i : ℕ) (t : Thread)
      → IsExclusive s
      → get_elem? s.threads i ≡ some t
      → is_critical t.pc ≡ true
      → Calm s i
  critical-Calm s i t v here critical j u e ne = elim (Bool-cases (is_critical u.pc)) [
    | inr out ↦ out
    | inl two ↦
        let held = (v i t here).alone critical in
        let held' = (v j u e).alone two in absurd (ne (ground arith))
  ]

  pub free-Calm : (s : State S) (i : ℕ) → IsExclusive s → s.mutex ≡ none → Calm s i
  free-Calm s i v free j u e ne = elim (Bool-cases (is_critical u.pc)) [
    | inr out ↦ out
    | inl two ↦ let held = (v j u e).alone two in absurd (ground arith)
  ]

  -- With the others outside, the mutex and the globals are the thread's to change.
  pub changed-IsExclusive :
      (s : State S) (i : ℕ) (t t' : Thread) (mutex : Option ℕ) (w : World S)
      → IsExclusive s
      → get_elem? s.threads i ≡ some t
      → Calm s i
      → Fits mutex w i t'
      → IsExclusive (record { threads = set s.threads i t'; mutex = mutex; world = w })
  changed-IsExclusive s i t t' mutex w v here calm fits =
      set-IsExclusive s.threads i t t' mutex w here
        (λ j u e ne.
          let out = calm j u e ne in
          record {
            alone = λ critical. absurd (ground arith);
            relies = Relies-outside u.pc w out;
            sourced = (v j u e).sourced;
          })
        fits

  pub Relies-same :
      (pc : Pc) (w w' : World S) → w'.refcount ≡ w.refcount → Relies pc w → Relies pc w'
  Relies-same (acquire_initializes dll_dir) w w' same r = same ∙ r
  Relies-same (acquire_writes count) w w' same r = r ∙ sym same
  Relies-same (copy_writes count) w w' same r = r ∙ sym same
  Relies-same (release_writes count) w w' same r = r ∙ sym same
  Relies-same idle w w' same r = tt
  Relies-same pc w w' same r = tt
