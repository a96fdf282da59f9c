-- ===== src/ApiHandle/Threads/Nearer.antt =====
-- src/SdkBridge.cpp: a step of any thread brings the one that holds `g_api_mutex` nearer to the unlock, or
-- leaves it where it is.
use mathlib.Core.Path.{subst}
use plcsim_connector.Common.{
  ℕ, ◌+◌, ◌≤◌, ◌≡◌, ◌≢◌, true, Option, none, some, get_elem?, refl, sym, ap, ◌∙◌, arith, inl, inr,
  Bool-cases, ◌==◌, if◌then◌else◌,
}
use plcsim_connector.Common.Totals.{get_elem?-set_self}
use plcsim_connector.ApiHandle.Threads.Atomic.{is_critical, pc_of}
use plcsim_connector.ApiHandle.Threads.Calm.{IsExclusive}
use plcsim_connector.ApiHandle.Threads.{
  Pc, idle, acquire_waits, acquire_returns, acquire_throws, copy_waits, copy_returns, release_waits,
  release_returns, Thread, State, Choice, put, unlocks, inside, goes_on, moves, thread_moves, step,
}
use plcsim_connector.Sdk.{Sdk}
use plcsim_connector.ApiHandle.Threads.Holder.{left, HoldsAt, inside-left, moves-HoldsAt}

-- A thread has unlocked the mutex, or the one at `k` holds it and is at least `b` steps nearer to it.
pub data Nearer {S : Type 0} (k b : ℕ) (pc : Pc) (s : State S) : Type 0 where
  freed : s.mutex ≡ none → Nearer k b pc s
  holds :
      (pc' : Pc)
      → HoldsAt k pc' s
      → is_critical pc' ≡ true
      → left pc' + b ≤ left pc
      → Nearer k b pc s

module _ {S : Type 0} (sdk : Sdk S) where
  pub goes_on-Nearer :
      (s : State S) (k : ℕ) (t : Thread) (pc : Pc)
      → s.mutex ≡ some k
      → get_elem? s.threads k ≡ some t
      → 2 ≤ left pc
      → Nearer k 1 pc (goes_on sdk s k t.owned (inside sdk pc s.world))
  unfolding goes_on put
  goes_on-Nearer s k t pc held here two =
      let (critical, less) = inside-left sdk pc s.world two in
      holds (inside sdk pc s.world).0
        (record { held = held; stands = ap pc_of (get_elem?-set_self s.threads k t _ here) })
        critical (omega (arith, less))

  -- A step of another.
  pub away-Nearer :
      (s : State S) (k i : ℕ) (t : Thread) (pc : Pc) (c : Choice S)
      → IsExclusive s
      → HoldsAt k pc s
      → is_critical pc ≡ true
      → k ≢ i
      → get_elem? s.threads i ≡ some t
      → Nearer k 0 pc (moves sdk s i t.owned t.pc c)
  away-Nearer s k i t pc c v h critical ne here = elim (Bool-cases (is_critical t.pc)) [
    | inl two ↦ let held = (v i t here).alone two in absurd (ne (ground (arith, held, h.held)))
    | inr out ↦ holds pc (moves-HoldsAt sdk s k i t pc t.pc c out ne h) critical (omega arith)
  ]

  -- The holder's own step.
  pub own-Nearer :
      (s : State S) (k : ℕ) (t : Thread) (pc : Pc) (c : Choice S)
      → s.mutex ≡ some k
      → get_elem? s.threads k ≡ some t
      → is_critical pc ≡ true
      → Nearer k 1 pc (moves sdk s k t.owned pc c)
  unfolding moves unlocks
  own-Nearer s k t idle c held here critical = absurd (ground arith)
  own-Nearer s k t (acquire_waits dll_dir) c held here critical = absurd (ground arith)
  own-Nearer s k t copy_waits c held here critical = absurd (ground arith)
  own-Nearer s k t release_waits c held here critical = absurd (ground arith)
  own-Nearer s k t acquire_returns c held here critical = freed refl
  own-Nearer s k t acquire_throws c held here critical = freed refl
  own-Nearer s k t copy_returns c held here critical = freed refl
  own-Nearer s k t release_returns c held here critical = freed refl
  own-Nearer s k t pc c held here critical = goes_on-Nearer s k t pc held here (omega arith)

  pub own_turn :
      (s : State S) (k : ℕ) (pc : Pc) (c : Choice S) (o : Option Thread)
      → HoldsAt k pc s
      → is_critical pc ≡ true
      → get_elem? s.threads k ≡ o
      → Nearer k 1 pc (thread_moves sdk s k o c)
  unfolding thread_moves
  own_turn s k pc c none h critical here =
      let e : idle ≡ pc = ap pc_of (sym here) ∙ h.stands in
      absurd (ground (arith, ap is_critical e))
  own_turn s k pc c (some t) h critical here =
      let e : t.pc ≡ pc = ap pc_of (sym here) ∙ h.stands in
      subst (λ p. Nearer k 1 p (moves sdk s k t.owned t.pc c)) e
        (own-Nearer s k t t.pc c h.held here (ap is_critical e ∙ critical))

  pub other_turn :
      (s : State S) (k i : ℕ) (pc : Pc) (c : Choice S) (o : Option Thread)
      → IsExclusive s
      → HoldsAt k pc s
      → is_critical pc ≡ true
      → k ≢ i
      → get_elem? s.threads i ≡ o
      → Nearer k 0 pc (thread_moves sdk s i o c)
  unfolding thread_moves
  other_turn s k i pc c none v h critical ne here = holds pc h critical (omega arith)
  other_turn s k i pc c (some t) v h critical ne here =
      away-Nearer s k i t pc c v h critical ne here

  pub step-Nearer :
      (s : State S) (k i : ℕ) (pc : Pc) (c : Choice S)
      → IsExclusive s
      → HoldsAt k pc s
      → is_critical pc ≡ true
      → Nearer k (if i == k then 1 else 0) pc (step sdk s (i, c))
  unfolding step
  step-Nearer s k i pc c v h critical = elim (Bool-cases (i == k)) [
    | inl same ↦
        let e : k ≡ i = ground arith in
        rw same (
          subst (λ x. Nearer k 1 pc (thread_moves sdk s x (get_elem? s.threads x) c)) e
            (own_turn s k pc c _ h critical refl))
    | inr differs ↦ rw differs (other_turn s k i pc c _ v h critical (ground arith) refl)
  ]
