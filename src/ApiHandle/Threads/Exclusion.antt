-- ===== src/ApiHandle/Threads/Exclusion.antt =====
-- src/SdkBridge.cpp: the mutex keeps the threads apart, and what a thread has read of the globals while
-- it holds the mutex is still so when it writes.
use plcsim_connector.Common.{
  ◌≢◌, ℕ, zero, suc, ◌≤◌, ◌≡◌, true, false, Option, none, some, List, [], ◌∷◌, get_elem?, refl, ap,
  arith, inl, inr, Bool-cases, Bytes,
}
use mathlib.Core.Path.{subst}
use plcsim_connector.Common.Int.{pos, ◌==ℤ◌, ==ℤ_iff}
use plcsim_connector.ApiHandle.{World}
use plcsim_connector.ApiHandle.Refcount.{initialize_cases}
use plcsim_connector.ApiHandle.Threads.Atomic.{is_critical}
use plcsim_connector.ApiHandle.Threads.{
  Pc, idle, acquire_waits, acquire_tests, acquire_initializes, acquire_reads, acquire_returns,
  acquire_throws, copy_waits, copy_reads, copy_returns, release_waits, release_reads,
  release_returns, Thread, State, Choice, rests, acquires, copies, releases, calls, hands, put,
  locks, unlocks, initialized, inside, goes_on, given, begins, moves, thread_moves, step, run,
  start,
}
use plcsim_connector.Sdk.{Sdk}
use plcsim_connector.ApiHandle.Threads.Calm.{
  Relies, source, IsExclusive, spawned-idle, Relies-outside, set-IsExclusive, critical-Calm,
  free-Calm, changed-IsExclusive, Relies-same,
}

module _ {S : Type 0} (sdk : Sdk S) where
  -- An idle or a waiting thread changes nothing that another relies on.
  put-IsExclusive :
      (s : State S) (i : ℕ) (t : Thread) (n : ℕ) (pc : Pc)
      → IsExclusive s
      → get_elem? s.threads i ≡ some t
      → is_critical pc ≡ false
      → source pc ≤ n
      → IsExclusive (put sdk s i n pc)
  unfolding put
  put-IsExclusive s i t n pc v here out enough =
      set-IsExclusive s.threads i t _ s.mutex s.world here (λ j u e ne. v j u e)
        (record {
          alone = λ critical. absurd (ground arith);
          relies = Relies-outside pc s.world out;
          sourced = enough;
        })

  locks-IsExclusive :
      (s : State S) (i : ℕ) (t : Thread) (pc : Pc) (mutex : Option ℕ)
      → IsExclusive s
      → get_elem? s.threads i ≡ some t
      → s.mutex ≡ mutex
      → Relies pc s.world
      → source pc ≤ t.owned
      → IsExclusive (locks sdk s i t.owned pc mutex)
  unfolding locks put
  locks-IsExclusive s i t pc (some holder) v here e relies enough = v
  locks-IsExclusive s i t pc none v here e relies enough =
      changed-IsExclusive s i t _ (some i) s.world v here (free-Calm s i v e)
        (record { alone = λ _. refl; relies = relies; sourced = enough })

  unlocks-IsExclusive :
      (s : State S) (i : ℕ) (t : Thread) (n : ℕ)
      → IsExclusive s
      → get_elem? s.threads i ≡ some t
      → is_critical t.pc ≡ true
      → IsExclusive (unlocks sdk s i n)
  unfolding unlocks put
  unlocks-IsExclusive s i t n v here critical =
      changed-IsExclusive s i t _ none s.world v here (critical-Calm s i t v here critical)
        (record { alone = λ other. absurd (ground arith); relies = tt; sourced = omega arith })

  initialized-Relies :
      (dll_dir : Option Bytes) (w : World S)
      → let r = inside sdk (acquire_initializes dll_dir) w in Relies r.0 r.1 × (source r.0 ≡ 0)
  unfolding inside initialized
  initialized-Relies dll_dir w = elim (initialize_cases sdk dll_dir w) [
    | inl (w', e, same, found) ↦ rw e (tt, refl)
    | inr (x, w', e, same, kept) ↦ rw e (tt, refl)
  ]

  inside-Relies :
      (pc : Pc) (w : World S)
      → is_critical pc ≡ true
      → let r = inside sdk pc w in Relies r.0 r.1 × (source r.0 ≤ source pc)
  unfolding inside
  inside-Relies (acquire_tests dll_dir) w critical = elim (Bool-cases (w.refcount ==ℤ pos 0)) [
    | inl first ↦ rw first ((==ℤ_iff _ _).0 first, omega arith)
    | inr counted ↦ rw counted (tt, omega arith)
  ]
  inside-Relies (acquire_initializes dll_dir) w critical =
      let (relies, none_needed) = initialized-Relies dll_dir w in (relies, omega arith)
  inside-Relies acquire_reads w critical = (refl, omega arith)
  inside-Relies copy_reads w critical = (refl, omega arith)
  inside-Relies release_reads w critical = (refl, omega arith)
  inside-Relies idle w critical = absurd (ground arith)
  inside-Relies pc w critical = (tt, omega arith)

  goes_on-IsExclusive :
      (s : State S) (i : ℕ) (t : Thread)
      → IsExclusive s
      → get_elem? s.threads i ≡ some t
      → is_critical t.pc ≡ true
      → IsExclusive (goes_on sdk s i t.owned (inside sdk t.pc s.world))
  unfolding goes_on put
  goes_on-IsExclusive s i t v here critical =
      let (relies, source-le) = inside-Relies t.pc s.world critical in
      changed-IsExclusive s i t _ s.mutex (inside sdk t.pc s.world).1 v here
        (critical-Calm s i t v here critical)
        (record {
          alone = λ _. (v i t here).alone critical;
          relies = relies;
          sourced = omega (arith, source-le, (v i t here).sourced);
        })

  given-IsExclusive :
      (s s' : State S) (j : ℕ) (o : Option Thread)
      → IsExclusive s
      → IsExclusive s'
      → get_elem? s'.threads j ≡ o
      → IsExclusive (given sdk s s' j o)
  unfolding given put
  given-IsExclusive s s' j none v v' e = v
  given-IsExclusive s s' j (some t) v v' e =
      let fits = v' j t e in
      set-IsExclusive s'.threads j t _ s'.mutex s'.world e (λ k u at ne. v' k u at)
        (record { alone = fits.alone; relies = fits.relies; sourced = omega (arith, fits.sourced) })

  called-IsExclusive :
      (s : State S) (w : World S)
      → IsExclusive s
      → w.refcount ≡ s.world.refcount
      → IsExclusive (record s { world = w })
  called-IsExclusive s w v same i t here =
      let fits = v i t here in
      record {
        alone = fits.alone;
        relies = Relies-same t.pc s.world w same fits.relies;
        sourced = fits.sourced;
      }

  begins-IsExclusive :
      (s : State S) (i : ℕ) (t : Thread) (n : ℕ) (c : Choice S)
      → IsExclusive s
      → get_elem? s.threads i ≡ some t
      → IsExclusive (begins sdk s i n c)
  unfolding begins
  begins-IsExclusive s i t n rests v here = v
  begins-IsExclusive s i t n (acquires dll_dir) v here =
      put-IsExclusive s i t n (acquire_waits dll_dir) v here refl (omega arith)
  begins-IsExclusive s i t zero copies v here = v
  begins-IsExclusive s i t (suc n) copies v here =
      put-IsExclusive s i t (suc n) copy_waits v here refl (omega arith)
  begins-IsExclusive s i t zero releases v here = v
  begins-IsExclusive s i t (suc n) releases v here =
      put-IsExclusive s i t n release_waits v here refl (omega arith)
  begins-IsExclusive s i t n (calls f) v here = called-IsExclusive s _ v refl
  begins-IsExclusive s i t zero (hands j) v here = v
  begins-IsExclusive s i t (suc n) (hands j) v here =
      given-IsExclusive s (put sdk s i n idle) j _ v
        (put-IsExclusive s i t n idle v here refl (omega arith)) refl

  moves-IsExclusive :
      (s : State S) (i : ℕ) (t : Thread) (pc : Pc) (c : Choice S)
      → IsExclusive s
      → get_elem? s.threads i ≡ some t
      → t.pc ≡ pc
      → IsExclusive (moves sdk s i t.owned pc c)
  unfolding moves
  moves-IsExclusive s i t idle c v here e = begins-IsExclusive s i t t.owned c v here
  moves-IsExclusive s i t (acquire_waits dll_dir) c v here e =
      locks-IsExclusive s i t (acquire_tests dll_dir) s.mutex v here refl tt (omega arith)
  moves-IsExclusive s i t copy_waits c v here e =
      locks-IsExclusive s i t copy_reads s.mutex v here refl tt
        (ground (arith, (v i t here).sourced, e))
  moves-IsExclusive s i t release_waits c v here e =
      locks-IsExclusive s i t release_reads s.mutex v here refl tt (omega arith)
  moves-IsExclusive s i t acquire_returns c v here e =
      unlocks-IsExclusive s i t (suc t.owned) v here (ap is_critical e)
  moves-IsExclusive s i t acquire_throws c v here e =
      unlocks-IsExclusive s i t t.owned v here (ap is_critical e)
  moves-IsExclusive s i t copy_returns c v here e =
      unlocks-IsExclusive s i t (suc t.owned) v here (ap is_critical e)
  moves-IsExclusive s i t release_returns c v here e =
      unlocks-IsExclusive s i t t.owned v here (ap is_critical e)
  moves-IsExclusive s i t pc c v here e =
      subst (λ p. IsExclusive (goes_on sdk s i t.owned (inside sdk p s.world))) e
        (goes_on-IsExclusive s i t v here (ap is_critical e))

  thread_moves-IsExclusive :
      (s : State S) (i : ℕ) (o : Option Thread) (c : Choice S)
      → IsExclusive s
      → get_elem? s.threads i ≡ o
      → IsExclusive (thread_moves sdk s i o c)
  unfolding thread_moves
  thread_moves-IsExclusive s i none c v here = v
  thread_moves-IsExclusive s i (some t) c v here = moves-IsExclusive s i t t.pc c v here refl

  pub step-IsExclusive :
      (s : State S) (turn : ℕ × Choice S) → IsExclusive s → IsExclusive (step sdk s turn)
  unfolding step
  step-IsExclusive s (i, c) v = thread_moves-IsExclusive s i _ c v refl

  pub run-IsExclusive :
      (s : State S) (turns : List (ℕ × Choice S)) → IsExclusive s → IsExclusive (run sdk s turns)
  unfolding run
  run-IsExclusive s [] v = v
  run-IsExclusive s (turn ∷ rest) v =
      run-IsExclusive (step sdk s turn) rest (step-IsExclusive s turn v)

  pub start-IsExclusive : (n : ℕ) (s : S) → IsExclusive (start n s)
  start-IsExclusive n s i t here =
      let e = spawned-idle n i t here in
      record {
        alone = λ critical. absurd (ground (arith, ap is_critical e));
        relies = Relies-outside t.pc _ (ap is_critical e);
        sourced = rw e (omega arith);
      }

  -- While a thread holds the mutex no other thread does, whatever the threads of a process call and
  -- in whatever order they make their steps.
  pub run-exclusive :
      (n : ℕ) (s : S) (turns : List (ℕ × Choice S)) (i j : ℕ) (t u : Thread)
      → get_elem? (run sdk (start n s) turns).threads i ≡ some t
      → get_elem? (run sdk (start n s) turns).threads j ≡ some u
      → j ≢ i
      → is_critical t.pc ≡ true
      → is_critical u.pc ≡ false
  run-exclusive n s turns i j t u at_i at_j ne critical =
      let now = run sdk (start n s) turns in
      let v = run-IsExclusive (start n s) turns (start-IsExclusive n s) in
      critical-Calm now i t v at_i critical j u at_j ne
