-- ===== src/ApiHandle/Threads/Refines.antt =====
-- src/SdkBridge.cpp: threads that lock `g_api_mutex` do to the globals what the functions of `ApiHandle`
-- do, each as one step, in the order in which they hold the mutex.
use plcsim_connector.Common.{
  ℕ, zero, suc, ◌≡◌, Option, none, some, List, [], ◌∷◌, get_elem?, refl, sym, ap, ◌∙◌, arith,
}
use mathlib.Core.Path.{subst}
use plcsim_connector.Common.Totals.{total, total-set}
use plcsim_connector.ApiHandle.Threads.Atomic.{
  View, is_critical, pending, share, settled, holder_pc, view, effect, effect_of, effect_at,
  effects, perform, perform_all,
}
use plcsim_connector.ApiHandle.Threads.Calm.{IsExclusive}
use plcsim_connector.ApiHandle.Threads.Exclusion.{step-IsExclusive, start-IsExclusive}
use plcsim_connector.ApiHandle.Threads.{
  Pc, idle, acquire_waits, acquire_tests, acquire_returns, acquire_throws, copy_waits, copy_reads,
  copy_returns, release_waits, release_reads, release_returns, Thread, State, Choice, rests,
  acquires, copies, releases, calls, hands, put, inside, goes_on, given, begins, moves,
  thread_moves, step, run, start,
}
use plcsim_connector.Sdk.{Sdk}
use plcsim_connector.ApiHandle.Threads.Viewed.{
  View_eq, settled-called, settled-set, replaced-view, locks-view, unlocks-view, goes_on-view,
}

module _ {S : Type 0} (sdk : Sdk S) where
  given-view :
      (s s' : State S) (j : ℕ) (o : Option Thread)
      → suc (total share s'.threads) ≡ total share s.threads
      → settled (holder_pc s'.threads s'.mutex) s'.world
        ≡ settled (holder_pc s.threads s.mutex) s.world
      → get_elem? s'.threads j ≡ o
      → view (given sdk s s' j o) ≡ view s
  unfolding given put
  given-view s s' j none less settle here = refl
  given-view s s' j (some t) less settle here =
      let t' : Thread = record { owned = suc t.owned; pc = t.pc } in
      View_eq (omega (arith, less, total-set share s'.threads j t t' here))
        (settled-set s'.threads j t t' s'.mutex s'.world here refl ∙ settle)

  begins-view :
      (s : State S) (i : ℕ) (t : Thread) (n : ℕ) (c : Choice S)
      → get_elem? s.threads i ≡ some t
      → t.pc ≡ idle
      → t.owned ≡ n
      → view (begins sdk s i n c) ≡ perform sdk (effect idle s.world c) (view s)
  unfolding begins put
  begins-view s i t n rests here out e = refl
  begins-view s i t n (acquires dll_dir) here out e =
      replaced-view s i t _ here (rw out (omega (arith, e))) (rw out refl)
  begins-view s i t zero copies here out e = refl
  begins-view s i t (suc n) copies here out e =
      replaced-view s i t _ here (rw out (omega (arith, e))) (rw out refl)
  begins-view s i t zero releases here out e = refl
  begins-view s i t (suc n) releases here out e =
      replaced-view s i t _ here (rw out (omega (arith, e))) (rw out refl)
  begins-view s i t n (calls f) here out e =
      View_eq refl (settled-called (holder_pc s.threads s.mutex) s.world f)
  begins-view s i t zero (hands j) here out e = refl
  begins-view s i t (suc n) (hands j) here out e =
      let t' : Thread = record { owned = n; pc = idle } in
      given-view s _ j _
        (let less : pending t.pc ≡ 0 = ap pending out in
          omega (arith, less, e, total-set share s.threads i t t' here))
        (settled-set s.threads i t t' s.mutex s.world here (rw out refl)) refl

  moves-view :
      (s : State S) (i : ℕ) (t : Thread) (pc : Pc) (c : Choice S)
      → IsExclusive s
      → get_elem? s.threads i ≡ some t
      → t.pc ≡ pc
      → view (moves sdk s i t.owned pc c) ≡ perform sdk (effect pc s.world c) (view s)
  unfolding moves
  moves-view s i t idle c v here e = begins-view s i t t.owned c here e refl
  moves-view s i t (acquire_waits dll_dir) c v here e =
      locks-view sdk s i t (acquire_tests dll_dir) s.mutex here refl (rw e refl) refl
  moves-view s i t copy_waits c v here e =
      locks-view sdk s i t copy_reads s.mutex here refl (rw e refl) refl
  moves-view s i t release_waits c v here e =
      locks-view sdk s i t release_reads s.mutex here refl (rw e refl) refl
  moves-view s i t acquire_returns c v here e =
      unlocks-view sdk s i t (suc t.owned) here ((v i t here).alone (ap is_critical e))
        (rw e (omega arith)) (rw e refl)
  moves-view s i t acquire_throws c v here e =
      unlocks-view sdk s i t t.owned here ((v i t here).alone (ap is_critical e))
        (rw e (omega arith)) (rw e refl)
  moves-view s i t copy_returns c v here e =
      unlocks-view sdk s i t (suc t.owned) here ((v i t here).alone (ap is_critical e))
        (rw e (omega arith)) (rw e refl)
  moves-view s i t release_returns c v here e =
      unlocks-view sdk s i t t.owned here ((v i t here).alone (ap is_critical e))
        (rw e (omega arith)) (rw e refl)
  moves-view s i t pc c v here e =
      subst
        (λ p.
          view (goes_on sdk s i t.owned (inside sdk p s.world))
          ≡ perform sdk (effect p s.world c) (view s))
        e (goes_on-view sdk s i t c here (ap is_critical e) (v i t here))

  thread_moves-view :
      (s : State S) (i : ℕ) (o : Option Thread) (c : Choice S)
      → IsExclusive s
      → get_elem? s.threads i ≡ o
      → view (thread_moves sdk s i o c) ≡ perform sdk (effect_at o s.world c) (view s)
  unfolding thread_moves
  thread_moves-view s i none c v here = refl
  thread_moves-view s i (some t) c v here = moves-view s i t t.pc c v here refl

  pub step-view :
      (s : State S) (turn : ℕ × Choice S)
      → IsExclusive s
      → view (step sdk s turn) ≡ perform sdk (effect_of s turn) (view s)
  unfolding step
  step-view s (i, c) v = thread_moves-view s i _ c v refl

  pub run-view :
      (s : State S) (turns : List (ℕ × Choice S))
      → IsExclusive s
      → view (run sdk s turns) ≡ perform_all sdk (effects sdk s turns) (view s)
  unfolding run
  run-view s [] v = refl
  run-view s (turn ∷ rest) v =
      run-view (step sdk s turn) rest (step-IsExclusive sdk s turn v)
      ∙ ap (perform_all sdk (effects sdk (step sdk s turn) rest)) (step-view s turn v)

  -- Whatever the threads of a process call and in whatever order they make their steps, whenever no
  -- thread holds the mutex the globals and the SDK are as after the calls of `acquire`, the copy
  -- constructor and `release` made one after the other, each as a whole, in the order in which they
  -- took their effect, and as many handles own the API, those on their way to be released included.
  pub run-perform_all :
      (n : ℕ) (s : S) (turns : List (ℕ × Choice S))
      → (run sdk (start n s) turns).mutex ≡ none
      → let now = run sdk (start n s) turns in
        let in_turn = perform_all sdk (effects sdk (start n s) turns) (view (start n s)) in
        (now.world ≡ in_turn.world) × (total share now.threads ≡ in_turn.owners)
  run-perform_all n s turns free =
      let now = run sdk (start n s) turns in
      let same = run-view (start n s) turns (start-IsExclusive sdk n s) in
      let settle : (view now).world ≡ now.world =
        ap (λ m. settled (holder_pc now.threads m) now.world) free in
      (sym settle ∙ ap (λ (a : View S). a.world) same, ap (λ (a : View S). a.owners) same)
