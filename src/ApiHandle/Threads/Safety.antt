-- ===== src/ApiHandle/Threads/Safety.antt =====
-- src/SdkBridge.cpp: what the threads of a process can rely on. No count is lost, and `manager()`, which
-- reads `g_api_manager` without the mutex, reads it while no other thread changes it.
use mathlib.Core.Path.{subst}
use plcsim_connector.Common.{
  ℕ, ◌≡◌, ◌≢◌, true, none, some, List, [], ◌∷◌, get_elem?, refl, sym, ap, ◌∙◌, arith, inl, inr,
  Option-cases, ◌==◌,
}
use plcsim_connector.Common.Int.{pos}
use plcsim_connector.Common.Totals.{total, le-total}
use plcsim_connector.ApiHandle.{World, is_null, manager_of}
use plcsim_connector.ApiHandle.Threads.Atomic.{
  View, share, settled, holder_pc, view, effect_of, owning,
}
use plcsim_connector.ApiHandle.Threads.Calm.{IsExclusive}
use plcsim_connector.ApiHandle.Threads.Exclusion.{
  step-IsExclusive, run-IsExclusive, start-IsExclusive,
}
use plcsim_connector.ApiHandle.Threads.Refines.{step-view}
use plcsim_connector.ApiHandle.Threads.{Thread, State, Choice, start, step, run}
use plcsim_connector.Sdk.{Sdk}
use plcsim_connector.ApiHandle.Threads.Counted.{
  IsCounted, spawned-share, drops_spare, needs_met, settled-manager, perform-IsCounted,
  perform-manager,
}

module _ {S : Type 0} (sdk : Sdk S) where
  pub step-IsCounted :
      (s : State S) (turn : ℕ × Choice S)
      → IsExclusive s
      → IsCounted (view s)
      → IsCounted (view (step sdk s turn))
  step-IsCounted s (i, c) v counted = subst IsCounted (sym (step-view sdk s (i, c) v)) (
      perform-IsCounted sdk (effect_of s (i, c)) (view s) counted
        (needs_met s i c v (get_elem? s.threads i) refl))

  pub run-IsCounted :
      (s : State S) (turns : List (ℕ × Choice S))
      → IsExclusive s
      → IsCounted (view s)
      → IsCounted (view (run sdk s turns))
  unfolding run
  run-IsCounted s [] v counted = counted
  run-IsCounted s (turn ∷ rest) v counted =
      run-IsCounted (step sdk s turn) rest (step-IsExclusive sdk s turn v)
        (step-IsCounted s turn v counted)

  start-IsCounted : (n : ℕ) (s : S) → IsCounted (view (start n s))
  start-IsCounted n s = record {
    counted = ap pos (sym (spawned-share n));
    shared = rw (spawned-share n) refl;
  }

  -- Whatever the threads of a process call and in whatever order they make their steps, whenever no
  -- thread holds the mutex the count is the number of handles that own the API, those that are on
  -- their way to be released included, and there is a manager exactly if that is not 0.
  pub run-counted :
      (n : ℕ) (s : S) (turns : List (ℕ × Choice S))
      → (run sdk (start n s) turns).mutex ≡ none
      → let now = run sdk (start n s) turns in
        (now.world.refcount ≡ pos (total share now.threads))
        × (is_null now.world.manager ≡ (total share now.threads == 0))
  run-counted n s turns free =
      let now = run sdk (start n s) turns in
      let v = run-IsCounted (start n s) turns (start-IsExclusive sdk n s) (start-IsCounted n s) in
      let same : (view now).world ≡ now.world =
        ap (λ m. settled (holder_pc now.threads m) now.world) free in
      (
        ap (λ (w : World S). w.refcount) (sym same) ∙ v.counted,
        ap (λ (w : World S). is_null w.manager) (sym same) ∙ v.shared,
      )

  keeps_manager :
      (s : State S) (i : ℕ) (t : Thread)
      → IsExclusive s
      → IsCounted (view s)
      → get_elem? s.threads i ≡ some t
      → t.owned ≢ 0
      → (turn : ℕ × Choice S) → (step sdk s turn).world.manager ≡ s.world.manager
  keeps_manager s i t v counted here owns (k, c) =
      sym (settled-manager _ (step sdk s (k, c)).world)
      ∙ ap (λ (a : View S). a.world.manager) (step-view sdk s (k, c) v)
      ∙ perform-manager sdk (effect_of s (k, c)) (view s) counted
          (drops_spare s i k t c here owns (get_elem? s.threads k) refl)
      ∙ settled-manager _ s.world

  -- After any schedule, `manager()` of a handle that a thread owns reads a manager that is not null,
  -- though it reads it without the mutex, and no thread's next step changes it.
  pub reads_manager :
      (n : ℕ) (s : S) (turns : List (ℕ × Choice S)) (i : ℕ) (t : Thread)
      → get_elem? (run sdk (start n s) turns).threads i ≡ some t
      → t.owned ≢ 0
      → let now = run sdk (start n s) turns in
        (m : ℕ) × (manager_of owning now.world ≡ some m)
        × ((turn : ℕ × Choice S) → (step sdk now turn).world.manager ≡ some m)
  unfolding manager_of
  reads_manager n s turns i t here owns =
      let now = run sdk (start n s) turns in
      let v = run-IsExclusive sdk (start n s) turns (start-IsExclusive sdk n s) in
      let counted =
        run-IsCounted (start n s) turns (start-IsExclusive sdk n s) (start-IsCounted n s) in
      elim (Option-cases now.world.manager) [
        | inl null ↦
            let null' : is_null (view now).world.manager ≡ true =
              ap is_null (settled-manager _ now.world ∙ null) in
            absurd
              (owns (ground (arith, null', counted.shared, le-total share now.threads i t here)))
        | inr (m, there) ↦
            (m, there, λ turn. keeps_manager now i t v counted here owns turn ∙ there)
      ]
