-- ===== src/ApiHandle/Threads/Progress.antt =====
-- src/SdkBridge.cpp: no thread keeps the mutex, since none of the functions that lock it waits in between.
use plcsim_connector.Common.{
  ℕ, zero, suc, ◌+◌, ◌≤◌, ◌≡◌, true, false, Option, none, some, List, [], ◌∷◌, ◌++◌, get_elem?,
  refl, sym, ap, ◌∙◌, arith, inl, inr, Bool-cases, Option-cases, ◌==◌, if◌then◌else◌,
}
use plcsim_connector.Common.Totals.{get_elem?-set_self}
use plcsim_connector.ApiHandle.Threads.Atomic.{is_critical, pc_of}
use plcsim_connector.ApiHandle.Threads.Calm.{IsExclusive}
use plcsim_connector.ApiHandle.Threads.Exclusion.{
  step-IsExclusive, run-IsExclusive, start-IsExclusive,
}
use plcsim_connector.ApiHandle.Threads.{
  Pc, idle, acquire_waits, acquire_tests, copy_waits, copy_reads, release_waits, release_reads,
  Thread, State, Choice, rests, acquires, copies, releases, calls, hands, put, locks, inside, given,
  begins, moves, thread_moves, start, step, run,
}
use plcsim_connector.Sdk.{Sdk}
use plcsim_connector.ApiHandle.Threads.Holder.{left, HoldsAt, left-le}
use plcsim_connector.ApiHandle.Threads.Nearer.{Nearer, freed, holds, step-Nearer}

IsHeld : {S : Type 0} → State S → Type 0
IsHeld s = (k : ℕ) → s.mutex ≡ some k → is_critical (pc_of (get_elem? s.threads k)) ≡ true

-- The steps of the thread at `k` in a schedule.
abbrev pub turns_of : {S : Type 0} → ℕ → List (ℕ × Choice S) → ℕ
turns_of k [] = 0
turns_of k ((i, c) ∷ rest) = (if i == k then 1 else 0) + turns_of k rest

module _ {S : Type 0} (sdk : Sdk S) where
  HoldsAt-IsHeld :
      (k : ℕ) (pc : Pc) (s : State S) → HoldsAt k pc s → is_critical pc ≡ true → IsHeld s
  unfolding IsHeld
  HoldsAt-IsHeld k pc s h critical j held =
      let e : k ≡ j = ground (arith, h.held) in
      ap is_critical (ap (λ x. pc_of (get_elem? s.threads x)) (sym e) ∙ h.stands) ∙ critical

  free-IsHeld : (s : State S) → s.mutex ≡ none → IsHeld s
  unfolding IsHeld
  free-IsHeld s free k held = absurd (ground arith)

  given-mutex :
      (s s' : State S) (j : ℕ) (o : Option Thread)
      → s'.mutex ≡ s.mutex
      → (given sdk s s' j o).mutex ≡ s.mutex
  unfolding given put
  given-mutex s s' j none same = refl
  given-mutex s s' j (some t) same = same

  begins-mutex : (s : State S) (i n : ℕ) (c : Choice S) → (begins sdk s i n c).mutex ≡ s.mutex
  unfolding begins put given
  begins-mutex s i n rests = refl
  begins-mutex s i n (acquires dll_dir) = refl
  begins-mutex s i zero copies = refl
  begins-mutex s i (suc n) copies = refl
  begins-mutex s i zero releases = refl
  begins-mutex s i (suc n) releases = refl
  begins-mutex s i n (calls f) = refl
  begins-mutex s i zero (hands j) = refl
  begins-mutex s i (suc n) (hands j) =
      given-mutex s (put sdk s i n idle) j (get_elem? (put sdk s i n idle).threads j) refl

  locks-IsHeld :
      (s : State S) (i : ℕ) (t : Thread) (pc : Pc) (mutex : Option ℕ)
      → get_elem? s.threads i ≡ some t
      → mutex ≡ none
      → is_critical pc ≡ true
      → IsHeld (locks sdk s i t.owned pc mutex)
  unfolding locks put
  locks-IsHeld s i t pc (some holder) here free critical = absurd (ground arith)
  locks-IsHeld s i t pc none here free critical =
      HoldsAt-IsHeld i pc _
        (record { held = refl; stands = ap pc_of (get_elem?-set_self s.threads i t _ here) })
        critical

  moves-IsHeld :
      (s : State S) (i : ℕ) (t : Thread) (pc : Pc) (c : Choice S)
      → get_elem? s.threads i ≡ some t
      → s.mutex ≡ none
      → is_critical pc ≡ false
      → IsHeld (moves sdk s i t.owned pc c)
  unfolding moves
  moves-IsHeld s i t idle c here free out = free-IsHeld _ (begins-mutex s i t.owned c ∙ free)
  moves-IsHeld s i t (acquire_waits dll_dir) c here free out =
      locks-IsHeld s i t (acquire_tests dll_dir) s.mutex here free refl
  moves-IsHeld s i t copy_waits c here free out =
      locks-IsHeld s i t copy_reads s.mutex here free refl
  moves-IsHeld s i t release_waits c here free out =
      locks-IsHeld s i t release_reads s.mutex here free refl
  moves-IsHeld s i t pc c here free out = absurd (ground arith)

  free-turn :
      (s : State S) (i : ℕ) (c : Choice S) (o : Option Thread)
      → IsExclusive s
      → s.mutex ≡ none
      → get_elem? s.threads i ≡ o
      → IsHeld (thread_moves sdk s i o c)
  unfolding thread_moves
  free-turn s i c none v free here = free-IsHeld s free
  free-turn s i c (some t) v free here = elim (Bool-cases (is_critical t.pc)) [
    | inl inside ↦ let held = (v i t here).alone inside in absurd (ground (arith, held, free))
    | inr out ↦ moves-IsHeld s i t t.pc c here free out
  ]

  Nearer-IsHeld : (k b : ℕ) (pc : Pc) (s : State S) → Nearer k b pc s → IsHeld s
  Nearer-IsHeld k b pc s (freed free) = free-IsHeld s free
  Nearer-IsHeld k b pc s (holds pc' h critical less) = HoldsAt-IsHeld k pc' s h critical

  step-IsHeld :
      (s : State S) (turn : ℕ × Choice S) → IsExclusive s → IsHeld s → IsHeld (step sdk s turn)
  unfolding step IsHeld
  step-IsHeld s (i, c) v held = elim (Option-cases s.mutex) [
    | inl free ↦ free-turn s i c _ v free refl
    | inr (k, e) ↦
        Nearer-IsHeld k _ _ _
          (step-Nearer sdk s k i _ c v (record { held = e; stands = refl }) (held k e))
  ]

  run-IsHeld :
      (s : State S) (turns : List (ℕ × Choice S))
      → IsExclusive s
      → IsHeld s
      → IsHeld (run sdk s turns)
  unfolding run
  run-IsHeld s [] v held = held
  run-IsHeld s (turn ∷ rest) v held =
      run-IsHeld (step sdk s turn) rest (step-IsExclusive sdk s turn v) (step-IsHeld s turn v held)

  -- A part of a schedule after which the mutex is free.
  abbrev pub FreesMutex : State S → List (ℕ × Choice S) → Type 0
  FreesMutex s turns =
      (front : List (ℕ × Choice S)) × (back : List (ℕ × Choice S)) × (turns ≡ front ++ back)
      × ((run sdk s front).mutex ≡ none)

  later-FreesMutex :
      (s : State S) (turn : ℕ × Choice S) (rest : List (ℕ × Choice S))
      → FreesMutex (step sdk s turn) rest
      → FreesMutex s (turn ∷ rest)
  unfolding run
  later-FreesMutex s turn rest (front, back, split, free) =
      (turn ∷ front, back, ap (◌∷◌ turn) split, free)

  after_step :
      (s : State S) (k : ℕ) (pc : Pc) (i : ℕ) (c : Choice S) (rest : List (ℕ × Choice S))
      → Nearer k (if i == k then 1 else 0) pc (step sdk s (i, c))
      → left pc ≤ turns_of k ((i, c) ∷ rest)
      → ((pc' : Pc)
          → HoldsAt k pc' (step sdk s (i, c))
          → is_critical pc' ≡ true
          → left pc' ≤ turns_of k rest
          → FreesMutex (step sdk s (i, c)) rest)
      → FreesMutex s ((i, c) ∷ rest)
  unfolding run
  after_step s k pc i c rest (freed free) enough then_on = ((i, c) ∷ [], rest, refl, free)
  after_step s k pc i c rest (holds pc' h critical less) enough then_on =
      later-FreesMutex s (i, c) rest (then_on pc' h critical (ground (arith, less, enough)))

  critical-left : (pc : Pc) → is_critical pc ≡ true → 1 ≤ left pc
  critical-left idle critical = absurd (ground arith)
  critical-left (acquire_waits dll_dir) critical = absurd (ground arith)
  critical-left copy_waits critical = absurd (ground arith)
  critical-left release_waits critical = absurd (ground arith)
  critical-left pc critical = omega arith

  critical_of :
      (s : State S) (k : ℕ)
      → IsHeld s
      → s.mutex ≡ some k
      → is_critical (pc_of (get_elem? s.threads k)) ≡ true
  unfolding IsHeld
  critical_of s k inside held = inside k held

  loop-FreesMutex :
      (s : State S) (k : ℕ) (pc : Pc) (turns : List (ℕ × Choice S))
      → IsExclusive s
      → HoldsAt k pc s
      → is_critical pc ≡ true
      → left pc ≤ turns_of k turns
      → FreesMutex s turns
  unfolding run
  loop-FreesMutex s k pc [] v h critical enough = absurd (omega (arith, critical-left pc critical))
  loop-FreesMutex s k pc ((i, c) ∷ rest) v h critical enough =
      after_step s k pc i c rest (step-Nearer sdk s k i pc c v h critical) enough
        (λ pc' h' critical' enough'.
          loop-FreesMutex (step sdk s (i, c)) k pc' rest (step-IsExclusive sdk s (i, c) v) h'
            critical' enough')

  -- After any schedule, a thread that holds the mutex frees it by its fifth own step from then on,
  -- whatever the other threads do in between.
  pub run-FreesMutex :
      (n : ℕ) (s : S) (turns later : List (ℕ × Choice S)) (k : ℕ)
      → (run sdk (start n s) turns).mutex ≡ some k
      → 5 ≤ turns_of k later
      → FreesMutex (run sdk (start n s) turns) later
  run-FreesMutex n s turns later k held five =
      let now = run sdk (start n s) turns in
      let v = start-IsExclusive sdk n s in
      let inside = run-IsHeld (start n s) turns v (free-IsHeld (start n s) refl) in
      loop-FreesMutex now k _ later (run-IsExclusive sdk (start n s) turns v)
        (record { held = held; stands = refl }) (critical_of now k inside held)
        (omega (arith, five, left-le (pc_of (get_elem? now.threads k))))
