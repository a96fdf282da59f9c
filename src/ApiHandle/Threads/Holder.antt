-- ===== src/ApiHandle/Threads/Holder.antt =====
-- src/SdkBridge.cpp: the thread that holds `g_api_mutex`, and how far it is from the unlock.
use mathlib.Core.Path.{subst}
use plcsim_connector.Common.{
  ℕ, zero, suc, ◌≤◌, ◌≡◌, ◌≢◌, true, false, Option, none, some, get_elem?, refl, sym, ap, ◌∙◌,
  arith, inl, inr, Bool-cases, ◌==◌,
}
use plcsim_connector.Common.Int.{pos, ◌==ℤ◌}
use plcsim_connector.Common.Totals.{get_elem?-set_self, get_elem?-set_ne}
use plcsim_connector.ApiHandle.{World}
use plcsim_connector.ApiHandle.Refcount.{initialize_cases}
use plcsim_connector.ApiHandle.Threads.Atomic.{is_critical, pc_of}
use plcsim_connector.ApiHandle.Threads.{
  Pc, idle, acquire_waits, acquire_tests, acquire_initializes, acquire_reads, acquire_writes,
  acquire_returns, acquire_throws, copy_waits, copy_reads, copy_writes, copy_returns, release_waits,
  release_reads, release_writes, release_tests, release_returns, Thread, State, Choice, rests,
  acquires, copies, releases, calls, hands, put, locks, initialized, inside, given, begins, moves,
}
use plcsim_connector.Sdk.{Sdk}

-- How many steps are left until the unlock, at most.
abbrev pub left : Pc → ℕ
left (acquire_tests dll_dir) = 5
left (acquire_initializes dll_dir) = 4
left acquire_reads = 3
left (acquire_writes count) = 2
left acquire_returns = 1
left acquire_throws = 1
left copy_reads = 3
left (copy_writes count) = 2
left copy_returns = 1
left release_reads = 4
left (release_writes count) = 3
left release_tests = 2
left release_returns = 1
left pc = 0

-- The thread at `k` holds the mutex, at this place.
pub record HoldsAt {S : Type 0} (k : ℕ) (pc : Pc) (s : State S) : Type 0 where
  pub held : s.mutex ≡ some k
  pub stands : pc_of (get_elem? s.threads k) ≡ pc

pub left-le : (pc : Pc) → left pc ≤ 5
left-le (acquire_tests dll_dir) = omega arith
left-le (acquire_initializes dll_dir) = omega arith
left-le pc = omega arith

module _ {S : Type 0} (sdk : Sdk S) where
  pub put-HoldsAt :
      (s : State S) (k i n : ℕ) (pc q : Pc)
      → k ≢ i
      → HoldsAt k pc s
      → HoldsAt k pc (put sdk s i n q)
  unfolding put
  put-HoldsAt s k i n pc q ne h = record {
    held = h.held;
    stands = ap pc_of (get_elem?-set_ne s.threads i k _ ne) ∙ h.stands;
  }

  -- A thread between lock and unlock gets nearer to the unlock.
  pub inside-left :
      (pc : Pc) (w : World S)
      → 2 ≤ left pc
      → let pc' = (inside sdk pc w).0 in (is_critical pc' ≡ true) × (suc (left pc') ≤ left pc)
  unfolding inside initialized
  inside-left (acquire_tests dll_dir) w two = elim (Bool-cases (w.refcount ==ℤ pos 0)) [
    | inl first ↦ rw first (refl, omega arith)
    | inr counted ↦ rw counted (refl, omega arith)
  ]
  inside-left (acquire_initializes dll_dir) w two = elim (initialize_cases sdk dll_dir w) [
    | inl (w', e, same, found) ↦ rw e (refl, omega arith)
    | inr (x, w', e, same, kept) ↦ rw e (refl, omega arith)
  ]
  inside-left acquire_reads w two = (refl, omega arith)
  inside-left (acquire_writes count) w two = (refl, omega arith)
  inside-left copy_reads w two = (refl, omega arith)
  inside-left (copy_writes count) w two = (refl, omega arith)
  inside-left release_reads w two = (refl, omega arith)
  inside-left (release_writes count) w two = (refl, omega arith)
  inside-left release_tests w two = (refl, omega arith)
  inside-left pc w two = absurd (omega arith)

  pub given-HoldsAt :
      (s s' : State S) (k j : ℕ) (pc : Pc) (o : Option Thread)
      → HoldsAt k pc s
      → HoldsAt k pc s'
      → get_elem? s'.threads j ≡ o
      → HoldsAt k pc (given sdk s s' j o)
  unfolding given put
  given-HoldsAt s s' k j pc none h h' here = h
  given-HoldsAt s s' k j pc (some t) h h' here = elim (Bool-cases (k == j)) [
    | inr away ↦ put-HoldsAt s' k j (suc t.owned) pc t.pc (ground arith) h'
    | inl at ↦
        let e : k ≡ j = ground arith in
        let at_j = subst (λ x. HoldsAt x pc s') e h' in
        subst (λ x. HoldsAt x pc (put sdk s' j (suc t.owned) t.pc)) (sym e)
          (record {
            held = at_j.held;
            stands =
                ap pc_of (get_elem?-set_self s'.threads j t _ here)
                ∙ ap pc_of (sym here)
                ∙ at_j.stands;
          })
  ]

  pub begins-HoldsAt :
      (s : State S) (k i n : ℕ) (pc : Pc) (c : Choice S)
      → k ≢ i
      → HoldsAt k pc s
      → HoldsAt k pc (begins sdk s i n c)
  unfolding begins
  begins-HoldsAt s k i n pc rests ne h = h
  begins-HoldsAt s k i n pc (acquires dll_dir) ne h = put-HoldsAt s k i n pc _ ne h
  begins-HoldsAt s k i zero pc copies ne h = h
  begins-HoldsAt s k i (suc n) pc copies ne h = put-HoldsAt s k i (suc n) pc copy_waits ne h
  begins-HoldsAt s k i zero pc releases ne h = h
  begins-HoldsAt s k i (suc n) pc releases ne h = put-HoldsAt s k i n pc release_waits ne h
  begins-HoldsAt s k i n pc (calls f) ne h = record { held = h.held; stands = h.stands }
  begins-HoldsAt s k i zero pc (hands j) ne h = h
  begins-HoldsAt s k i (suc n) pc (hands j) ne h =
      given-HoldsAt s _ k j pc _ h (put-HoldsAt s k i n pc idle ne h) refl

  pub locked-HoldsAt :
      (s : State S) (k i n : ℕ) (pc q : Pc) (mutex : Option ℕ)
      → HoldsAt k pc s
      → s.mutex ≡ mutex
      → HoldsAt k pc (locks sdk s i n q mutex)
  unfolding locks
  locked-HoldsAt s k i n pc q none h e = absurd (ground (arith, h.held))
  locked-HoldsAt s k i n pc q (some holder) h e = h

  -- The steps of the others leave the holder where it is.
  pub moves-HoldsAt :
      (s : State S) (k i : ℕ) (t : Thread) (pc q : Pc) (c : Choice S)
      → is_critical q ≡ false
      → k ≢ i
      → HoldsAt k pc s
      → HoldsAt k pc (moves sdk s i t.owned q c)
  unfolding moves
  moves-HoldsAt s k i t pc idle c out ne h = begins-HoldsAt s k i t.owned pc c ne h
  moves-HoldsAt s k i t pc (acquire_waits dll_dir) c out ne h =
      locked-HoldsAt s k i t.owned pc (acquire_tests dll_dir) s.mutex h refl
  moves-HoldsAt s k i t pc copy_waits c out ne h =
      locked-HoldsAt s k i t.owned pc copy_reads s.mutex h refl
  moves-HoldsAt s k i t pc release_waits c out ne h =
      locked-HoldsAt s k i t.owned pc release_reads s.mutex h refl
  moves-HoldsAt s k i t pc (acquire_tests dll_dir) c out ne h = absurd (ground arith)
  moves-HoldsAt s k i t pc q c out ne h = absurd (ground arith)
