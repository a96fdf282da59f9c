-- ===== src/ApiHandle/Threads/Viewed.antt =====
-- src/SdkBridge.cpp: how the step of a thread that locks or unlocks `g_api_mutex`, or is in between, shows
-- in the view of the globals.
use plcsim_connector.Common.{
  ℕ, ◌+◌, ◌-◌, ◌≡◌, ◌≢◌, true, false, Option, none, some, List, get_elem?, set, refl, sym, ap, ◌∙◌,
  arith, inl, inr, Bool-cases, ◌==◌, Bytes,
}
use plcsim_connector.Common.Int.{pos, ◌==ℤ◌, ==ℤ_iff, increment-decrement, decrement-increment}
use plcsim_connector.Common.Totals.{
  total, total-set, le-total, get_elem?-set_self, get_elem?-set_ne,
}
use plcsim_connector.ApiHandle.{World, initialize, acquire, add_ref, copy, release, drop_ref}
use plcsim_connector.ApiHandle.Refcount.{initialize_cases}
use plcsim_connector.ApiHandle.Threads.Atomic.{
  View, is_critical, pending, share, settled, holder_pc, view, effect, acquired, perform,
}
use plcsim_connector.ApiHandle.Threads.Calm.{Relies, Fits}
use plcsim_connector.ApiHandle.Threads.{
  Pc, idle, acquire_tests, acquire_initializes, acquire_reads, acquire_writes, copy_reads,
  copy_writes, release_reads, release_writes, release_tests, Thread, State, Choice, put, locks,
  unlocks, initialized, inside, goes_on,
}
use plcsim_connector.Sdk.{Sdk}

module _ {S : Type 0} where
  pub View_eq :
      {n n' : ℕ} {w w' : World S}
      → n ≡ n'
      → w ≡ w'
      → ◌≡◌ {A = View S} (record { owners = n; world = w }) (record { owners = n'; world = w' })
  View_eq p q i = record { owners = p i; world = q i }

  pub settled-outside : (pc : Pc) (w : World S) → is_critical pc ≡ false → settled pc w ≡ w
  settled-outside idle w out = refl
  settled-outside acquire_reads w out = absurd (ground arith)
  settled-outside (acquire_writes count) w out = absurd (ground arith)
  settled-outside release_tests w out = absurd (ground arith)
  settled-outside pc w out = refl

  pub settled-called :
      (pc : Pc) (w : World S) (f : S → S)
      → settled pc (record w { external = f w.external })
        ≡ record (settled pc w) { external = f (settled pc w).external }
  settled-called idle w f = refl
  settled-called acquire_reads w f = refl
  settled-called (acquire_writes count) w f = refl
  settled-called release_tests w f = refl
  settled-called pc w f = refl

  -- A thread outside leaves the view of the globals alone.
  pub settled-set :
      (threads : List Thread) (i : ℕ) (t t' : Thread) (mutex : Option ℕ) (w : World S)
      → get_elem? threads i ≡ some t
      → settled t.pc w ≡ settled t'.pc w
      → settled (holder_pc (set threads i t') mutex) w ≡ settled (holder_pc threads mutex) w
  settled-set threads i t t' none w here same = refl
  settled-set threads i t t' (some k) w here same = elim (Bool-cases (k == i)) [
    | inl at ↦
        let e : k ≡ i = ground arith in
        rw (e, get_elem?-set_self threads i t t' here, here) (sym same)
    | inr away ↦ let ne : k ≢ i = ground arith in rw (get_elem?-set_ne threads i k t' ne) refl
  ]

  pub replaced-view :
      (s : State S) (i : ℕ) (t t' : Thread)
      → get_elem? s.threads i ≡ some t
      → share t' ≡ share t
      → settled t.pc s.world ≡ settled t'.pc s.world
      → view (record s { threads = set s.threads i t' }) ≡ view s
  replaced-view s i t t' here same settle =
      View_eq (omega (arith, total-set share s.threads i t t' here, same))
        (settled-set s.threads i t t' s.mutex s.world here settle)

module _ {S : Type 0} (sdk : Sdk S) where
  pub locks-view :
      (s : State S) (i : ℕ) (t : Thread) (pc : Pc) (mutex : Option ℕ)
      → get_elem? s.threads i ≡ some t
      → s.mutex ≡ mutex
      → pending pc ≡ pending t.pc
      → settled pc s.world ≡ s.world
      → view (locks sdk s i t.owned pc mutex) ≡ view s
  unfolding locks put
  locks-view s i t pc (some holder) here e same settle = refl
  locks-view s i t pc none here e same settle =
      let t' : Thread = record { owned = t.owned; pc = pc } in
      View_eq (omega (arith, total-set share s.threads i t t' here, same))
        (rw (get_elem?-set_self s.threads i t t' here, e) settle)

  pub unlocks-view :
      (s : State S) (i : ℕ) (t : Thread) (n : ℕ)
      → get_elem? s.threads i ≡ some t
      → s.mutex ≡ some i
      → n ≡ share t
      → settled t.pc s.world ≡ s.world
      → view (unlocks sdk s i n) ≡ view s
  unfolding unlocks put
  unlocks-view s i t n here held same settle =
      let t' : Thread = record { owned = n; pc = idle } in
      View_eq (omega (arith, total-set share s.threads i t t' here, same))
        (rw (held, here) (sym settle))

  pub acquire-first :
      (dll_dir : Option Bytes) (w : World S) (m : ℕ)
      → w.refcount ≡ pos 0
      → let r = initialized sdk (initialize sdk dll_dir w) in
        ◌≡◌ {A = View S}
          (record { owners = m + pending r.0; world = settled r.0 r.1 })
          (acquired sdk (m + 0) (acquire sdk dll_dir w))
  unfolding initialized acquire add_ref
  acquire-first dll_dir w m first = elim (initialize_cases sdk dll_dir w) [
    | inl (w', e, same, found) ↦
        rw ((==ℤ_iff w.refcount (pos 0)).1 first, e) (View_eq (omega arith) refl)
    | inr (x, w', e, same, kept) ↦ rw ((==ℤ_iff w.refcount (pos 0)).1 first, e) refl
  ]

  pub acquire-counted :
      (dll_dir : Option Bytes) (w : World S)
      → (w.refcount ==ℤ pos 0) ≡ false
      → acquire sdk dll_dir w ≡ add_ref w
  unfolding acquire
  acquire-counted dll_dir w counted = rw counted refl

  -- One step between lock and unlock, as the view of it.
  pub inside-perform :
      (pc : Pc) (w : World S) (c : Choice S) (m : ℕ)
      → is_critical pc ≡ true
      → Relies pc w
      → let r = inside sdk pc w in
        ◌≡◌ {A = View S}
          (record { owners = m + pending r.0; world = settled r.0 r.1 })
          (perform sdk (effect pc w c) (record { owners = m + pending pc; world = settled pc w }))
  unfolding inside acquire add_ref copy release drop_ref
  inside-perform idle w c m critical relies = absurd (ground arith)
  inside-perform (acquire_tests dll_dir) w c m critical relies =
      elim (Bool-cases (w.refcount ==ℤ pos 0)) [
        | inl first ↦ rw first refl
        | inr counted ↦ rw (counted, acquire-counted dll_dir w counted) (View_eq (omega arith) refl)
      ]
  inside-perform (acquire_initializes dll_dir) w c m critical relies =
      acquire-first dll_dir w m relies
  inside-perform acquire_reads w c m critical relies = refl
  inside-perform (acquire_writes count) w c m critical relies = rw relies refl
  inside-perform copy_reads w c m critical relies = refl
  inside-perform (copy_writes count) w c m critical relies = rw relies (View_eq (omega arith) refl)
  inside-perform release_reads w c m critical relies = refl
  inside-perform (release_writes count) w c m critical relies =
      rw (relies, increment-decrement w.refcount) refl
  inside-perform release_tests w c m critical relies =
      rw (decrement-increment w.refcount) (View_eq (omega arith) refl)
  inside-perform pc w c m critical relies = refl

  pub goes_on-view :
      (s : State S) (i : ℕ) (t : Thread) (c : Choice S)
      → get_elem? s.threads i ≡ some t
      → is_critical t.pc ≡ true
      → Fits s.mutex s.world i t
      → view (goes_on sdk s i t.owned (inside sdk t.pc s.world))
        ≡ perform sdk (effect t.pc s.world c) (view s)
  unfolding goes_on put
  goes_on-view s i t c here critical fits =
      let (pc', w') = inside sdk t.pc s.world in
      let t' : Thread = record { owned = t.owned; pc = pc' } in
      let others = total share s.threads - share t + t.owned in
      let le = le-total share s.threads i t here in
      let held = fits.alone critical in
      rw (held, here, get_elem?-set_self s.threads i t t' here)
        (View_eq {w = settled pc' w'}
            (let e : total share (set s.threads i t') ≡ others + pending pc' =
                omega (arith, total-set share s.threads i t t' here, le) in
              e)
            refl
          ∙ inside-perform t.pc s.world c others critical fits.relies
          ∙ ap
              (λ n.
                perform sdk (effect t.pc s.world c)
                  (record { owners = n; world = settled t.pc s.world }))
              (omega (arith, le)))
