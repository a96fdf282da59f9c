-- ===== src/ApiHandle/Threads/Counted.antt =====
-- src/SdkBridge.cpp: what a call that takes its effect does to the count of the owners and to the manager.
use mathlib.Core.Path.{subst}
use plcsim_connector.Common.{
  ℕ, zero, suc, ◌+◌, ◌-◌, ◌≤◌, ◌≡◌, ◌≢◌, Option, none, some, get_elem?, refl, arith, inl, inr,
  Bool-cases, ◌==◌,
}
use plcsim_connector.Common.Int.{pos, decrement, ==ℤ_iff}
use plcsim_connector.Common.Totals.{total, le-total, add-le-total}
use plcsim_connector.ApiHandle.{World, add_ref, copy, release, drop_ref}
use plcsim_connector.ApiHandle.Refcount.{
  Holds, acquire_cases, acquire_held, copy-Holds, release-Holds,
}
use plcsim_connector.ApiHandle.Threads.Atomic.{
  View, pending, share, settled, effect, effect_at, perform, owning,
}
use plcsim_connector.ApiHandle.Threads.Calm.{source, IsExclusive}
use plcsim_connector.ApiHandle.Threads.{
  Pc, idle, acquire_tests, acquire_initializes, copy_writes, release_tests, Thread, State, Choice,
  rests, acquires, copies, releases, calls, hands, spawned,
}
use plcsim_connector.Sdk.{Sdk}

abbrev pub IsCounted : {S : Type 0} → View S → Type 0
IsCounted a = Holds a.owners a.world

-- How many owners there have to be for a call to take its effect.
abbrev pub needs : {S : Type 0} → Choice S → ℕ
needs copies = 1
needs releases = 1
needs c = 0

-- Whether a call gives a handle back.
abbrev pub drops : {S : Type 0} → Choice S → ℕ
drops releases = 1
drops c = 0

pub spawned-share : (n : ℕ) → total share (spawned n) ≡ 0
spawned-share zero = refl
spawned-share (suc n) = omega (arith, spawned-share n)

pub decrement-pos : (n : ℕ) → decrement (pos (suc n)) ≡ pos n
unfolding decrement
decrement-pos n = refl

module _ {S : Type 0} where
  pub drops-effect : (pc : Pc) (w : World S) (c : Choice S) → drops (effect pc w c) ≤ pending pc
  drops-effect (acquire_tests dll_dir) w c = ground arith
  drops-effect (acquire_initializes dll_dir) w c = omega arith
  drops-effect (copy_writes count) w c = omega arith
  drops-effect release_tests w c = omega arith
  drops-effect idle w (calls f) = omega arith
  drops-effect idle w c = omega arith
  drops-effect pc w c = omega arith

  -- A handle that a thread owns is not the one that another call, or its own, is giving back.
  pub drops_spare :
      (s : State S) (i k : ℕ) (t : Thread) (c : Choice S)
      → get_elem? s.threads i ≡ some t
      → t.owned ≢ 0
      → (o : Option Thread) → get_elem? s.threads k ≡ o
      → suc (drops (effect_at o s.world c)) ≤ total share s.threads
  drops_spare s i k t c here owns none at = omega (arith, le-total share s.threads i t here)
  drops_spare s i k t c here owns (some u) at =
      let drop = drops-effect u.pc s.world c in
      elim (Bool-cases (i == k)) [
        | inl same ↦
            let e : i ≡ k = ground arith in
            let t-eq : t ≡ u = ground (arith, here, at, e) in
            let owned-eq : u.owned ≢ 0 = subst (λ (x : Thread). x.owned ≢ 0) t-eq owns in
            omega (arith, drop, le-total share s.threads k u at)
        | inr differs ↦
            let ne : i ≢ k = ground arith in
            omega (arith, drop, add-le-total share s.threads i k t u here at ne)
      ]

  pub needs-effect :
      (pc : Pc) (w : World S) (c : Choice S) (n : ℕ)
      → source pc ≤ n
      → needs (effect pc w c) ≤ n + pending pc
  needs-effect (acquire_tests dll_dir) w c n le = ground arith
  needs-effect (acquire_initializes dll_dir) w c n le = omega arith
  needs-effect (copy_writes count) w c n le = omega arith
  needs-effect release_tests w c n le = omega arith
  needs-effect idle w rests n le = omega arith
  needs-effect idle w (calls f) n le = omega arith
  needs-effect idle w c n le = omega arith
  needs-effect pc w c n le = omega arith

  pub needs_met :
      (s : State S) (i : ℕ) (c : Choice S)
      → IsExclusive s
      → (o : Option Thread) → get_elem? s.threads i ≡ o
      → needs (effect_at o s.world c) ≤ total share s.threads
  needs_met s i c v none here = omega arith
  needs_met s i c v (some t) here = omega (
    arith,
    needs-effect t.pc s.world c t.owned (v i t here).sourced,
    le-total share s.threads i t here,
  )

  pub settled-manager : (pc : Pc) (w : World S) → (settled pc w).manager ≡ w.manager
  settled-manager Pc.acquire_reads w = refl
  settled-manager (Pc.acquire_writes count) w = refl
  settled-manager release_tests w = refl
  settled-manager pc w = refl

module _ {S : Type 0} (sdk : Sdk S) where
  pub perform-IsCounted :
      (c : Choice S) (a : View S) → IsCounted a → needs c ≤ a.owners → IsCounted (perform sdk c a)
  perform-IsCounted rests a v enough = v
  perform-IsCounted (acquires dll_dir) a v enough =
      elim (acquire_cases sdk a.owners dll_dir a.world v) [
        | inl (w', e, v') ↦ rw e v'
        | inr (x, w', e, v', _) ↦ rw e v'
      ]
  perform-IsCounted copies a v enough =
      subst (λ n. Holds n (copy owning a.world).1) (omega arith)
        (copy-Holds a.owners owning a.world v enough)
  perform-IsCounted releases a v enough =
      release-Holds sdk (a.owners - 1) owning a.world (subst (λ n. Holds n a.world) (omega arith) v)
  perform-IsCounted (calls f) a v enough = record { counted = v.counted; shared = v.shared }
  perform-IsCounted (hands j) a v enough = v

  pub release-manager :
      (n : ℕ) (w : World S)
      → w.refcount ≡ pos n
      → 2 ≤ n
      → (release sdk owning w).1.manager ≡ w.manager
  unfolding release drop_ref
  release-manager zero w e two = absurd (omega arith)
  release-manager (suc n) w e two = ground (arith, ==ℤ_iff (pos n) (pos 0), decrement-pos n)

  -- The manager stays while a handle owns the API that is not about to be given back.
  pub perform-manager :
      (c : Choice S) (a : View S)
      → IsCounted a
      → suc (drops c) ≤ a.owners
      → (perform sdk c a).world.manager ≡ a.world.manager
  unfolding add_ref copy
  perform-manager rests a v more = refl
  perform-manager (acquires dll_dir) a v more =
      let more' : a.owners ≢ 0 = λ e. absurd (omega arith) in
      rw (acquire_held sdk a.owners dll_dir a.world v more') refl
  perform-manager copies a v more = refl
  perform-manager releases a v more = release-manager a.owners a.world v.counted more
  perform-manager (calls f) a v more = refl
  perform-manager (hands j) a v more = refl
