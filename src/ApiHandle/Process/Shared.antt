-- ===== src/ApiHandle/Process/Shared.antt =====
-- Every history of a process keeps the count of src/SdkBridge.cpp right, and the manager in place for
-- whoever still owns the API.
use mathlib.Core.Path.{subst}
use plcsim_connector.Common.{
  Option-cases, ℕ, zero, suc, ◌+◌, ◌≤◌, ◌<◌, ◌≡◌, refl, sym, ap, true, none, some, List, [], ◌∷◌,
  arith, inl, inr, length, ltb, Bool-cases,
}
use plcsim_connector.Common.Int.{pos}
use plcsim_connector.Sdk.{Sdk}
use plcsim_connector.ApiHandle.{World, ApiHandle, unowned, manager_of, copy, move, assign}
use plcsim_connector.ApiHandle.Process.{
  Process, Action, acquires, copies, moves, copy_assigns, move_assigns, releases, handle_at,
  constructed, assigned, step, run,
}
use plcsim_connector.Common.{set}
use plcsim_connector.ApiHandle.Refcount.{
  release_lem, share, owners, Holds, copy-Holds, release-Holds, acquire_cases,
}

pub length-set : (hs : List ApiHandle) (i : ℕ) (h : ApiHandle) → length (set hs i h) ≡ length hs
length-set [] i h = refl
length-set (x ∷ hs) zero h = refl
length-set (x ∷ hs) (suc i) h = ap suc (length-set hs i h)

pub share-le : (hs : List ApiHandle) (i : ℕ) → share (handle_at hs i) ≤ owners hs
share-le [] i = omega arith
share-le (x ∷ hs) zero = omega arith
share-le (x ∷ hs) (suc i) = omega (arith, share-le hs i)

pub owners-set :
    (hs : List ApiHandle) (i : ℕ) (h : ApiHandle)
    → i < length hs
    → owners (set hs i h) + share (handle_at hs i) ≡ owners hs + share h
owners-set [] i h lt = absurd (omega arith)
owners-set (x ∷ hs) zero h lt = omega arith
owners-set (x ∷ hs) (suc i) h lt = omega (arith, owners-set hs i h (omega arith))

pub owners-set-unowned :
    (hs : List ApiHandle) (i : ℕ) → owners (set hs i unowned) + share (handle_at hs i) ≡ owners hs
owners-set-unowned [] i = omega arith
owners-set-unowned (x ∷ hs) zero = omega arith
owners-set-unowned (x ∷ hs) (suc i) = omega (arith, owners-set-unowned hs i)

abbrev pub IsCounted : {S : Type 0} → Process S → Type 0
IsCounted p = Holds (owners p.handles) p.world

module _ {S : Type 0} (sdk : Sdk S) where
  pub recount : {n m : ℕ} (w : World S) → n ≡ m → Holds n w → Holds m w
  recount w e v = subst (λ k. Holds k w) e v

  assigned-IsCounted :
      (hs : List ApiHandle) (i : ℕ) (other : ApiHandle) (w : World S)
      → i < length hs
      → Holds (owners hs + share other) w
      → IsCounted (assigned sdk hs i other w)
  unfolding assigned assign
  assigned-IsCounted hs i other w lt v =
      release-Holds sdk (owners (set hs i other)) (handle_at hs i) w
        (recount w (sym (owners-set hs i other lt)) v)

  -- If the count is the number of handles that own the API, and the manager is set exactly if there
  -- is such a handle, then this holds after whatever a thread does next.
  pub step-IsCounted : (p : Process S) (a : Action) → IsCounted p → IsCounted (step sdk p a)
  unfolding step constructed move copy
  step-IsCounted p (acquires dll_dir) v =
      elim (acquire_cases sdk (owners p.handles) dll_dir p.world v) [
        | inl (w', e, v') ↦ rw e (recount w' (omega arith) v')
        | inr (x, w', e, v', _) ↦ rw e v'
      ]
  step-IsCounted p (copies i) v =
      let h = handle_at p.handles i in
      recount (copy h p.world).1 (omega arith)
        (copy-Holds (owners p.handles) h p.world v (share-le p.handles i))
  step-IsCounted p (moves i) v = recount p.world (omega (arith, owners-set-unowned p.handles i)) v
  step-IsCounted p (copy_assigns i j) v = elim (Bool-cases (ltb i (length p.handles))) [
    | inr outside ↦ rw outside v
    | inl inside ↦
        let h = handle_at p.handles j in
        rw inside (
          assigned-IsCounted p.handles i h (copy h p.world).1 (ground arith)
            (copy-Holds (owners p.handles) h p.world v (share-le p.handles j)))
  ]
  step-IsCounted p (move_assigns i j) v = elim (Bool-cases (ltb i (length p.handles))) [
    | inr outside ↦ rw outside v
    | inl inside ↦
        let hs = set p.handles j unowned in
        rw inside (
          assigned-IsCounted hs i (handle_at p.handles j) p.world
            (ground (arith, length-set p.handles j unowned))
            (recount p.world (sym (owners-set-unowned p.handles j)) v))
  ]
  step-IsCounted p (releases i) v =
      let h = handle_at p.handles i in
      rw (release_lem sdk h p.world) (
        release-Holds sdk (owners (set p.handles i unowned)) h p.world
          (recount p.world (sym (owners-set-unowned p.handles i)) v))

  pub run-IsCounted :
      (p : Process S) (acts : List Action) → IsCounted p → IsCounted (run sdk p acts)
  unfolding run
  run-IsCounted p [] v = v
  run-IsCounted p (a ∷ rest) v = run-IsCounted (step sdk p a) rest (step-IsCounted p a v)

  -- A process at its start: no handles, a count of 0 and no manager.
  abbrev pub fresh : S → Process S
  fresh s = record {
    handles = [];
    world = record { refcount = pos 0; manager = none; external = s };
  }

  owner_lem :
      (p : Process S) (i : ℕ)
      → IsCounted p
      → (handle_at p.handles i).owns ≡ true
      → (m : ℕ) × (manager_of (handle_at p.handles i) p.world ≡ some m)
  unfolding manager_of
  owner_lem p i v owns = elim (Option-cases p.world.manager) [
    | inl gone ↦ absurd (ground (arith, share-le p.handles i))
    | inr (m, there) ↦ (m, rw owns there)
  ]

  -- After any history of a process, from a start without handles, every handle that owns the API
  -- gets a manager that is not null, and the count is the number of such handles.
  pub owner_has_manager :
      (s : S) (acts : List Action) (i : ℕ)
      → (handle_at (run sdk (fresh s) acts).handles i).owns ≡ true
      → let p = run sdk (fresh s) acts in
        ((m : ℕ) × (manager_of (handle_at p.handles i) p.world ≡ some m))
        × (p.world.refcount ≡ pos (owners p.handles))
  owner_has_manager s acts i owns =
      let v = run-IsCounted (fresh s) acts (record { counted = refl; shared = refl }) in
      (owner_lem (run sdk (fresh s) acts) i v owns, v.counted)
