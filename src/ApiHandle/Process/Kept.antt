-- ===== src/ApiHandle/Process/Kept.antt =====
-- No step of a process takes the manager of src/SdkBridge.cpp from a handle that owns the API.
use plcsim_connector.Common.{
  ℕ, ◌+◌, ◌<◌, ◌≡◌, ◌≢◌, ◌∙◌, refl, sym, List, arith, inl, inr, length, ltb, Bool-cases,
}
use plcsim_connector.Common.Int.{==ℤ_iff, decrement, pos}
use plcsim_connector.Sdk.{Sdk}
use plcsim_connector.ApiHandle.{
  add_ref, drop_ref, World, ApiHandle, unowned, copy, move, release, assign,
}
use plcsim_connector.ApiHandle.Process.{
  Process, Action, acquires, copies, moves, copy_assigns, move_assigns, releases, handle_at,
  constructed, assigned, step,
}
use plcsim_connector.Common.{set}
use plcsim_connector.ApiHandle.Process.Shared.{
  IsCounted, recount, owners-set, owners-set-unowned, share-le, length-set,
}
use plcsim_connector.ApiHandle.Refcount.{
  release_lem, share, owners, Holds, copy-Holds, acquire_held,
}

copy-keeps : {S : Type 0} (h : ApiHandle) (w : World S) → (copy h w).1.manager ≡ w.manager
unfolding copy
copy-keeps h w = ground arith

module _ {S : Type 0} (sdk : Sdk S) where
  release-keeps :
      (n : ℕ) (h : ApiHandle) (w : World S)
      → Holds (n + share h) w
      → n ≢ 0
      → (release sdk h w).1.manager ≡ w.manager
  unfolding release drop_ref decrement
  release-keeps n h w v more = ground (arith, ==ℤ_iff (pos n) (pos 0))

  assigned-keeps :
      (hs : List ApiHandle) (i : ℕ) (other : ApiHandle) (w : World S)
      → i < length hs
      → Holds (owners hs + share other) w
      → owners (assigned sdk hs i other w).handles ≢ 0
      → (assigned sdk hs i other w).world.manager ≡ w.manager
  unfolding assigned assign
  assigned-keeps hs i other w lt v =
      release-keeps (owners (set hs i other)) (handle_at hs i) w
        (recount sdk w (sym (owners-set hs i other lt)) v)

  -- Where the count is right and some handle owns the API before and after a step, the step leaves
  -- the manager where it is: nobody's manager is shut down and freed by another object.
  pub step-keeps_manager :
      (p : Process S) (a : Action)
      → IsCounted p
      → owners p.handles ≢ 0
      → owners (step sdk p a).handles ≢ 0
      → (step sdk p a).world.manager ≡ p.world.manager
  unfolding step constructed move copy add_ref
  step-keeps_manager p (acquires dll_dir) v before after =
      rw (acquire_held sdk (owners p.handles) dll_dir p.world v before)
  step-keeps_manager p (copies i) v before after = copy-keeps (handle_at p.handles i) p.world
  step-keeps_manager p (moves i) v before after = refl
  step-keeps_manager p (copy_assigns i j) v before after =
      elim (Bool-cases (ltb i (length p.handles))) [
        | inr outside ↦ rw outside
        | inl inside ↦
            let h = handle_at p.handles j in
            rw inside (
              assigned-keeps p.handles i h (copy h p.world).1 (ground arith)
                (copy-Holds (owners p.handles) h p.world v (share-le p.handles j))
                (rw inside at after)
              ∙ copy-keeps h p.world)
      ]
  step-keeps_manager p (move_assigns i j) v before after =
      elim (Bool-cases (ltb i (length p.handles))) [
        | inr outside ↦ rw outside
        | inl inside ↦ rw inside (
            assigned-keeps (set p.handles j unowned) i (handle_at p.handles j) p.world
              (ground (arith, length-set p.handles j unowned))
              (recount sdk p.world (sym (owners-set-unowned p.handles j)) v) (rw inside at after))
      ]
  step-keeps_manager p (releases i) v before after =
      let h = handle_at p.handles i in
      release-keeps (owners (set p.handles i unowned)) h p.world
        (recount sdk p.world (sym (owners-set-unowned p.handles i)) v)
        (rw (release_lem sdk h p.world) at after)
