-- ===== src/ApiHandle/Process.antt =====
-- All handles of a process and the steps that change them, in any order: `ApiHandle` of
-- src/SdkBridge.cpp as the objects of several threads use it.
pub mod Shared
pub mod Kept
use plcsim_connector.Common.{
  set, ltb, length, if◌then◌else◌, ℕ, zero, suc, Option, List, [], ◌∷◌, Bytes,
}
use plcsim_connector.Error.{Outcome, returned, thrown, undefined}
use plcsim_connector.Sdk.{Sdk}
use plcsim_connector.ApiHandle.{World, ApiHandle, unowned, acquire, copy, move, release, assign}

pub record Process (S : Type 0) : Type 0 where
  pub handles : List ApiHandle
  pub world : World S

-- What a thread can do next, with handles by their place in the list: `moves` and `copies` construct
-- a new handle, the assignments overwrite the first from the second.
pub data Action : Type 0 where
  acquires : Option Bytes → Action
  copies : ℕ → Action
  moves : ℕ → Action
  copy_assigns : ℕ → ℕ → Action
  move_assigns : ℕ → ℕ → Action
  releases : ℕ → Action

-- The handle at a place; no handle there counts as one that owns nothing.
abbrev pub handle_at : List ApiHandle → ℕ → ApiHandle
handle_at [] i = unowned
handle_at (h ∷ hs) zero = h
handle_at (h ∷ hs) (suc i) = handle_at hs i

module _ {S : Type 0} (sdk : Sdk S) where
  -- A constructor that threw has made no handle.
  unfoldable pub constructed : List ApiHandle → Outcome ApiHandle × World S → Process S
  constructed hs (returned h, w) = record { handles = h ∷ hs; world = w }
  constructed hs (thrown e, w) = record { handles = hs; world = w }
  constructed hs (undefined, w) = record { handles = hs; world = w }

  -- `*this` is the handle at `i`, and `other` the argument of the assignment.
  unfoldable pub assigned : List ApiHandle → ℕ → ApiHandle → World S → Process S
  assigned hs i other w =
      let (h, w') = assign sdk (handle_at hs i) other w in
      record { handles = set hs i h; world = w' }

  -- There is nothing to assign to past the end of the list.
  unfoldable pub step : Process S → Action → Process S
  unfolding constructed assigned
  step p (acquires dll_dir) = constructed p.handles (acquire sdk dll_dir p.world)
  step p (copies i) =
      let (h, w) = copy (handle_at p.handles i) p.world in
      record { handles = h ∷ p.handles; world = w }
  step p (moves i) =
      let (h, other) = move (handle_at p.handles i) in
      record p { handles = h ∷ set p.handles i other }
  step p (copy_assigns i j) =
      let (other, w) = copy (handle_at p.handles j) p.world in
      if ltb i (length p.handles) then assigned p.handles i other w else p
  step p (move_assigns i j) =
      let (other, rest) = move (handle_at p.handles j) in
      if ltb i (length p.handles) then assigned (set p.handles j rest) i other p.world else p
  step p (releases i) =
      let (h, w) = release sdk (handle_at p.handles i) p.world in
      record { handles = set p.handles i h; world = w }

  unfoldable pub run : Process S → List Action → Process S
  run p [] = p
  run p (a ∷ rest) = run (step p a) rest
