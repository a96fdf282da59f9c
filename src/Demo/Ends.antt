-- ===== src/Demo/Ends.antt =====
-- How main of examples/cpp/di_do_demo.cpp ends.
use plcsim_connector.Common.{
  ℕ, suc, ◌+◌, ◌≡◌, ◌≢◌, refl, true, none, List, [], ◌∷◌, ◌++◌, Bytes, codes, arith,
}
use plcsim_connector.Common.Int.{ℤ}
use plcsim_connector.ApiHandle.{World, ApiHandle}
use plcsim_connector.ApiHandle.Refcount.{share, Holds, release-Holds}
use plcsim_connector.Demo.{
  Screen, Console, exited, Finished, usage, report, leave_plc, use_plc, with_runtime, finish,
  leave_runtime, use_runtime, cycles_of, main,
}
use plcsim_connector.Demo.Steady.{Leaves, with_plc-IsSteady}
use plcsim_connector.Error.{Error, Outcome, returned, thrown, undefined}
use plcsim_connector.Instance.{Impl, Held}
use plcsim_connector.Instance.Close.{close-Holds}
use plcsim_connector.Instance.Evolution.{Evolves-KeepsCount}
use plcsim_connector.Instance.Methods
use plcsim_connector.Prog.{Prog, continue}
use plcsim_connector.Python.Discarding.{moved}
use plcsim_connector.RuntimeManager
use plcsim_connector.RuntimeManager.{construct, version, attach}
use plcsim_connector.RuntimeManager.Ends.{Ends, ended, failed, Counts}
use plcsim_connector.RuntimeManager.Ownership.{Attached, construct-Ends, attach-Ends}
use plcsim_connector.RuntimeManager.Queries.{Owning, version-Ends}
use plcsim_connector.Sdk.{Sdk}

-- A scope is left, by its end or by an error, with `n` owners of the API.
pub data Left {S A : Type 0} (n : ℕ) : Outcome A × Console S → Type 0 where
  normally : {a : A} {k : Console S} → Holds n k.world → Left n (returned a, k)
  by_error : {e : Error} {k : Console S} → Holds n k.world → Left n (thrown e, k)

-- A run that was given a name of an instance ends with the status 0 and no message, or with 1 and the
-- report of an error.
pub data RunEnds {S : Type 0} (n : ℕ) : Finished S → Type 0 where
  worked :
      {out : Bytes} {w' : World S}
      → Holds n w'
      → RunEnds n (record { exit = exited 0; out = out; err = []; world = w' })
  reported :
      {out : Bytes} (e : Error) {w' : World S}
      → Holds n w'
      → RunEnds n (record { exit = exited 1; out = out; err = report e; world = w' })

-- The process with the given arguments: without any, it ends with the status 2 and the usage, and the
-- state is as it was.
abbrev pub MainEnds : {S : Type 0} → ℕ → Bytes → World S → List Bytes → Finished S → Type 0
MainEnds n program w [] f = f ≡ record { exit = exited 2; out = []; err = usage program; world = w }
MainEnds n program w (instance_name ∷ rest) f = RunEnds n f

module _ {S : Type 0} (sdk : Sdk S) (n : ℕ) where
  leave_plc-Left :
      (h : Held S) (r : Outcome (Unit {0}) × Screen S)
      → Holds (n + share h.impl.api) h.world
      → Leaves h r
      → Left n (leave_plc sdk r)
  unfolding leave_plc Methods.destruct
  leave_plc-Left h (returned t, s) v l =
      rw l.same (normally (close-Holds sdk n l.after (Evolves-KeepsCount h l.after l.evolves n v)))
  leave_plc-Left h (thrown e, s) v l =
      rw l.same (by_error (close-Holds sdk n l.after (Evolves-KeepsCount h l.after l.evolves n v)))
  leave_plc-Left h (undefined, s) v l = absurd (l.defined refl)

  use_plc-Left :
      (cycles : ℤ) (impl : Impl) (k : Console S)
      → impl.api.owns ≡ true
      → Holds (suc n) k.world
      → Left n (use_plc sdk cycles impl k)
  unfolding use_plc
  use_plc-Left cycles impl k owns v =
      let h : Held S = record { impl = impl; world = k.world } in
      leave_plc-Left h _ (moved k.world (rw owns (omega arith)) v)
        ((with_plc-IsSteady sdk cycles).leaves k.out h)

  -- A call of a method of `runtime`, and what comes behind it.
  then-Left :
      {A B : Type 0} (P : A → World S → Type 0) (r : Outcome A × World S) (k : Console S)
      (f : A → Prog (Console S) B)
      → Ends n P r
      → ((a : A) (j : Console S) → P a j.world → Left n (f a j))
      → Left n (continue (r.0, record k { world = r.1 }) f)
  then-Left P (returned a, w) k f (ended h) g = g a (record k { world = w }) h
  then-Left P (thrown e, w) k f (failed v) g = by_error v
  then-Left P (undefined, w) k f h g = elim h [ ]

  with_runtime-Left :
      (name_max : ℕ) (instance_name : Bytes) (cycles : ℤ) (api : ApiHandle) (k : Console S)
      → Owning n api k.world
      → n ≢ 0
      → Left n (with_runtime sdk name_max instance_name cycles api k)
  unfolding with_runtime
  with_runtime-Left name_max instance_name cycles api k (owns, v) more =
      then-Left (Counts n) _ (record k { out = k.out ++ codes "Runtime Manager " }) _
        (version-Ends sdk name_max n api k.world (owns, v) more)
        λ text j v'.
          then-Left (Attached n) _ (record j { out = j.out ++ (text ++ codes "\n") }) _
            (attach-Ends sdk name_max n instance_name api j.world (owns, v') more)
            λ impl i (there, (owner, v'')). use_plc-Left cycles impl i owner v''

module _ {S : Type 0} (sdk : Sdk S) (n : ℕ) where
  leave_runtime-Left :
      (name_max : ℕ) (api : ApiHandle) (r : Outcome (Unit {0}) × Console S)
      → api.owns ≡ true
      → Left (suc n) r
      → Left n (leave_runtime sdk name_max api r)
  unfolding leave_runtime RuntimeManager.destruct
  leave_runtime-Left name_max api (returned t, k) owns (normally v) =
      normally (release-Holds sdk n api k.world (moved k.world (rw owns (omega arith)) v))
  leave_runtime-Left name_max api (thrown e, k) owns (by_error v) =
      by_error (release-Holds sdk n api k.world (moved k.world (rw owns (omega arith)) v))
  leave_runtime-Left name_max api (undefined, k) owns h = elim h [ ]

  use_runtime-Left :
      (name_max : ℕ) (instance_name : Bytes) (cycles : ℤ) (r : Outcome ApiHandle × World S)
      → Ends n (Owning (suc n)) r
      → Left n (use_runtime sdk name_max instance_name cycles r)
  unfolding use_runtime
  use_runtime-Left name_max instance_name cycles (returned api, w) (ended (owns, v)) =
      leave_runtime-Left name_max api _ owns (
        with_runtime-Left sdk (suc n) name_max instance_name cycles api
          (record { out = []; world = w }) (owns, v) (omega arith))
  use_runtime-Left name_max instance_name cycles (thrown e, w) (failed v) = by_error v
  use_runtime-Left name_max instance_name cycles (undefined, w) h = elim h [ ]

  finish-RunEnds : (r : Outcome (Unit {0}) × Console S) → Left n r → RunEnds n (finish sdk r)
  unfolding finish
  finish-RunEnds (returned t, k) (normally v) = worked v
  finish-RunEnds (thrown e, k) (by_error v) = reported e v
  finish-RunEnds (undefined, k) h = elim h [ ]

  -- Whatever the SDK answers and whatever the arguments are, the demo ends: exactly without an argument
  -- with the status 2, the usage on std::cerr and the state as it was; with any arguments, with the status
  -- 0 and nothing on std::cerr, or with the status 1 and the report of one error there, and the API is
  -- owned by the `n` others that owned it before, and it is freed if there are none.
  pub main-MainEnds :
      (name_max : ℕ) (atoi : Bytes → ℤ) (program : Bytes) (arguments : List Bytes) (w : World S)
      → Holds n w
      → MainEnds n program w arguments (main sdk name_max atoi program arguments w)
  unfolding main
  main-MainEnds name_max atoi program [] w v = refl
  main-MainEnds name_max atoi program (instance_name ∷ rest) w v = finish-RunEnds _ (
      use_runtime-Left name_max instance_name (cycles_of atoi rest) _
        (construct-Ends sdk name_max n none w v))
