-- ===== src/Instance/Removed.antt =====
-- What a handle of src/SdkBridge.cpp makes of an interface that the Runtime Manager has dropped.
use plcsim_connector.Common.{ℕ, ◌≡◌, refl, ap, ◌∙◌, true, false, some, List, [], String, codes, inr}
use plcsim_connector.Common.Int.{ℤ, pos, ◌==ℤ◌, ==ℤ_refl, is_negative}
use plcsim_connector.Bridge.{check, error_of, succeeded, throw_error, to_sdk}
use plcsim_connector.Bridge.Retry.{classify-removed}
use plcsim_connector.Error.{Error, ErrorKind, Outcome, thrown}
use plcsim_connector.Prog.{continue, pure, ◌>>=◌}
use plcsim_connector.Sdk.{Sdk}
use plcsim_connector.Instance.{Held, call, live, live_pointer, verify, write_bit, read_bit}
use plcsim_connector.Instance.Methods
use plcsim_connector.Instance.Methods.{Client, on_impl, is_connected}
use plcsim_connector.Instance.Lifetime.{of_held, Call, writes, reads, runs, stops, perform}
use plcsim_connector.Instance.Closed.{operation, performs, dead_forever}

module _ {S : Type 0} (sdk : Sdk S) where
  -- The code that the SDK answers a transfer, a start or a stop with, and its state afterwards. The other
  -- calls look at no code.
  abbrev pub answer : Call → ℕ → S → ℤ × S
  answer (writes area byte bit value) raw s =
      sdk.write_bit raw (to_sdk sdk.enums area) byte bit value s
  answer (reads area byte bit) raw s =
      let r = sdk.read_bit raw (to_sdk sdk.enums area) byte bit s in (r.0.0, r.1)
  answer runs raw s = sdk.run raw s
  answer stops raw s = sdk.stop raw s
  answer _ raw s = (pos 0, s)

  -- The handle with the mark, after a call that left the SDK in the state `s`.
  abbrev pub marked : Held S → S → Held S
  marked h s = record {
    impl = record h.impl { interface_removed = true };
    world = record h.world { external = s };
  }

  -- The error that reports a dropped interface.
  abbrev pub removal : String → Error
  removal name = error_of sdk sdk.codes.interface_removed (codes name) []

  -- The SDK's code for a dropped interface is an error, and is not the code for a missing instance.
  pub record IsRemovalCode : Type 0 where
    pub is_an_error : is_negative sdk.codes.interface_removed ≡ true
    pub is_different : (sdk.codes.interface_removed ==ℤ sdk.codes.does_not_exist) ≡ false

  verify-removed :
      (code : ℤ) (name : String) (h : Held S) (s : S)
      → IsRemovalCode
      → code ≡ sdk.codes.interface_removed
      → verify sdk code name (record h { world = record h.world { external = s } })
        ≡ (thrown (removal name), marked h s)
  unfolding verify check succeeded throw_error
  verify-removed code name h s r e =
      rw (e, ==ℤ_refl sdk.codes.interface_removed, r.is_an_error) refl

  -- What the four methods do: one call, `verify` on its code, and something with the outcome of that.
  verified :
      {A B : Type 0} (name : String) (f : ℕ → S → A × S) (code_of : A → ℤ)
      (finish : A → Outcome (Unit {0}) × Held S → Outcome B × Held S) (h : Held S) (raw : ℕ)
      → IsRemovalCode
      → h.impl.raw ≡ some raw
      → code_of (f raw h.world.external).0 ≡ sdk.codes.interface_removed
      → on_impl
          (live sdk name >>= λ raw.
            call (f raw) >>= λ a k. finish a (verify sdk (code_of a) name k))
          (of_held h)
        ≡ (let (a, s) = f raw h.world.external in
            let (x, k) = finish a (thrown (removal name), marked h s) in (x, of_held k))
  unfolding on_impl live live_pointer
  verified name f code_of finish h raw r there e =
      let (a, s) = f raw h.world.external in
      ap
        (λ o.
          let (x, k) =
            continue (live_pointer sdk o name h)
              (λ raw. call (f raw) >>= λ a k. finish a (verify sdk (code_of a) name k)) in
          (x, of_held k))
        there
      ∙ ap (λ v. let (x, k) = finish a v in (x, of_held k))
          (verify-removed (code_of a) name h s r e)

  removed_throws :
      (c : Call) (h : Held S) (raw : ℕ)
      → IsRemovalCode
      → h.impl.raw ≡ some raw
      → (answer c raw h.world.external).0 ≡ sdk.codes.interface_removed
      → perform sdk c (of_held h)
        ≡ (thrown (removal (operation c)), of_held (marked h (answer c raw h.world.external).1))
  unfolding perform write_bit read_bit Methods.run Methods.stop
  removed_throws (writes area byte bit value) h raw r there e =
      verified "WriteBit" (λ raw. sdk.write_bit raw (to_sdk sdk.enums area) byte bit value)
        (λ code. code) (λ a v. v) h raw r there e
  removed_throws (reads area byte bit) h raw r there e =
      ap (λ v. continue v (λ _. pure tt))
        (verified "ReadBit" (λ raw. sdk.read_bit raw (to_sdk sdk.enums area) byte bit) (λ a. a.0)
          (λ a v. continue v (λ _. pure a.1)) h raw r there e)
  removed_throws runs h raw r there e =
      verified "Run" sdk.run (λ code. code) (λ a v. v) h raw r there e
  removed_throws stops h raw r there e =
      verified "Stop" sdk.stop (λ code. code) (λ a v. v) h raw r there e
  removed_throws c h raw r there e = absurd (cc (e, r.is_an_error))

  -- When the SDK answers a transfer, a start or a stop with the code for a dropped interface, the method
  -- throws the error of a lost connection, and the handle is disconnected after any further calls.
  pub removed_forever :
      (c : Call) (h : Held S) (raw : ℕ) (later : List Call)
      → IsRemovalCode
      → h.impl.raw ≡ some raw
      → (answer c raw h.world.external).0 ≡ sdk.codes.interface_removed
      → let gone = of_held (marked h (answer c raw h.world.external).1) in
        (perform sdk c (of_held h) ≡ (thrown (removal (operation c)), gone))
        × ((removal (operation c)).kind ≡ ErrorKind.connection_lost)
        × ((is_connected sdk (performs sdk later gone)).0 ≡ false)
  unfolding error_of
  removed_forever c h raw later r there e = (
    removed_throws c h raw r there e,
    classify-removed sdk.codes r.is_different,
    ap (λ v. v.0) (dead_forever sdk (marked h (answer c raw h.world.external).1) later (inr refl)),
  )
