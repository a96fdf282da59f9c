-- ===== src/Instance/Closed.antt =====
-- Handles of src/SdkBridge.cpp that were closed or whose interface is gone.
use plcsim_connector.Common.{
  ℕ, ◌≡◌, ◌⊎◌, ◌∙◌, refl, ap, Bool, true, false, none, List, [], ◌∷◌, ◌++◌, codes, String, arith,
  inl, inr,
}
use plcsim_connector.Error.{Error, ErrorKind, thrown, retryable}
use plcsim_connector.Bridge.{code_name_of}
use plcsim_connector.Instance.Close.{destroy-Destroyed}
use plcsim_connector.Prog.{Prog, pure, continue, ◌>>=◌}
use plcsim_connector.Sdk.{Sdk}
use plcsim_connector.Instance.{
  Impl, Held, live, live_pointer, write_bit, read_bit, closed_error, destroy,
}
use plcsim_connector.Instance.Evolution.{Evolves, Evolves-refl, Evolves-trans}
use plcsim_connector.Instance.Methods
use plcsim_connector.Instance.Methods.{
  Client, on_impl, instance_area_size, operating_state, connection_of, is_connected, close_impl,
  close,
}
use plcsim_connector.Instance.Lifetime.{
  of_held, Call, writes, reads, runs, stops, states, perform, perform-Ends,
}

-- The handle is closed, or the Runtime Manager has reported its interface gone.
abbrev pub IsDead : Impl → Type 0
IsDead i = (i.raw ≡ none) ⊎ (i.interface_removed ≡ true)

-- The calls that use the interface in any case, and the name of the operation in their errors.
abbrev pub is_direct : Call → Bool
is_direct (writes area byte bit value) = true
is_direct (reads area byte bit) = true
is_direct runs = true
is_direct stops = true
is_direct states = true
is_direct _ = false

abbrev pub operation : Call → String
operation (writes area byte bit value) = "WriteBit"
operation (reads area byte bit) = "ReadBit"
operation runs = "Run"
operation stops = "Stop"
operation states = "GetOperatingState"
operation _ = ""

module _ {S : Type 0} (sdk : Sdk S) where
  pub performs : List Call → Client S → Client S
  performs [] c = c
  performs (a ∷ rest) c = performs rest (perform sdk a c).1

  performs-Evolves :
      (calls : List Call) (h : Held S)
      → (k : Held S) × (performs calls (of_held h) ≡ of_held k) × Evolves h k
  unfolding performs
  performs-Evolves [] h = (h, refl, Evolves-refl h)
  performs-Evolves (a ∷ rest) h =
      let e = perform-Ends sdk a h in
      let (k, same, evolves) = performs-Evolves rest e.after in
      (k, ap (performs rest) e.same ∙ same, Evolves-trans h e.after k e.evolves evolves)

  dead_disconnected :
      (h : Held S) → IsDead h.impl → is_connected sdk (of_held h) ≡ (false, of_held h)
  unfolding is_connected
  dead_disconnected h (inl closed) = ground arith
  dead_disconnected h (inr removed) = ground arith

  -- A handle that is closed, or whose interface the Runtime Manager has dropped, reports itself
  -- disconnected after any sequence of calls, and asking it makes no call to the SDK.
  pub dead_forever :
      (h : Held S) (calls : List Call)
      → IsDead h.impl
      → is_connected sdk (performs calls (of_held h)) ≡ (false, performs calls (of_held h))
  dead_forever h calls dead =
      let (k, same, e) = performs-Evolves calls h in rw same (dead_disconnected k (still e dead))
    where
      still : {k : Held S} → Evolves h k → IsDead h.impl → IsDead k.impl
      still e (inl closed) = inl (e.same_raw ∙ closed)
      still e (inr removed) = inr (e.sticky removed)

  live-closed :
      (name : String) (h : Held S)
      → h.impl.raw ≡ none
      → live sdk name h ≡ (thrown (closed_error sdk name), h)
  unfolding live live_pointer
  live-closed name h closed = ap (λ raw. live_pointer sdk raw name h) closed

  closed_method :
      {A : Type 0} (name : String) (f : ℕ → Prog (Held S) A) (h : Held S)
      → h.impl.raw ≡ none
      → on_impl (live sdk name >>= f) (of_held h) ≡ (thrown (closed_error sdk name), of_held h)
  unfolding on_impl
  closed_method name f h closed =
      ap (λ r. let (o, k) = continue r f in (o, of_held k)) (live-closed name h closed)

  throws_closed :
      (h : Held S) (c : Call)
      → h.impl.raw ≡ none
      → is_direct c ≡ true
      → perform sdk c (of_held h) ≡ (thrown (closed_error sdk (operation c)), of_held h)
  unfolding perform write_bit read_bit operating_state Methods.run Methods.stop
  throws_closed h (writes area byte bit value) closed direct = closed_method "WriteBit" _ h closed
  throws_closed h (reads area byte bit) closed direct =
      ap (λ r. continue r (λ _. pure tt)) (closed_method "ReadBit" _ h closed)
  throws_closed h runs closed direct = closed_method "Run" _ h closed
  throws_closed h stops closed direct = closed_method "Stop" _ h closed
  throws_closed h states closed direct =
      ap (λ r. continue r (λ _. pure tt)) (closed_method "GetOperatingState" _ h closed)
  throws_closed h c closed direct = absurd (cc direct)

  -- What a client relies on in the error of an operation on a closed handle.
  pub record IsLostHandle (name : String) (e : Error) : Type 0 where
    pub kind : e.kind ≡ ErrorKind.connection_lost
    pub code : e.code ≡ sdk.codes.interface_removed
    pub code_name : e.code_name ≡ code_name_of sdk sdk.codes.interface_removed
    pub message : e.message ≡ codes name ++ codes " failed: the instance handle is closed"
    pub again : retryable e ≡ true

  closed_error-IsLostHandle : (name : String) → IsLostHandle name (closed_error sdk name)
  unfolding retryable closed_error
  closed_error-IsLostHandle name = record {
    kind = refl;
    code = refl;
    code_name = refl;
    message = refl;
    again = refl;
  }

  -- On a handle that was closed, after whatever other calls followed, reading or writing a bit, running,
  -- stopping and asking for the operating state all throw, change nothing and make no call to the
  -- SDK. The error is of the kind ConnectionLost, it is retryable, it has the code and the name of the
  -- code of a removed interface, and its message names the operation and says that the handle is closed.
  pub closed_throws :
      (h : Held S) (calls : List Call) (c : Call)
      → is_direct c ≡ true
      → let closed = performs calls (close sdk (of_held h)) in
        (e : Error) × (perform sdk c closed ≡ (thrown e, closed)) × IsLostHandle (operation c) e
  unfolding close
  closed_throws h calls c direct =
      let (k, same, e) = performs-Evolves calls (destroy sdk h) in
      let gone = e.same_raw ∙ (destroy-Destroyed sdk h).no_raw in
      rw same
        (closed_error sdk (operation c), throws_closed k c gone direct, closed_error-IsLostHandle _)
