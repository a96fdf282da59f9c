-- ===== src/Instance/Methods.antt =====
-- The methods of `Instance` in src/SdkBridge.cpp, through the pointer `impl_`.
use plcsim_connector.Common.{ℕ, Bool, false, ◌||◌, Option, none, some, if◌then◌else◌, Bytes}
use plcsim_connector.Common.Int.{ℤ}
use plcsim_connector.Address.{parse_bit_address}
use plcsim_connector.ApiHandle.{World, is_null, manager_of}
use plcsim_connector.Bridge.{from_sdk}
use plcsim_connector.Error.{Outcome, returned, undefined}
use plcsim_connector.Prog.{Prog, pure, ◌>>=◌, ◌>>◌}
use plcsim_connector.Sdk.{Sdk}
use plcsim_connector.Types.{Area, OperatingState}
use plcsim_connector.Instance.{
  Impl, Held, call, live, verify, area_size, check_bounds, destroy, write_bit, read_bit,
}

-- An `Instance` with the shared state; `none` is the null pointer of an object that was moved from.
pub record Client (S : Type 0) : Type 0 where
  pub impl : Option Impl
  pub world : World S

-- `impl_->m()`, which is undefined behaviour through a null pointer.
unfoldable pub on_pointer : {S A : Type 0} → Option Impl → Prog (Held S) A → Prog (Client S) A
on_pointer none m c = (undefined, c)
on_pointer (some impl) m c =
    let (r, h) = m (record { impl = impl; world = c.world }) in
    (r, record { impl = some h.impl; world = h.world })

unfoldable pub on_impl : {S A : Type 0} → Prog (Held S) A → Prog (Client S) A
unfolding on_pointer
on_impl m c = on_pointer c.impl m c

-- The outcome of code that uses no state.
abbrev pub lift : {St A : Type 0} → Outcome A → Prog St A
lift r st = (r, st)

-- An answer of the SDK to a `noexcept` method.
abbrev pub answered : {S : Type 0} → Client S → Bool × S → Bool × Client S
answered c (b, s) = (b, record c { world = record c.world { external = s } })

-- The move constructor: the new object's pointer, and what it leaves of the other one's.
unfoldable pub move : Option Impl → Option Impl × Option Impl
move other = (other, none)

module _ {S : Type 0} (sdk : Sdk S) where
  unfoldable pub set_address_bit : Bytes → Bool → Prog (Client S) (Unit {0})
  set_address_bit address value = do
    parsed ← lift (parse_bit_address address)
    on_impl (check_bounds sdk parsed "setAddressBit")
    on_impl (write_bit sdk parsed.area parsed.byte parsed.bit value)

  unfoldable pub get_address_bit : Bytes → Prog (Client S) Bool
  get_address_bit address = do
    parsed ← lift (parse_bit_address address)
    on_impl (check_bounds sdk parsed "getAddressBit")
    on_impl (read_bit sdk parsed.area parsed.byte parsed.bit)

  unfoldable pub instance_area_size : Area → Prog (Client S) ℕ
  instance_area_size area = on_impl (area_size sdk area)

  unfoldable pub run : Prog (Client S) (Unit {0})
  run = on_impl (do raw ← live sdk "Run"; result ← call (sdk.run raw); verify sdk result "Run")

  unfoldable pub stop : Prog (Client S) (Unit {0})
  stop = on_impl (do raw ← live sdk "Stop"; result ← call (sdk.stop raw); verify sdk result "Stop")

  unfoldable pub operating_state : Prog (Client S) OperatingState
  operating_state = on_impl (do
    raw ← live sdk "GetOperatingState"
    state ← call (sdk.get_operating_state raw)
    pure (from_sdk sdk.enums state))

  -- The manager is asked only if there is one.
  unfoldable pub ask_manager : Option ℕ → Client S → Bool × Client S
  ask_manager none c = (false, c)
  ask_manager (some m) c = answered c (sdk.is_runtime_manager_available m c.world.external)

  unfoldable pub connection_of : Option Impl → Client S → Bool × Client S
  connection_of none c = (false, c)
  connection_of (some impl) c =
      if is_null impl.raw || impl.interface_removed
      then (false, c)
      else ask_manager (manager_of impl.api c.world) c

  -- Instance::isConnected
  unfoldable pub is_connected : Client S → Bool × Client S
  unfolding connection_of ask_manager
  is_connected c = connection_of c.impl c

  unfoldable pub close_impl : Option Impl → Client S → Client S
  close_impl none c = c
  close_impl (some impl) c =
      let h = destroy sdk (record { impl = impl; world = c.world }) in
      record { impl = some h.impl; world = h.world }

  -- Instance::close. The destructor of `Impl` runs `destroy` once more and frees the object.
  unfoldable pub close : Client S → Client S
  unfolding close_impl
  close c = close_impl c.impl c

  -- Instance::~Instance
  unfoldable pub destruct : Client S → World S
  destruct c = (close c).world

  -- The move assignment: `impl_` takes the other object's pointer, and what it pointed to is destroyed.
  unfoldable pub move_assign :
      Option Impl → Option Impl → World S → (Option Impl × Option Impl) × World S
  move_assign this other w = ((other, none), destruct (record { impl = this; world = w }))

  -- Instance::name and Instance::id
  unfoldable pub name : Prog (Client S) Bytes
  name = on_impl (λ h. (returned h.impl.name, h))

  unfoldable pub id : Prog (Client S) ℤ
  id = on_impl (λ h. (returned h.impl.id, h))
