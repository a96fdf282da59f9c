-- ===== src/System/Moves.antt =====
-- The move constructors and assignments of src/SdkBridge.cpp, and the destructor of `Instance`, as a client
-- of a process uses them.
use plcsim_connector.Common.Totals.{total}
use plcsim_connector.Common.{
  Bool-cases, inl, inr, ltb, length, not, ◌&&◌, ◌==◌, ℕ, ◌+◌, ◌≡◌, refl, Option, none, some, arith,
}
use plcsim_connector.ApiHandle.{World, ApiHandle}
use plcsim_connector.Common.{set}
use plcsim_connector.ApiHandle.Refcount.{Holds, release-Holds}
use plcsim_connector.Instance.{Impl}
use plcsim_connector.Instance.Methods.{Client, close}
use plcsim_connector.Instance.Close.{close-Holds}
use plcsim_connector.RuntimeManager.{destruct}
use plcsim_connector.Sdk.{Sdk}
use plcsim_connector.System.Owners.{
  total-moved, owns-at, total-set, manager_share, instance_share, owners_of, IsSound, recounted,
  All-set,
}
use plcsim_connector.System.{System, at_place}
use plcsim_connector.RuntimeManager
use plcsim_connector.Instance.Methods
use plcsim_connector.Instance.Close.{close-Holds}
use plcsim_connector.System.{
  move_from, assign_from, move_instance_from, assign_instance_from, destroy_instance_at,
}

module _ {S : Type 0} (sdk : Sdk S) (name_max : ℕ) where
  pub move_from-IsSound :
      (y : System S) (i : ℕ) (m : Option ApiHandle)
      → IsSound y
      → at_place y.managers i ≡ m
      → IsSound (move_from sdk name_max y i m)
  unfolding move_from RuntimeManager.move
  move_from-IsSound y i none v e = v
  move_from-IsSound y i (some api) v e = record {
    counted =
        recounted y.world (omega (arith, total-set manager_share y.managers i api none e))
          v.counted;
    managed = (owns-at y.managers i api v.managed e, All-set y.managers i none v.managed tt);
  }

  pub move_instance_from-IsSound :
      (y : System S) (i : ℕ) (o : Option Impl)
      → IsSound y
      → at_place y.instances i ≡ o
      → IsSound (move_instance_from sdk name_max y i o)
  unfolding move_instance_from Methods.move
  move_instance_from-IsSound y i none v e = v
  move_instance_from-IsSound y i (some impl) v e = record {
    counted =
        recounted y.world (omega (arith, total-set instance_share y.instances i impl none e))
          v.counted;
    managed = v.managed;
  }

  -- The handle of the object that an assignment destroys is given back.
  destruct_at-Holds :
      (o : Option ApiHandle) (w : World S) (n : ℕ)
      → Holds (n + manager_share o) w
      → Holds n (destruct sdk name_max o w)
  unfolding destruct
  destruct_at-Holds none w n v = recounted w (omega arith) v
  destruct_at-Holds (some api) w n v = release-Holds sdk n api w v

  pub assign_from-IsSound :
      (y : System S) (i j : ℕ) (m : Option ApiHandle)
      → IsSound y
      → at_place y.managers j ≡ m
      → IsSound (assign_from sdk name_max y i j m)
  unfolding assign_from RuntimeManager.move_assign
  assign_from-IsSound y i j none v e = v
  assign_from-IsSound y i j (some api) v e =
      elim (Bool-cases (ltb i (length y.managers) && not (i == j))) [
        | inr away ↦ rw away v
        | inl there ↦ rw there (
            let ms = set (set y.managers i (some api)) j none in
            let parts : total manager_share ms + manager_share (at_place y.managers i)
                ≡ total manager_share y.managers =
              total-moved manager_share y.managers i j api e (ground arith) (ground arith) refl in
            record {
              counted =
                  destruct_at-Holds (at_place y.managers i) y.world
                    (total manager_share ms + total instance_share y.instances)
                    (recounted y.world (omega (arith, parts)) v.counted);
              managed =
                  All-set _ j none
                    (All-set y.managers i (some api) v.managed
                      (owns-at y.managers j api v.managed e))
                    tt;
            })
      ]

  destruct_instance-Holds :
      (o : Option Impl) (w : World S) (n : ℕ)
      → Holds (n + instance_share o) w
      → Holds n (Methods.destruct sdk (record { impl = o; world = w }))
  unfolding Methods.destruct close
  destruct_instance-Holds none w n v = recounted w (omega arith) v
  destruct_instance-Holds (some impl) w n v =
      close-Holds sdk n (record { impl = impl; world = w }) v

  pub assign_instance_from-IsSound :
      (y : System S) (i j : ℕ) (o : Option Impl)
      → IsSound y
      → at_place y.instances j ≡ o
      → IsSound (assign_instance_from sdk name_max y i j o)
  unfolding assign_instance_from Methods.move_assign
  assign_instance_from-IsSound y i j none v e = v
  assign_instance_from-IsSound y i j (some impl) v e =
      elim (Bool-cases (ltb i (length y.instances) && not (i == j))) [
        | inr away ↦ rw away v
        | inl there ↦ rw there (
            let os = set (set y.instances i (some impl)) j none in
            let parts : total instance_share os + instance_share (at_place y.instances i)
                ≡ total instance_share y.instances =
              total-moved instance_share y.instances i j impl e (ground arith) (ground arith)
                refl in
            record {
              counted =
                  destruct_instance-Holds (at_place y.instances i) y.world
                    (total manager_share y.managers + total instance_share os)
                    (recounted y.world (omega (arith, parts)) v.counted);
              managed = v.managed;
            })
      ]

  pub destroy_instance_at-IsSound :
      (y : System S) (i : ℕ) (o : Option Impl)
      → IsSound y
      → at_place y.instances i ≡ o
      → IsSound (destroy_instance_at sdk name_max y i o)
  unfolding destroy_instance_at
  destroy_instance_at-IsSound y i none v e = v
  destroy_instance_at-IsSound y i (some impl) v e =
      let left = owners_of (record y { instances = set y.instances i none }) in
      record {
        counted = destruct_instance-Holds (some impl) y.world left (
            recounted y.world (omega (arith, total-set instance_share y.instances i impl none e))
              v.counted);
        managed = v.managed;
      }
