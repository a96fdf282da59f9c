-- ===== src/RuntimeManager/Unknown.antt =====
-- `attach` and `tryAttach` of src/SdkBridge.cpp for a name that is not registered, where the SDK answers from
-- a table of instances.
use plcsim_connector.Common.{
  arith, ◌≤◌, zero, suc, ℕ, ◌≡◌, refl, ap, ◌∙◌, sym, Option, none, some, List, [], ◌∷◌, ◌++◌,
  append_assoc, Bytes, codes, All, length,
}
use plcsim_connector.Common.Int.{ℤ}
use plcsim_connector.ApiHandle.{World, ApiHandle, manager_of}
use plcsim_connector.Error.{Error, ErrorKind, returned, thrown}
use plcsim_connector.Sdk.{Sdk, Wide}
use plcsim_connector.Std.Decimal
use plcsim_connector.Text.{to_wide}
use plcsim_connector.Types.{InstanceInfo}
use plcsim_connector.RuntimeManager.{
  registered_instances, describe_info, describe_more, describe_registered, not_found_error, attach,
  try_attach,
}
use plcsim_connector.RuntimeManager.Attach.{attach_unknown}
use plcsim_connector.RuntimeManager.Listing.{take, IsTable, infos_of, registered_instances-take}

-- A text with this part somewhere in it.
pub record Mentions (text part : Bytes) : Type 0 where
  pub before : Bytes
  pub after : Bytes
  pub split : text ≡ before ++ (part ++ after)

-- The name of an instance in quotes, and its id.
abbrev pub entry_of : InstanceInfo → Bytes
entry_of info =
    codes "\"" ++ (info.name ++ (codes "\" (id " ++ (Decimal.int_to_string info.id ++ codes ")")))

behind : (front text part : Bytes) → Mentions text part → Mentions (front ++ text) part
behind front text part m = record {
  before = front ++ m.before;
  after = m.after;
  split = ap (λ t. front ++ t) m.split ∙ sym (append_assoc front m.before (part ++ m.after));
}

All-behind :
    (front text : Bytes) (infos : List InstanceInfo)
    → All (λ info. Mentions text (entry_of info)) infos
    → All (λ info. Mentions (front ++ text) (entry_of info)) infos
All-behind front text [] all = tt
All-behind front text (info ∷ infos) all =
    (behind front text (entry_of info) all.0, All-behind front text infos all.1)

describe_more-mentions :
    (infos : List InstanceInfo) → All (λ info. Mentions (describe_more infos) (entry_of info)) infos
unfolding describe_more describe_info
describe_more-mentions [] = tt
describe_more-mentions (info ∷ infos) = (
  record { before = codes ", "; after = describe_more infos; split = refl },
  All-behind (codes ", ") (entry_of info ++ describe_more infos) infos
      (All-behind (entry_of info) (describe_more infos) infos (describe_more-mentions infos)),
)

describe_registered-mentions :
    (infos : List InstanceInfo)
    → All (λ info. Mentions (describe_registered infos) (entry_of info)) infos
unfolding describe_registered
describe_registered-mentions [] = tt
describe_registered-mentions (info ∷ infos) = (
  record { before = codes "registered instances: "; after = describe_more infos; split = refl },
  All-behind (codes "registered instances: ") (entry_of info ++ describe_more infos) infos
      (All-behind (entry_of info) (describe_more infos) infos (describe_more-mentions infos)),
)

take_all : {A : Type 0} (n : ℕ) (xs : List A) → length xs ≤ n → take n xs ≡ xs
take_all zero [] le = refl
take_all zero (x ∷ xs) le = absurd (omega arith)
take_all (suc n) [] le = refl
take_all (suc n) (x ∷ xs) le = ap (◌∷◌ x) (take_all n xs (omega arith))

-- The error of `attach`, which names what is registered.
pub record ListsAll (infos : List InstanceInfo) (e : Error) : Type 0 where
  pub kind : e.kind ≡ ErrorKind.instance_not_found
  pub lists : All (λ info. Mentions e.message (entry_of info)) infos

not_found_error-ListsAll :
    {S : Type 0} (sdk : Sdk S) (name_max : ℕ) (message : Bytes) (infos : List InstanceInfo)
    → ListsAll infos (not_found_error sdk name_max message infos)
unfolding not_found_error
not_found_error-ListsAll sdk name_max message infos = record {
  kind = refl;
  lists = All-behind message (describe_registered infos) infos (describe_registered-mentions infos);
}

module _ {S : Type 0} (sdk : Sdk S) (name_max : ℕ) where
  -- Where the API is loaded and the SDK answers from a table of instances, all of which it counts, a name that it does not know
  -- makes `attach` throw InstanceNotFound with a message that has every instance of the table, its
  -- name in quotes and its id, and makes `tryAttach` return nothing: it does not throw for a name
  -- that is spelled wrong. Neither changes more than what the SDK itself did.
  pub attach-ListsAll :
      (text : Bytes) (api : ApiHandle) (w : World S) (m : ℕ) (raw : Option ℕ)
      (table : List (ℤ × Wide)) (count : ℕ) (s : S)
      → manager_of api w ≡ some m
      → sdk.create_interface_by_name m (to_wide sdk text) w.external
        ≡ ((sdk.codes.does_not_exist, raw), s)
      → sdk.get_registered_instances_count m s ≡ (count, s)
      → length table ≤ count
      → IsTable sdk m table
      → (e : Error) × ListsAll (infos_of sdk table) e
        × (attach sdk name_max text (some api) w ≡ (thrown e, record w { external = s }))
        × (try_attach sdk name_max text (some api) w ≡ (returned none, record w { external = s }))
  unfolding manager_of
  attach-ListsAll text api w m raw table count s found missing counted enough t =
      let message =
        codes "no simulated PLC instance named \"" ++ (text ++ codes "\" is registered; ") in
      let w' = record w { external = s } in
      let listed : registered_instances sdk name_max (some api) w'
          ≡ (returned (infos_of sdk table), w') =
        registered_instances-take sdk name_max m table api w' count s found counted t
        ∙ ap (λ rows. (returned (infos_of sdk rows), w')) (take_all count table enough) in
      let (throws, gives_none) =
        attach_unknown sdk name_max text api w w' m (infos_of sdk table) found
          (ap (λ (r : (ℤ × Option ℕ) × S). r.0.0) missing)
          (ap
              (λ (r : (ℤ × Option ℕ) × S).
                registered_instances sdk name_max (some api) (record w { external = r.1 }))
              missing
            ∙ listed) in
      (
        not_found_error sdk name_max message (infos_of sdk table),
        not_found_error-ListsAll sdk name_max message (infos_of sdk table),
        throws,
        gives_none,
      )
