-- ===== src/RuntimeManager/Listing.antt =====
-- `registeredInstances` of src/SdkBridge.cpp, where the SDK answers from a table of instances.
use plcsim_connector.Common.{
  ℕ, zero, suc, ◌+◌, ◌≡◌, refl, ap, ◌∙◌, false, Option, none, some, List, [], ◌∷◌, arith, get_elem?,
}
use plcsim_connector.Common.Int.{ℤ, pos, ◌==ℤ◌, ==ℤ_refl}
use plcsim_connector.ApiHandle.{World, ApiHandle, manager_of}
use plcsim_connector.Bridge.{check, succeeded}
use plcsim_connector.Error.{returned}
use plcsim_connector.Sdk.{Sdk, Wide}
use plcsim_connector.Text.{to_utf8}
use plcsim_connector.Types.{InstanceInfo}
use plcsim_connector.RuntimeManager.{manager, not_null, collect, registered_instances}

abbrev pub take {ℓ} : {A : Type ℓ} → ℕ → List A → List A
take zero xs = []
take (suc n) [] = []
take (suc n) (x ∷ xs) = x ∷ take n xs

module _ {S : Type 0} (sdk : Sdk S) where
  -- GetRegisteredInstanceInfoAt past the end answers SREC_INDEX_OUT_OF_RANGE.
  abbrev pub reply : Option (ℤ × Wide) → ℤ × (ℤ × Wide)
  reply none = (sdk.codes.index_out_of_range, (pos 0, []))
  reply (some row) = (pos 0, row)

  -- The instances of the manager `m` are those of the table: a query reads it and changes nothing.
  pub record IsTable (m : ℕ) (table : List (ℤ × Wide)) : Type 0 where
    pub answers :
        (i : ℕ) (s : S) → sdk.get_registered_instance_info_at m i s ≡ (reply (get_elem? table i), s)
    pub is_an_error : (pos 0 ==ℤ sdk.codes.index_out_of_range) ≡ false

  abbrev pub infos_of : List (ℤ × Wide) → List InstanceInfo
  infos_of [] = []
  infos_of (row ∷ rows) = record { id = row.0; name = to_utf8 sdk (some row.1) } ∷ infos_of rows

module _ {S : Type 0} (sdk : Sdk S) (name_max : ℕ) (m : ℕ) (table : List (ℤ × Wide)) where
  collect_rows :
      (rounds index : ℕ) (rest : List (ℤ × Wide)) (w : World S)
      → IsTable sdk m table
      → ((i : ℕ) → get_elem? table (index + i) ≡ get_elem? rest i)
      → collect sdk name_max m rounds index w ≡ (returned (infos_of sdk (take rounds rest)), w)
  unfolding collect check succeeded
  collect_rows zero index rest w t same = refl
  collect_rows (suc rounds) index [] w t same =
      let here : get_elem? table index ≡ none = ap (get_elem? table) (omega arith) ∙ same 0 in
      rw (t.answers index w.external, here, ==ℤ_refl sdk.codes.index_out_of_range) refl
  collect_rows (suc rounds) index (row ∷ rest) w t same =
      let here : get_elem? table index ≡ some row = ap (get_elem? table) (omega arith) ∙ same 0 in
      rw
        (
          t.answers index w.external,
          here,
          t.is_an_error,
          collect_rows rounds (suc index) rest w t
              (λ i. ap (get_elem? table) (omega arith) ∙ same (suc i)),
        )
        refl

  -- Where the API is loaded and the SDK answers from a table, `registeredInstances` returns the
  -- first `count` rows of the table in their order, `count` being what the SDK counted before: all
  -- of the table, if it has become shorter since then.
  pub registered_instances-take :
      (api : ApiHandle) (w : World S) (count : ℕ) (s : S)
      → manager_of api w ≡ some m
      → sdk.get_registered_instances_count m w.external ≡ (count, s)
      → IsTable sdk m table
      → registered_instances sdk name_max (some api) w
        ≡ (returned (infos_of sdk (take count table)), record w { external = s })
  unfolding registered_instances manager not_null
  registered_instances-take api w count s found counted t =
      rw (found, counted)
        (collect_rows count 0 table (record w { external = s }) t
          (λ i. ap (get_elem? table) (omega arith)))
