-- ===== src/ApiHandle/Refcount.antt =====
-- The count of src/SdkBridge.cpp is the number of handles that own the API, and there is a manager as
-- long as it is not 0.
use plcsim_connector.Common.{
  if◌then◌else◌, none, ap, ◌≢◌, refl, ◌∙◌, ◌⊎◌, inl, inr, Bool-cases, ◌||◌, not, true, false,
  Option, Bytes, ℕ, suc, ◌+◌, ◌≤◌, ◌≡◌, List, [], ◌∷◌, arith, ◌==◌,
}
use plcsim_connector.Common.Int.{pos, increment, decrement, ==ℤ_iff, ◌==ℤ◌, ℤ}
use plcsim_connector.Error.{Error, returned, thrown}
use plcsim_connector.Bridge.{throw_error, succeeded}
use plcsim_connector.Sdk.{Sdk}
use plcsim_connector.ApiHandle.{
  assign, manager_of, unowned, wide_path, initialize, initialization_failed, acquire, World,
  ApiHandle, is_null, add_ref, copy, shut_down, drop_ref, release,
}

-- How many handles `h` adds to the owners.
abbrev pub share : ApiHandle → ℕ
share h = elim h.owns [ true ↦ 1 | false ↦ 0 ]

abbrev pub owners : List ApiHandle → ℕ
owners [] = 0
owners (h ∷ hs) = share h + owners hs

-- The globals of a process in which `n` handles own the API.
pub record Holds {S : Type 0} (n : ℕ) (w : World S) : Type 0 where
  pub counted : w.refcount ≡ pos n
  pub shared : is_null w.manager ≡ (n == 0)

module _ {S : Type 0} where
  pub copy-Holds :
      (n : ℕ) (h : ApiHandle) (w : World S)
      → Holds n w
      → share h ≤ n
      → Holds (n + share h) (copy h w).1
  unfolding copy increment
  copy-Holds n h w v counted = ground arith

  pub add_ref-Holds :
      (n : ℕ) (w : World S)
      → is_null w.manager ≡ false
      → w.refcount ≡ pos n
      → Holds (suc n) (add_ref w).1
  unfolding add_ref increment
  add_ref-Holds n w h e = ground arith

  pub manager_of-owner : (h : ApiHandle) (w : World S) → h.owns ≡ true → manager_of h w ≡ w.manager
  unfolding manager_of
  manager_of-owner h w owns = ap (λ b. if b then w.manager else none) owns

  pub copy-owner :
      (h : ApiHandle) (w : World S)
      → h.owns ≡ true
      → copy h w ≡ (h, record w { refcount = increment w.refcount })
  unfolding copy
  copy-owner h w owns =
      ap (λ b. (h, if b then record w { refcount = increment w.refcount } else w)) owns

module _ {S : Type 0} (sdk : Sdk S) where
  drop_ref-Holds : (n : ℕ) (w : World S) → Holds (suc n) w → Holds n (drop_ref sdk w)
  unfolding drop_ref shut_down decrement
  drop_ref-Holds n w v = ground (arith, ==ℤ_iff (pos n) (pos 0))

  pub release-Holds :
      (n : ℕ) (h : ApiHandle) (w : World S) → Holds (n + share h) w → Holds n (release sdk h w).1
  unfolding release
  release-Holds n h w v = ground (arith, drop_ref-Holds n w)

  pub initialization_fails :
      (dll_dir : Option Bytes) (result : ℤ) (w : World S)
      → (e : Error) × (w' : World S) × (initialization_failed sdk dll_dir result w ≡ (thrown e, w'))
        × (w'.refcount ≡ w.refcount)
        × (w'.manager ≡ w.manager)
  unfolding initialization_failed throw_error
  initialization_fails dll_dir result w = (_, _, refl, refl, refl)

  pub initialize_cases :
      (dll_dir : Option Bytes) (w : World S)
      → ((w' : World S) × (initialize sdk dll_dir w ≡ (returned tt, w'))
          × (w'.refcount ≡ w.refcount)
          × (is_null w'.manager ≡ false))
        ⊎ ((e : Error) × (w' : World S) × (initialize sdk dll_dir w ≡ (thrown e, w'))
            × (w'.refcount ≡ w.refcount)
            × (w'.manager ≡ w.manager))
  unfolding initialize
  initialize_cases dll_dir w =
      let r = sdk.initialize_api (wide_path sdk dll_dir) (sdk.set_last_error 0 w.external) in
      elim (Bool-cases (not (succeeded r.0.0) || is_null r.0.1)) [
        | inl bad ↦
            let (e, w', failed, same, kept) =
              initialization_fails dll_dir r.0.0 (record w { external = r.1 }) in
            inr (e, w', rw bad failed, same, kept)
        | inr good ↦ inl (record w { manager = r.0.1; external = r.1 }, rw good, refl, ground arith)
      ]

  -- An acquisition returns a handle that owns the API, or it throws and no handle owns the API.
  pub acquire_cases :
      (n : ℕ) (dll_dir : Option Bytes) (w : World S)
      → Holds n w
      → ((w' : World S) × (acquire sdk dll_dir w ≡ (returned (record { owns = true }), w'))
          × Holds (suc n) w')
        ⊎ ((e : Error) × (w' : World S) × (acquire sdk dll_dir w ≡ (thrown e, w'))
            × Holds n w'
            × (n ≡ 0))
  unfolding acquire add_ref
  acquire_cases n dll_dir w v = elim (Bool-cases (w.refcount ==ℤ pos 0)) [
    | inr counted ↦
        inl (_, rw counted, add_ref-Holds n w (ground (arith, ==ℤ_iff (pos n) (pos 0))) v.counted)
    | inl first ↦
        let zero : n ≡ 0 = ground (arith, ==ℤ_iff (pos n) (pos 0)) in
        elim (initialize_cases dll_dir w) [
          | inl (w', e, same, found) ↦
              inl (_, rw (first, e), add_ref-Holds n w' found (same ∙ v.counted))
          | inr (e, w', h, same, kept) ↦ inr (
            e,
            w',
            rw (first, h),
            record { counted = same ∙ v.counted; shared = rw kept v.shared },
            zero,
          )
        ]
  ]

  -- While some handle owns the API, an acquisition only counts.
  pub acquire_held :
      (n : ℕ) (dll_dir : Option Bytes) (w : World S)
      → Holds n w
      → n ≢ 0
      → acquire sdk dll_dir w ≡ add_ref w
  unfolding acquire
  acquire_held n dll_dir w v more = ground (arith, ==ℤ_iff (pos n) (pos 0))

  pub release_unowned : (h : ApiHandle) (w : World S) → h.owns ≡ false → release sdk h w ≡ (h, w)
  unfolding release
  release_unowned h w e = rw e

  pub release_lem : (h : ApiHandle) (w : World S) → (release sdk h w).0 ≡ unowned
  unfolding release
  release_lem h w = elim (Bool-cases h.owns) [ inl owns ↦ rw owns | inr free ↦ rw free ]

  -- Nothing is released by an assignment to a handle that owns nothing.
  pub assign-unowned : (other : ApiHandle) (w : World S) → assign sdk unowned other w ≡ (other, w)
  unfolding assign
  assign-unowned other w = ap (λ r. (other, r.1)) (release_unowned unowned w refl)
