-- ===== src/Instance/Close.antt =====
-- `Instance::close` and `Impl::destroy` of src/SdkBridge.cpp.
use plcsim_connector.Common.{ℕ, ◌+◌, ◌≡◌, ◌∙◌, refl, sym, ap, Option, none, some}
use mathlib.Core.Path.{subst}
use plcsim_connector.ApiHandle.{ApiHandle, unowned}
use plcsim_connector.ApiHandle.Refcount.{share, Holds, release-Holds, release_lem, release_unowned}
use plcsim_connector.Error.{returned}
use plcsim_connector.Sdk.{Sdk}
use plcsim_connector.Types.{Area}
use plcsim_connector.Instance.{
  Impl, Held, size_at, area_size, cached_or_query, destroy, destroy_pointer, release_api,
}
use plcsim_connector.Instance.Methods.{
  Client, on_impl, instance_area_size, close, close_impl, destruct,
}
use plcsim_connector.Instance.Lifetime.{of_held}

-- What a destroyed object holds.
pub record Destroyed {S : Type 0} (h k : Held S) : Type 0 where
  pub no_raw : k.impl.raw ≡ none
  pub no_api : k.impl.api ≡ unowned
  pub same_id : k.impl.id ≡ h.impl.id
  pub same_name : k.impl.name ≡ h.impl.name
  pub same_mark : k.impl.interface_removed ≡ h.impl.interface_removed
  pub same_sizes : k.impl.area_sizes ≡ h.impl.area_sizes

module _ {S : Type 0} (sdk : Sdk S) where
  pub destroy-Destroyed : (h : Held S) → Destroyed h (destroy sdk h)
  unfolding destroy
  destroy-Destroyed h = go h.impl.raw refl
    where
      go :
          (raw : Option ℕ)
          → h.impl.raw ≡ raw
          → Destroyed h (release_api sdk (destroy_pointer sdk raw h))
      go none e = record {
        no_raw = e;
        no_api = release_lem sdk _ _;
        same_id = refl;
        same_name = refl;
        same_mark = refl;
        same_sizes = refl;
      }
      go (some raw) e = record {
        no_raw = refl;
        no_api = release_lem sdk _ _;
        same_id = refl;
        same_name = refl;
        same_mark = refl;
        same_sizes = refl;
      }

  destroy_idle : (k : Held S) → k.impl.raw ≡ none → k.impl.api ≡ unowned → destroy sdk k ≡ k
  unfolding destroy
  destroy_idle k closed free =
      let idle = ap (λ (a : ApiHandle). a.owns) free in
      ap (λ raw. release_api sdk (destroy_pointer sdk raw k)) closed
      ∙ ap (λ r. record { impl = record k.impl { api = r.0 }; world = r.1 })
          (release_unowned sdk k.impl.api k.world idle)

  -- Closing a handle twice is closing it once.
  pub close-close : (c : Client S) → close sdk (close sdk c) ≡ close sdk c
  unfolding close
  close-close c = go c.impl refl
    where
      go : (i : Option Impl) → c.impl ≡ i → close sdk (close_impl sdk i c) ≡ close_impl sdk i c
      go none e = ap (λ i. close_impl sdk i c) e
      go (some i) e =
          let h : Held S = record { impl = i; world = c.world } in
          let d = destroy-Destroyed h in
          ap (λ k. record { impl = some k.impl; world = k.world })
            (destroy_idle (destroy sdk h) d.no_raw d.no_api)

  -- A size that was cached before the handle was closed is still returned after it: `areaSize` does
  -- not throw on a closed handle then.
  pub area_size-close :
      (h : Held S) (area : Area) (n : ℕ)
      → size_at h.impl.area_sizes area ≡ some n
      → instance_area_size sdk area (close sdk (of_held h)) ≡ (returned n, close sdk (of_held h))
  unfolding close instance_area_size area_size on_impl
  area_size-close h area n cached =
      let d = destroy-Destroyed h in
      ap (λ o. let (r, k) = cached_or_query sdk area o (destroy sdk h) in (r, of_held k))
        (ap (λ z. size_at z area) d.same_sizes ∙ cached)

  -- Closing a handle gives back exactly its own share of the API: where the globals count it and
  -- `n` other owners, the count is `n` afterwards, and there is a manager exactly if `n` is not 0.
  pub close-Holds :
      (n : ℕ) (h : Held S)
      → Holds (n + share h.impl.api) h.world
      → Holds n (close sdk (of_held h)).world
  unfolding close destroy
  close-Holds n h v = go h.impl.raw
    where
      go : (raw : Option ℕ) → Holds n (release_api sdk (destroy_pointer sdk raw h)).world
      go none = release-Holds sdk n h.impl.api h.world v
      go (some raw) =
          release-Holds sdk n h.impl.api _ (record { counted = v.counted; shared = v.shared })

  -- The same where the destructor runs behind `close`.
  pub destruct-close-Holds :
      (n : ℕ) (h : Held S)
      → Holds (n + share h.impl.api) h.world
      → Holds n (destruct sdk (close sdk (of_held h)))
  unfolding destruct
  destruct-close-Holds n h v =
      subst (λ (c : Client S). Holds n c.world) (sym (close-close (of_held h))) (close-Holds n h v)
