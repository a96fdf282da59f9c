-- ===== src/Python/Command/Listed.antt =====
-- The loop over the instances in bindings/python/plcsim_connector/__main__.py.
use plcsim_connector.Common.{
  ℕ, suc, ◌+◌, ◌≡◌, ◌≢◌, refl, List, [], ◌∷◌, length, arith, Bool-cases, inl, inr, Bytes,
}
use plcsim_connector.ApiHandle.{World, ApiHandle}
use plcsim_connector.ApiHandle.Refcount.{share, Holds}
use plcsim_connector.Error.{Outcome, returned, thrown, undefined}
use plcsim_connector.Instance.{Impl, Held}
use plcsim_connector.Instance.Close.{destruct-close-Holds}
use plcsim_connector.Instance.Evolution.{Evolves-KeepsCount}
use plcsim_connector.Instance.Lifetime
use plcsim_connector.Instance.Lifetime.{
  of_held, IsMethod, bind-IsMethod, pure-IsMethod, area_size-IsMethod, operating_state-IsMethod,
}
use plcsim_connector.Instance.Methods.{Client}
use plcsim_connector.Prog.{Prog, continue}
use plcsim_connector.Python.Command.{detail, leave_with, with_attached, entry, entries}
use plcsim_connector.Python.Discarding.{moved}
use plcsim_connector.RuntimeManager.Ends.{Ends, ended, failed, Counts}
use plcsim_connector.RuntimeManager.Ownership.{Attached, attach-Ends}
use plcsim_connector.RuntimeManager.Queries.{Owning}
use plcsim_connector.Sdk.{Sdk}
use plcsim_connector.Types.{Area, InstanceInfo, exchanges_io}

-- The loop ends with a line for each instance.
pub data HasLines {S : Type 0} (n count : ℕ) : Outcome (List Bytes) × World S → Type 0 where
  has_lines :
      {lines : List Bytes} {w : World S}
      → length lines ≡ count
      → Holds n w
      → HasLines n count (returned lines, w)

-- The same for one line.
pub data HasLine {S : Type 0} (n : ℕ) : Outcome Bytes × World S → Type 0 where
  has_line : {text : Bytes} {w : World S} → Holds n w → HasLine n (returned text, w)

module _ {S : Type 0} (sdk : Sdk S) (name_max : ℕ) where
  detail-IsMethod : IsMethod (detail sdk name_max)
  unfolding detail
  detail-IsMethod = bind-IsMethod _ _ (operating_state-IsMethod sdk) λ state.
      elim (Bool-cases (exchanges_io state)) [
        | inl running ↦ rw running (
            bind-IsMethod _ _ (area_size-IsMethod sdk Area.input) λ inputs.
              bind-IsMethod _ _ (area_size-IsMethod sdk Area.output) λ outputs.
                bind-IsMethod _ _ (area_size-IsMethod sdk Area.marker) λ markers. pure-IsMethod _)
        | inr idle ↦ rw idle (pure-IsMethod _)
      ]

  leave_with-Ends :
      (n : ℕ) (h : Held S) (r : Outcome Bytes × Client S)
      → Holds (n + share h.impl.api) h.world
      → Lifetime.Ends h r
      → Ends n (Counts n) (leave_with sdk name_max r)
  unfolding leave_with
  leave_with-Ends n h (returned text, c) v l =
      rw l.same
        (ended (destruct-close-Holds sdk n l.after (Evolves-KeepsCount h l.after l.evolves n v)))
  leave_with-Ends n h (thrown e, c) v l =
      rw l.same
        (failed (destruct-close-Holds sdk n l.after (Evolves-KeepsCount h l.after l.evolves n v)))
  leave_with-Ends n h (undefined, c) v l = absurd (l.defined refl)

  with_attached-Ends :
      (n : ℕ) (r : Outcome Impl × World S)
      → Ends n (Attached n) r
      → Ends n (Counts n) (with_attached sdk name_max r)
  unfolding with_attached
  with_attached-Ends n (returned impl, w) (ended (there, (owns, v))) =
      let h : Held S = record { impl = impl; world = w } in
      leave_with-Ends n h _ (moved w (rw owns (omega arith)) v) (detail-IsMethod.ends h)
  with_attached-Ends n (thrown e, w) (failed v) = failed v
  with_attached-Ends n (undefined, w) h = elim h [ ]

  entry-HasLine :
      (n : ℕ) (info : InstanceInfo) (r : Outcome Bytes × World S)
      → Ends n (Counts n) r
      → HasLine n (entry sdk name_max info r)
  unfolding entry
  entry-HasLine n info (returned text, w) (ended v) = has_line v
  entry-HasLine n info (thrown e, w) (failed v) = has_line v
  entry-HasLine n info (undefined, w) h = elim h [ ]

  more_lines :
      (n count : ℕ) (text : Bytes) (r : Outcome (List Bytes) × World S)
      → HasLines n count r
      → HasLines n (suc count) (continue r (λ rest w. (returned (text ∷ rest), w)))
  more_lines n count text (returned lines, w) (has_lines e v) = has_lines (omega (arith, e)) v
  more_lines n count text (thrown e, w) h = elim h [ ]
  more_lines n count text (undefined, w) h = elim h [ ]

  then_lines :
      (n count : ℕ) (r : Outcome Bytes × World S) (more : Prog (World S) (List Bytes))
      → HasLine n r
      → ((w : World S) → Holds n w → HasLines n count (more w))
      → HasLines n
          (suc count)
          (continue r (λ text w. continue (more w) (λ rest w'. (returned (text ∷ rest), w'))))
  then_lines n count (returned text, w) more (has_line v) go =
      more_lines n count text (more w) (go w v)
  then_lines n count (thrown e, w) more h go = elim h [ ]
  then_lines n count (undefined, w) more h go = elim h [ ]

  pub entries-HasLines :
      (n : ℕ) (api : ApiHandle) (infos : List InstanceInfo) (w : World S)
      → Owning n api w
      → n ≢ 0
      → HasLines n (length infos) (entries sdk name_max api infos w)
  unfolding entries
  entries-HasLines n api [] w (owns, v) more = has_lines refl v
  entries-HasLines n api (info ∷ infos) w (owns, v) more =
      then_lines n (length infos) _ (entries sdk name_max api infos)
        (entry-HasLine n info _
          (with_attached-Ends n _ (attach-Ends sdk name_max n info.name api w (owns, v) more)))
        (λ w' v'. entries-HasLines n api infos w' (owns, v') more)
