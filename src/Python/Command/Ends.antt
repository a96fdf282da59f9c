-- ===== src/Python/Command/Ends.antt =====
-- How the command of bindings/python/plcsim_connector/__main__.py ends.
use plcsim_connector.Common.{
  ℕ, suc, ◌≡◌, ◌≢◌, refl, true, Option, none, some, List, [], ◌∷◌, ◌++◌, length, arith, Bytes,
}
use plcsim_connector.ApiHandle.{World, ApiHandle}
use plcsim_connector.ApiHandle.Refcount.{Holds, release-Holds}
use plcsim_connector.Error.{Error, Outcome, returned, thrown, undefined}
use plcsim_connector.Python.{native, done, raised, effective_dir}
use plcsim_connector.Python.Command.{
  Shown, version_line, nothing_line, count_line, unreachable, leave_main, after_entries,
  after_listing, after_version, after_construct, main,
}
use plcsim_connector.Python.Command.Listed.{HasLines, has_lines, entries-HasLines}
use plcsim_connector.Python.Discarding.{moved}
use plcsim_connector.RuntimeManager
use plcsim_connector.RuntimeManager.{construct, version, registered_instances, attach}
use plcsim_connector.RuntimeManager.Ends.{Ends, ended, failed, Counts}
use plcsim_connector.RuntimeManager.Ownership.{construct-Ends}
use plcsim_connector.RuntimeManager.Queries.{Owning, version-Ends, listing-Ends}
use plcsim_connector.Sdk.{Sdk}
use plcsim_connector.Types.{InstanceInfo}

-- What main has got from the constructor of RuntimeManager, from the version and from the listing.
module _ {S : Type 0} (sdk : Sdk S) (name_max : ℕ) (detected : Option Bytes) (w : World S) where
  abbrev pub IsMade : ApiHandle → World S → Type 0
  IsMade api w1 = construct sdk name_max (effective_dir detected none) w ≡ (returned api, w1)

  abbrev pub HasVersion : ApiHandle → Bytes → World S → Type 0
  HasVersion api text w2 =
      (w1 : World S) × IsMade api w1 × (version sdk name_max (some api) w1 ≡ (returned text, w2))

  abbrev pub IsListed : ApiHandle → Bytes → List InstanceInfo → World S → Type 0
  IsListed api text infos w3 =
      (w2 : World S) × HasVersion api text w2
      × (registered_instances sdk name_max (some api) w2 ≡ (returned infos, w3))

  -- The command reports what the constructor throws, raises what the version or the listing throws, says
  -- that the listing is empty, or shows a line for each instance of a listing that is not.
  pub data CommandEnds (n : ℕ) (report : List Bytes) : Shown S → Type 0 where
    out_of_reach :
        (e : Error) {w' : World S}
        → construct sdk name_max (effective_dir detected none) w ≡ (thrown e, w')
        → Holds n w'
        → CommandEnds n report
            (record { status = done 1; out = report; err = unreachable e; world = w' })
    without_version :
        (e : Error) (api : ApiHandle) (w1 w2 : World S) {w' : World S}
        → IsMade api w1
        → version sdk name_max (some api) w1 ≡ (thrown e, w2)
        → Holds n w'
        → CommandEnds n report
            (record { status = raised (native e); out = report; err = []; world = w' })
    without_listing :
        (e : Error) (api : ApiHandle) (text : Bytes) (w2 w3 : World S) {w' : World S}
        → HasVersion api text w2
        → registered_instances sdk name_max (some api) w2 ≡ (thrown e, w3)
        → Holds n w'
        → CommandEnds n report (record {
          status = raised (native e);
          out = report ++ (version_line text ∷ []);
          err = [];
          world = w';
        })
    found_none :
        (api : ApiHandle) (text : Bytes) (w3 : World S) {w' : World S}
        → IsListed api text [] w3
        → Holds n w'
        → CommandEnds n report (record {
          status = done 1;
          out = report ++ (version_line text ∷ []) ++ (nothing_line ∷ []);
          err = [];
          world = w';
        })
    showed :
        (api : ApiHandle) (text : Bytes) (infos : List InstanceInfo) (lines : List Bytes)
        (w3 : World S) {w' : World S}
        → IsListed api text infos w3
        → length infos ≢ 0
        → length lines ≡ length infos
        → Holds n w'
        → CommandEnds n report (record {
          status = done 0;
          out = report ++ (version_line text ∷ []) ++ (count_line infos ∷ []) ++ lines;
          err = [];
          world = w';
        })

module _ {S : Type 0} (sdk : Sdk S) (name_max : ℕ) (detected : Option Bytes) (start : World S)
    (n : ℕ) (report : List Bytes) where
  -- `runtime` is destroyed at the end.
  given_back :
      (api : ApiHandle) (w : World S)
      → api.owns ≡ true
      → Holds (suc n) w
      → Holds n (RuntimeManager.destruct sdk name_max (some api) w)
  unfolding RuntimeManager.destruct
  given_back api w owns v = release-Holds sdk n api w (moved w (rw owns (omega arith)) v)

  after_entries-CommandEnds :
      (infos : List InstanceInfo) (api : ApiHandle) (text : Bytes) (w3 : World S)
      (r : Outcome (List Bytes) × World S)
      → IsListed sdk name_max detected start api text infos w3
      → api.owns ≡ true
      → length infos ≢ 0
      → HasLines (suc n) (length infos) r
      → CommandEnds sdk name_max detected start n report (
          after_entries sdk name_max api
            (report ++ (version_line text ∷ []) ++ (count_line infos ∷ []))
            r)
  unfolding after_entries leave_main
  after_entries-CommandEnds infos api text w3 (returned lines, w) listed owns more (has_lines e v) =
      showed api text infos lines w3 listed more e (given_back api w owns v)
  after_entries-CommandEnds infos api text w3 (thrown e, w) listed owns more h = elim h [ ]
  after_entries-CommandEnds infos api text w3 (undefined, w) listed owns more h = elim h [ ]

  after_listing-CommandEnds :
      (api : ApiHandle) (text : Bytes) (w2 : World S) (r : Outcome (List InstanceInfo) × World S)
      → HasVersion sdk name_max detected start api text w2
      → registered_instances sdk name_max (some api) w2 ≡ r
      → api.owns ≡ true
      → Ends (suc n) (Counts (suc n)) r
      → CommandEnds sdk name_max detected start n report
          (after_listing sdk name_max api (report ++ (version_line text ∷ [])) r)
  unfolding after_listing leave_main
  after_listing-CommandEnds api text w2 (returned [], w) known given owns (ended v) =
      found_none api text w (w2, known, given) (given_back api w owns v)
  after_listing-CommandEnds api text w2 (returned (info ∷ infos), w) known given owns (ended v) =
      after_entries-CommandEnds (info ∷ infos) api text w _ (w2, known, given) owns (omega arith)
        (entries-HasLines sdk name_max (suc n) api (info ∷ infos) w (owns, v) (omega arith))
  after_listing-CommandEnds api text w2 (thrown e, w) known given owns (failed v) =
      without_listing e api text w2 w known given (given_back api w owns v)
  after_listing-CommandEnds api text w2 (undefined, w) known given owns h = elim h [ ]

  after_version-CommandEnds :
      (api : ApiHandle) (w1 : World S) (r : Outcome Bytes × World S)
      → IsMade sdk name_max detected start api w1
      → version sdk name_max (some api) w1 ≡ r
      → api.owns ≡ true
      → Ends (suc n) (Counts (suc n)) r
      → CommandEnds sdk name_max detected start n report (after_version sdk name_max api report r)
  unfolding after_version leave_main
  after_version-CommandEnds api w1 (returned text, w) built asked owns (ended v) =
      after_listing-CommandEnds api text w _ (w1, built, asked) refl owns
        (listing-Ends sdk name_max (suc n) api w (owns, v) (omega arith))
  after_version-CommandEnds api w1 (thrown e, w) built asked owns (failed v) =
      without_version e api w1 w built asked (given_back api w owns v)
  after_version-CommandEnds api w1 (undefined, w) built asked owns h = elim h [ ]

  after_construct-CommandEnds :
      (r : Outcome ApiHandle × World S)
      → construct sdk name_max (effective_dir detected none) start ≡ r
      → Ends n (Owning (suc n)) r
      → CommandEnds sdk name_max detected start n report (after_construct sdk name_max report r)
  unfolding after_construct
  after_construct-CommandEnds (returned api, w) built (ended (owns, v)) =
      after_version-CommandEnds api w _ built refl owns
        (version-Ends sdk name_max (suc n) api w (owns, v) (omega arith))
  after_construct-CommandEnds (thrown e, w) built (failed v) = out_of_reach e built v
  after_construct-CommandEnds (undefined, w) built h = elim h [ ]

module _ {S : Type 0} (sdk : Sdk S) (name_max : ℕ) where
  -- Where the constructor of RuntimeManager throws, the command returns 1 and reports the error on
  -- sys.stderr; where the query of the version or of the instances throws, it raises that error; where the
  -- listing is empty, it returns 1 and says so; otherwise it returns 0 with the version, the number of
  -- instances and one line for each instance of the listing, whichever of them cannot be attached or
  -- asked. In the end the API is owned by the `n` others that owned it before.
  pub main-CommandEnds :
      (n : ℕ) (report : List Bytes) (detected : Option Bytes) (w : World S)
      → Holds n w
      → CommandEnds sdk name_max detected w n report (main sdk name_max report detected w)
  unfolding main
  main-CommandEnds n report detected w v =
      after_construct-CommandEnds sdk name_max detected w n report _ refl
        (construct-Ends sdk name_max n (effective_dir detected none) w v)
