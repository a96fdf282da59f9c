-- ===== src/Demo/Steady.antt =====
-- examples/cpp/di_do_demo.cpp while it is attached: whatever the calls do, the handle keeps its share of
-- the API, and nothing crashes.
use plcsim_connector.Common.{
  ℕ, zero, suc, ◌%◌, ◌==◌, ◌≡◌, ◌≢◌, refl, ◌++◌, Bool-cases, inl, inr, Bytes,
}
use plcsim_connector.Common.Int.{ℤ}
use plcsim_connector.Demo.{
  Screen, print, plc, input_bit, output_bit, one_cycle, cycles_from, show_attached, start_if_needed,
  show_areas, with_plc, rounds_of,
}
use plcsim_connector.Error.{Outcome, returned, thrown, undefined}
use plcsim_connector.Instance.{Held}
use plcsim_connector.Instance.Evolution.{Evolves, Evolves-refl, Evolves-trans}
use plcsim_connector.Instance.Lifetime.{
  of_held, IsMethod, set_address_bit-IsMethod, get_address_bit-IsMethod, area_size-IsMethod,
  run-IsMethod, operating_state-IsMethod, name-IsMethod, id-IsMethod,
}
use plcsim_connector.Instance.Methods.{Client}
use plcsim_connector.Prog.{Prog, pure, continue, ◌>>=◌, ◌>>◌}
use plcsim_connector.Sdk.{Sdk}
use plcsim_connector.Types.{Area, exchanges_io}

abbrev pub screen : {S : Type 0} → Bytes → Held S → Screen S
screen out h = record { out = out; client = of_held h }

-- How a program ends that began with the handle `h`.
pub record Leaves {S A : Type 0} (h : Held S) (r : Outcome A × Screen S) : Type 0 where
  pub shown : Bytes
  pub after : Held S
  pub same : r.1 ≡ screen shown after
  pub evolves : Evolves h after
  pub defined : r.0 ≢ undefined

pub record IsSteady {S A : Type 0} (p : Prog (Screen S) A) : Type 0 where
  pub leaves : (out : Bytes) (h : Held S) → Leaves h (p (screen out h))

module _ {S : Type 0} where
  continue-Leaves :
      {A B : Type 0} (h : Held S) (r : Outcome A × Screen S) (f : A → Prog (Screen S) B)
      → Leaves h r
      → ((a : A) → IsSteady (f a))
      → Leaves h (continue r f)
  continue-Leaves h (returned a, s) f l t =
      let next = (t a).leaves l.shown l.after in
      rw l.same (record {
        shown = next.shown;
        after = next.after;
        same = next.same;
        evolves = Evolves-trans h l.after next.after l.evolves next.evolves;
        defined = next.defined;
      })
  continue-Leaves h (thrown x, s) f l t = record {
    shown = l.shown;
    after = l.after;
    same = l.same;
    evolves = l.evolves;
    defined = λ d. cc;
  }
  continue-Leaves h (undefined, s) f l t = absurd (l.defined refl)

  bind-IsSteady :
      {A B : Type 0} (p : Prog (Screen S) A) (f : A → Prog (Screen S) B)
      → IsSteady p
      → ((a : A) → IsSteady (f a))
      → IsSteady (p >>= f)
  bind-IsSteady p f t u = record {
    leaves = λ out h. continue-Leaves h (p (screen out h)) f (t.leaves out h) u;
  }

  pure-IsSteady : {A : Type 0} (a : A) → IsSteady {S = S} (pure a)
  pure-IsSteady a = record {
    leaves = λ out h. record {
      shown = out;
      after = h;
      same = refl;
      evolves = Evolves-refl h;
      defined = λ d. cc;
    };
  }

  print-IsSteady : (text : Bytes) → IsSteady {S = S} (print text)
  print-IsSteady text = record {
    leaves = λ out h. record {
      shown = out ++ text;
      after = h;
      same = refl;
      evolves = Evolves-refl h;
      defined = λ d. cc;
    };
  }

  -- A text, and what comes behind it.
  prints :
      {B : Type 0} (text : Bytes) (q : Prog (Screen S) B) → IsSteady q → IsSteady (print text >> q)
  prints text q t = bind-IsSteady _ _ (print-IsSteady text) λ _. t

  plc-IsSteady : {A : Type 0} (m : Prog (Client S) A) → IsMethod m → IsSteady (plc m)
  plc-IsSteady m t = record {
    leaves = λ out h.
        let e = t.ends h in
        record {
          shown = out;
          after = e.after;
          same = rw e.same refl;
          evolves = e.evolves;
          defined = e.defined;
        };
  }

  -- A call, and what comes behind it.
  calls :
      {A B : Type 0} (m : Prog (Client S) A) (f : A → Prog (Screen S) B)
      → IsMethod m
      → ((a : A) → IsSteady (f a))
      → IsSteady (plc m >>= f)
  calls m f t u = bind-IsSteady _ _ (plc-IsSteady m t) u

module _ {S : Type 0} (sdk : Sdk S) where
  one_cycle-IsSteady : (cycle : ℕ) → IsSteady (one_cycle sdk cycle)
  unfolding one_cycle
  one_cycle-IsSteady cycle =
      calls _ _ (set_address_bit-IsMethod sdk input_bit (cycle % 2 == 0)) λ _.
        calls _ _ (get_address_bit-IsMethod sdk output_bit) λ output. prints _ _ (
          prints _ _ (
            prints _ _ (
              prints _ _ (
                prints _ _ (
                  prints _ _
                    (prints _ _ (prints _ _ (prints _ _ (prints _ _ (print-IsSteady _))))))))))

  cycles_from-IsSteady : (rounds cycle : ℕ) → IsSteady (cycles_from sdk rounds cycle)
  unfolding cycles_from
  cycles_from-IsSteady zero cycle = pure-IsSteady tt
  cycles_from-IsSteady (suc rounds) cycle =
      bind-IsSteady _ _ (one_cycle-IsSteady cycle) λ _. cycles_from-IsSteady rounds (suc cycle)

  show_attached-IsSteady : IsSteady (show_attached sdk)
  unfolding show_attached
  show_attached-IsSteady = prints _ _ (
      calls _ _ (name-IsMethod sdk) λ text. prints _ _ (
        prints _ _ (
          calls _ _ (id-IsMethod sdk) λ number. prints _ _ (
            prints _ _
              (calls _ _ (operating_state-IsMethod sdk) λ state. prints _ _ (print-IsSteady _))))))

  start_if_needed-IsSteady : IsSteady (start_if_needed sdk)
  unfolding start_if_needed
  start_if_needed-IsSteady = calls _ _ (operating_state-IsMethod sdk) λ state.
      elim (Bool-cases (exchanges_io state)) [
        | inl ready ↦ rw ready (pure-IsSteady tt)
        | inr idle ↦ rw idle (prints _ _ (plc-IsSteady _ (run-IsMethod sdk)))
      ]

  show_areas-IsSteady : IsSteady (show_areas sdk)
  unfolding show_areas
  show_areas-IsSteady = prints _ _ (
      calls _ _ (area_size-IsMethod sdk Area.input) λ inputs. prints _ _ (
        prints _ _ (
          calls _ _ (area_size-IsMethod sdk Area.output) λ outputs. prints _ _ (print-IsSteady _))))

  pub with_plc-IsSteady : (cycles : ℤ) → IsSteady (with_plc sdk cycles)
  unfolding with_plc
  with_plc-IsSteady cycles = bind-IsSteady _ _ show_attached-IsSteady λ _.
      bind-IsSteady _ _ start_if_needed-IsSteady
        λ _. bind-IsSteady _ _ show_areas-IsSteady λ _. cycles_from-IsSteady (rounds_of cycles) 0
