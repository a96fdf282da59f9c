-- ===== src/Prog.antt =====
-- Stateful C++ code that may throw: it takes the state and gives back how it ended and the new state.
-- A throw keeps the changes that were made before it.
use plcsim_connector.Error.{Error, Outcome, returned, thrown, undefined}

abbrev pub Prog : Type 0 → Type 0 → Type 0
Prog St A = St → Outcome A × St

abbrev pub pure : {St A : Type 0} → A → Prog St A
pure a st = (returned a, st)

abbrev pub throw : {St A : Type 0} → Error → Prog St A
throw e st = (thrown e, st)

abbrev pub undefined_behaviour : {St A : Type 0} → Prog St A
undefined_behaviour st = (undefined, st)

-- Only a call that returned is gone on from.
abbrev pub continue : {St A B : Type 0} → Outcome A × St → (A → Prog St B) → Outcome B × St
continue (returned a, st) f = f a st
continue (thrown e, st) f = (thrown e, st)
continue (undefined, st) f = (undefined, st)

infixl 5 ◌>>=◌ ◌>>◌
abbrev pub ◌>>=◌ : {St A B : Type 0} → Prog St A → (A → Prog St B) → Prog St B
◌>>=◌ m f st = continue (m st) f

abbrev pub ◌>>◌ : {St B : Type 0} → Prog St (Unit {0}) → Prog St B → Prog St B
m >> k = m >>= λ _. k

abbrev pub get : {St : Type 0} → Prog St St
get st = (returned st, st)

abbrev pub put : {St : Type 0} → St → Prog St (Unit {0})
put new st = (returned tt, new)
