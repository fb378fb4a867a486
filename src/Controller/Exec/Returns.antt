-- ===== src/Controller/Exec/Returns.antt =====
-- Methods that return a value.
use janus_idp_operator.GoError.{Outcome, ok, err, panic, Gives}
use janus_idp_operator.Controller.Exec.{Exec, continue}

-- A method goes on with the value that its first part gives.
pub Gives-continue :
    {S A B : Type 0} {P : A → Type 0} (Q : B → Type 0) (o : Outcome A) (f : A → Exec S B) (h : S)
    → Gives P o
    → ((a : A) → P a → Gives Q (f a h).0)
    → Gives Q (continue o f h).0
Gives-continue Q (ok a) f h holds k = k a holds
Gives-continue Q (err e) f h holds k = holds
Gives-continue Q panic f h holds k = holds

pub Gives-map :
    {A : Type 0} (P Q : A → Type 0) (o : Outcome A) → Gives P o → ((a : A) → P a → Q a) → Gives Q o
Gives-map P Q (ok a) holds more = more a holds
Gives-map P Q (err e) holds more = holds
Gives-map P Q panic holds more = holds
