-- ===== src/Application/Monad.antt =====
-- The effects of the use cases: a log of the calls made, and errors (`ApplicationError`).
use smart_llm_gateway.Prelude.{String, Bool, true, false, ◌∷◌, Result, ok, err}
use smart_llm_gateway.Ports.{Call, called, Entry, Log, Written}

pub data ApplicationError : Type 0 where
  unauthorized : ApplicationError
  configuration : String → ApplicationError
  upstream_unavailable : ApplicationError
  upstream : String → ApplicationError

abbrev pub Action : Type 0 → Type 0
Action A = Log → Result A ApplicationError × Log

abbrev pub pure : {A : Type 0} → A → Action A
pure a l = (ok a, l)

abbrev pub raise : {A : Type 0} → ApplicationError → Action A
raise e l = (err e, l)

abbrev pub and_then :
    {A B : Type 0}
    → Result A ApplicationError × Log
    → (A → Action B)
    → Result B ApplicationError × Log
and_then (ok a, l) f = f a l
and_then (err e, l) f = (err e, l)

infixl 5 ◌>>=◌ ◌>>◌
abbrev pub ◌>>=◌ : {A B : Type 0} → Action A → (A → Action B) → Action B
◌>>=◌ m f l = and_then (m l) f

abbrev pub ◌>>◌ : {B : Type 0} → Action (Unit {0}) → Action B → Action B
m >> k = m >>= λ _. k

-- A writing call of a port, logged; an error of the port is raised by `e`.
abbrev pub outcome :
    {A : Type 0} → (String → ApplicationError) → Result A String → Result A ApplicationError
outcome e (ok a) = ok a
outcome e (err m) = err (e m)

abbrev pub ask :
    {A : Type 0} → Entry → (Log → Result A String) → (String → ApplicationError) → Action A
ask entry port e l = (outcome e (port l), entry ∷ l)

-- Whether a writing call returned `Ok`.
abbrev pub succeeded : Written → Bool
succeeded (ok _) = true
succeeded (err _) = false

abbrev pub write : Call → (Log → Written) → (String → ApplicationError) → Action (Unit {0})
write c port e l = (outcome e (port l), called c (succeeded (port l)) ∷ l)
