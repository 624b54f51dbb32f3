-- ===== src/Domain/Credential/Laws.antt =====
-- Which texts are credential references, and what a parsed one holds (`CredentialReference::parse`).
use Prim.Native.Char.{code}
use Prim.Native.String.{◌++◌}
use text.Mathlib.TextEquality.{Char-path}
use text.Mathlib.TextLemmas.{nil-append, cons-append}
use smart_llm_gateway.Prelude.{
  ℕ, ◌≤◌, ◌⊎◌, ◌↔◌, Bool-cases, inl, inr, sym, ◌∙◌, subst, Option, String, ◌≡◌, refl, ap, true,
  none, some, arith, eqb, ok,
}
use smart_llm_gateway.Prelude.Texts.{all_chars, strip_prefix}
use smart_llm_gateway.Domain.Credential.{
  CredentialReference, is_first, is_later, parse_name, parse_stripped, or_default, parse, as_str,
  environment_name,
}

-- `_`, or a capital or small letter of ASCII
abbrev pub IsLetter : ℕ → Type 0
IsLetter n = (n ≡ 95) ⊎ (65 ≤ n) × (n ≤ 90) ⊎ (97 ≤ n) × (n ≤ 122)

abbrev pub IsLetterOrDigit : ℕ → Type 0
IsLetterOrDigit n = IsLetter n ⊎ (48 ≤ n) × (n ≤ 57)

abbrev pub EachLater : String → Type 0
EachLater String.[] = Unit
EachLater (String.◌∷◌ c s) = IsLetterOrDigit (code c) × EachLater s

-- A name that an environment variable can have: a letter or `_`, then letters, digits and `_`.
abbrev pub IsName : String → Type 0
IsName String.[] = ⊥
IsName (String.◌∷◌ c s) = IsLetter (code c) × EachLater s

pub is_first_iff : (n : ℕ) → (is_first n ≡ true) ↔ IsLetter n
unfolding is_first
is_first_iff n = (λ h. ground arith, λ h. ground arith)

is_later_iff : (n : ℕ) → (is_later n ≡ true) ↔ IsLetterOrDigit n
unfolding is_later
is_later_iff n = (λ h. ground arith, λ h. ground arith)

pub all_later_iff : (s : String) → (all_chars is_later s ≡ true) ↔ EachLater s
all_later_iff String.[] = (λ _. tt, λ _. refl)
all_later_iff (String.◌∷◌ c s) = (
  (λ h. ((is_later_iff (code c)).0 (ground arith), (all_later_iff s).0 (ground arith))),
  (λ h.
      let e : is_later (code c) ≡ true = (is_later_iff (code c)).1 h.0 in
      let k : all_chars is_later s ≡ true = (all_later_iff s).1 h.1 in ground arith),
)

strip_prefix-append : (p n : String) → strip_prefix p (p ++ n) ≡ some n
strip_prefix-append String.[] n = ap some (nil-append n)
strip_prefix-append (String.◌∷◌ c p) n = rw cons-append (ground (arith, strip_prefix-append p n))

strip_prefix-some : (p s n : String) → strip_prefix p s ≡ some n → s ≡ p ++ n
strip_prefix-some String.[] s n h = rw nil-append (cc)
strip_prefix-some (String.◌∷◌ c p) String.[] n h = cc
strip_prefix-some (String.◌∷◌ c p) (String.◌∷◌ d s) n h =
    elim (Bool-cases (eqb (code c) (code d))) [
      | inl q ↦
          rw (cons-append, Char-path c d (ground arith))
            (ap (String.◌∷◌ d) (strip_prefix-some p s n (ground arith)))
      | inr q ↦ ground arith
    ]

parse_name-eq-ok :
    (n : String) (r : CredentialReference)
    → parse_name n ≡ ok r
    → IsName n × (r ≡ record { text = "env:" ++ n })
unfolding parse_name
parse_name-eq-ok String.[] r h = cc
parse_name-eq-ok (String.◌∷◌ c s) r h =
    let guards : (is_first (code c) ≡ true)
        × (all_chars is_later s ≡ true)
        × (r ≡ record { text = "env:" ++ String.◌∷◌ c s }) =
      ground arith in
    (((is_first_iff (code c)).0 guards.0, (all_later_iff s).0 guards.1), guards.2)

parse_name-IsName :
    (n : String) → IsName n → parse_stripped (some n) ≡ ok (record { text = "env:" ++ n })
unfolding parse_stripped parse_name
parse_name-IsName String.[] h = absurd h
parse_name-IsName (String.◌∷◌ c s) h = rw ((is_first_iff (code c)).1 h.0, (all_later_iff s).1 h.1)

parse_stripped-eq-ok :
    (o : Option String) (r : CredentialReference)
    → parse_stripped o ≡ ok r
    → (n : String) × (o ≡ some n) × IsName n × (r ≡ record { text = "env:" ++ n })
unfolding parse_stripped
parse_stripped-eq-ok none r h = cc
parse_stripped-eq-ok (some n) r h = let (k, q) = parse_name-eq-ok n r h in (n, refl, k, q)

environment_name-env : (n : String) → environment_name (record { text = "env:" ++ n }) ≡ n
unfolding environment_name
environment_name-env n = ap or_default (strip_prefix-append "env:" n)

-- Whatever parses is `env:` and the name of a variable, and is kept as it was written.
pub parse_sound :
    (value : String) (r : CredentialReference)
    → parse value ≡ ok r
    → IsName (environment_name r) × (value ≡ "env:" ++ environment_name r) × (as_str r ≡ value)
unfolding parse as_str
parse_sound value r h =
    let (n, o, k, q) = parse_stripped-eq-ok (strip_prefix "env:" value) r h in
    let name : environment_name r ≡ n = ap environment_name q ∙ environment_name-env n in
    let text : value ≡ "env:" ++ n = strip_prefix-some "env:" value n o in
    (
      subst IsName (sym name) k,
      text ∙ ap (λ x. "env:" ++ x) (sym name),
      ap (λ (c : CredentialReference). c.text) q ∙ sym text,
    )

-- `env:` and the valid name of a variable parses, to a reference that prints as that text and names
-- that variable.
pub parse_complete :
    (name : String)
    → IsName name
    → (r : CredentialReference) × (parse ("env:" ++ name) ≡ ok r)
      × (as_str r ≡ "env:" ++ name)
      × (environment_name r ≡ name)
unfolding parse as_str
parse_complete name h = (
  record { text = "env:" ++ name },
  ap parse_stripped (strip_prefix-append "env:" name) ∙ parse_name-IsName name h,
  refl,
  environment_name-env name,
)
