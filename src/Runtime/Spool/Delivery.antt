-- ===== src/Runtime/Spool/Delivery.antt =====
-- Nothing is lost between the spool and the primary store (crates/slg-runtime/src/lib.rs).
use smart_llm_gateway.Prelude.{
  ℕ, String, ◌≡◌, refl, sym, ap, ◌∙◌, subst, ◌⊎◌, inl, inr, not, In, contains, contains_iff,
  contains_absent, Bool, true, false, List, [], ◌∷◌, ◌++◌, length, if◌then◌else◌, arith,
}
use smart_llm_gateway.Ports.{AttemptRecord}
use smart_llm_gateway.Runtime.Spool.{SpoolEntry, pending, acknowledge, deliver, flush_usage_spool}

module _ {S : Type 0} (store : S → AttemptRecord → Bool × S) where
  -- The primary has accepted the attempts of these entries, in this order, from the state `s` on.
  abbrev pub Accepts : S → List SpoolEntry → Type 0
  Accepts s [] = Unit
  Accepts s (x ∷ xs) = ((store s x.attempt).0 ≡ true) × Accepts (store s x.attempt).1 xs

  abbrev pub ids_of : List SpoolEntry → List String
  ids_of [] = []
  ids_of (x ∷ xs) = x.id ∷ ids_of xs

  -- The entries with one of the identifiers are gone, and the others are left, in their order.
  abbrev pub Removed : List String → List SpoolEntry → List SpoolEntry → Type 0
  Removed ids [] ys = ys ≡ []
  Removed ids (x ∷ xs) ys =
      (In x.id ids × Removed ids xs ys)
      ⊎ ((In x.id ids → ⊥) × (zs : List SpoolEntry) × (ys ≡ x ∷ zs) × Removed ids xs zs)

  acknowledge-Removed :
      (ids : List String) (xs : List SpoolEntry) → Removed ids xs (acknowledge ids xs)
  unfolding acknowledge
  acknowledge-Removed ids [] = refl
  acknowledge-Removed ids (x ∷ xs) = by_test (contains x.id ids) refl (acknowledge-Removed ids xs)
    where
      by_test :
          (b : Bool)
          → contains x.id ids ≡ b
          → Removed ids xs (acknowledge ids xs)
          → Removed ids (x ∷ xs) (if not b then x ∷ acknowledge ids xs else acknowledge ids xs)
      by_test true e k = inl ((contains_iff x.id ids).0 e, k)
      by_test false e k = inr (contains_absent x.id ids e, acknowledge ids xs, refl, k)

  deliver-Accepts :
      (s : S) (xs : List SpoolEntry)
      → (sent : List SpoolEntry) × (rest : List SpoolEntry) × (xs ≡ sent ++ rest)
        × ((deliver store s xs).0 ≡ ids_of sent)
        × Accepts s sent
  unfolding deliver
  deliver-Accepts s [] = ([], [], refl, refl, tt)
  deliver-Accepts s (x ∷ xs) =
      by_answer ((store s x.attempt).0) refl (deliver-Accepts (store s x.attempt).1 xs)
    where
      by_answer :
          (b : Bool)
          → (store s x.attempt).0 ≡ b
          → (sent : List SpoolEntry) × (rest : List SpoolEntry) × (xs ≡ sent ++ rest)
            × ((deliver store (store s x.attempt).1 xs).0 ≡ ids_of sent)
            × Accepts (store s x.attempt).1 sent
          → (sent : List SpoolEntry) × (rest : List SpoolEntry) × (x ∷ xs ≡ sent ++ rest)
            × ((if◌then◌else◌ {A = List String × S} b
                  (
                    x.id ∷ (deliver store (store s x.attempt).1 xs).0,
                    (deliver store (store s x.attempt).1 xs).1,
                  )
                  ([], (store s x.attempt).1)).0
                ≡ ids_of sent)
            × Accepts s sent
      by_answer true e (sent, rest, p, q, a) =
          (x ∷ sent, rest, ap (λ ys. x ∷ ys) p, ap (λ is. x.id ∷ is) q, (e, a))
      by_answer false e k = ([], x ∷ xs, refl, refl, tt)

  -- A flush removes exactly the entries whose identifiers are those of a first part of the pending
  -- entries, whose attempts the primary has accepted, one after the other, keeps all others in their order,
  -- and returns the number of that part.
  pub flush_Delivered :
      (limit : ℕ) (s : S) (xs : List SpoolEntry)
      → (sent : List SpoolEntry) × (rest : List SpoolEntry) × (pending limit xs ≡ sent ++ rest)
        × Accepts s sent
        × ((flush_usage_spool store limit s xs).0 ≡ length sent)
        × Removed (ids_of sent) xs (flush_usage_spool store limit s xs).1.0
  unfolding flush_usage_spool
  flush_Delivered limit s xs =
      let (sent, rest, p, q, a) = deliver-Accepts s (pending limit xs) in
      (
        sent,
        rest,
        p,
        a,
        ap length q ∙ length-ids_of sent,
        subst (λ ids. Removed (ids_of sent) xs (acknowledge ids xs)) (sym q)
            (acknowledge-Removed (ids_of sent) xs),
      )
    where
      length-ids_of : (xs : List SpoolEntry) → length (ids_of xs) ≡ length xs
      length-ids_of [] = refl
      length-ids_of (x ∷ xs) = ground (arith, length-ids_of xs)
