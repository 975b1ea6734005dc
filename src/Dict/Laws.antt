-- ===== src/Dict/Laws.antt =====
-- What a map holds after each operation.
use csci1951l_cryptocurrency.Prelude.{
  ℕ, suc, [], ◌∷◌, none, some, ◌≡◌, refl, arith, length, if◌then◌else◌, get_elem?, map, Bool-cases,
  inl, inr,
}
use csci1951l_cryptocurrency.Text.{Bytes}
use csci1951l_cryptocurrency.Text.Equality.{beq, beq_iff, beq_refl}
use csci1951l_cryptocurrency.Dict.{Dict, lookup, contains, insert, erase}

module _ {ℓ} {V : Type ℓ} where
  pub lookup-insert :
      (k j : Bytes) (v : V) (d : Dict V)
      → lookup j (insert k v d) ≡ (if beq k j then some v else lookup j d)
  unfolding lookup insert
  lookup-insert k j v [] = refl
  lookup-insert k j v ((i, w) ∷ d) =
      ground (arith, beq_iff k j, beq_iff i k, beq_iff i j, lookup-insert k j v d)

  pub lookup-erase :
      (k j : Bytes) (d : Dict V) → lookup j (erase k d) ≡ (if beq k j then none else lookup j d)
  unfolding lookup erase
  lookup-erase k j [] = ground arith
  lookup-erase k j ((i, w) ∷ d) =
      ground (arith, beq_iff k j, beq_iff i k, beq_iff i j, lookup-erase k j d)

  pub lookup-insert_self : (k : Bytes) (v : V) (d : Dict V) → lookup k (insert k v d) ≡ some v
  lookup-insert_self k v d = simp (lookup-insert, beq_refl)

  -- A new key makes the map one entry larger, a known one leaves its size.
  pub length-insert :
      (k : Bytes) (v : V) (d : Dict V)
      → length (insert k v d) ≡ (if contains k d then length d else suc (length d))
  unfolding insert contains lookup
  length-insert k v [] = refl
  length-insert k v ((j, w) ∷ d) = ground (arith, length-insert k v d)

  -- What a key has is among the values of the map.
  pub get_elem?-lookup :
      (k : Bytes) (v : V) (d : Dict V)
      → lookup k d ≡ some v
      → (i : ℕ) × (get_elem? (map (λ (e : Bytes × V). e.1) d) i ≡ some v)
  unfolding lookup
  get_elem?-lookup k v [] e = cc
  get_elem?-lookup k v ((j, w) ∷ d) e = elim (Bool-cases (beq j k)) [
    | inl same ↦ (0, rw same at e)
    | inr other ↦ let (i, found) = get_elem?-lookup k v d (rw other at e) in (suc i, found)
  ]
