-- ===== src/Blockchain/Balance.antt =====
-- The balance of a key is the sum of its outputs, in whatever order the map is ranged over.
use mathlib.Core.List.{Perm, Permᴰ}
use mathlib.Core.Logic.{∥∥₁_elim}
use native.Mathlib.Nat.{ℕ_set}
use csci1951l_cryptocurrency.Prelude.{
  ℕ, ◌+◌, ◌%◌, ◌<◌, [], ◌∷◌, ◌≡◌, refl, ap, ap₂, ◌∙◌, arith, if◌then◌else◌, Bool-cases, inl, inr,
}
use csci1951l_cryptocurrency.Prelude.Word.{u32_mod, add32}
use csci1951l_cryptocurrency.Text.{Bytes}
use csci1951l_cryptocurrency.Text.Equality.{beq}
use csci1951l_cryptocurrency.Tx.Txo.{TransactionOutput}
use csci1951l_cryptocurrency.Blockchain.{Blockchain, Utxo, last_utxo, balance_from, get_balance}

-- What one entry adds.
abbrev pub share : Bytes → Bytes × TransactionOutput → ℕ
share pk e = if beq e.1.locking_script pk then e.1.amount else 0

-- The outputs of a key, as an unbounded sum.
abbrev pub total : Bytes → Utxo → ℕ
total pk [] = 0
total pk (e ∷ u) = share pk e + total pk u

total-permᴰ : (pk : Bytes) {u w : Utxo} → Permᴰ u w → total pk u ≡ total pk w
total-permᴰ pk Permᴰ.nil = refl
total-permᴰ pk (Permᴰ.cons e p) =
    ap₂ (λ (x : Bytes × TransactionOutput) (n : ℕ). share pk x + n) e (total-permᴰ pk p)
total-permᴰ pk (Permᴰ.swap e f) = omega (arith, ap (share pk) e, ap (share pk) f)
total-permᴰ pk (Permᴰ.trans p q) = total-permᴰ pk p ∙ total-permᴰ pk q

balance_from-total :
    (pk : Bytes) (bal : ℕ) (u : Utxo)
    → bal < u32_mod
    → balance_from pk bal u ≡ (bal + total pk u) % u32_mod
unfolding balance_from
balance_from-total pk bal [] h = omega arith
balance_from-total pk bal ((k, v) ∷ u) h = elim (Bool-cases (beq v.locking_script pk)) [
  | inl mine ↦ rw mine (balance_from-total pk (add32 bal v.amount) u (omega arith) ∙ omega arith)
  | inr other ↦ rw other (balance_from-total pk bal u h ∙ omega arith)
]

-- The balance is the sum of the key's outputs in the last block's map modulo 2 ^ 32, and a map with
-- the same entries in another order gives the same balance.
pub get_balance_lem :
    (pk : Bytes) (bc : Blockchain) (w : Utxo)
    → Perm (last_utxo bc) w
    → get_balance pk bc ≡ total pk w % u32_mod
unfolding get_balance
get_balance_lem pk bc w p =
    balance_from-total pk 0 (last_utxo bc) (omega arith)
    ∙ ap (λ (n : ℕ). (0 + n) % u32_mod) (∥∥₁_elim p (ℕ_set _ _) (total-permᴰ pk))
    ∙ omega arith
