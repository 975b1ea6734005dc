-- ===== src/Blockchain/Unmarked.antt =====
-- `ChkChainsUTXO` reads only the inputs of a transaction.
use csci1951l_cryptocurrency.Prelude.{List, [], ◌∷◌, ◌&&◌, map, ◌≡◌, refl, ap}
use csci1951l_cryptocurrency.Text.{Bytes}
use csci1951l_cryptocurrency.Tx.{Transaction}
use csci1951l_cryptocurrency.Block.RoundTrip.{unmark_tx}
use csci1951l_cryptocurrency.Blockchain.{Blockchain, Utxo, has_inputs, have_inputs, chk_chains_utxo}

have_inputs-unmark :
    (txs : List Transaction) (utxo : Utxo)
    → have_inputs (map unmark_tx txs) utxo ≡ have_inputs txs utxo
unfolding have_inputs
have_inputs-unmark [] utxo = refl
have_inputs-unmark (t ∷ txs) utxo =
    ap (λ rest. has_inputs t.inputs utxo && rest) (have_inputs-unmark txs utxo)

pub chk_chains_utxo-unmark :
    (txs : List Transaction) (prev_hash : Bytes) (bc : Blockchain)
    → chk_chains_utxo (map unmark_tx txs) prev_hash bc ≡ chk_chains_utxo txs prev_hash bc
unfolding chk_chains_utxo
chk_chains_utxo-unmark txs prev_hash bc = rw (have_inputs-unmark txs) refl
