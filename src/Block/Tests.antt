-- ===== src/Block/Tests.antt =====
-- The Merkle root of a concrete list.
use csci1951l_cryptocurrency.Prelude.{ℕ, [], ◌∷◌, ◌≡◌, ◌⊎◌}
use csci1951l_cryptocurrency.Prelude.Result.{ok, out_of_fuel}
use csci1951l_cryptocurrency.Text.{Bytes}
use csci1951l_cryptocurrency.Crypto.Toy.{toy}
use csci1951l_cryptocurrency.Tx.{Transaction}
use csci1951l_cryptocurrency.Block.{calc_mrkl_rt, calc_mrkl_rt_within}
use csci1951l_cryptocurrency.Block.Merkle.{calc_mrkl_rt_cases}

abbrev empty_tx : Transaction
empty_tx = record { version = 1; inputs = []; outputs = []; lock_time = 0 }

calc_mrkl_rt_cases_example :
    (((empty_tx ∷ []) ≡ []) × ((fuel : ℕ) → calc_mrkl_rt_within fuel (empty_tx ∷ []) ≡ out_of_fuel))
    ⊎ ((rt : Bytes) × (calc_mrkl_rt (empty_tx ∷ []) ≡ ok rt))
calc_mrkl_rt_cases_example = calc_mrkl_rt_cases (empty_tx ∷ [])
