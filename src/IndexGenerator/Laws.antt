-- ===== src/IndexGenerator/Laws.antt =====
-- base/index_generator.cpp: which indices come out, and when they repeat.
use oac_tree_server.Base.{ℕ, zero, suc, ◌+◌, ◌-◌, ◌%◌, ◌<◌, ◌≡◌, ◌≢◌, refl, arith}
use oac_tree_server.IndexGenerator.{
  IndexGenerator, init, current_index, new_index, after_calls, u64_mod,
}

pub new_index_valid :
    (g : IndexGenerator)
    → ((new_index g).1 ≢ 0)
      × ((new_index g).1 < u64_mod)
      × (current_index (new_index g).0 ≡ (new_index g).1)
unfolding new_index current_index
new_index_valid g = ground arith

-- The step in closed form, on a counter in range.
new_index_step :
    (g : IndexGenerator)
    → g.last_idx < u64_mod
    → (new_index g).0.last_idx ≡ g.last_idx % (u64_mod - 1) + 1
unfolding new_index
new_index_step g h = ground arith

after_calls_closed : (k : ℕ) → (after_calls (suc k) init).last_idx ≡ k % (u64_mod - 1) + 1
unfolding after_calls init new_index
after_calls_closed zero = refl
after_calls_closed (suc k) =
    omega (arith, after_calls_closed k, new_index_step (after_calls (suc k) init))

-- The k-th call returns ((k - 1) mod (2^64 - 1)) + 1.
new_index_closed : (k : ℕ) → (new_index (after_calls k init)).1 ≡ k % (u64_mod - 1) + 1
unfolding new_index after_calls
new_index_closed k = after_calls_closed k

-- Two calls fewer than 2^64 - 1 apart return different indices.
pub new_index_fresh :
    (i j : ℕ)
    → i < j
    → j < i + (u64_mod - 1)
    → (new_index (after_calls i init)).1 ≢ (new_index (after_calls j init)).1
new_index_fresh i j h k = omega (arith, new_index_closed i, new_index_closed j)
