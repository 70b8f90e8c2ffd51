-- ===== src/IndexGenerator.antt =====
-- base/index_generator.cpp: the counter behind the indices of log, message and output entries.
pub mod Laws
use oac_tree_server.Base.{ℕ, zero, suc, ◌+◌, ◌%◌, ◌^◌, ◌==◌, if◌then◌else◌}

abbrev pub u64_mod : ℕ
u64_mod = 2 ^ 64

-- The mutex makes each call one step on the state.
pub record IndexGenerator : Type 0 where
  pub last_idx : ℕ

pub init : IndexGenerator
init = record { last_idx = 0 }

pub current_index : IndexGenerator → ℕ
current_index g = g.last_idx

-- `++m_last_idx` wraps around; the value 0 is skipped.
unfoldable pub new_index : IndexGenerator → IndexGenerator × ℕ
new_index g =
    let next = (g.last_idx + 1) % u64_mod in
    let idx = (if next == 0 then (next + 1) % u64_mod else next) in (record { last_idx = idx }, idx)

-- The state after `k` calls of `new_index`.
unfoldable pub after_calls : ℕ → IndexGenerator → IndexGenerator
after_calls zero g = g
after_calls (suc k) g = (new_index (after_calls k g)).0
