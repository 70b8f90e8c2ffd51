-- ===== src/Tests/Names.antt =====
-- Indices, names of values, and the ends of texts, at concrete inputs.
use oac_tree_server.Base.{
  ◌<◌, ◌≤◌, ◌≡◌, ◌≢◌, ◌↔◌, refl, true, ◌++◌, Bytes, codes, some, arith, bytes_eq,
}
use oac_tree_server.IndexGenerator.{init, current_index, new_index, after_calls, u64_mod}
use oac_tree_server.IndexGenerator.Laws.{new_index_valid, new_index_fresh}
use oac_tree_server.Protocol.Text.{find_last_of, ends_with}
use oac_tree_server.Protocol.Text.Suffix.{ends_with_iff}
use oac_tree_server.Protocol.Decimal.{to_string, parse_index, stoul, u32_max}
use oac_tree_server.Protocol.Decimal.RoundTrip.{parse_index_iff}
use oac_tree_server.Protocol.Names.{create_job_prefix}
use oac_tree_server.Protocol.ValueName.{parse_value_name, info, variable, unknown, unknown_info}
use oac_tree_server.Protocol.ValueName.Sound.{IsNameOf, parse_value_name_iff}

new_index_valid_example :
    ((new_index init).1 ≢ 0)
    × ((new_index init).1 < u64_mod)
    × (current_index (new_index init).0 ≡ (new_index init).1)
new_index_valid_example = new_index_valid init

-- The counter passes over 0.
wrapped : new_index (record { last_idx = 18446744073709551615 }) ≡ (record { last_idx = 1 }, 1)
unfolding new_index
wrapped = refl

new_index_fresh_example : (new_index (after_calls 2 init)).1 ≢ (new_index (after_calls 5 init)).1
new_index_fresh_example = new_index_fresh 2 5 (omega arith) (omega arith)

abbrev job_prefix : Bytes
job_prefix = codes "SRV:PROC-0:"

job_prefix_lem : create_job_prefix (codes "SRV") 0 ≡ job_prefix
unfolding create_job_prefix to_string
job_prefix_lem = refl

var_12 : parse_value_name (codes "SRV:PROC-0:VAR-12") ≡ info variable 12
unfolding parse_value_name ends_with find_last_of parse_index to_string bytes_eq
var_12 = refl

-- A sign, a leading zero and an index of 33 bits are refused.
no_names :
    (parse_value_name (codes "SRV:VAR-+1") ≡ unknown_info)
    × (parse_value_name (codes "SRV:VAR-01") ≡ unknown_info)
    × (parse_value_name (codes "SRV:VAR-4294967296") ≡ unknown_info)
    × (parse_value_name (codes "VAR-1") ≡ unknown_info)
unfolding parse_value_name ends_with find_last_of parse_index to_string bytes_eq
no_names = (refl, refl, refl, refl)

minus_one : stoul (codes " -1x") ≡ some 18446744073709551615
unfolding stoul
minus_one = refl

ends_with_iff_example :
    (ends_with (codes "a.xml") (codes ".xml") ≡ true)
    ↔ ((p : Bytes) × (codes "a.xml" ≡ p ++ codes ".xml"))
ends_with_iff_example = ends_with_iff (codes "a.xml") (codes ".xml")

parse_index_iff_example :
    (parse_index (codes "42") ≡ some 42) ↔ ((codes "42" ≡ to_string 42) × (42 ≤ u32_max))
parse_index_iff_example = parse_index_iff (codes "42") 42

parse_value_name_iff_example :
    ((parse_value_name (codes "SRV:PROC-0:VAR-12") ≡ info variable 12)
      × ((info variable 12).val_type ≢ unknown))
    ↔ IsNameOf (codes "SRV:PROC-0:VAR-12") (info variable 12)
parse_value_name_iff_example = parse_value_name_iff (codes "SRV:PROC-0:VAR-12") (info variable 12)
