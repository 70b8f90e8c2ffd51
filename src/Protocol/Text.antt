-- ===== src/Protocol/Text.antt =====
-- The members of `std::string` that oac_tree_protocol.cpp and app/oac-tree-server/utils.cpp use.
pub mod Suffix
use oac_tree_server.Base.{
  ℕ, zero, suc, ◌+◌, ◌-◌, Bool, true, false, ◌&&◌, List, [], ◌∷◌, Option, none, some, Bytes,
  bytes_eq, length, drop, leb, ◌==◌, if◌then◌else◌,
}

unfoldable pub starts_with : Bytes → Bytes → Bool
starts_with s [] = true
starts_with [] (d ∷ t) = false
starts_with (c ∷ s) (d ∷ t) = c == d && starts_with s t

abbrev pub shift : Option ℕ → Option ℕ → Option ℕ
shift (some p) o = some (suc p)
shift none o = o

-- The position of the last occurrence; `none` is `npos`.
unfoldable pub rfind : Bytes → Bytes → Option ℕ
unfolding starts_with
rfind [] t = if starts_with [] t then some 0 else none
rfind (c ∷ s) t = shift (rfind s t) (if starts_with (c ∷ s) t then some 0 else none)

-- `find_last_of` with a set of one character.
unfoldable pub find_last_of : Bytes → ℕ → Option ℕ
find_last_of [] x = none
find_last_of (c ∷ s) x = shift (find_last_of s x) (if c == x then some 0 else none)

abbrev pub ends_at : Option ℕ → Bytes → Bytes → Bool
ends_at none s t = false
ends_at (some p) s t = p + length t == length s

-- `EndsWith` of oac_tree_protocol.cpp.
unfoldable pub ends_with : Bytes → Bytes → Bool
unfolding rfind
ends_with s t = ends_at (rfind s t) s t

-- `EndsWith` of the application's utils.cpp.
unfoldable pub ends_with_compare : Bytes → Bytes → Bool
ends_with_compare s t =
    if leb (length t) (length s) then bytes_eq (drop (length s - length t) s) t else false
