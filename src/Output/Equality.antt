-- ===== src/Output/Equality.antt =====
-- base/output_entry_types.cpp: the comparisons decide equality.
use oac_tree_server.Base.{◌≡◌, ◌↔◌, true, arith, bytes_eq_iff, bytes_eq_refl}
use oac_tree_server.External.Scalars.{int_eq→eq, int_eq_refl}
use oac_tree_server.External.Dto.{Dto, DtoLaws}
use oac_tree_server.Output.{
  LogEntry, log_entry_eq, MessageEntry, message_entry_eq, OutputValueEntry, output_value_entry_eq,
}

log_entry_eq→eq : (a b : LogEntry) → log_entry_eq a b ≡ true → a ≡ b
unfolding log_entry_eq
log_entry_eq→eq a b h =
    ground (arith, int_eq→eq a.severity b.severity, bytes_eq_iff a.message b.message)

log_entry_eq_refl : (a : LogEntry) → log_entry_eq a a ≡ true
unfolding log_entry_eq
log_entry_eq_refl a = ground (arith, int_eq_refl a.severity, bytes_eq_refl a.message)

pub log_entry_eq_iff : (a b : LogEntry) → (log_entry_eq a b ≡ true) ↔ (a ≡ b)
log_entry_eq_iff a b = (log_entry_eq→eq a b, λ e. rw e (log_entry_eq_refl b))

pub message_entry_eq_iff : (a b : MessageEntry) → (message_entry_eq a b ≡ true) ↔ (a ≡ b)
unfolding message_entry_eq
message_entry_eq_iff a b = (
  λ h. ground (arith, bytes_eq_iff a.message b.message),
  λ e. ground (arith, bytes_eq_iff a.message b.message),
)

pub output_value_entry_eq_iff :
    (d : Dto) (laws : DtoLaws d) (a b : OutputValueEntry d)
    → (output_value_entry_eq d a b ≡ true) ↔ (a ≡ b)
unfolding output_value_entry_eq
output_value_entry_eq_iff d laws a b = (
  λ h. ground (arith, bytes_eq_iff a.description b.description, laws.value_eq_iff a.value b.value),
  λ e. ground (arith, bytes_eq_iff a.description b.description, laws.value_eq_iff a.value b.value),
)
