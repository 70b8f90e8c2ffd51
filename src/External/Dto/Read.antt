-- ===== src/External/Dto/Read.antt =====
-- `value[name].As<T>()`, as the decoders read a member.
use oac_tree_server.Base.{ℕ, Bool, Option, none, some, Bytes}
use oac_tree_server.External.Scalars.{ℤ}
use oac_tree_server.External.Dto.{Dto}

abbrev pub bind {ℓ κ} : {A : Type ℓ} {B : Type κ} → Option A → (A → Option B) → Option B
bind none f = none
bind (some a) f = f a

module _ (d : Dto) where
  open d use {AnyValue, field, as_bool, as_int32, as_uint32, as_uint64, as_string}

  unfoldable pub read_bool : AnyValue → Bytes → Option Bool
  read_bool v k = bind (field v k) as_bool

  unfoldable pub read_int32 : AnyValue → Bytes → Option ℤ
  read_int32 v k = bind (field v k) as_int32

  unfoldable pub read_uint32 : AnyValue → Bytes → Option ℕ
  read_uint32 v k = bind (field v k) as_uint32

  unfoldable pub read_uint64 : AnyValue → Bytes → Option ℕ
  read_uint64 v k = bind (field v k) as_uint64

  unfoldable pub read_string : AnyValue → Bytes → Option Bytes
  read_string v k = bind (field v k) as_string
