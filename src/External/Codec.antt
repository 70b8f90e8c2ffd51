-- ===== src/External/Codec.antt =====
-- `Base64VariableCodec` of sup-protocol: `none` stands for a result whose first component is `false`.
use oac_tree_server.Base.{◌≡◌, Option, some}
use oac_tree_server.External.Dto.{Dto}

module _ (d : Dto) where
  pub record Codec : Type 0 where
    pub encode : d.AnyValue → Option d.AnyValue
    pub decode : d.AnyValue → Option d.AnyValue

  pub record CodecLaws (c : Codec) : Type 0 where
    pub decode-encode : (v w : d.AnyValue) → c.encode v ≡ some w → c.decode w ≡ some v
