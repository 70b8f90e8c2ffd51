-- ===== src/Protocol/Base64.antt =====
-- base/oac_tree_protocol.cpp: `Base64EncodeAnyValue` and `Base64DecodeAnyValue`.
use oac_tree_server.Base.{
  ◌≡◌, refl, Option, none, some, Result, ok, throws, invalid_operation, codes,
}
use oac_tree_server.External.Dto.{Dto}
use oac_tree_server.External.Codec.{Codec, CodecLaws}

module _ (d : Dto) (c : Codec d) where
  abbrev pub encoded_or_throw : Option d.AnyValue → Result d.AnyValue
  encoded_or_throw none =
      throws
        (invalid_operation (codes "Base64EncodeAnyValue(): could not base64 encode an AnyValue"))
  encoded_or_throw (some w) = ok w

  unfoldable pub base64_encode : d.AnyValue → Result d.AnyValue
  base64_encode v = encoded_or_throw (c.encode v)

  unfoldable pub base64_decode : d.AnyValue → Option d.AnyValue
  base64_decode v = elim (c.decode v) [ none ↦ none | some w ↦ some w ]

  -- What was encoded is decoded.
  pub base64_decode-encode :
      (v w : d.AnyValue) → CodecLaws d c → c.encode v ≡ some w → base64_decode w ≡ some v
  unfolding base64_decode
  base64_decode-encode v w laws e = rw (base64_decode, laws.decode-encode v w e) refl
