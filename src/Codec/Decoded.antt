-- ===== src/Codec/Decoded.antt =====
-- monoio-codec's `Decoded`, as the decoders of src/codec build it.
pub data Decoded {ℓ} (A : Type ℓ) : Type ℓ where
  some : A → Decoded A
  insufficient : Decoded A
