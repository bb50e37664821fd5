-- ===== src/Artifact/Digest.antt =====
-- The hash and the hex coding that crates/argent-artifact takes from blake3 and faster-hex: they are
-- not part of the repository.
use argent.Base.{◌≡◌, Option, some, Text, Bytes, length}

pub record Digest : Type 0 where
  pub hash : Bytes → Bytes
  pub hex_encode : Bytes → Text
  pub hex_decode : Text → Option Bytes

-- A blake3 digest has 32 bytes, and decoding reverses encoding.
pub record DigestLaws (D : Digest) : Type 0 where
  pub length-hash : (b : Bytes) → length (D.hash b) ≡ 32
  pub decode-encode : (b : Bytes) → D.hex_decode (D.hex_encode b) ≡ some b
