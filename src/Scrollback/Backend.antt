-- ===== src/Scrollback/Backend.antt =====
-- scrollback/backend.go: where the chunks are kept. An operation that fails returns `none` or `false`.
use bgx.Base.{◌≡◌, refl, Bool, true, Option, some, Bytes}

pub record Backend : Type 1 where
  pub Handle : Type 0
  pub put : Bytes → Option Handle
  pub get : Handle → Option Bytes
  pub drop_handle : Handle → Bool

abbrev pub memory_backend : Backend
memory_backend = record {
  Handle = Bytes;
  put = λ payload. some payload;
  get = λ h. some h;
  drop_handle = λ h. true;
}

-- The zstd encoder and decoder.
pub record Zstd : Type 0 where
  pub encode_all : Bytes → Bytes
  pub decode_all : Bytes → Option Bytes

-- The backend stores every chunk and gives it back, and the decoder undoes the encoder.
pub record Faithful (b : Backend) (z : Zstd) : Type 0 where
  pub stored : (p : Bytes) → (h : b.Handle) × (b.put p ≡ some h) × (b.get h ≡ some p)
  pub decoded : (p : Bytes) → z.decode_all (z.encode_all p) ≡ some p

-- The memory backend never fails, so it is faithful with any such decoder.
pub memory_backend-Faithful :
    (z : Zstd) → ((p : Bytes) → z.decode_all (z.encode_all p) ≡ some p) → Faithful memory_backend z
memory_backend-Faithful z h = record { stored = λ p. (p, refl, refl); decoded = h }
