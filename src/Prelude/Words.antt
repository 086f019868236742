-- ===== src/Prelude/Words.antt =====
-- Bytes and machine words as native numbers, and the calls of <string.h> on a list of bytes.
use Prim.Native.Nat.{ℕ, ◌+◌, ◌%◌, ◌^◌, ◌<◌}
use mathlib.Core.Path.{◌≡◌}
use mathlib.Core.List.{List, [], ◌∷◌, ◌++◌}
use native.Mathlib.Omega.{arith}
use mathlib.Core.Option.{Option, none, some}
use mathlib.Core.Bool.{Bool, true, false, ◌&&◌}
use oomwoo_firmware.Prelude.Tests.{ltb}
use oomwoo_firmware.Prelude.Lists.{get_or, take, drop, All}

abbrev pub Bytes : Type 0
Bytes = List ℕ

abbrev pub u8 : ℕ → ℕ
u8 n = n % 2 ^ 8

abbrev pub u16 : ℕ → ℕ
u16 n = n % 2 ^ 16

abbrev pub u32 : ℕ → ℕ
u32 n = n % 2 ^ 32

abbrev pub IsU8 : ℕ → Type 0
IsU8 n = n < 256

abbrev pub IsU16 : ℕ → Type 0
IsU16 n = n < 65536

abbrev pub IsU32 : ℕ → Type 0
IsU32 n = n < 4294967296

abbrev pub IsBytes : Bytes → Type 0
IsBytes = All IsU8

abbrev pub are_bytes : Bytes → Bool
are_bytes [] = true
are_bytes (x ∷ xs) = ltb x 256 && are_bytes xs

pub are_bytes-IsBytes : (bytes : Bytes) → are_bytes bytes ≡ true → IsBytes bytes
are_bytes-IsBytes [] h = tt
are_bytes-IsBytes (x ∷ xs) h = (ground arith, are_bytes-IsBytes xs (ground arith))

abbrev pub byte_at : Bytes → ℕ → ℕ
byte_at buf i = get_or buf i 0

-- `p == NULL`
abbrev pub is_null {ℓ} : {A : Type ℓ} → Option A → Bool
is_null none = true
is_null (some a) = false

-- The bytes at a pointer; NULL leads to none.
abbrev pub bytes_of : Option Bytes → Bytes
bytes_of none = []
bytes_of (some bytes) = bytes

-- `memcpy(out + at, src, count)`
abbrev pub memcpy : Bytes → ℕ → Bytes → ℕ → Bytes
memcpy out at src count = take at out ++ (take count src ++ drop (at + count) out)

-- `memmove(buf, buf + from, count)`
abbrev pub memmove_front : Bytes → ℕ → ℕ → Bytes
memmove_front buf from count = take count (drop from buf) ++ drop count buf
