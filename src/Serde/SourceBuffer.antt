-- ===== src/Serde/SourceBuffer.antt =====
-- serde/sourceBuffer.go: a cursor over bytes. A byte is a number below 256. A method is a function
-- from the state to its results and the new state, or a panic; the second of two results is `eof`.
pub mod Stream
pub mod RoundTrip
pub mod Examples
use mx_sdk_erdgo.Prelude.{
  ℕ, zero, suc, ◌+◌, ◌-◌, ◌*◌, ◌%◌, ◌^◌, Bool, true, false, ◌||◌, List, [], ◌∷◌, length, take, drop,
  ltb, leb, ◌==◌, nat_eq, if◌then◌else◌, String,
}
use mx_sdk_erdgo.Prelude.Exec.{Exec, ◌>>=◌, pure, panic, ok}
use mx_sdk_erdgo.BigInt.{ℤ, pos, negsuc}
use mx_sdk_erdgo.Chain.{u64, Bytes}

pub record SourceBuffer : Type 0 where
  pub s : Bytes
  pub off : ℕ

pub new_source_buffer : Bytes → SourceBuffer
new_source_buffer b = record { s = b; off = 0 }

-- `Len`: what is left to read.
pub len : SourceBuffer → ℕ
len sb = let total = length sb.s in if leb total sb.off then 0 else total - sb.off

-- s[off:]: an offset behind the end panics.
pub off_bytes : Exec SourceBuffer Bytes
off_bytes sb = if ltb (length sb.s) sb.off then (panic, sb) else (ok (drop sb.off sb.s), sb)

pub safe_add : ℕ → ℕ → ℕ × Bool
safe_add x y = ((x + y) % u64, ltb (u64 - 1 - x) y)

-- Where a read of `n` bytes ends, and whether that is cut off at the end of the slice.
pub read_end : SourceBuffer → ℕ → ℕ × Bool
unfolding safe_add
read_end sb n =
    let m = length sb.s in
    let (end, overflow) = safe_add sb.off n in
    if overflow || ltb m end then (m, true) else (end, false)

pub next_bytes : ℕ → Exec SourceBuffer (Bytes × Bool)
unfolding read_end
next_bytes n sb =
    let (end, eof) = read_end sb n in
    if ltb end sb.off
    then (panic, sb)
    else (ok (take (end - sb.off) (drop sb.off sb.s), eof), record sb { off = end })

pub skip : ℕ → Exec SourceBuffer Bool
unfolding read_end
skip n sb = let (end, eof) = read_end sb n in (ok eof, record sb { off = end })

-- s[i], for an index within the slice.
unfoldable pub byte_at : Bytes → ℕ → ℕ
byte_at [] i = 0
byte_at (b ∷ s) zero = b
byte_at (b ∷ s) (suc i) = byte_at s i

pub next_byte : Exec SourceBuffer (ℕ × Bool)
unfolding byte_at
next_byte sb =
    if leb (length sb.s) sb.off
    then (ok (0, true), sb)
    else (ok (byte_at sb.s sb.off, false), record sb { off = sb.off + 1 })

pub next_uint8 : Exec SourceBuffer (ℕ × Bool)
next_uint8 = do (val, eof) ← next_byte; pure (val, eof)

-- Any byte but 0 and 1 is reported as the end of the input.
pub next_bool : Exec SourceBuffer (Bool × Bool)
next_bool = do
  (val, eof) ← next_byte
  pure (if val == 0 then (false, eof) else if val == 1 then (true, eof) else (false, true))

-- `sb.off -= n` on uint64: it wraps below 0.
pub back_up : ℕ → SourceBuffer → SourceBuffer
back_up n sb = record sb { off = (sb.off + u64 - n % u64) % u64 }

-- `binary.BigEndian`: the first byte is the highest.
unfoldable pub big_endian : ℕ → Bytes → ℕ
big_endian acc [] = acc
big_endian acc (b ∷ bs) = big_endian (acc * 256 + b) bs

-- `NextUint16`, `NextUint32` and `NextUint64`, which differ in the number of bytes.
unfoldable pub next_uint : ℕ → Exec SourceBuffer (ℕ × Bool)
unfolding big_endian
next_uint size = do
  (buf, eof) ← next_bytes size
  pure (if eof then (0, eof) else (big_endian 0 buf, eof))

pub next_uint16 : Exec SourceBuffer (ℕ × Bool)
unfolding next_uint
next_uint16 = next_uint 2

pub next_uint32 : Exec SourceBuffer (ℕ × Bool)
unfolding next_uint
next_uint32 = next_uint 4

pub next_uint64 : Exec SourceBuffer (ℕ × Bool)
unfolding next_uint
next_uint64 = next_uint 8

-- The conversion of an unsigned number below 2 * half to the signed type of that width.
unfoldable pub to_signed : ℕ → ℕ → ℤ
to_signed half n = if ltb n half then pos n else negsuc (2 * half - 1 - n)

pub next_int16 : Exec SourceBuffer (ℤ × Bool)
unfolding to_signed
next_int16 = do (val, eof) ← next_uint16; pure (to_signed (2 ^ 15) val, eof)

pub next_int32 : Exec SourceBuffer (ℤ × Bool)
unfolding to_signed
next_int32 = do (val, eof) ← next_uint32; pure (to_signed (2 ^ 31) val, eof)

pub next_int64 : Exec SourceBuffer (ℤ × Bool)
unfolding to_signed
next_int64 = do (val, eof) ← next_uint64; pure (to_signed (2 ^ 63) val, eof)

pub next_var_bytes : Exec SourceBuffer (Bytes × Bool)
next_var_bytes = do (count, eof) ← next_uint32; (if eof then pure ([], eof) else next_bytes count)

-- `NextHash`: 32 bytes, or the zero value.
pub next_hash : Exec SourceBuffer (Bytes × Bool)
next_hash = do (buf, eof) ← next_bytes 32; pure (if eof then (zero_bytes 32, eof) else (buf, eof))
  where
    zero_bytes : ℕ → Bytes
    zero_bytes zero = []
    zero_bytes (suc n) = 0 ∷ zero_bytes n

-- A Go string is its bytes.
pub next_string : Exec SourceBuffer (Bytes × Bool)
next_string = do (val, eof) ← next_var_bytes; pure (val, eof)
