-- ===== src/Authentication/Time.antt =====
-- int64 additions, and the times of Go's package time as far as authentication/native uses them.
use mx_sdk_erdgo.Prelude.{
  ℕ, zero, suc, ◌+◌, ◌-◌, ◌/◌, ◌%◌, ◌^◌, ◌<◌, ◌≡◌, refl, Bool, true, false, ◌&&◌, ◌||◌, arith, ltb,
  leb, ◌==◌, nat_eq, if◌then◌else◌,
}
use mx_sdk_erdgo.Chain.{u64}
use mx_sdk_erdgo.BigInt.{ℤ, pos, negsuc, is_less}

-- The two's complement of 64 bits.
abbrev pub to_unsigned : ℤ → ℕ
to_unsigned (pos n) = n % u64
to_unsigned (negsuc n) = u64 - 1 - n % u64

abbrev pub to_int64 : ℕ → ℤ
to_int64 n = let m = n % u64 in if ltb m (2 ^ 63) then pos m else negsuc (u64 - 1 - m)

unfoldable pub add_int64 : ℤ → ℤ → ℤ
add_int64 a b = to_int64 (to_unsigned a + to_unsigned b)

-- Seconds since the year 1, and the nanoseconds of the second. The reading of the monotonic clock that
-- `time.Now` adds is taken to go with the wall clock's.
pub record Time : Type 0 where
  pub sec : ℤ
  pub nsec : ℕ

abbrev pub zero_time : Time
zero_time = record { sec = pos 0; nsec = 0 }

abbrev pub int_beq : ℤ → ℤ → Bool
int_beq (pos m) (pos n) = m == n
int_beq (pos m) (negsuc n) = false
int_beq (negsuc m) (pos n) = false
int_beq (negsuc m) (negsuc n) = m == n

-- `t.IsZero()`
unfoldable pub is_zero : Time → Bool
is_zero t = int_beq t.sec (pos 0) && (t.nsec == 0)

-- `t.After(u)`
unfoldable pub after : Time → Time → Bool
after t u = is_less u.sec t.sec || (int_beq t.sec u.sec && ltb u.nsec t.nsec)

-- `time.Unix(seconds, 0)`
unfoldable pub unix : ℤ → Time
unfolding add_int64
unix seconds = record { sec = add_int64 seconds (pos 62135596800); nsec = 0 }

abbrev pub second : ℕ
second = 1000000000

abbrev minus : ℕ → ℤ
minus zero = pos 0
minus (suc n) = negsuc n

-- `t.Add(d)`, for a duration in nanoseconds: whole seconds, and the rest with a carry or a borrow.
unfoldable pub add : Time → ℤ → Time
unfolding add_int64
add t (pos d) =
    let sum = t.nsec + d % second in
    let seconds = add_int64 t.sec (pos (d / second)) in
    if leb second sum
    then record { sec = add_int64 seconds (pos 1); nsec = sum - second }
    else record { sec = seconds; nsec = sum }
add t (negsuc d) =
    let part = suc d % second in
    let seconds = add_int64 t.sec (minus (suc d / second)) in
    if ltb t.nsec part
    then record { sec = add_int64 seconds (negsuc 0); nsec = t.nsec + second - part }
    else record { sec = seconds; nsec = t.nsec - part }

-- A sum that is within int64 is exact.
pub add_int64-pos : (m n : ℕ) → m + n < 2 ^ 63 → add_int64 (pos m) (pos n) ≡ pos (m + n)
unfolding add_int64
add_int64-pos m n lt =
    let sum : (m % u64 + n % u64) % u64 ≡ m + n = omega arith in
    let small : ltb (m + n) (2 ^ 63) ≡ true = ground arith in rw sum (rw small refl)
