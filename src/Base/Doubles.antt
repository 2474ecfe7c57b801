-- ===== src/Base/Doubles.antt =====
-- The numbers of JavaScript, IEEE 754 doubles with 53 significant bits, for values that are not
-- negative: a number is a multiple of 2^-64, written as that multiple. Every double from 2^-12 on is one,
-- and so is every sum or product whose value is at least 2^-12 or 0.
use Prim.Native.Nat.{ℕ, zero, suc, ◌+◌, ◌-◌, ◌*◌, ◌/◌, ◌%◌, ◌^◌}
use obs_system_backend_berka.Base.Tests.{ltb, ◌==◌, if◌then◌else◌}

abbrev pub Double : Type 0
Double = ℕ

-- The number of binary digits, of a number below 2^fuel.
unfoldable pub bit_length : ℕ → ℕ → ℕ
bit_length zero n = 0
bit_length (suc fuel) n = let rest = bit_length fuel (n / 2) in if 0 == n then 0 else suc rest

-- The nearest multiple of a unit; of two, the even one.
abbrev pub to_multiple : ℕ → ℕ → ℕ
to_multiple unit n =
    let q = n / unit in
    let r = n % unit in
    if ltb (2 * r) unit
    then q * unit
    else if ltb unit (2 * r)
    then (q + 1) * unit
    else (q + q % 2) * unit

-- Rounded to 53 significant bits. Marks and their weighted products stay below 2^160.
unfoldable pub round_double : ℕ → ℕ
unfolding bit_length
round_double n = to_multiple (2 ^ (bit_length 160 n - 53)) n

-- 2^64
abbrev pub scale : ℕ
scale = 18446744073709551616

abbrev pub whole : ℕ → Double
whole n = n * scale

-- The double that the decimal a / b is read as. The quotient has 65 bits more than are kept, and the
-- last one says whether anything is left.
unfoldable pub of_ratio : ℕ → ℕ → Double
unfolding round_double
of_ratio a b =
    let n = a * scale * scale in
    let more = if 0 == n % b then 0 else 1 in round_double (2 * (n / b) + more) / (2 * scale)

unfoldable pub times : Double → Double → Double
unfolding round_double
times x y = round_double (x * y) / scale

unfoldable pub plus : Double → Double → Double
unfolding round_double
plus x y = round_double (x + y)

-- `toFixed(2)`, in hundredths: the nearest, of two the larger.
abbrev pub to_fixed : Double → ℕ
to_fixed x = (200 * x + scale) / (2 * scale)

-- A double that is written to a DECIMAL column with two places, in hundredths: its text is rounded, a
-- half up, and reads x.xx5 where x is the double nearest to that.
unfoldable pub to_hundredths : Double → ℕ
unfolding of_ratio
to_hundredths x = let h = to_fixed x in if ltb x (of_ratio (10 * h + 5) 1000) then h else h + 1
