-- ===== src/Frame/Fixed.antt =====
-- Numbers with eight binary digits after the point, for the runs of the examples: a value counts
-- the 256ths, and none is NaN.
use opentherm_thermostat_fir.Prelude.{
  ◌+◌, ◌-◌, ◌*◌, ◌/◌, ◌%◌, refl, arith, Bool, true, false, Option, none, some,
}
use opentherm_thermostat_fir.Prelude.Int.{
  leb_ℤ, ◌+ℤ◌, ◌-ℤ◌, ◌*ℤ◌, pos_part, ℤ, pos, negsuc, ltb_ℤ, eqb_ℤ, ◌/ℤ◌,
}
use opentherm_thermostat_fir.Frame.Numbers.{Numbers}
use opentherm_thermostat_fir.Frame.Codec.{s16}
use opentherm_thermostat_fir.Frame.CodecLaws.{IsExact}

abbrev pub over : Option ℤ → (ℤ → ℤ) → Option ℤ
over none f = none
over (some x) f = some (f x)

abbrev pub test_both : Option ℤ → Option ℤ → (ℤ → ℤ → Bool) → Bool
test_both (some x) (some y) f = f x y
test_both _ _ f = false

abbrev pub is_none : Option ℤ → Bool
is_none none = true
is_none (some x) = false

abbrev pub is_some : Option ℤ → Bool
is_some none = false
is_some (some x) = true

abbrev pub floored : ℤ → ℤ
floored (pos n) = pos (n - n % 256)
floored (negsuc n) = negsuc (n + 255 - n % 256)

abbrev pub scaled_up : ℤ → ℤ
scaled_up (pos n) = pos (n * 256)
scaled_up (negsuc n) = negsuc (n * 256 + 255)

abbrev pub scaled_down : ℤ → ℤ
scaled_down (pos n) = pos (n / 256)
scaled_down (negsuc n) = negsuc (n / 256)

abbrev pub whole_part : Option ℤ → ℤ
whole_part none = pos 0
whole_part (some x) = scaled_down x

abbrev pub fixed : Numbers
fixed = record {
  Float = Option ℤ;
  nan = none;
  isnan = is_none;
  isfinite = is_some;
  equal = λ x y. test_both x y eqb_ℤ;
  less = λ x y. test_both x y ltb_ℤ;
  of_int = λ n. some (scaled_up n);
  tenths = λ n. some (◌/ℤ◌ (scaled_up n) 10);
  div_256 = λ x. over x scaled_down;
  mul_256 = λ x. over x scaled_up;
  mul_10 = λ x. over x (λ n. n *ℤ pos 10);
  div_10 = λ x. over x (λ n. ◌/ℤ◌ n 10);
  add_half = λ x. over x (λ n. n +ℤ pos 128);
  sub_half = λ x. over x (λ n. n -ℤ pos 128);
  at_most = λ x y. test_both x y leb_ℤ;
  halves = λ n. some (n *ℤ pos 128);
  as_u16 = λ x. pos_part (whole_part x);
  as_s16 = whole_part;
  lroundf = λ x. whole_part (over x (λ n. n +ℤ pos 128));
  lrintf = whole_part;
  floorf = λ x. over x floored;
}

pub fixed-IsExact : IsExact fixed
unfolding s16
fixed-IsExact = record {
  scales = λ n h. ground arith;
  finite = λ n h. refl;
  ordered = λ m n h g. ground arith;
  rounds = λ n h. ground arith;
}
