-- ===== src/Platform/Demo/Floats.antt =====
-- The order of the concrete numbers.
use optipod.Prelude.{
  ◌≡◌, refl, ap, ℕ, suc, ◌+◌, ◌-◌, ◌*◌, ◌/◌, ◌≤◌, ℤ, pos, negsuc, ◌+ℤ◌, ◌-ℤ◌, ◌*ℤ◌, ◌≤ℤ◌, arith,
}
use optipod.Platform.FloatOrder.{FloatOrder, FractionLaws}
use optipod.Platform.Demo.{demo, trunc_div}

le_trans : (x y z : ℤ) → x ≤ℤ y → y ≤ℤ z → x ≤ℤ z
le_trans (pos a) y (pos c) h k = ground arith
le_trans (pos a) y (negsuc c) h k = ground arith
le_trans (negsuc a) y (pos c) h k = ground arith
le_trans (negsuc a) y (negsuc c) h k = ground arith

times : (a b : ℕ) → pos a *ℤ pos b ≡ pos (a * b)
unfolding ◌*ℤ◌
times a b = ground arith

plus : (a b : ℕ) → pos a +ℤ pos b ≡ pos (a + b)
unfolding ◌+ℤ◌
plus a b = ground arith

minus : (a b : ℕ) → b ≤ a → pos a -ℤ pos b ≡ pos (a - b)
unfolding ◌-ℤ◌
minus a b h = ground arith

part :
    (x : ℤ)
    → pos 0 ≤ℤ x
    → (k : ℕ) × (trunc_div x 1000 ≡ pos k)
      × (pos k *ℤ pos 1000 ≤ℤ x)
      × (x ≤ℤ pos (suc k) *ℤ pos 1000)
part (pos n) h = (
  n / 1000,
  refl,
  rw (times (n / 1000) 1000) (omega arith),
  rw (times (suc (n / 1000)) 1000) (omega arith),
)
part (negsuc n) h = absurd (omega arith)

mono : (x y : ℤ) → pos 0 ≤ℤ x → x ≤ℤ y → trunc_div x 1000 ≤ℤ trunc_div y 1000
mono (pos a) (pos b) h k = omega arith
mono (pos a) (negsuc b) h k = absurd (omega arith)
mono (negsuc a) y h k = absurd (omega arith)

addition : (a : ℤ) (x y : ℤ) → x ≤ℤ y → a +ℤ x ≤ℤ a +ℤ y
unfolding ◌+ℤ◌
addition a x y h = ground arith

subtraction : (a : ℤ) (x y : ℤ) → x ≤ℤ y → x -ℤ a ≤ℤ y -ℤ a
unfolding ◌-ℤ◌
subtraction a x y h = ground arith

product :
    (a : ℕ) (x y : ℤ)
    → pos 0 ≤ℤ x
    → x ≤ℤ y
    → trunc_div (x *ℤ (pos a *ℤ pos 1000)) 1000 ≤ℤ trunc_div (y *ℤ (pos a *ℤ pos 1000)) 1000
product a (pos x) (pos y) h k =
    let less : x * (a * 1000) ≤ y * (a * 1000) = grind arith in
    rw (times a 1000, times x (a * 1000), times y (a * 1000)) (omega arith)
product a (pos x) (negsuc y) h k = absurd (omega arith)
product a (negsuc x) y h k = absurd (omega arith)

pub demo_order : FloatOrder demo
unfolding ◌*ℤ◌
demo_order = record {
  le = ◌≤ℤ◌;
  trans = λ {x = x} {y = y} {z = z} h k. le_trans x y z h k;
  of_mono = λ a b h. rw (times a 1000, times b 1000) (omega arith);
  to_of = λ a h. rw (times a 1000) (ap pos (omega arith));
  to_mono = λ x y h k l. mono x y h k;
  to_part = λ x h k. part x h;
  add_mono = λ a x y h. addition (pos a *ℤ pos 1000) x y h;
  add_of = λ a b h.
      rw (times a 1000, times b 1000, times (a + b) 1000, plus (a * 1000) (b * 1000))
        (ap pos (omega arith));
  sub_mono = λ a x y h. subtraction (pos a *ℤ pos 1000) x y h;
  sub_of = λ a b h k.
      let less : b * 1000 ≤ a * 1000 = omega arith in
      rw (times a 1000, times b 1000, times (a - b) 1000, minus (a * 1000) (b * 1000) less)
        (ap pos (omega arith));
  mul_mono = λ a x y h k l m. product a x y k l;
  mul_zero = λ a h. rw (times a 1000, times 0 (a * 1000)) (ap pos (omega arith));
  mul_one = λ a h. rw (times a 1000, times 1000 (a * 1000)) (ap pos (omega arith));
  div_mono = λ p q h k.
      rw (times p 1000, times q 1000, times (p * 1000) 1000, times (q * 1000) 1000) (omega arith);
  div_zero = refl;
  div_hundred = refl;
}

fraction :
    (x y : ℤ)
    → pos 0 ≤ℤ x
    → pos 0 ≤ℤ y
    → y ≤ℤ pos 1000
    → (pos 0 ≤ℤ trunc_div (x *ℤ y) 1000) × (trunc_div (x *ℤ y) 1000 ≤ℤ x)
fraction (pos x) (pos y) h k l =
    let less : x * y ≤ x * 1000 = grind arith in rw (times x y) (omega arith, omega arith)
fraction (pos x) (negsuc y) h k l = absurd (omega arith)
fraction (negsuc x) y h k l = absurd (omega arith)

half_more :
    (x : ℤ) → pos 0 ≤ℤ x → x ≤ℤ pos 500 → (pos 0 ≤ℤ pos 500 +ℤ x) × (pos 500 +ℤ x ≤ℤ pos 1000)
unfolding ◌+ℤ◌
half_more x h k = ground arith

pub demo_fractions : FractionLaws demo_order
unfolding demo_order ◌*ℤ◌
demo_fractions = record {
  tenth = (omega arith, omega arith);
  half = omega arith;
  mul_part = λ x y h k l. fraction x y h k l;
  add_half = λ x h k. half_more x h k;
}

pub demo_half :
    demo_order.le (demo.of_int64 (pos 0)) (pos 500)
    × demo_order.le (pos 500) (demo.of_int64 (pos 1))
unfolding demo_order ◌*ℤ◌
demo_half = (omega arith, omega arith)
