-- ===== src/Kernel/Loop/Interval.antt =====
-- The interval of kernel/loop.py's `AdaptiveTick`: its bounds, and its growth while the system idles.
use native.Mathlib.Decide.{dec_le, dec_lt}
use native.Mathlib.Nat.{pow-suc, pow-zero, mul-le-mul_right, mul_assoc}
use aura_aioscpu.Prelude.{
  ltb, if◌then◌else◌, lt→ltb, string_eq, nat_eq, ℕ, zero, suc, ◌+◌, ◌-◌, ◌*◌, ◌^◌, ◌≤◌, min, ◌≡◌,
  refl, ap, ◌∙◌, arith,
}
use aura_aioscpu.Kernel.Loop.{AdaptiveTick, mark_busy, mark_idle}

-- The interval lies between the base and the maximum.
pub record IsBounded (t : AdaptiveTick) : Type 0 where
  pub grows : 1 ≤ t.factor
  pub above : t.base ≤ t.current
  pub below : t.current ≤ t.max

pub mark_busy-IsBounded : {t : AdaptiveTick} → IsBounded t → IsBounded (mark_busy t)
unfolding mark_busy
mark_busy-IsBounded h = omega arith

grow : (c f : ℕ) → 1 ≤ f → c ≤ c * f
grow c f h = grind arith

pub mark_idle-IsBounded : {t : AdaptiveTick} → IsBounded t → IsBounded (mark_idle t)
unfolding mark_idle
mark_idle-IsBounded {t} h = record {
  grows = ground arith;
  above = ground (arith, grow t.current t.factor);
  below = ground arith;
}

-- `n` idle ticks in a row.
unfoldable pub idle : ℕ → AdaptiveTick → AdaptiveTick
idle zero t = t
idle (suc n) t = mark_idle (idle n t)

min_left : (x m : ℕ) → x ≤ m → min x m ≡ x
min_left x m h = omega arith

min_right : (x m : ℕ) → m ≤ x → min x m ≡ m
min_right x m h = omega arith

min_both : (x m f : ℕ) → 1 ≤ f → m ≤ x → min (min x m * f) m ≡ min (x * f) m
min_both x m f h k = rw (min_right x m k) (omega (arith, grow m f h, mul-le-mul_right f k))

-- Growth after a step that met the maximum meets it again.
min-mul : (x m f : ℕ) → 1 ≤ f → min (min x m * f) m ≡ min (x * f) m
min-mul x m f h = elim (dec_le x m) [
  | yes below ↦ rw (min_left x m below)
  | no above ↦ min_both x m f h (omega arith)
]

mark_idle_current :
    (t : AdaptiveTick)
    → (mark_idle t).current
      ≡ (if ltb 3 (t.idle_ticks + 1) then min (t.current * t.factor) t.max else t.current)
unfolding mark_idle
mark_idle_current t = ground arith

-- What does not change, and the count of idle ticks.
idle_fields :
    (t : AdaptiveTick) (n : ℕ)
    → let after = idle n (mark_busy t) in
      (after.idle_ticks ≡ n) × (after.max ≡ t.max) × (after.factor ≡ t.factor)
unfolding idle mark_busy mark_idle
idle_fields t zero = (refl, refl, refl)
idle_fields t (suc n) = ground (arith, idle_fields t n)

next_power : (b f n : ℕ) → 3 ≤ n → b * f ^ (n - 3) * f ≡ b * f ^ (suc n - 3)
next_power b f n h =
    let e : suc n - 3 ≡ suc (n - 3) = omega arith in rw (e, pow-suc) (mul_assoc b (f ^ (n - 3)) f)

-- What the interval is after a busy tick and `n` idle ones: the base for three ticks, and then the
-- base times a power of the factor, up to the maximum.
idle-mark_busy :
    (t : AdaptiveTick) (n : ℕ)
    → 1 ≤ t.factor
    → t.base ≤ t.max
    → (idle n (mark_busy t)).current ≡ min (t.base * t.factor ^ (n - 3)) t.max
unfolding idle mark_busy
idle-mark_busy t zero grows h = ground (arith, pow-zero t.factor)
idle-mark_busy t (suc n) grows h =
    let (count, top, factor) = idle_fields t n in
    let so_far = idle-mark_busy t n grows h in
    elim (dec_lt n 3) [
      | yes early ↦ ground (arith, mark_idle_current (idle n (mark_busy t)))
      | no late ↦
          rw (mark_idle_current, count, top, factor, so_far, lt→ltb 3 (n + 1) (omega arith))
            (min-mul (t.base * t.factor ^ (n - 3)) t.max t.factor grows
              ∙ ap (λ (v : ℕ). min v t.max) (next_power t.base t.factor n (omega arith)))
    ]
