-- ===== src/Word/Cong.antt =====
-- Congruence modulo 2 ^ w, and the word operations up to it.
use Prim.Native.Nat.{◌∣◌}
use native.Mathlib.Nat.{mod-mod, add-mod, mod-mod_of_dvd, mul-add-mod_self_left, mul_comm}
use native.Mathlib.Nat.{dvd_refl, dvd_trans, dvd-mul_right, pow-suc, mod-lt, one-le-pow}
use native.Mathlib.Nat.{div-add-mod, mod-eq_of_lt}
use mpc_package.Base.{ℕ, zero, suc, ◌+◌, ◌-◌, ◌*◌, ◌/◌, ◌%◌, ◌^◌, ◌≤◌, ◌<◌, ◌≡◌, refl, sym, ap, ap₂}
use mpc_package.Base.{◌∙◌, arith}
use mpc_package.Word.{add, sub, mul, shl}

-- A record, so that what it relates can be read off its type.
pub record Cong (w a b : ℕ) : Type 0 where
  pub same : a % 2 ^ w ≡ b % 2 ^ w

pow_dvd : (w d : ℕ) → 2 ^ w ∣ 2 ^ (w + d)
pow_dvd w zero = rw (add_zero w) (dvd_refl (2 ^ w))
  where
    add_zero : (w : ℕ) → w + 0 ≡ w
    add_zero w = omega arith
pow_dvd w (suc d) =
    rw (add_suc w d, pow-suc 2 (w + d)) (dvd_trans (2 ^ w) (pow_dvd w d) (dvd-mul_right _ 2))
  where
    add_suc : (w d : ℕ) → w + suc d ≡ suc (w + d)
    add_suc w d = omega arith

pub pow-dvd_of_le : (w n : ℕ) → w ≤ n → 2 ^ w ∣ 2 ^ n
pow-dvd_of_le w n h = rw (part w n h) (pow_dvd w (n - w))
  where
    part : (w n : ℕ) → w ≤ n → n ≡ w + (n - w)
    part w n h = omega arith

-- A congruence modulo 2 ^ n holds modulo each smaller power.
pub Cong_down : {w n a b : ℕ} → w ≤ n → a % 2 ^ n ≡ b % 2 ^ n → Cong w a b
Cong_down {w} {n} {a} {b} h e = record {
  same =
      sym (mod-mod_of_dvd (2 ^ w) a (pow-dvd_of_le w n h))
      ∙ ap (λ t. t % 2 ^ w) e
      ∙ mod-mod_of_dvd (2 ^ w) b (pow-dvd_of_le w n h);
}

pub Cong-refl : {w a : ℕ} → Cong w a a
Cong-refl = record { same = refl }

pub Cong-of_eq : {w a b : ℕ} → a ≡ b → Cong w a b
Cong-of_eq {w} e = record { same = ap (λ t. t % 2 ^ w) e }

pub Cong-symm : {w a b : ℕ} → Cong w a b → Cong w b a
Cong-symm p = record { same = sym p.same }

infixr 30 ◌∙c◌
pub ◌∙c◌ : {w a b c : ℕ} → Cong w a b → Cong w b c → Cong w a c
p ∙c q = record { same = p.same ∙ q.same }

pub mul_mod_left : (m a b : ℕ) → a % m * b % m ≡ a * b % m
mul_mod_left m a b =
    sym (mul-add-mod_self_left m (a / m * b) (a % m * b))
    ∙ ap (λ t. t % m) (regroup m (a / m) (a % m) a b (div-add-mod a m))
  where
    regroup : (m q r a b : ℕ) → m * q + r ≡ a → m * (q * b) + r * b ≡ a * b
    regroup m q r a b e = omega (arith, ap (λ (t : ℕ). t * b) e)

mul_mod_same : (m a b c : ℕ) → a % m ≡ b % m → a * c % m ≡ b * c % m
mul_mod_same m a b c p = sym (mul_mod_left m a c) ∙ ap (λ t. t * c % m) p ∙ mul_mod_left m b c

module _ {w : ℕ} where
  pub Cong-mod : (a : ℕ) → Cong w (a % 2 ^ w) a
  Cong-mod a = record { same = mod-mod a (2 ^ w) }

  pub Cong-add : {a b c d : ℕ} → Cong w a b → Cong w c d → Cong w (a + c) (b + d)
  Cong-add {a} {b} {c} {d} p q = record {
    same =
        add-mod a c (2 ^ w)
        ∙ ap₂ (λ s t. (s + t) % 2 ^ w) p.same q.same
        ∙ sym (add-mod b d (2 ^ w));
  }

  pub Cong-mul : {a b c d : ℕ} → Cong w a b → Cong w c d → Cong w (a * c) (b * d)
  Cong-mul {a} {b} {c} {d} p q = record {
    same =
        mul_mod_same (2 ^ w) a b c p.same
        ∙ ap (λ t. t % 2 ^ w) (mul_comm b c)
        ∙ mul_mod_same (2 ^ w) c d b q.same
        ∙ ap (λ t. t % 2 ^ w) (mul_comm d b);
  }

  pub Cong-eq : {a b : ℕ} → a < 2 ^ w → b < 2 ^ w → Cong w a b → a ≡ b
  Cong-eq ha hb p = sym (mod-eq_of_lt ha) ∙ p.same ∙ mod-eq_of_lt hb

module _ (w : ℕ) where
  modulus_pos : 0 < 2 ^ w
  modulus_pos = one-le-pow w 2 (omega arith)

  add_back : (n c : ℕ) → (n + c + (2 ^ w - c % 2 ^ w)) % 2 ^ w ≡ n % 2 ^ w
  add_back n c =
      ap (λ t. t % 2 ^ w)
        (regroup (2 ^ w) (c / 2 ^ w) (c % 2 ^ w) (mod-lt c modulus_pos) (div-add-mod c (2 ^ w)))
      ∙ mul-add-mod_self_left (2 ^ w) (c / 2 ^ w + 1) n
    where
      regroup : (m q r : ℕ) → r < m → m * q + r ≡ c → n + c + (m - r) ≡ m * (q + 1) + n
      regroup m q r h e = omega arith

-- What is added on both sides can be taken away.
pub Cong-cancel : {w a b : ℕ} (c : ℕ) → Cong w (a + c) (b + c) → Cong w a b
Cong-cancel {w} {a} {b} c p = record { same = sym (add_back w a c) ∙ moved.same ∙ add_back w b c }
  where
    moved : Cong w (a + c + (2 ^ w - c % 2 ^ w)) (b + c + (2 ^ w - c % 2 ^ w))
    moved = Cong-add p Cong-refl

-- The word operations, in a width of at most 64.
module _ {w : ℕ} (h : w ≤ 64) where
  pub add-Cong : (a b : ℕ) → Cong w (add a b) (a + b)
  unfolding add
  add-Cong a b = Cong_down h (mod-mod (a + b) (2 ^ 64))

  pub mul-Cong : (a b : ℕ) → Cong w (mul a b) (a * b)
  unfolding mul
  mul-Cong a b = Cong_down h (mod-mod (a * b) (2 ^ 64))

  pub shl-Cong : (a i : ℕ) → Cong w (shl a i) (a * 2 ^ i)
  unfolding shl
  shl-Cong a i = Cong_down h (mod-mod (a * 2 ^ i) (2 ^ 64))

  pub sub-Cong : (a b : ℕ) → Cong w (sub a b + b) a
  unfolding sub
  sub-Cong a b = Cong_down h (whole a b)
    where
      whole : (a b : ℕ) → ((a + (2 ^ 64 - b % 2 ^ 64)) % 2 ^ 64 + b) % 2 ^ 64 ≡ a % 2 ^ 64
      whole a b = omega arith
