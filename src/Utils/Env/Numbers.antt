-- ===== src/Utils/Env/Numbers.antt =====
-- A number that is printed into a variable is read back by `GetEnvAsInt`.
use Prim.Native.Char.{Char, code}
use text.Mathlib.TextLemmas.{nil-append, cons-append, append_assoc, append-nil}
use kit_legacy.Base.{
  ℕ, zero, suc, ◌+◌, ◌*◌, ◌/◌, ◌%◌, ◌^◌, ◌<◌, ◌≤◌, ltb, ℤ, pos, negsuc, pos_part, neg_part, ◌≡◌,
  inl, inr, refl, ap, sym, ◌∙◌, String, ◌&◌, show, show_ℤ, digit, digits, true, false, Bool-cases,
  some, arith,
}
use kit_legacy.Utils.Env.{
  Variables, get_env_as_string, is_digit, digits_from, unsigned, in_range, atoi, get_env_as_int,
}

Digit : ℕ → String → Type 0
Digit d s = (c : Char) × (s ≡ String.◌∷◌ c String.[]) × (code c ≡ b'0' + d)

digit-Digit : (d : ℕ) → d < 10 → Digit d (digit d)
unfolding Digit digit
digit-Digit zero h = (_, refl, refl)
digit-Digit (suc zero) h = (_, refl, refl)
digit-Digit (suc (suc zero)) h = (_, refl, refl)
digit-Digit (suc (suc (suc zero))) h = (_, refl, refl)
digit-Digit (suc (suc (suc (suc zero)))) h = (_, refl, refl)
digit-Digit (suc (suc (suc (suc (suc zero))))) h = (_, refl, refl)
digit-Digit (suc (suc (suc (suc (suc (suc zero)))))) h = (_, refl, refl)
digit-Digit (suc (suc (suc (suc (suc (suc (suc zero))))))) h = (_, refl, refl)
digit-Digit (suc (suc (suc (suc (suc (suc (suc (suc zero)))))))) h = (_, refl, refl)
digit-Digit (suc (suc (suc (suc (suc (suc (suc (suc (suc zero))))))))) h = (_, refl, refl)
digit-Digit (suc (suc (suc (suc (suc (suc (suc (suc (suc (suc k)))))))))) h = absurd (omega arith)

digits_from-digit :
    (d n : ℕ) (t : String) → d < 10 → digits_from (digit d & t) n ≡ digits_from t (n * 10 + d)
unfolding Digit digits_from
digits_from-digit d n t h =
    let (c, e, number) = digit-Digit d h in
    let joined =
      ap (λ s. s & t) e ∙ (cons-append c String.[] t ∙ ap (String.◌∷◌ c) (nil-append t)) in
    ap (λ s. digits_from s n) joined ∙ ground arith

-- The digits of a number are read as the number, behind nothing.
digits_from-digits :
    (fuel n : ℕ) (t : String) → n < fuel → digits_from (digits fuel n & t) 0 ≡ digits_from t n
unfolding digits
digits_from-digits zero n t h = absurd (omega arith)
digits_from-digits (suc fuel) n t h = elim (Bool-cases (ltb n 10)) [
  | inl small ↦ rw small (digits_from-digit n 0 t (ground arith) ∙ ap (digits_from t) (omega arith))
  | inr large ↦ rw large (
      ap (λ s. digits_from s 0) (append_assoc (digits fuel (n / 10)) (digit (n % 10)) t)
      ∙ (digits_from-digits fuel (n / 10) (digit (n % 10) & t) (ground arith)
          ∙ (digits_from-digit (n % 10) (n / 10) t (omega arith)
              ∙ ap (digits_from t) (omega arith))))
]

-- The text begins with a digit, so that it has no sign.
Unsigned : String → Type 0
Unsigned s = (c : Char) × (rest : String) × (s ≡ String.◌∷◌ c rest) × (is_digit c ≡ true)

digits-Unsigned : (fuel n : ℕ) (t : String) → n < fuel → Unsigned (digits fuel n & t)
unfolding Unsigned Digit digits
digits-Unsigned zero n t h = absurd (omega arith)
digits-Unsigned (suc fuel) n t h = elim (Bool-cases (ltb n 10)) [
  | inl small ↦
      let (c, e, number) = digit-Digit n (ground arith) in
      rw small (c, String.[] & t, ap (λ s. s & t) e ∙ cons-append c String.[] t, ground arith)
  | inr large ↦
      let (c, rest, e, first) = digits-Unsigned fuel (n / 10) (digit (n % 10) & t) (ground arith) in
      rw large (c, rest, append_assoc (digits fuel (n / 10)) (digit (n % 10)) t ∙ e, first)
]

digits_from-show : (n : ℕ) → digits_from (show n) 0 ≡ some n
unfolding show digits_from
digits_from-show n =
    ap (λ s. digits_from s 0) (sym (append-nil (show n)))
    ∙ digits_from-digits (suc n) n "" (omega arith)

show-Unsigned : (n : ℕ) → Unsigned (show n)
unfolding Unsigned show
show-Unsigned n =
    let (c, rest, e, first) = digits-Unsigned (suc n) n "" (omega arith) in
    (c, rest, sym (append-nil (show n)) ∙ e, first)

unsigned-show : (n : ℕ) → unsigned (show n) ≡ some n
unfolding Unsigned unsigned
unsigned-show n =
    let (c, rest, e, first) = show-Unsigned n in
    ap unsigned e ∙ (ap (λ s. digits_from s 0) (sym e) ∙ digits_from-show n)

atoi-unsigned : (s : String) → Unsigned s → atoi s ≡ in_range false (unsigned s)
unfolding Unsigned atoi
atoi-unsigned s (c, rest, e, first) =
    ap atoi e ∙ (ground arith ∙ ap (λ t. in_range false (unsigned t)) (sym e))

Minus : String → Type 0
Minus s = (c : Char) × (s ≡ String.◌∷◌ c String.[]) × (code c ≡ b'-')

Minus-sign : Minus "-"
unfolding Minus
Minus-sign = (_, refl, refl)

atoi-negative : (s : String) → atoi ("-" & s) ≡ in_range true (unsigned s)
unfolding Minus atoi
atoi-negative s =
    let (c, e, sign) = Minus-sign in
    ap (λ t. atoi (t & s)) e
    ∙ (ap atoi (cons-append c String.[] s ∙ ap (String.◌∷◌ c) (nil-append s)) ∙ rw sign refl)

-- Atoi reads back every `int` from its decimal print.
pub atoi-show_ℤ : (i : ℤ) → pos_part i < 2 ^ 63 → neg_part i ≤ 2 ^ 63 → atoi (show_ℤ i) ≡ some i
unfolding in_range
atoi-show_ℤ (pos n) h g =
    atoi-unsigned (show n) (show-Unsigned n)
    ∙ (ap (in_range false) (unsigned-show n) ∙ ground arith)
atoi-show_ℤ (negsuc n) h g =
    atoi-negative (show (suc n)) ∙ (ap (in_range true) (unsigned-show (suc n)) ∙ ground arith)

-- GetEnvAsInt of a variable that holds the decimal print of an `int` is the `int`, whatever the default.
pub get_env_as_int-show_ℤ :
    (env : Variables) (key : String) (def i : ℤ)
    → env key ≡ some (show_ℤ i)
    → pos_part i < 2 ^ 63
    → neg_part i ≤ 2 ^ 63
    → get_env_as_int env key def ≡ i
unfolding get_env_as_int get_env_as_string
get_env_as_int-show_ℤ env key def i held h g = rw held (rw (atoi-show_ℤ i h g) refl)
