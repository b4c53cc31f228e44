-- ===== src/Stdio/RoundTrip.antt =====
-- kernel_stdio.c with utils/util.c, atoi: a number that has been printed is read back.
use almost_os.Prelude.{
  ℕ, zero, suc, ◌+◌, ◌-◌, ◌*◌, ◌/◌, ◌%◌, ◌≤◌, ◌<◌, ◌≡◌, refl, ap, ◌∙◌, true, false, ◌&&◌, some,
  List, [], ◌∷◌, ◌++◌, Bytes, arith, ltb, leb, ◌==◌, u32, length, length-append, Bool-cases, inl,
  inr, All, get_or, get_or-append,
}
use mathlib.Core.List.{append-nil}
use almost_os.Util.Numbers.{decimal_from, atoi}
use almost_os.Util.Strings.{strlen_unsafe, strlen_unsafe_lem}
use almost_os.Stdio.{numbuf_size, decimal_digit, kernel_printf}
use almost_os.Stdio.Text.{digits}
use almost_os.Stdio.Numbers.{decimal_text, padding}
use almost_os.Stdio.Format.{directive, directive_text, text}
use almost_os.Stdio.Bounds.{Printed, kernel_printf_lem}

-- From offset 0 on the memory holds the list.
abbrev Holds : Bytes → List ℕ → Type 0
Holds str t = (j : ℕ) → j < length t → str j ≡ get_or t j 0

Holds-init : (str : Bytes) (t : List ℕ) (c : ℕ) → Holds str (t ++ c ∷ []) → Holds str t
Holds-init str t c h j p =
    let inside : ltb j (length t) ≡ true = ground arith in
    h j (omega (arith, length-append {0} t (c ∷ [])))
    ∙ get_or-append t (c ∷ []) j 0
    ∙ rw inside refl

Holds-last : (str : Bytes) (t : List ℕ) (c : ℕ) → Holds str (t ++ c ∷ []) → str (length t) ≡ c
Holds-last str t c h =
    h (length t) (omega (arith, length-append {0} t (c ∷ [])))
    ∙ get_or-append t (c ∷ []) (length t) 0
    ∙ ground arith

abbrev pow10 : ℕ → ℕ
pow10 zero = 1
pow10 (suc n) = 10 * pow10 n

-- `atoi` reads the digits from the last on.
decimal_from-last :
    (t : List ℕ) (val : ℕ) (str : Bytes) (result multiplier : ℕ)
    → Holds str (t ++ decimal_digit (val % 10) ∷ [])
    → decimal_from (length (t ++ decimal_digit (val % 10) ∷ [])) str result multiplier
      ≡ decimal_from (length t) str (u32 (result + val % 10 * multiplier)) (u32 (multiplier * 10))
unfolding decimal_from
decimal_from-last t val str result multiplier holds =
    let len : length (t ++ decimal_digit (val % 10) ∷ []) ≡ suc (length t) =
      omega (arith, length-append {0} t (decimal_digit (val % 10) ∷ [])) in
    let last = Holds-last str t (decimal_digit (val % 10)) holds in
    let is_digit : (leb 48 (str (length t)) && leb (str (length t)) 57) ≡ true =
      ground (arith, last) in
    let digit : str (length t) - 48 ≡ val % 10 = omega (arith, last) in
    rw len (rw (decimal_from, is_digit, digit) refl)

div_mod_scaled :
    (val multiplier : ℕ) → val * multiplier ≡ val / 10 * (multiplier * 10) + val % 10 * multiplier
div_mod_scaled val multiplier =
    let e : val ≡ 10 * (val / 10) + val % 10 = omega arith in
    grind (arith, ap (λ (t : ℕ). t * multiplier) e)

scaled_le : (n m : ℕ) → 0 < n → m ≤ n * m
scaled_le n m h = grind arith

decimal_from_lem :
    (fuel val : ℕ) (str : Bytes) (result multiplier : ℕ)
    → val < pow10 fuel
    → result + val * multiplier < 4294967296
    → Holds str (digits fuel 10 decimal_digit val)
    → decimal_from (length (digits fuel 10 decimal_digit val)) str result multiplier
      ≡ result + val * multiplier
unfolding digits
decimal_from_lem zero val str result multiplier small fits holds =
    unfold decimal_from in grind arith
decimal_from_lem (suc fuel) val str result multiplier small fits holds =
    let split = div_mod_scaled val multiplier in
    elim (Bool-cases (val / 10 == 0)) [
      | inl stop ↦
          let none_left : val / 10 ≡ 0 = ground arith in
          let split' : val * multiplier ≡ 0 * (multiplier * 10) + val % 10 * multiplier =
            rw none_left at split in
          rw stop (
            decimal_from-last [] val str result multiplier (rw stop at holds)
            ∙ unfold decimal_from in omega (arith, split'))
      | inr more ↦
          let rest = digits fuel 10 decimal_digit (val / 10) in
          let holds' : Holds str (rest ++ decimal_digit (val % 10) ∷ []) = rw more at holds in
          let scaled : multiplier * 10 ≤ val / 10 * (multiplier * 10) =
            scaled_le (val / 10) (multiplier * 10) (ground arith) in
          let now : u32 (result + val % 10 * multiplier) ≡ result + val % 10 * multiplier =
            omega arith in
          let next : u32 (multiplier * 10) ≡ multiplier * 10 = omega arith in
          rw more (
            decimal_from-last rest val str result multiplier holds'
            ∙ rw (now, next)
                (decimal_from_lem fuel (val / 10) str (result + val % 10 * multiplier)
                    (multiplier * 10) (omega arith) (omega arith)
                    (Holds-init str rest (decimal_digit (val % 10)) holds')
                  ∙ omega arith))
    ]

All-append :
    (xs ys : List ℕ)
    → All (λ c. (48 ≤ c) × (c ≤ 57)) xs
    → All (λ c. (48 ≤ c) × (c ≤ 57)) ys
    → All (λ c. (48 ≤ c) × (c ≤ 57)) (xs ++ ys)
All-append [] ys h k = k
All-append (x ∷ xs) ys (p, h) k = (p, All-append xs ys h k)

All_get :
    (xs : List ℕ) (j : ℕ) → All (λ c. (48 ≤ c) × (c ≤ 57)) xs → j < length xs → 48 ≤ get_or xs j 0
All_get [] j h p = absurd (omega arith)
All_get (x ∷ xs) zero h p = h.0.0
All_get (x ∷ xs) (suc j) h p = All_get xs j h.1 (omega arith)

digits-IsDigit : (fuel val : ℕ) → All (λ c. (48 ≤ c) × (c ≤ 57)) (digits fuel 10 decimal_digit val)
unfolding digits
digits-IsDigit zero val = tt
digits-IsDigit (suc fuel) val = elim (Bool-cases (val / 10 == 0)) [
  | inl stop ↦ rw stop ((omega arith, omega arith), tt)
  | inr more ↦ rw more (
      All-append (digits fuel 10 decimal_digit (val / 10)) _ (digits-IsDigit fuel (val / 10))
        ((omega arith, omega arith), tt))
]

length-digits : (fuel val : ℕ) → length (digits fuel 10 decimal_digit val) ≤ fuel
unfolding digits
length-digits zero val = omega arith
length-digits (suc fuel) val = elim (Bool-cases (val / 10 == 0)) [
  | inl stop ↦ rw stop (omega arith)
  | inr more ↦ rw more (
      omega (
        arith,
        length-append {0} (digits fuel 10 decimal_digit (val / 10)) (decimal_digit (val % 10) ∷ []),
        length-digits fuel (val / 10),
      ))
]

-- A string in memory that is the text of a number.
atoi-digits :
    (val : ℕ) (str : Bytes)
    → val < 2147483648
    → Holds str (digits numbuf_size 10 decimal_digit val)
    → str (length (digits numbuf_size 10 decimal_digit val)) ≡ 0
    → atoi (some str) ≡ val
unfolding atoi
atoi-digits val str small holds end =
    let t = digits numbuf_size 10 decimal_digit val in
    let len : strlen_unsafe (some str) ≡ length t =
      (strlen_unsafe_lem str (length t)
          (λ j p e. ground (arith, holds j p, All_get t j (digits-IsDigit numbuf_size val) p))).0
        (omega (arith, length-digits numbuf_size val)) end in
    rw len
      (decimal_from_lem numbuf_size val str 0 1 (omega arith) (omega arith) holds ∙ omega arith)

number_piece_text :
    (val : ℕ) (memory : Bytes) (args : ℕ → ℕ)
    → val < 2147483648
    → args 0 ≡ val
    → text memory args 0 (directive false [] 100 ∷ []) ≡ digits numbuf_size 10 decimal_digit val
unfolding directive_text decimal_text padding
number_piece_text val memory args small arg =
    let positive : ltb val 2147483648 ≡ true = ground arith in rw (arg, positive) (append-nil _)

Printed-Holds :
    (buffer : Bytes) (t : List ℕ) (out : Bytes)
    → length t < 255
    → Printed buffer t out
    → Holds out t × (out (length t) ≡ 0)
Printed-Holds buffer t out short printed =
    (λ j p. ground (arith, printed j), ground (arith, printed (length t)))

-- A number from 0 to 2^31 - 1 that `kernel_printf` prints with the format `%d` is read back by
-- `atoi` from the printed text.
pub atoi-kernel_printf :
    (fuel val : ℕ) (format memory : Bytes) (args : ℕ → ℕ) (buffer numbuf : Bytes)
    → 2 < fuel
    → val < 2147483648
    → format 0 ≡ 37
    → format 1 ≡ 100
    → format 2 ≡ 0
    → args 0 ≡ val
    → (out : Bytes) × (kernel_printf fuel format memory args buffer numbuf ≡ some out)
      × (atoi (some out) ≡ val)
atoi-kernel_printf fuel val format memory args buffer numbuf enough small percent letter end arg =
    let (out, done, printed) =
      kernel_printf_lem fuel (directive false [] 100 ∷ []) format memory args buffer numbuf
        ((tt, (λ e. tt), (λ e. omega arith), refl), tt) (percent, (letter, (end, tt))) enough in
    let t = digits numbuf_size 10 decimal_digit val in
    let (holds, stop) =
      Printed-Holds buffer t out (omega (arith, length-digits numbuf_size val))
        (rw (number_piece_text val memory args small arg) at printed) in
    (out, done, atoi-digits val out small holds stop)
